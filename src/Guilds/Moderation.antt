-- ===== src/Guilds/Moderation.antt =====
-- internal/features/guild/service.go: leaving, kicks, bans, invites and ownership.
use incord.Authz.Tables.{Guild}
use incord.Authz.Checks.{can_act_on}
use incord.Authz.Wrappers.{can_kick, can_ban, can_manage_invites}
use incord.Guilds
use incord.Guilds.{
  Env, Call, Query, GuildError, statement, lookup, permitted, publish_guild_event, id_text,
}
use incord.Guilds.Rows.{
  Tables, Member, Ban, Invite, transfer_sql, create_ban_row, delete_ban_row, create_invite_row,
}
use incord.Guilds.Membership.{
  on_db, with_invites, get_guild_by_id, get_guild_member, find_ban, remove_guild_member,
  remove_everyone_role,
}
use incord.Base.{
  ℕ, ◌+◌, ◌*◌, false, not, ◌&&◌, Option, none, some, List, [], ◌∷◌, Text, select, take, drop, ltb,
  ◌==◌, if◌then◌else◌,
}
use incord.Base.Int.{ℤ, pos, negsuc}
use incord.Base.Action.{◌>>=◌, ◌>>◌, pure, raise, or_raise, ignore, raise_if, raise_unless}

abbrev pub with_bans : Tables → Option (List Ban) → Option (Tables × Unit {0})
with_bans t none = none
with_bans t (some bs) = some (record t { bans = bs }, tt)

-- LIMIT and OFFSET: a negative number is an error of the statement.
abbrev page : {A : Type 0} → ℤ → ℤ → List A → Option (List A)
page (pos n) (pos k) rows = some (take n (drop k rows))
page (pos n) (negsuc k) rows = none
page (negsuc n) k rows = none

abbrev or_fifty : ℤ → ℤ
or_fifty (pos n) = if n == 0 then pos 50 else pos n
or_fifty (negsuc n) = pos 50

module _ (env : Env) where
  -- What LeaveGuild and KickMember do once the row of the member is gone.
  abbrev pub farewell : ℕ → ℕ → Call (Unit {0})
  farewell gid uid = do
    remove_everyone_role env gid uid
    publish_guild_event env gid Guilds.EventKind.member_remove (("user_id", id_text env uid) ∷ [])

  unfoldable pub leave_guild : ℕ → ℕ → Call (Unit {0})
  leave_guild uid gid = do
    g ← or_raise GuildError.guild_not_found (get_guild_by_id env gid)
    raise_if (g.owner_id == uid) GuildError.owner_cannot_leave
    m ← or_raise GuildError.not_guild_member (get_guild_member env gid uid)
    remove_guild_member env gid uid
    farewell gid uid

  -- Rows in the order of joining.
  unfoldable pub list_members : ℕ → ℤ → ℤ → Call (List Member)
  list_members gid limit offset = lookup env Query.list_guild_members λ t.
      page (or_fifty limit) offset (select (λ m. (m.guild_id == gid) && not m.deleted) t.members)

  unfoldable pub kick_member : ℕ → ℕ → ℕ → Call (Unit {0})
  kick_member caller gid target = do
    permitted env (λ c. can_kick env.codec c (id_text env caller) (id_text env gid))
    permitted env
        (λ c. can_act_on env.codec c (id_text env caller) (id_text env target) (id_text env gid))
    g ← or_raise GuildError.guild_not_found (get_guild_by_id env gid)
    raise_if (g.owner_id == target) GuildError.cannot_kick_owner
    m ← or_raise GuildError.member_not_found (get_guild_member env gid target)
    remove_guild_member env gid target
    farewell gid target

  abbrev pub announce_ban : ℕ → ℕ → Text → Call (Unit {0})
  announce_ban gid target reason = do
    remove_everyone_role env gid target
    publish_guild_event env gid Guilds.EventKind.member_ban
        (("user_id", id_text env target) ∷ ("reason", reason) ∷ [])

  -- The rest of BanMember, after the member has been removed.
  abbrev pub enter_ban : ℕ → ℕ → Text → Call (Unit {0})
  enter_ban gid target reason = do
    statement env Query.create_ban (λ t. with_bans t (
        create_ban_row t.db t.bans
          (record { guild_id = gid; user_id = target; reason = reason; deleted = false })))
    announce_ban gid target reason

  unfoldable pub ban_member : ℕ → ℕ → ℕ → Text → Call (Unit {0})
  ban_member caller gid target reason = do
    permitted env (λ c. can_ban env.codec c (id_text env caller) (id_text env gid))
    permitted env
        (λ c. can_act_on env.codec c (id_text env caller) (id_text env target) (id_text env gid))
    g ← or_raise GuildError.guild_not_found (get_guild_by_id env gid)
    raise_if (g.owner_id == target) GuildError.cannot_ban_owner
    ignore (remove_guild_member env gid target)
    enter_ban gid target reason

  unfoldable pub unban_member : ℕ → ℕ → ℕ → Call (Unit {0})
  unban_member caller gid target = do
    permitted env (λ c. can_ban env.codec c (id_text env caller) (id_text env gid))
    b ← or_raise GuildError.user_not_banned (find_ban env gid target)
    statement env Query.delete_ban
        (λ t. some (record t { bans = delete_ban_row t.bans gid target }, tt))
    publish_guild_event env gid Guilds.EventKind.member_unban (("user_id", id_text env target) ∷ [])

  abbrev pub code_or_fail : Option Text → Call Text
  code_or_fail none = raise GuildError.failed
  code_or_fail (some code) = pure code

  -- A maximal age of 0 sets no end. Seconds become nanoseconds.
  abbrev pub end_of : ℕ → Option ℕ
  end_of age = if ltb 0 age then some (env.now + age * 1_000_000_000) else none

  unfoldable pub create_invite : ℕ → ℕ → ℕ → ℕ → ℕ → Call Invite
  create_invite caller gid channel max_uses age = do
    m ← or_raise GuildError.not_guild_member (get_guild_member env gid caller)
    permitted env (λ c. can_manage_invites env.codec c (id_text env caller) (id_text env gid))
    code ← code_or_fail env.new_code
    let i : Invite = record {
      code = code;
      guild_id = gid;
      channel_id = channel;
      creator_id = caller;
      max_uses = max_uses;
      uses = 0;
      expires_at = end_of age;
      deleted = false;
    }
    statement env Query.create_invite (λ t. with_invites t i (create_invite_row t.db t.invites i))

  unfoldable pub transfer_ownership : ℕ → ℕ → ℕ → Call Guild
  transfer_ownership caller gid new_owner = do
    g ← or_raise GuildError.guild_not_found (get_guild_by_id env gid)
    raise_unless (g.owner_id == caller) GuildError.not_guild_owner
    m ← or_raise GuildError.member_not_found (get_guild_member env gid new_owner)
    updated ← statement env Query.transfer_guild (λ t. on_db t (transfer_sql t.db gid new_owner))
    publish_guild_event env gid Guilds.EventKind.update
        (("transferred_to", id_text env new_owner) ∷ [])
    pure updated
