-- ===== src/Guilds/Invites.antt =====
-- internal/features/guild/service.go: invites, from their checks to the new member.
use incord.Authz.Tables.{Guild, Channel}
use incord.Guilds
use incord.Guilds.{
  Env, Call, Query, GuildError, statement, lookup, permitted, authz_write, publish_guild_event,
  id_text,
}
use incord.Guilds.Rows.{
  Tables, Member, Invite, InviteUse, count_members, increment_uses, guild_channels, has_code,
  guild_exists, user_exists,
}
use incord.Base.{
  ℕ, Bool, true, false, ◌&&◌, Option, none, some, List, [], ◌∷◌, ◌++◌, Text, length, any, ltb, leb,
  if◌then◌else◌,
}
use incord.Base.Action.{◌>>=◌, ◌>>◌, pure, or_raise, ignore, attempt, raise_if}
use incord.Guilds.Membership.{
  get_guild_by_id, get_guild_member, find_ban, find_invite, add_guild_member, assign_everyone_role,
}

pub record JoinResult : Type 0 where
  pub guild : Guild
  pub channels : List Channel
  pub member_count : ℕ

pub record PreviewResult : Type 0 where
  pub invite : Invite
  pub guild : Guild
  pub member_count : ℕ
  pub channel_count : ℕ
  pub already_member : Bool

-- The invite has run out at the time.
abbrev pub is_expired : ℕ → Invite → Bool
is_expired now i = elim i.expires_at [ none ↦ false | some t ↦ ltb t now ]

-- A maximum of 0 sets no bound.
abbrev pub is_used_up : Invite → Bool
is_used_up i = ltb 0 i.max_uses && leb i.max_uses i.uses

abbrev pub is_some : {A : Type 0} → Option A → Bool
is_some none = false
is_some (some a) = true

module _ (env : Env) where
  unfoldable pub build_join_result : ℕ → Call JoinResult
  build_join_result gid = do
    g ← get_guild_by_id env gid
    cs ← lookup env Query.list_guild_channels (λ t. some (guild_channels t.db gid))
    n ← lookup env Query.count_guild_members (λ t. some (count_members t.members gid))
    pure (record { guild = g; channels = cs; member_count = n })

  -- The checks of an invite that PreviewInvite and JoinGuild share.
  unfoldable pub usable_invite : Text → Call Invite
  usable_invite code = do
    i ← or_raise GuildError.invite_not_found (find_invite env code)
    raise_if (is_expired env.now i) GuildError.invite_expired
    raise_if (is_used_up i) GuildError.invite_max_uses
    pure i

  unfoldable pub refuse_banned : ℕ → ℕ → Call (Unit {0})
  refuse_banned gid uid = do
    ban ← attempt (find_ban env gid uid)
    raise_if (is_some ban) GuildError.user_banned

  abbrev pub refuse_caller : ℕ → Option ℕ → Call (Unit {0})
  refuse_caller gid none = pure tt
  refuse_caller gid (some uid) = refuse_banned gid uid

  abbrev pub is_caller_member : ℕ → Option ℕ → Call Bool
  is_caller_member gid none = pure false
  is_caller_member gid (some uid) = attempt (get_guild_member env gid uid) >>= λ m. pure (is_some m)

  -- The name of the inviter, which is only looked up, is left out.
  unfoldable pub preview_invite : Option ℕ → Text → Call PreviewResult
  preview_invite caller code = do
    i ← usable_invite code
    refuse_caller i.guild_id caller
    g ← or_raise GuildError.guild_not_found (get_guild_by_id env i.guild_id)
    n ← lookup env Query.count_guild_members (λ t. some (count_members t.members i.guild_id))
    cs ← lookup env Query.list_guild_channels (λ t. some (guild_channels t.db i.guild_id))
    b ← is_caller_member i.guild_id caller
    pure (record {
      invite = i;
      guild = g;
      member_count = n;
      channel_count = length cs;
      already_member = b;
    })

  abbrev pub invited : Invite → ℕ → Member
  invited i uid = record {
    guild_id = i.guild_id;
    user_id = uid;
    nickname = [];
    invite_code = some i.code;
    invited_by = some i.creator_id;
    deleted = false;
  }

  abbrev pub use_row : Invite → ℕ → InviteUse
  use_row i uid = record {
    invite_code = i.code;
    guild_id = i.guild_id;
    user_id = uid;
    inviter_id = i.creator_id;
  }

  abbrev pub count_use : Invite → Call (Unit {0})
  count_use i =
      statement env Query.increment_invite_uses
        λ t. some (record t { invites = increment_uses t.invites i.code }, tt)

  abbrev use_exists : Tables → Invite → ℕ → Bool
  use_exists t i uid =
      any (has_code i.code) t.invites
      && guild_exists t.db i.guild_id
      && user_exists t.db uid
      && user_exists t.db i.creator_id

  abbrev pub record_use : Invite → ℕ → Call (Unit {0})
  record_use i uid = statement env Query.record_invite_use λ t.
      if use_exists t i uid
      then some (record t { invite_uses = t.invite_uses ++ use_row i uid ∷ [] }, tt)
      else none

  -- What follows the row of the new member.
  abbrev pub welcome : Invite → ℕ → Call (Unit {0})
  welcome i uid = do
    ignore (count_use i)
    ignore (record_use i uid)
    assign_everyone_role env i.guild_id uid
    publish_guild_event env i.guild_id Guilds.EventKind.member_add
        (("user_id", id_text env uid) ∷ [])

  -- The part of JoinGuild that runs for a user who is no member yet.
  unfoldable pub admit : Invite → ℕ → Call (Unit {0})
  admit i uid = do add_guild_member env (invited i uid); welcome i uid

  abbrev pub admit_unless : Invite → ℕ → Option Member → Call (Unit {0})
  admit_unless i uid (some m) = pure tt
  admit_unless i uid none = admit i uid

  unfoldable pub join_guild : ℕ → Text → Call JoinResult
  join_guild uid code = do
    i ← usable_invite code
    refuse_banned i.guild_id uid
    m ← attempt (get_guild_member env i.guild_id uid)
    admit_unless i uid m
    build_join_result i.guild_id
