-- ===== src/Guilds/Departures.antt =====
-- internal/features/guild/service.go: who may send a member away, and who is gone afterwards.
use incord.Authz.Checks.{can_act_on}
use incord.Authz.Wrappers.{can_kick, can_ban}
use incord.Authz.Pool.{Pool}
use incord.Guilds.{State, Env, Query, client, id_text}
use incord.Guilds.Rows.{Tables, remove_member_row}
use incord.Guilds.Rules.{
  Outcome, Shows, with_tables, call_then, ignore_lem, statement_cases, publish_lem,
}
use incord.Guilds.Chains.{found_then, raise_if_then, permitted_then, statement_then}
use incord.Guilds.Changes.{IsGuest}
use incord.Guilds.Inversion.{some-case, with_bans-case}
use incord.Guilds.Membership.{remove_guild_member}
use incord.Guilds.Moderation.{
  leave_guild, kick_member, ban_member, enter_ban, announce_ban, farewell,
}
use incord.Guilds.Outcomes.{OnOk, on_ok}
use incord.Guilds.RowLaws.{is_in, is_banned, is_same, is_in-remove, is_banned-new, get_member-is_in}
use incord.Guilds.Traces.{Sure-then, remove_everyone_role-Sure}
use incord.Base.{ℕ, ◌≡◌, refl, ◌∙◌, Bool, true, false, not, ◌&&◌, Option, none, some, Text, arith}
use incord.Base.Action.{ok, ◌>>=◌}

module _ (env : Env) (s : State) where
  -- Exactly this member of this guild is gone.
  abbrev pub Gone : ℕ → ℕ → Tables → Type 0
  Gone gid uid t =
      (g u : ℕ) → is_in t.members g u ≡ (not (is_same gid uid g u) && is_in s.tables.members g u)

  Gone-farewell :
      (gid uid : ℕ) (Q : Unit {0} → State → Type 0) (s' : State)
      → ((s'' : State) → Gone gid uid s''.tables → Q tt s'')
      → Gone gid uid s'.tables
      → Shows (OnOk Q) (farewell env gid uid) s'
  Gone-farewell gid uid Q s' done h =
      Sure-then env (Gone gid uid) (λ t db d g. g) (OnOk Q) _ _ s'
        (remove_everyone_role-Sure env (Gone gid uid) (λ t db d g. g) gid uid s' h)
        λ a s'' h'. publish_lem env _ _ _ λ es. done _ h'

  -- The rest of LeaveGuild and of KickMember.
  Gone-removal :
      (gid uid : ℕ) (Q : Unit {0} → State → Type 0)
      → ((s' : State) → Gone gid uid s'.tables → Q tt s')
      → Shows (OnOk Q) (remove_guild_member env gid uid >>= λ _. farewell env gid uid) s
  Gone-removal gid uid Q done = statement_then env _ _ _ tt λ t a e.
      some-case (λ t' a'. Shows (OnOk Q) (farewell env gid uid) (with_tables s t')) e
        (Gone-farewell gid uid Q
          (with_tables s (record s.tables { members = remove_member_row s.tables.members gid uid }))
          done (λ g u. is_in-remove gid uid g u s.tables.members))

  -- The user was a member and not the owner of the guild, and exactly this membership has ended.
  abbrev pub Left : ℕ → ℕ → Unit {0} → State → Type 0
  Left gid uid a s' =
      IsGuest s.tables gid uid × (is_in s.tables.members gid uid ≡ true) × Gone gid uid s'.tables

  leave_guild-Shows : (uid gid : ℕ) → Shows (OnOk (Left gid uid)) (leave_guild env uid gid) s
  unfolding leave_guild
  leave_guild-Shows uid gid = found_then env _ _ _ _ tt λ g ge. raise_if_then _ _ _ tt λ guest.
      found_then env _ _ _ _ tt λ m me.
        Gone-removal gid uid (Left gid uid)
          λ s' h. ((g, ge, guest), get_member-is_in s.tables.members gid uid m me, h)

  -- The caller may do this to the target.
  abbrev pub MaySend : (Option Pool → Bool) → ℕ → ℕ → ℕ → Type 0
  MaySend permission caller gid target =
      (permission (client env s) ≡ true)
      × (can_act_on env.codec (client env s) (id_text env caller) (id_text env target)
            (id_text env gid)
          ≡ true)

  abbrev pub kicks : ℕ → ℕ → Option Pool → Bool
  kicks caller gid c = can_kick env.codec c (id_text env caller) (id_text env gid)

  abbrev pub bans : ℕ → ℕ → Option Pool → Bool
  bans caller gid c = can_ban env.codec c (id_text env caller) (id_text env gid)

  abbrev pub Kicked : ℕ → ℕ → ℕ → Unit {0} → State → Type 0
  Kicked caller gid target a s' =
      MaySend (kicks caller gid) caller gid target × Left gid target a s'

  kick_member-Shows :
      (caller gid target : ℕ)
      → Shows (OnOk (Kicked caller gid target)) (kick_member env caller gid target) s
  unfolding kick_member
  kick_member-Shows caller gid target = permitted_then env _ _ tt λ may.
      permitted_then env _ _ tt λ above. found_then env _ _ _ _ tt λ g ge.
        raise_if_then _ _ _ tt λ guest. found_then env _ _ _ _ tt λ m me.
          Gone-removal gid target (Kicked caller gid target) λ s' h.
            ((may, above), ((g, ge, guest), get_member-is_in s.tables.members gid target m me, h))

  -- The target is banned and no member.
  abbrev pub BannedFrom : ℕ → ℕ → Tables → Type 0
  BannedFrom gid target t =
      (is_banned t.bans gid target ≡ true) × (is_in t.members gid target ≡ false)

  abbrev pub Banned : ℕ → ℕ → ℕ → Unit {0} → State → Type 0
  Banned caller gid target a s' =
      MaySend (bans caller gid) caller gid target
      × IsGuest s.tables gid target
      × BannedFrom gid target s'.tables

  enter_ban-Shows :
      (caller gid target : ℕ) (reason : Text) (s' : State)
      → MaySend (bans caller gid) caller gid target
      → IsGuest s.tables gid target
      → is_in s'.tables.members gid target ≡ false
      → Shows (OnOk (Banned caller gid target)) (enter_ban env gid target reason) s'
  enter_ban-Shows caller gid target reason s' may guest out = statement_then env _ _ _ tt λ t a e.
      with_bans-case
        (λ t' a'.
          Shows (OnOk (Banned caller gid target)) (announce_ban env gid target reason)
            (with_tables s' t'))
        s'.tables e
        λ bs d.
          Sure-then env (BannedFrom gid target) (λ t db e' h. h) _ _ _ _
            (remove_everyone_role-Sure env (BannedFrom gid target) (λ t db e' h. h) gid target _
              (is_banned-new s'.tables.db s'.tables.bans bs _ d refl, out))
            λ a' s'' h. publish_lem env _ _ _ λ es. (may, guest, h)

  ban_member-Shows :
      (caller gid target : ℕ) (reason : Text)
      → env.fails Query.remove_guild_member ≡ false
      → Shows (OnOk (Banned caller gid target)) (ban_member env caller gid target reason) s
  unfolding ban_member
  ban_member-Shows caller gid target reason up = permitted_then env _ _ tt λ may.
      permitted_then env _ _ tt λ above. found_then env _ _ _ _ tt λ g ge.
        raise_if_then _ _ _ tt λ guest. call_then _ _ (
          ignore_lem _ (
            statement_cases env _ _ (λ none_left. impossible (none_left up))
              λ t a e.
                some-case
                  (λ t' a'.
                    OnOk (Banned caller gid target)
                      (enter_ban env gid target reason (with_tables s t')))
                  e
                  (enter_ban-Shows caller gid target reason
                    (with_tables s
                      (record s.tables { members = remove_member_row s.tables.members gid target }))
                    (may, above) (g, ge, guest)
                    (is_in-remove gid target gid target s.tables.members ∙ ground arith)).holds))
    where
      impossible :
          {X : Type 0}
          → ◌≡◌ {A = Option (Tables × Unit {0})}
              (some
                (record s.tables { members = remove_member_row s.tables.members gid target }, tt))
              none
          → X
      impossible e = cc

-- A user who has left a guild without error was a member of it and not its owner, and exactly this
-- membership has ended.
pub leave_guild-Left :
    (env : Env) (uid gid : ℕ) (s s' : State)
    → ◌≡◌ {A = Outcome (Unit {0})} (leave_guild env uid gid s) (s', ok tt)
    → Left env s gid uid tt s'
leave_guild-Left env uid gid s s' =
    on_ok (Left env s gid uid) (leave_guild env uid gid) s s' tt (leave_guild-Shows env s uid gid)

-- A kick that succeeds is by a caller with the permission and above the target, the target was a member
-- and not the owner, and exactly this membership has ended. Without a permission client its checks
-- answer yes for anyone.
pub kick_member-Kicked :
    (env : Env) (caller gid target : ℕ) (s s' : State)
    → ◌≡◌ {A = Outcome (Unit {0})} (kick_member env caller gid target s) (s', ok tt)
    → Kicked env s caller gid target tt s'
kick_member-Kicked env caller gid target s s' =
    on_ok (Kicked env s caller gid target) (kick_member env caller gid target) s s' tt
      (kick_member-Shows env s caller gid target)

-- A ban that succeeds, the removal of the row not failing, is by a caller with the permission and above
-- the target, who is not the owner; the target is banned afterwards and no member. Without a
-- permission client its checks answer yes for anyone.
pub ban_member-Banned :
    (env : Env) (caller gid target : ℕ) (reason : Text) (s s' : State)
    → env.fails Query.remove_guild_member ≡ false
    → ◌≡◌ {A = Outcome (Unit {0})} (ban_member env caller gid target reason s) (s', ok tt)
    → Banned env s caller gid target tt s'
ban_member-Banned env caller gid target reason s s' up =
    on_ok (Banned env s caller gid target) (ban_member env caller gid target reason) s s' tt
      (ban_member-Shows env s caller gid target reason up)
