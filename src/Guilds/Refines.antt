-- ===== src/Guilds/Refines.antt =====
-- internal/features/guild/service.go: the calls on guilds, members, bans and invites as sequences of
-- guarded changes.
use mathlib.Core.Path.{subst}
use incord.Authz.Tables.{Db}
use incord.Guilds.{State, Env, Call}
use incord.Guilds.Rows.{Tables, GuildParams, delete_guild_sql, remove_member_row}
use incord.Guilds.Rules.{
  with_tables, Shows, call_then, pure_lem, statement_lem, ignore_lem, publish_lem,
}
use incord.Guilds.Chains.{found_then, raise_if_then, raise_unless_then, permitted_then}
use incord.Guilds.Changes.{
  Changes, ◌▷◌, roles, rename, transfer, close, leave, ban, unban, invite, IsGuest,
}
use incord.Guilds.Inversion.{some-case, on_db-case, with_db-case, with_invites-case, with_bans-case}
use incord.Guilds.Membership.{remove_guild_member, update_guild, delete_guild}
use incord.Guilds.Moderation.{
  enter_ban, leave_guild, kick_member, ban_member, unban_member, create_invite, transfer_ownership,
  code_or_fail,
}
use incord.Guilds.Traces.{Stays, KeptByRoles, bind-Stays, remove_everyone_role-Stays}
use incord.Base.{ℕ, ◌≡◌, refl, Option, none, some, Text}

module _ (env : Env) (Lifted : ℕ → ℕ → Type 0) (t₀ : Tables) where
  changed : KeptByRoles (Changes env Lifted t₀)
  changed t db e h = h ▷ roles e

  -- What every call shows.
  abbrev Traces : {A : Type 0} → Call A → State → Type 0
  Traces m s = Changes env Lifted t₀ s.tables → Shows (Stays (Changes env Lifted t₀)) m s

  remove_member-Traced :
      (gid uid : ℕ) (s : State)
      → IsGuest s.tables gid uid
      → Traces (remove_guild_member env gid uid) s
  remove_member-Traced gid uid s guest h =
      statement_lem env _ _ h
        λ t a e. some-case (λ t' a'. Changes env Lifted t₀ t') e (h ▷ leave gid uid guest)

  pub update_guild-Traced :
      (caller gid : ℕ) (p : GuildParams) (s : State) → Traces (update_guild env caller gid p) s
  unfolding update_guild
  update_guild-Traced caller gid p s h = permitted_then env _ _ h λ _.
      bind-Stays env (Changes env Lifted t₀) changed _ _ s
        (statement_lem env _ _ h λ t g e.
          on_db-case (λ t' g'. Changes env Lifted t₀ t') s.tables e
            λ db g' d. h ▷ rename gid p g' d)
        λ g s₁ h₁.
          bind-Stays env (Changes env Lifted t₀) changed _ _ s₁ (publish_lem env _ _ _ λ es. h₁)
            λ a s₂ h₂. pure_lem g h₂

  pub delete_guild-Traced : (caller gid : ℕ) (s : State) → Traces (delete_guild env caller gid) s
  unfolding delete_guild
  delete_guild-Traced caller gid s h = found_then env _ _ _ _ h λ g ge.
      raise_unless_then _ _ _ h λ owner.
        bind-Stays env (Changes env Lifted t₀) changed _ _ s
          (statement_lem env _ _ h λ t a e.
            with_db-case (λ t' a'. Changes env Lifted t₀ t') s.tables e λ db d. closed s db h d)
          λ a s₁ h₁. publish_lem env _ _ _ λ es. h₁
    where
      closed :
          (s : State) (db : Db)
          → Changes env Lifted t₀ s.tables
          → some (delete_guild_sql s.tables.db gid) ≡ some db
          → Changes env Lifted t₀ (record s.tables { db = db })
      closed s db h d =
          let e : delete_guild_sql s.tables.db gid ≡ db = cc in
          subst (λ x. Changes env Lifted t₀ (record s.tables { db = x })) e (h ▷ close gid)

  pub leave_guild-Traced : (uid gid : ℕ) (s : State) → Traces (leave_guild env uid gid) s
  unfolding leave_guild
  leave_guild-Traced uid gid s h = found_then env _ _ _ _ h λ g ge. raise_if_then _ _ _ h λ guest.
      found_then env _ _ _ _ h λ m me.
        bind-Stays env (Changes env Lifted t₀) changed _ _ s
          (remove_member-Traced gid uid s (g, ge, guest) h)
          λ a s₁ h₁.
            bind-Stays env (Changes env Lifted t₀) changed _ _ s₁
              (remove_everyone_role-Stays env (Changes env Lifted t₀) changed gid uid s₁ h₁)
              λ a' s₂ h₂. publish_lem env _ _ _ λ es. h₂

  pub kick_member-Traced :
      (caller gid target : ℕ) (s : State) → Traces (kick_member env caller gid target) s
  unfolding kick_member
  kick_member-Traced caller gid target s h = permitted_then env _ _ h λ _.
      permitted_then env _ _ h λ _. found_then env _ _ _ _ h λ g ge. raise_if_then _ _ _ h λ guest.
        found_then env _ _ _ _ h λ m me.
          bind-Stays env (Changes env Lifted t₀) changed _ _ s
            (remove_member-Traced gid target s (g, ge, guest) h)
            λ a s₁ h₁.
              bind-Stays env (Changes env Lifted t₀) changed _ _ s₁
                (remove_everyone_role-Stays env (Changes env Lifted t₀) changed gid target s₁ h₁)
                λ a' s₂ h₂. publish_lem env _ _ _ λ es. h₂

  enter_ban-Traced :
      (gid uid : ℕ) (reason : Text) (s : State)
      → IsGuest s.tables gid uid
      → Traces (enter_ban env gid uid reason) s
  enter_ban-Traced gid uid reason s guest h =
      bind-Stays env (Changes env Lifted t₀) changed _ _ s
        (statement_lem env _ _ h λ t a e.
          with_bans-case (λ t' a'. Changes env Lifted t₀ t') s.tables e λ bs d. h ▷ ban _ guest d)
        λ a s₁ h₁.
          bind-Stays env (Changes env Lifted t₀) changed _ _ s₁
            (remove_everyone_role-Stays env (Changes env Lifted t₀) changed gid uid s₁ h₁)
            λ a' s₂ h₂. publish_lem env _ _ _ λ es. h₂

  pub ban_member-Traced :
      (caller gid target : ℕ) (reason : Text) (s : State)
      → Traces (ban_member env caller gid target reason) s
  unfolding ban_member
  ban_member-Traced caller gid target reason s h = permitted_then env _ _ h λ _.
      permitted_then env _ _ h λ _. found_then env _ _ _ _ h λ g ge. raise_if_then _ _ _ h λ guest.
        call_then _ _ (
          ignore_lem _ (
            statement_lem env _ _ (enter_ban-Traced gid target reason s (g, ge, guest) h).holds
              λ t a e.
                some-case
                  (λ t' a'.
                    Stays (Changes env Lifted t₀)
                      (enter_ban env gid target reason (with_tables s t')))
                  e
                  (enter_ban-Traced gid target reason
                    (with_tables s
                      (record s.tables { members = remove_member_row s.tables.members gid target }))
                    (g, ge, guest) (h ▷ leave gid target (g, ge, guest))).holds))

  pub unban_member-Traced :
      (caller gid target : ℕ) (s : State)
      → Lifted gid target
      → Traces (unban_member env caller gid target) s
  unfolding unban_member
  unban_member-Traced caller gid target s lifted h = permitted_then env _ _ h λ _.
      found_then env _ _ _ _ h λ b be.
        bind-Stays env (Changes env Lifted t₀) changed _ _ s
          (statement_lem env _ _ h
            λ t a e. some-case (λ t' a'. Changes env Lifted t₀ t') e (h ▷ unban gid target lifted))
          λ a s₁ h₁. publish_lem env _ _ _ λ es. h₁

  code-Traced : (o : Option Text) (s : State) → Traces (code_or_fail env o) s
  code-Traced none s h = record { holds = h }
  code-Traced (some code) s h = pure_lem code h

  pub create_invite-Traced :
      (caller gid channel max_uses age : ℕ) (s : State)
      → Traces (create_invite env caller gid channel max_uses age) s
  unfolding create_invite
  create_invite-Traced caller gid channel max_uses age s h = found_then env _ _ _ _ h λ m me.
      permitted_then env _ _ h λ _.
        bind-Stays env (Changes env Lifted t₀) changed _ _ s (code-Traced env.new_code s h)
          λ code s₁ h₁. statement_lem env _ _ h₁ λ t i e.
            with_invites-case (λ t' i'. Changes env Lifted t₀ t') s₁.tables e
              λ is d. h₁ ▷ invite _ refl d

  pub transfer_ownership-Traced :
      (caller gid new_owner : ℕ) (s : State)
      → Traces (transfer_ownership env caller gid new_owner) s
  unfolding transfer_ownership
  transfer_ownership-Traced caller gid new_owner s h = found_then env _ _ _ _ h λ g ge.
      raise_unless_then _ _ _ h λ owner. found_then env _ _ _ _ h λ m me.
        bind-Stays env (Changes env Lifted t₀) changed _ _ s
          (statement_lem env _ _ h λ t a e.
            on_db-case (λ t' a'. Changes env Lifted t₀ t') s.tables e
              λ db g' d. h ▷ transfer gid new_owner m g' me d)
          λ a s₁ h₁.
            bind-Stays env (Changes env Lifted t₀) changed _ _ s₁ (publish_lem env _ _ _ λ es. h₁)
              λ a' s₂ h₂. pure_lem a h₂
