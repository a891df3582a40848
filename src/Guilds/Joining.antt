-- ===== src/Guilds/Joining.antt =====
-- internal/features/guild/service.go: joining by an invite and founding a guild, as sequences of
-- guarded changes.
use mathlib.Core.Path.{subst}
use incord.Authz.Tables.{Db, Guild}
use incord.Guilds.{State, Env, Query, Call, GuildError}
use incord.Guilds.Rows.{
  Tables, Member, Invite, get_ban, add_member_row, user_exists, create_guild_sql,
}
use incord.Guilds.Rules.{
  Outcome, Shows, with_tables, call_then, pure_lem, statement_lem, raise_if_lem, publish_lem,
  statement_cases,
}
use incord.Guilds.Chains.{lookup_then, found_then, statement_then, attempt_then, raise_if_then}
use incord.Guilds.Changes.{
  Changes, ◌▷◌, roles, found, found_empty, join, use_invite, log_use, IsUsable,
}
use incord.Guilds.Inversion.{
  some-case, row-case, with_members-none, on_db-case, with_members-case, create_guild-exists,
  add_member_row-some,
}
use incord.Guilds.Membership.{
  create_guild, open_guild, new_guild, plain_member, add_guild_member, with_members,
}
use incord.Guilds.Invites.{
  join_guild, count_use, record_use, welcome, admit, admit_unless, usable_invite, refuse_banned,
  build_join_result,
}
use incord.Guilds.Traces.{
  Stays, KeptByRoles, bind-Stays, ignore-Stays, ensure_everyone_role-Stays,
  assign_everyone_role-Stays,
}
use incord.Base.{ℕ, ◌≡◌, refl, sym, Bool-cases, inl, inr, true, false, Option, none, some, Text}
use incord.Base.Action.{err, ◌>>=◌}

module _ {A : Type 0} {X : Outcome A → Type 0} {s : State} (env : Env) where
  -- The rest of a call runs with an invite that can be used.
  pub usable_invite_then :
      (code : Text) (k : Invite → Call A)
      → ((e : GuildError) → X (s, err e))
      → ((i : Invite) → IsUsable env s.tables code i → Shows X (k i) s)
      → Shows X (usable_invite env code >>= k) s
  unfolding usable_invite
  usable_invite_then code k bad good = call_then _ k (
      found_then env _ _ _ _ (bad _) λ i ie.
        raise_if_then _ _ _ (bad _)
          λ live. raise_if_then _ _ _ (bad _) λ free. pure_lem i (good i (ie, live, free)).holds)

  -- The rest of a call runs for a user who is not banned, unless the query failed.
  pub refuse_banned_then :
      (gid uid : ℕ) (k : Unit {0} → Call A)
      → X (s, err GuildError.user_banned)
      → ((env.fails Query.get_ban ≡ false → get_ban s.tables.bans gid uid ≡ none)
          → Shows X (k tt) s)
      → Shows X (refuse_banned env gid uid >>= k) s
  unfolding refuse_banned
  refuse_banned_then gid uid k bad good = call_then _ k (
      attempt_then env _ _ _ (λ free. raise_if_lem _ _ bad λ e. (good free).holds)
        (λ b be. raise_if_lem _ _ bad λ e. absurd (clash e)))
    where
      clash : true ≡ false → ⊥
      clash c = cc

module _ (env : Env) (Lifted : ℕ → ℕ → Type 0) (t₀ : Tables) where
  changed : KeptByRoles (Changes env Lifted t₀)
  changed t db e h = h ▷ roles e

  abbrev Traces : {A : Type 0} → Call A → State → Type 0
  Traces m s = Changes env Lifted t₀ s.tables → Shows (Stays (Changes env Lifted t₀)) m s

  build_join_result-Traced : (gid : ℕ) (s : State) → Traces (build_join_result env gid) s
  unfolding build_join_result
  build_join_result-Traced gid s h =
      lookup_then env _ _ _ h
        λ g ge. lookup_then env _ _ _ h λ cs ce. lookup_then env _ _ _ h λ n ne. pure_lem _ h

  count_use-Traced :
      (code : Text) (i : Invite) (s : State)
      → IsUsable env s.tables code i
      → Traces (count_use env i) s
  count_use-Traced code i s usable h =
      statement_lem env _ _ h
        λ t a e. some-case (λ t' a'. Changes env Lifted t₀ t') e (h ▷ use_invite code i usable)

  record_use-Traced : (i : Invite) (uid : ℕ) (s : State) → Traces (record_use env i uid) s
  record_use-Traced i uid s h =
      statement_lem env _ _ h λ t a e. row-case (λ t'. Changes env Lifted t₀ t') _ e (h ▷ log_use)

  welcome-Traced :
      (code : Text) (i : Invite) (uid : ℕ) (s : State)
      → IsUsable env s.tables code i
      → Traces (welcome env i uid) s
  welcome-Traced code i uid s usable h =
      bind-Stays env (Changes env Lifted t₀) changed _ _ s
        (ignore-Stays env (Changes env Lifted t₀) changed _ s (count_use-Traced code i s usable h))
        λ a₁ s₁ h₁.
          bind-Stays env (Changes env Lifted t₀) changed _ _ s₁
            (ignore-Stays env (Changes env Lifted t₀) changed _ s₁ (record_use-Traced i uid s₁ h₁))
            λ a₂ s₂ h₂.
              bind-Stays env (Changes env Lifted t₀) changed _ _ s₂
                (assign_everyone_role-Stays env (Changes env Lifted t₀) changed i.guild_id uid s₂
                  h₂)
                λ a₃ s₃ h₃. publish_lem env _ _ _ λ es. h₃

  admit-Traced :
      (code : Text) (i : Invite) (uid : ℕ) (s : State)
      → IsUsable env s.tables code i
      → (env.fails Query.get_ban ≡ false → get_ban s.tables.bans i.guild_id uid ≡ none)
      → Traces (admit env i uid) s
  unfolding admit
  admit-Traced code i uid s usable free h = statement_then env _ _ _ h λ t a e.
      with_members-case
        (λ t' a'. Shows (Stays (Changes env Lifted t₀)) (welcome env i uid) (with_tables s t'))
        s.tables e
        λ ms d.
          welcome-Traced code i uid (with_tables s (record s.tables { members = ms })) usable
            (h ▷ join code i uid _ usable free (refl, refl, refl) d)

  admit_unless-Traced :
      (code : Text) (i : Invite) (uid : ℕ) (m : Option Member) (s : State)
      → IsUsable env s.tables code i
      → (env.fails Query.get_ban ≡ false → get_ban s.tables.bans i.guild_id uid ≡ none)
      → Traces (admit_unless env i uid m) s
  admit_unless-Traced code i uid none s usable free h = admit-Traced code i uid s usable free h
  admit_unless-Traced code i uid (some m) s usable free h = pure_lem tt h

  pub join_guild-Traced : (uid : ℕ) (code : Text) (s : State) → Traces (join_guild env uid code) s
  unfolding join_guild
  join_guild-Traced uid code s h =
      usable_invite_then env code _ (λ e. h)
        λ i usable. refuse_banned_then env i.guild_id uid _ h λ free.
          attempt_then env _ _ _ (λ _. rest i none usable free) λ m e. rest i (some m) usable free
    where
      rest :
          (i : Invite) (m : Option Member)
          → IsUsable env s.tables code i
          → (env.fails Query.get_ban ≡ false → get_ban s.tables.bans i.guild_id uid ≡ none)
          → Shows
              (Stays (Changes env Lifted t₀))
              (admit_unless env i uid m >>= λ _. build_join_result env i.guild_id)
              s
      rest i m usable free =
          bind-Stays env (Changes env Lifted t₀) changed _ _ s
            (admit_unless-Traced code i uid m s usable free h)
            λ a s₁ h₁. build_join_result-Traced i.guild_id s₁ h₁

  open_guild-Traced :
      (owner : ℕ) (name : Text) (g : Guild) (s : State) → Traces (open_guild env owner name g) s
  open_guild-Traced owner name g s h =
      bind-Stays env (Changes env Lifted t₀) changed _ _ s
        (ignore-Stays env (Changes env Lifted t₀) changed _ s
          (ensure_everyone_role-Stays env (Changes env Lifted t₀) changed g.id owner s h))
        λ a₁ s₁ h₁.
          bind-Stays env (Changes env Lifted t₀) changed _ _ s₁ (publish_lem env _ _ _ λ es. h₁)
            λ a₂ s₂ h₂. pure_lem g h₂

  -- The row of the owner fails only if its statement does.
  owner_row-Traced :
      (owner : ℕ) (name : Text) (g g' : Guild) (db : Db) (s : State)
      → g.owner_id ≡ owner
      → create_guild_sql s.tables.db g ≡ some (db, g')
      → Changes env Lifted t₀ s.tables
      → Shows
          (Stays (Changes env Lifted t₀))
          (add_guild_member env (plain_member env g'.id owner) >>= λ _.
            open_guild env owner name g')
          (with_tables s (record s.tables { db = db }))
  owner_row-Traced owner name g g' db s own d h = call_then _ _ (
      statement_cases env _ _ (λ none_left. alone none_left)
        λ t a e.
          with_members-case
            (λ t' a'.
              Stays (Changes env Lifted t₀) (open_guild env owner name g' (with_tables s t')))
            (record s.tables { db = db }) e
            λ ms d'.
              (open_guild-Traced owner name g'
                (with_tables s (record s.tables { db = db; members = ms }))
                (h ▷ found g g' _ d (refl, sym own, refl) d')).holds)
    where
      alone :
          (env.fails Query.add_guild_member ≡ false
            → with_members
                (record s.tables { db = db })
                tt
                (add_member_row db s.tables.members (plain_member env g'.id owner))
              ≡ none)
          → Changes env Lifted t₀ (record s.tables { db = db })
      alone none_left = elim (Bool-cases (env.fails Query.add_guild_member)) [
        | inl e ↦ h ▷ found_empty g g' d e
        | inr e ↦
            let there = create_guild-exists s.tables.db db g g' d in
            absurd (
              add_member_row-some db s.tables.members (plain_member env g'.id owner) there.0
                (subst (λ o. user_exists db o ≡ true) own there.1)
                (with_members-none (record s.tables { db = db }) tt (none_left e)))
      ]

  pub create_guild-Traced :
      (owner : ℕ) (name description icon : Text) (s : State)
      → Traces (create_guild env owner name description icon) s
  unfolding create_guild
  create_guild-Traced owner name description icon s h = statement_then env _ _ _ h λ t g e.
      on_db-case
        (λ t' g'.
          Shows (Stays (Changes env Lifted t₀))
            (add_guild_member env (plain_member env g'.id owner) >>= λ _.
              open_guild env owner name g')
            (with_tables s t'))
        s.tables e
        λ db g' d.
          owner_row-Traced owner name (new_guild env owner name description icon) g' db s refl d h
