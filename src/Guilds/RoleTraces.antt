-- ===== src/Guilds/RoleTraces.antt =====
-- internal/features/guild/service.go: the calls on roles and on the pictures of a guild, as sequences
-- of guarded changes.
use incord.Authz.Pool.{Pool}
use incord.Authz.Writes.{Result, grant_role_permission, revoke_role_permission}
use incord.Authz.Tables.{Db}
use incord.Authz.Untouched.{
  SameGuilds, LeavesGuilds, grant_role_permission-LeavesGuilds, revoke_role_permission-LeavesGuilds,
}
use mathlib.Core.Path.{subst}
use incord.Guilds.{State, Env, Call, id_text}
use incord.Guilds.Rows.{Tables, GuildParams, RoleParams, delete_role_sql}
use incord.Guilds.Rules.{Shows, pure_lem, statement_lem, publish_lem, publish_role_lem}
use incord.Guilds.Chains.{lookup_then, found_then, raise_if_then, raise_unless_then, permitted_then}
use incord.Guilds.Changes.{Changes, ◌▷◌, roles, rename}
use incord.Guilds.Inversion.{
  on_db-case, with_db-case, update_role-SameGuilds, delete_role-SameGuilds,
}
use incord.Guilds.RoleCalls.{
  create_role, update_role, delete_role, assign_role, remove_role, known_relation,
  change_permission, grant_role, revoke_role,
}
use incord.Guilds.Assets.{upload_guild_icon, upload_guild_banner, upload, storage, no_params}
use incord.Guilds.Traces.{
  Stays, KeptByRoles, bind-Stays, ignore-Stays, insert_role-Stays, assign_row-Stays,
  remove_row-Stays, add_to_role-Stays, remove_from_role-Stays, authz-Stays,
}
use incord.Base.{ℕ, ◌≡◌, Bool, Option, none, some, Text, String}

module _ (env : Env) (Lifted : ℕ → ℕ → Type 0) (t₀ : Tables) where
  changed : KeptByRoles (Changes env Lifted t₀)
  changed t db e h = h ▷ roles e

  abbrev Traces : {A : Type 0} → Call A → State → Type 0
  Traces m s = Changes env Lifted t₀ s.tables → Shows (Stays (Changes env Lifted t₀)) m s

  pub create_role-Traced :
      (caller gid : ℕ) (name color : Text) (s : State)
      → Traces (create_role env caller gid name color) s
  unfolding create_role
  create_role-Traced caller gid name color s h = permitted_then env _ _ h λ _.
      lookup_then env _ _ _ h λ rs e.
        bind-Stays env (Changes env Lifted t₀) changed _ _ s
          (insert_role-Stays env (Changes env Lifted t₀) changed _ s h)
          λ r s₁ h₁.
            bind-Stays env (Changes env Lifted t₀) changed _ _ s₁
              (publish_role_lem env _ _ _ _ λ es. h₁) λ a s₂ h₂. pure_lem r h₂

  pub update_role-Traced :
      (caller gid : ℕ) (p : RoleParams) (s : State) → Traces (update_role env caller gid p) s
  unfolding update_role
  update_role-Traced caller gid p s h = permitted_then env _ _ h λ _.
      bind-Stays env (Changes env Lifted t₀) changed _ _ s
        (statement_lem env _ _ h λ t a e.
          on_db-case (λ t' a'. Changes env Lifted t₀ t') s.tables e
            λ db r d. h ▷ roles (update_role-SameGuilds s.tables.db db p r d))
        λ r s₁ h₁.
          bind-Stays env (Changes env Lifted t₀) changed _ _ s₁
            (publish_role_lem env _ _ _ _ λ es. h₁) λ a s₂ h₂. pure_lem r h₂

  pub delete_role-Traced :
      (caller gid rid : ℕ) (s : State) → Traces (delete_role env caller gid rid) s
  unfolding delete_role
  delete_role-Traced caller gid rid s h = permitted_then env _ _ h λ _.
      found_then env _ _ _ _ h λ r re.
        bind-Stays env (Changes env Lifted t₀) changed _ _ s
          (statement_lem env _ _ h λ t a e.
            with_db-case (λ t' a'. Changes env Lifted t₀ t') s.tables e
              λ db d.
                h
                ▷ roles (
                    subst (SameGuilds s.tables.db) (the_db db d)
                      (delete_role-SameGuilds s.tables.db rid)))
          λ a s₁ h₁. publish_role_lem env _ _ _ _ λ es. h₁
    where
      the_db :
          (db : Db)
          → some (delete_role_sql s.tables.db rid) ≡ some db
          → delete_role_sql s.tables.db rid ≡ db
      the_db db e = cc

  pub assign_role-Traced :
      (caller gid target rid : ℕ) (s : State) → Traces (assign_role env caller gid target rid) s
  unfolding assign_role
  assign_role-Traced caller gid target rid s h = permitted_then env _ _ h λ _.
      found_then env _ _ _ _ h λ m me. found_then env _ _ _ _ h λ r re.
        bind-Stays env (Changes env Lifted t₀) changed _ _ s
          (assign_row-Stays env (Changes env Lifted t₀) changed rid target s h)
          λ a s₁ h₁.
            bind-Stays env (Changes env Lifted t₀) changed _ _ s₁
              (ignore-Stays env (Changes env Lifted t₀) changed _ s₁
                (add_to_role-Stays env (Changes env Lifted t₀) changed target rid s₁ h₁))
              λ a' s₂ h₂. publish_role_lem env _ _ _ _ λ es. h₂

  pub remove_role-Traced :
      (caller gid target rid : ℕ) (s : State) → Traces (remove_role env caller gid target rid) s
  unfolding remove_role
  remove_role-Traced caller gid target rid s h = permitted_then env _ _ h λ _.
      found_then env _ _ _ _ h λ r re.
        bind-Stays env (Changes env Lifted t₀) changed _ _ s
          (remove_row-Stays env (Changes env Lifted t₀) changed rid target s h)
          λ a s₁ h₁.
            bind-Stays env (Changes env Lifted t₀) changed _ _ s₁
              (ignore-Stays env (Changes env Lifted t₀) changed _ s₁
                (remove_from_role-Stays env (Changes env Lifted t₀) changed target rid s₁ h₁))
              λ a' s₂ h₂. publish_role_lem env _ _ _ _ λ es. h₂

  known-Traced : (o : Option String) (s : State) → Traces (known_relation env o) s
  known-Traced none s h = record { holds = h }
  known-Traced (some relation) s h = pure_lem relation h

  change_permission-Traced :
      (caller gid rid : ℕ) (permission : String)
      (write : Option Pool → Text → String → Result (Option Pool)) (s : State)
      → ((relation : String) → LeavesGuilds (λ c. write c (id_text env rid) relation))
      → Traces (change_permission env caller gid rid permission write) s
  change_permission-Traced caller gid rid permission write s leaves h =
      permitted_then env _ _ h λ _.
        bind-Stays env (Changes env Lifted t₀) changed _ _ s (known-Traced _ s h) λ relation s₁ h₁.
          permitted_then env _ _ h₁ λ _. found_then env _ _ _ _ h₁ λ r re.
            bind-Stays env (Changes env Lifted t₀) changed _ _ s₁
              (authz-Stays env (Changes env Lifted t₀) changed _ s₁ (leaves relation) h₁)
              λ a s₂ h₂. publish_role_lem env _ _ _ _ λ es. h₂

  pub grant_role-Traced :
      (caller gid rid : ℕ) (permission : String) (s : State)
      → Traces (grant_role env caller gid rid permission) s
  unfolding grant_role
  grant_role-Traced caller gid rid permission s =
      change_permission-Traced caller gid rid permission (grant_role_permission env.codec) s
        (grant_role_permission-LeavesGuilds env.codec (id_text env rid))

  pub revoke_role-Traced :
      (caller gid rid : ℕ) (permission : String) (s : State)
      → Traces (revoke_role env caller gid rid permission) s
  unfolding revoke_role
  revoke_role-Traced caller gid rid permission s =
      change_permission-Traced caller gid rid permission (revoke_role_permission env.codec) s
        (revoke_role_permission-LeavesGuilds env.codec (id_text env rid))

  module _ (put : Option (Text → Text → Text → Bool)) (signer : Option (Text → Option Text))
      (drawn : Text) where
    storage-Traced :
        (o : Option (Text → Text → Text → Bool)) (s : State)
        → Traces (storage env put signer drawn o) s
    storage-Traced none s h = record { holds = h }
    storage-Traced (some p) s h = pure_lem p h

    upload-Traced :
        (kind : Text) (max : ℕ) (params : Text → GuildParams) (extra : String) (caller gid : ℕ)
        (filename content_type bytes : Text) (s : State)
        → Traces
            (upload env put signer drawn kind max params extra caller gid filename content_type
              bytes)
            s
    upload-Traced kind max params extra caller gid filename content_type bytes s h =
        bind-Stays env (Changes env Lifted t₀) changed _ _ s (storage-Traced put s h) λ p s₁ h₁.
          permitted_then env _ _ h₁ λ _. raise_if_then _ _ _ h₁ λ _. raise_if_then _ _ _ h₁ λ _.
            raise_unless_then _ _ _ h₁ λ _. raise_unless_then _ _ _ h₁ λ _.
              bind-Stays env (Changes env Lifted t₀) changed _ _ s₁
                (statement_lem env _ _ h₁ λ t a e.
                  on_db-case (λ t' a'. Changes env Lifted t₀ t') s₁.tables e
                    λ db g d. h₁ ▷ rename gid _ g d)
                λ g s₂ h₂.
                  bind-Stays env (Changes env Lifted t₀) changed _ _ s₂
                    (publish_lem env _ _ _ λ es. h₂) λ a s₃ h₃. pure_lem _ h₃

    pub upload_guild_icon-Traced :
        (caller gid : ℕ) (filename content_type bytes : Text) (s : State)
        → Traces (upload_guild_icon env put signer drawn caller gid filename content_type bytes) s
    unfolding upload_guild_icon
    upload_guild_icon-Traced = upload-Traced _ _ (λ key. record no_params { icon_url = some key }) _

    pub upload_guild_banner-Traced :
        (caller gid : ℕ) (filename content_type bytes : Text) (s : State)
        → Traces (upload_guild_banner env put signer drawn caller gid filename content_type bytes) s
    unfolding upload_guild_banner
    upload_guild_banner-Traced =
        upload-Traced _ _ (λ key. record no_params { banner_url = some key }) _
