-- ===== src/Guilds/RoleCalls.antt =====
-- internal/features/guild/service.go: roles, who holds them and what they permit.
use incord.Authz.Tables.{Role}
use incord.Authz.Names.{assoc, permission_relation}
use incord.Authz.Wrappers.{can_manage_roles, can_guild_permission}
use incord.Authz.Writes.{
  Result, add_user_to_role, remove_user_from_role, grant_role_permission, revoke_role_permission,
}
use incord.Authz.Pool.{Pool}
use incord.Guilds.{
  Env, Call, Query, GuildError, EventKind, statement, lookup, permitted, authz_write,
  publish_role_event, id_text,
}
use incord.Guilds.Rows.{RoleParams, get_role_sql, update_role_sql, delete_role_sql, guild_roles}
use incord.Guilds.Membership.{on_db, with_db, get_guild_member, assign_row, remove_row, insert_role}
use incord.Base.{ℕ, false, Option, none, some, [], ◌∷◌, String, Text, length}
use incord.Base.Int.{pos}
use incord.Base.Action.{◌>>=◌, ◌>>◌, pure, raise, or_raise, ignore}

module _ (env : Env) where
  abbrev pub manages_roles : ℕ → ℕ → Call (Unit {0})
  manages_roles caller gid =
      permitted env (λ c. can_manage_roles env.codec c (id_text env caller) (id_text env gid))

  abbrev pub get_role_by_id : ℕ → Call Role
  get_role_by_id rid = lookup env Query.get_role_by_id (λ t. get_role_sql t.db rid)

  unfoldable pub create_role : ℕ → ℕ → Text → Text → Call Role
  create_role caller gid name color = do
    manages_roles caller gid
    roles ← lookup env Query.list_guild_roles (λ t. some (guild_roles t.db gid))
    r ← insert_role env (record {
      id = env.new_role;
      guild_id = gid;
      name = name;
      color = color;
      position = pos (length roles);
      deleted = false;
    })
    publish_role_event env gid EventKind.role_create r []
    pure r

  unfoldable pub update_role : ℕ → ℕ → RoleParams → Call Role
  update_role caller gid params = do
    manages_roles caller gid
    r ← statement env Query.update_role (λ t. on_db t (update_role_sql t.db params))
    publish_role_event env gid EventKind.role_update r []
    pure r

  unfoldable pub delete_role : ℕ → ℕ → ℕ → Call (Unit {0})
  delete_role caller gid rid = do
    manages_roles caller gid
    r ← or_raise GuildError.role_not_found (get_role_by_id rid)
    statement env Query.delete_role (λ t. with_db t (some (delete_role_sql t.db rid)))
    publish_role_event env gid EventKind.role_delete r []

  unfoldable pub assign_role : ℕ → ℕ → ℕ → ℕ → Call (Unit {0})
  assign_role caller gid target rid = do
    manages_roles caller gid
    m ← or_raise GuildError.member_not_found (get_guild_member env gid target)
    r ← or_raise GuildError.role_not_found (get_role_by_id rid)
    assign_row env rid target
    ignore
        (authz_write env (λ c. add_user_to_role env.codec c (id_text env target) (id_text env rid)))
    publish_role_event env gid EventKind.role_assign r (("user_id", id_text env target) ∷ [])

  unfoldable pub remove_role : ℕ → ℕ → ℕ → ℕ → Call (Unit {0})
  remove_role caller gid target rid = do
    manages_roles caller gid
    r ← or_raise GuildError.role_not_found (get_role_by_id rid)
    remove_row env rid target
    ignore (
        authz_write env
          (λ c. remove_user_from_role env.codec c (id_text env target) (id_text env rid)))
    publish_role_event env gid EventKind.role_remove r (("user_id", id_text env target) ∷ [])

  abbrev pub known_relation : Option String → Call String
  known_relation none = raise GuildError.invalid_permission
  known_relation (some relation) = pure relation

  -- What granting and revoking share: the caller must have the permission as well.
  abbrev pub change_permission :
      ℕ → ℕ → ℕ → String → (Option Pool → Text → String → Result (Option Pool)) → Call (Unit {0})
  change_permission caller gid rid permission write = do
    manages_roles caller gid
    relation ← known_relation (assoc permission permission_relation)
    permitted env
        (λ c. can_guild_permission env.codec c (id_text env caller) (id_text env gid) relation)
    r ← or_raise GuildError.role_not_found (get_role_by_id rid)
    authz_write env (λ c. write c (id_text env rid) relation)
    publish_role_event env gid EventKind.role_update r []

  unfoldable pub grant_role : ℕ → ℕ → ℕ → String → Call (Unit {0})
  grant_role caller gid rid permission =
      change_permission caller gid rid permission (grant_role_permission env.codec)

  unfoldable pub revoke_role : ℕ → ℕ → ℕ → String → Call (Unit {0})
  revoke_role caller gid rid permission =
      change_permission caller gid rid permission (revoke_role_permission env.codec)
