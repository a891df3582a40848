-- ===== src/Authz/Granting.antt =====
-- Role permissions: what GrantRolePermission and RevokeRolePermission of
-- internal/shared/authz/client.go do to the checks.
use mathlib.Core.Path.{subst}
use incord.Authz.Names.{user_key, guild_key, relation_to_name}
use incord.Authz.Tables.{
  Db, RolePermission, Permission, is_name_or_admin, holds, role_grants, granted, check_sql,
  is_assigned,
}
use incord.Authz.Pool.{UuidCodec, Pool, check_query}
use incord.Authz.Checks.{check}
use incord.Authz.Grants.{check_lem}
use incord.Authz.Exec.{exec_lem, exec_has_pool, if-some}
use incord.Authz.Writes.{
  ok, is_grant_row, is_named, role_exists, no_rows, insert_grants, grant_sql, grant_role_permission,
}
use incord.Base.{
  ℕ, ◌≡◌, ◌≢◌, none, sym, true, false, ◌&&◌, ◌||◌, some, List, [], ◌∷◌, ◌++◌, any, select, arith,
  ◌==◌, Text, String, Bool-cases, inl, inr, any-append, any-select, any_sound, any_complete, In,
  str_eq,
}

module _ (rid r q : ℕ) where
  row-one :
      (p : ℕ)
      → any (is_grant_row r q) (record { role_id = rid; permission_id = p } ∷ [])
        ≡ ((rid == r) && (p == q))
  unfolding any
  row-one p = ground arith

  same-row :
      (p : ℕ) (rows : List RolePermission)
      → any (is_grant_row rid p) rows ≡ true
      → (rid == r) ≡ true
      → (p == q) ≡ true
      → any (is_grant_row r q) rows ≡ true
  same-row p rows h e f =
      let a : rid ≡ r = ground arith in let b : p ≡ q = ground arith in rw (sym a, sym b, h)

  -- The rows after the insertion.
  any-insert_grants :
      (ps : List Permission) (rows : List RolePermission)
      → any (is_grant_row r q) (insert_grants rid ps rows)
        ≡ ((rid == r) && any (λ p. p.id == q) ps || any (is_grant_row r q) rows)
  unfolding insert_grants any
  any-insert_grants [] rows = ground arith
  any-insert_grants (p ∷ ps) rows = elim (Bool-cases (any (is_grant_row rid p.id) rows)) [
    | inl old ↦ ground (arith, any-insert_grants ps rows, same-row p.id rows)
    | inr new ↦
        let added = rows ++ record { role_id = rid; permission_id = p.id } ∷ [] in
        ground (
          arith,
          any-insert_grants ps added,
          row-one p.id,
          any-append (is_grant_row r q) rows (record { role_id = rid; permission_id = p.id } ∷ []),
        )
  ]

module _ (db : Db) (uid gid rid : ℕ) (name : String) where
  row-role_grants :
      (p : Permission)
      → In p db.permissions
      → str_eq p.name name ≡ true
      → any (is_grant_row rid p.id) db.role_permissions ≡ true
      → role_grants db (is_name_or_admin name) rid ≡ true
  unfolding role_grants
  row-role_grants p i n h =
      let test = is_name_or_admin name in
      let (rp, j, e) = any_sound (is_grant_row rid p.id) db.role_permissions h in
      let same : rp.permission_id ≡ p.id = ground arith in
      let has : any (λ z. (z.id == p.id) && test z.name) db.permissions ≡ true =
        any_complete (λ z. (z.id == p.id) && test z.name) p db.permissions i (ground arith) in
      let has2 : any (λ z. (z.id == rp.permission_id) && test z.name) db.permissions ≡ true =
        rw (same, has) in
      any_complete
        (λ rp.
          (rp.role_id == rid)
          && any (λ z. (z.id == rp.permission_id) && test z.name) db.permissions)
        rp db.role_permissions j (ground arith)

  assigned-check_sql :
      is_assigned db uid gid rid ≡ true
      → role_grants db (is_name_or_admin name) rid ≡ true
      → check_sql db uid gid name ≡ true
  unfolding check_sql granted is_assigned
  assigned-check_sql a g =
      let (rm, i, e) =
        any_sound (λ rm. (rm.role_id == rid) && holds db uid gid rm) db.role_members a in
      let same : rm.role_id ≡ rid = ground arith in
      let g2 : role_grants db (is_name_or_admin name) rm.role_id ≡ true = rw (same, g) in
      let found : any
            (λ rm. holds db uid gid rm && role_grants db (is_name_or_admin name) rm.role_id)
            db.role_members
          ≡ true =
        any_complete
          (λ rm. holds db uid gid rm && role_grants db (is_name_or_admin name) rm.role_id) rm
          db.role_members i (ground arith) in
      ground arith

grant-role_grants :
    (db db' : Db) (rid : ℕ) (name : String)
    → any (is_named name) db.permissions ≡ true
    → grant_sql db rid name ≡ some db'
    → role_grants db' (is_name_or_admin name) rid ≡ true
unfolding grant_sql
grant-role_grants db db' rid name known h =
    let ps = select (is_named name) db.permissions in
    let rows = insert_grants rid ps db.role_permissions in
    let e : record db { role_permissions = rows } ≡ db' =
      if-some (no_rows ps || role_exists db rid) (record db { role_permissions = rows }) db' h in
    let (p, i, n) = any_sound (is_named name) db.permissions known in
    let found : any (λ q. q.id == p.id) ps ≡ true = rw (
      any-select (λ q. q.id == p.id) (is_named name) db.permissions,
      any_complete (λ q. is_named name q && (q.id == p.id)) p db.permissions i (ground arith),
    ) in
    let row : any (is_grant_row rid p.id) rows ≡ true =
      ground (arith, any-insert_grants rid rid p.id ps db.role_permissions) in
    subst (λ d. role_grants d (is_name_or_admin name) rid ≡ true) e
      (row-role_grants (record db { role_permissions = rows }) 0 0 rid name p i n row)

module _ (codec : UuidCodec) (c c' : Pool) (role : Text) (rid : ℕ) (relation name : String) where
  pub grant_lem :
      codec.parse role ≡ some rid
      → relation_to_name relation ≡ some name
      → grant_role_permission codec (some c) role relation ≡ ok (some c')
      → (grant_sql c.db rid name ≡ some c'.db) × (c'.fails ≡ c.fails)
  unfolding grant_role_permission
  grant_lem pr known h = exec_lem codec c c' (grant_sql c.db rid name) (rw (known, pr) at h)

-- After GrantRolePermission has returned without error for a relation of a catalogued permission,
-- every user who holds the role in a guild passes the check of the relation in that guild when its
-- query answers.
pub grant_role_permission-check :
    (codec : UuidCodec) (c c' : Pool) (role user guild : Text) (rid uid gid : ℕ)
    (relation name : String)
    → codec.parse role ≡ some rid
    → codec.parse user ≡ some uid
    → codec.parse guild ≡ some gid
    → relation_to_name relation ≡ some name
    → any (is_named name) c.db.permissions ≡ true
    → grant_role_permission codec (some c) role relation ≡ ok (some c')
    → is_assigned c'.db uid gid rid ≡ true
    → c'.fails check_query ≡ false
    → check codec (some c') (user_key user) relation (guild_key guild) ≡ true
grant_role_permission-check codec c c' role user guild rid uid gid relation name pr pu pg known
      there h a up =
    let grants =
      grant-role_grants c.db c'.db rid name there
        (grant_lem codec c c' role rid relation name pr known h).0 in
    rw (
      check_lem codec c' user guild uid gid relation name up pu pg known,
      assigned-check_sql c'.db uid gid rid name a grants,
    )

-- With a pool, GrantRolePermission returns one or an error.
pub grant_role_permission-has_pool :
    (codec : UuidCodec) (c : Pool) (role : Text) (rid : ℕ) (relation name : String)
    → codec.parse role ≡ some rid
    → relation_to_name relation ≡ some name
    → grant_role_permission codec (some c) role relation ≢ ok none
unfolding grant_role_permission
grant_role_permission-has_pool codec c role rid relation name pr known h =
    exec_has_pool codec c (grant_sql c.db rid name) (rw (known, pr) at h)
