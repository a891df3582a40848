-- ===== src/Authz/Listed.antt =====
-- The permissions that ListGuildPermissions of internal/shared/authz/client.go lists, against the
-- checks.
use incord.Authz.Tables.{
  Db, Permission, RolePermission, is_admin_name, holds, role_grants, granted, owner_or_admin_sql,
  check_sql,
}
use incord.Authz.Writes.{is_named}
use incord.Authz.Pool.{UuidCodec, Pool, full_query, list_query}
use incord.Authz.Lists.{list_guild_permissions, names_of, list_for}
use incord.Base.{
  ℕ, ◌≡◌, refl, sym, ap, ◌∙◌, Bool, true, ◌&&◌, ◌||◌, Option, none, some, List, [], ◌∷◌, String,
  Text, any, select, str_eq, any-map, any-select, any-ext, arith, Bool-cases, inl, inr, eq_iff,
  ◌==◌,
}

any-or :
    {A : Type 0}
    → (p q : A → Bool) (xs : List A) → any (λ x. p x || q x) xs ≡ (any p xs || any q xs)
unfolding any
any-or p q [] = refl
any-or p q (x ∷ xs) = ground (arith, any-or p q xs)

any-and :
    {A : Type 0}
    → (p : A → Bool) (b : Bool) (xs : List A) → any (λ x. p x && b) xs ≡ (any p xs && b)
unfolding any
any-and p b [] = refl
any-and p b (x ∷ xs) = ground (arith, any-and p b xs)

and-or : (a b c : Bool) → (a && (b || c)) ≡ (a && b || a && c)
and-or a b c = ground arith

role_grants-or :
    (db : Db) (a b : String → Bool) (rid : ℕ)
    → role_grants db (λ n. a n || b n) rid ≡ (role_grants db a rid || role_grants db b rid)
unfolding role_grants
role_grants-or db a b rid =
    let with_test : (String → Bool) → RolePermission → Bool = λ test rp.
      (rp.role_id == rid) && any (λ p. (p.id == rp.permission_id) && test p.name) db.permissions in
    let row : (rp : RolePermission)
        → with_test (λ n. a n || b n) rp ≡ (with_test a rp || with_test b rp) =
      λ rp.
        let split : any (λ p. (p.id == rp.permission_id) && (a p.name || b p.name)) db.permissions
            ≡ (any (λ p. (p.id == rp.permission_id) && a p.name) db.permissions
                || any (λ p. (p.id == rp.permission_id) && b p.name) db.permissions) =
          any-ext (λ p. (p.id == rp.permission_id) && (a p.name || b p.name))
            (λ p. (p.id == rp.permission_id) && a p.name || (p.id == rp.permission_id) && b p.name)
            db.permissions (λ p. and-or (p.id == rp.permission_id) (a p.name) (b p.name))
          ∙ any-or (λ p. (p.id == rp.permission_id) && a p.name)
              (λ p. (p.id == rp.permission_id) && b p.name) db.permissions in
        ap (λ x. (rp.role_id == rid) && x) split ∙ and-or (rp.role_id == rid) _ _ in
    any-ext (with_test (λ n. a n || b n)) (λ rp. with_test a rp || with_test b rp)
      db.role_permissions row
    ∙ any-or (with_test a) (with_test b) db.role_permissions

granted-or :
    (db : Db) (a b : String → Bool) (uid gid : ℕ)
    → granted db (λ n. a n || b n) uid gid ≡ (granted db a uid gid || granted db b uid gid)
unfolding granted
granted-or db a b uid gid =
    any-ext (λ rm. holds db uid gid rm && role_grants db (λ n. a n || b n) rm.role_id)
      (λ rm.
        holds db uid gid rm && role_grants db a rm.role_id
        || holds db uid gid rm && role_grants db b rm.role_id)
      db.role_members
      (λ rm.
        ap (λ x. holds db uid gid rm && x) (role_grants-or db a b rm.role_id)
        ∙ and-or (holds db uid gid rm) (role_grants db a rm.role_id) (role_grants db b rm.role_id))
    ∙ any-or (λ rm. holds db uid gid rm && role_grants db a rm.role_id)
        (λ rm. holds db uid gid rm && role_grants db b rm.role_id) db.role_members

check_sql-or :
    (db : Db) (uid gid : ℕ) (name : String)
    → check_sql db uid gid name
      ≡ (owner_or_admin_sql db uid gid || granted db (λ m. str_eq m name) uid gid)
unfolding check_sql owner_or_admin_sql
check_sql-or db uid gid name =
    ground (arith, granted-or db (λ m. str_eq m name) is_admin_name uid gid)

abbrev list_or : List String → Option (List String) → List String
list_or d none = d
list_or d (some ns) = ns

no_list : (ns : List String) → none ≡ some ns → ⊥
no_list ns h = cc

module _ (codec : UuidCodec) (c : Pool) (uid gid : ℕ) (name : String) where
  any-names_of :
      (test : String → Bool)
      → any (λ m. str_eq m name) (names_of codec c.db test)
        ≡ (any (is_named name) c.db.permissions && test name)
  any-names_of test =
      any-map (λ m. str_eq m name) (λ (p : Permission). p.name)
        (select (λ p. test p.name) c.db.permissions)
      ∙ any-select (λ p. str_eq p.name name) (λ p. test p.name) c.db.permissions
      ∙ any-ext (λ p. test p.name && str_eq p.name name) (λ p. str_eq p.name name && test name)
          c.db.permissions (λ p. swap p.name)
      ∙ any-and (is_named name) (test name) c.db.permissions
    where
      swap : (n : String) → (test n && str_eq n name) ≡ (str_eq n name && test name)
      swap n = elim (Bool-cases (str_eq n name)) [
        | inl e ↦
            let same : n ≡ name = (eq_iff n name).0 e in
            let t : test n ≡ test name = ap test same in ground arith
        | inr e ↦ ground arith
      ]

  list_for-check :
      (ns : List String)
      → list_for codec c uid gid ≡ some ns
      → any (λ m. str_eq m name) ns
        ≡ (any (is_named name) c.db.permissions && check_sql c.db uid gid name)
  list_for-check ns h = elim (Bool-cases (c.fails full_query)) [
    | inl e ↦ absurd (no_list ns (rw e at h))
    | inr e ↦ elim (Bool-cases (c.fails list_query)) [
      | inl f ↦ absurd (no_list ns (rw (e, f) at h))
      | inr f ↦
          let every : String → Bool = λ n. true in
          let own : String → Bool = λ n. granted c.db (λ m. str_eq m n) uid gid in
          elim (Bool-cases (owner_or_admin_sql c.db uid gid)) [
            | inl g ↦
                let listed : names_of codec c.db every ≡ ns = ap (list_or ns) (rw (e, f, g) at h) in
                rw (sym listed, any-names_of every, check_sql-or c.db uid gid name, g)
            | inr g ↦
                let listed : names_of codec c.db own ≡ ns = ap (list_or ns) (rw (e, f, g) at h) in
                rw (sym listed, any-names_of own, check_sql-or c.db uid gid name, g)
          ]
    ]
  ]

-- For ids that parse, the names that ListGuildPermissions lists without error are exactly the catalogued permissions that the check of the user in the guild grants.
pub list_guild_permissions-check :
    (codec : UuidCodec) (c : Pool) (user guild : Text) (uid gid : ℕ) (name : String)
    (ns : List String)
    → codec.parse user ≡ some uid
    → codec.parse guild ≡ some gid
    → list_guild_permissions codec (some c) user guild ≡ some ns
    → any (λ m. str_eq m name) ns
      ≡ (any (is_named name) c.db.permissions && check_sql c.db uid gid name)
unfolding list_guild_permissions
list_guild_permissions-check codec c user guild uid gid name ns pu pg h =
    list_for-check codec c uid gid name ns (rw (list_guild_permissions, pu, pg) at h)
