-- ===== src/Authz/Untouched.antt =====
-- What the writes of internal/shared/authz/client.go to role members and role permissions leave as it
-- is: the guilds and the users.
use mathlib.Core.Path.{subst}
use incord.Authz.Names.{relation_to_name}
use incord.Authz.Tables.{Db, Permission}
use incord.Authz.Pool.{UuidCodec, Pool}
use incord.Authz.Exec.{exec_lem, if-some}
use incord.Authz.Writes.{
  Result, ok, err, ◌>>=◌, unknown_relation, from_option, uuid, run_exec, is_member_row,
  is_grant_row, role_exists, add_member_sql, remove_member_sql, grant_sql, revoke_sql, is_named,
  no_rows, add_user_to_role, remove_user_from_role, grant_role_permission, revoke_role_permission,
  insert_grants,
}
use incord.Base.{
  ℕ, ◌≡◌, refl, ap, Bool, true, false, not, ◌&&◌, ◌||◌, Option, none, some, [], ◌∷◌, ◌++◌, any,
  first, select, update, Bool-cases, inl, inr, ◌==◌, if◌then◌else◌, Text, String,
}

abbrev pub SameGuilds : Db → Db → Type 0
SameGuilds db db' = (db'.guilds ≡ db.guilds) × (db'.users ≡ db.users)

-- A write that succeeds with a pool had a pool, and has left the guilds and the users of its database.
abbrev pub LeavesGuilds : (Option Pool → Result (Option Pool)) → Type 0
LeavesGuilds f =
    (c : Option Pool) (p : Pool)
    → f c ≡ ok (some p)
    → (d : Pool) × (c ≡ some d) × SameGuilds d.db p.db

-- Two ids or names are read, then one statement runs.
write-SameGuilds :
    {A B : Type 0}
    → (codec : UuidCodec) (c p : Pool) (m : Result A) (n : Result B) (f : A → B → Option Db)
    → ((a : A) (b : B) (db : Db) → f a b ≡ some db → SameGuilds c.db db)
    → (m >>= λ a. n >>= λ b. run_exec codec c (f a b)) ≡ ok (some p)
    → SameGuilds c.db p.db
write-SameGuilds codec c p (ok a) (ok b) f same h = same a b p.db (exec_lem codec c p (f a b) h).0
write-SameGuilds codec c p (ok a) (err e) f same h = cc
write-SameGuilds codec c p (err e) n f same h = cc

abbrev pool_or : {A : Type 0} → Result (Option A) → Bool
pool_or (ok (some c)) = true
pool_or (ok none) = false
pool_or (err e) = false

no_pool : {X : Type 0} → (p : Pool) → ◌≡◌ {A = Result (Option Pool)} (ok none) (ok (some p)) → X
no_pool p h = let c : false ≡ true = ap pool_or h in absurd (clash c)
  where
    clash : false ≡ true → ⊥
    clash c = cc

same-some : (db x y : Db) → SameGuilds db x → some x ≡ some y → SameGuilds db y
same-some db x y s h = let e : x ≡ y = cc in subst (SameGuilds db) e s

same-if :
    (b : Bool) (db x y : Db)
    → SameGuilds db x
    → (if b then some x else none) ≡ some y
    → SameGuilds db y
same-if b db x y s h = subst (SameGuilds db) (if-some b x y h) s

abbrev revive : ℕ → ℕ → Db → Db
revive rid uid db = record db {
  role_members = update (is_member_row rid uid) (λ m. record m { deleted = false }) db.role_members;
}

abbrev enrol : ℕ → ℕ → Db → Db
enrol rid uid db = record db {
  role_members = db.role_members ++ record { role_id = rid; user_id = uid; deleted = false } ∷ [];
}

pub add_member-SameGuilds :
    (db db' : Db) (rid uid : ℕ) → add_member_sql db rid uid ≡ some db' → SameGuilds db db'
unfolding add_member_sql
add_member-SameGuilds db db' rid uid h =
    elim (Bool-cases (any (is_member_row rid uid) db.role_members)) [
      | inl e ↦ same-some db (revive rid uid db) db' (refl, refl) (rw e at h)
      | inr e ↦
          same-if (role_exists db rid && any (λ u. u == uid) db.users) db (enrol rid uid db) db'
            (refl, refl) (rw e at h)
    ]

pub remove_member-SameGuilds :
    (db : Db) (rid uid : ℕ) → SameGuilds db (remove_member_sql db rid uid)
unfolding remove_member_sql
remove_member-SameGuilds db rid uid = (refl, refl)

grant-SameGuilds :
    (db db' : Db) (rid : ℕ) (name : String) → grant_sql db rid name ≡ some db' → SameGuilds db db'
unfolding grant_sql
grant-SameGuilds db db' rid name h =
    let ps = select (is_named name) db.permissions in
    same-if (no_rows ps || role_exists db rid) db
      (record db { role_permissions = insert_grants rid ps db.role_permissions }) db' (refl, refl) h

revoke-SameGuilds : (db : Db) (rid : ℕ) (name : String) → SameGuilds db (revoke_sql db rid name)
unfolding revoke_sql
revoke-SameGuilds db rid name = split (first (is_named name) db.permissions)
  where
    split :
        (o : Option Permission)
        → SameGuilds db (elim o [
          | none ↦ db
          | some p ↦ record db {
            role_permissions = select (λ g. not (is_grant_row rid p.id g)) db.role_permissions;
          }
        ])
    split none = (refl, refl)
    split (some p) = (refl, refl)

module _ (codec : UuidCodec) (role : Text) where
  pub add_user_to_role-LeavesGuilds :
      (user : Text) → LeavesGuilds (λ c. add_user_to_role codec c user role)
  unfolding add_user_to_role
  add_user_to_role-LeavesGuilds user none p h = no_pool p h
  add_user_to_role-LeavesGuilds user (some c) p h = (
    c,
    refl,
    write-SameGuilds codec c p (uuid codec user) (uuid codec role)
        (λ uid rid. add_member_sql c.db rid uid)
        (λ uid rid db. add_member-SameGuilds c.db db rid uid) h,
  )

  pub remove_user_from_role-LeavesGuilds :
      (user : Text) → LeavesGuilds (λ c. remove_user_from_role codec c user role)
  unfolding remove_user_from_role
  remove_user_from_role-LeavesGuilds user none p h = no_pool p h
  remove_user_from_role-LeavesGuilds user (some c) p h = (
    c,
    refl,
    write-SameGuilds codec c p (uuid codec user) (uuid codec role)
        (λ uid rid. some (remove_member_sql c.db rid uid))
        (λ uid rid db.
          same-some c.db (remove_member_sql c.db rid uid) db
            (remove_member-SameGuilds c.db rid uid))
        h,
  )

  pub grant_role_permission-LeavesGuilds :
      (relation : String) → LeavesGuilds (λ c. grant_role_permission codec c role relation)
  unfolding grant_role_permission
  grant_role_permission-LeavesGuilds relation none p h = no_pool p h
  grant_role_permission-LeavesGuilds relation (some c) p h = (
    c,
    refl,
    write-SameGuilds codec c p (from_option unknown_relation (relation_to_name relation))
        (uuid codec role) (λ name rid. grant_sql c.db rid name)
        (λ name rid db. grant-SameGuilds c.db db rid name) h,
  )

  pub revoke_role_permission-LeavesGuilds :
      (relation : String) → LeavesGuilds (λ c. revoke_role_permission codec c role relation)
  unfolding revoke_role_permission
  revoke_role_permission-LeavesGuilds relation none p h = no_pool p h
  revoke_role_permission-LeavesGuilds relation (some c) p h = (
    c,
    refl,
    write-SameGuilds codec c p (from_option unknown_relation (relation_to_name relation))
        (uuid codec role) (λ name rid. some (revoke_sql c.db rid name))
        (λ name rid db.
          same-some c.db (revoke_sql c.db rid name) db (revoke-SameGuilds c.db rid name))
        h,
  )
