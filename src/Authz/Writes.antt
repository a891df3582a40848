-- ===== src/Authz/Writes.antt =====
-- The writes of internal/shared/authz/client.go: role members, role permissions and channel
-- overrides. A statement that breaks a foreign key fails, and a nil client does nothing.
use incord.Authz.Names.{relation_to_name}
use incord.Authz.Tables.{
  Db, RoleMember, RolePermission, Permission, Overwrite, TargetType, Effect, role, user, allow,
  deny,
}
use incord.Authz.Pool.{UuidCodec, Pool, exec_query}
use incord.Base.{
  ℕ, Bool, true, false, not, ◌&&◌, ◌||◌, Option, none, some, List, [], ◌∷◌, ◌++◌, String, Text, any,
  first, select, update, str_eq, ◌==◌, if◌then◌else◌,
}

pub data AuthzError : Type 0 where
  invalid_uuid unknown_relation invalid_target_type invalid_effect query_failed : AuthzError

pub data Result (A : Type 0) : Type 0 where
  ok : A → Result A
  err : AuthzError → Result A

infixl 5 ◌>>=◌
abbrev pub ◌>>=◌ : {A B : Type 0} → Result A → (A → Result B) → Result B
ok a >>= f = f a
err e >>= f = err e

abbrev pub from_option : {A : Type 0} → AuthzError → Option A → Result A
from_option e none = err e
from_option e (some a) = ok a

-- The primary key (role_id, user_id).
abbrev pub is_member_row : ℕ → ℕ → RoleMember → Bool
is_member_row rid uid m = (m.role_id == rid) && (m.user_id == uid)

abbrev pub is_grant_row : ℕ → ℕ → RolePermission → Bool
is_grant_row rid pid g = (g.role_id == rid) && (g.permission_id == pid)

abbrev pub same_target : TargetType → TargetType → Bool
same_target role role = true
same_target role user = false
same_target user role = false
same_target user user = true

-- The primary key (channel_id, target_type, target_id, permission_id).
abbrev pub is_overwrite_row : ℕ → TargetType → ℕ → ℕ → Overwrite → Bool
is_overwrite_row ch tt tid pid o =
    (o.channel_id == ch)
    && same_target o.target_type tt
    && (o.target_id == tid)
    && (o.permission_id == pid)

abbrev pub is_named : String → Permission → Bool
is_named name p = str_eq p.name name

abbrev pub role_exists : Db → ℕ → Bool
role_exists db rid = any (λ r. r.id == rid) db.roles

-- INSERT ... ON CONFLICT (role_id, user_id) DO UPDATE SET deleted = FALSE
unfoldable pub add_member_sql : Db → ℕ → ℕ → Option Db
add_member_sql db rid uid =
    if any (is_member_row rid uid) db.role_members
    then some (record db {
      role_members =
          update (is_member_row rid uid) (λ m. record m { deleted = false }) db.role_members;
    })
    else if role_exists db rid && any (λ u. u == uid) db.users
    then some (record db {
      role_members =
          db.role_members ++ record { role_id = rid; user_id = uid; deleted = false } ∷ [];
    })
    else none

unfoldable pub remove_member_sql : Db → ℕ → ℕ → Db
remove_member_sql db rid uid = record db {
  role_members = update (is_member_row rid uid) (λ m. record m { deleted = true }) db.role_members;
}

-- One inserted row for each permission of the SELECT, ON CONFLICT DO NOTHING.
unfoldable pub insert_grants : ℕ → List Permission → List RolePermission → List RolePermission
insert_grants rid [] rows = rows
insert_grants rid (p ∷ ps) rows = insert_grants rid ps (
    if any (is_grant_row rid p.id) rows
    then rows
    else rows ++ record { role_id = rid; permission_id = p.id } ∷ [])

abbrev pub no_rows : {A : Type 0} → List A → Bool
no_rows [] = true
no_rows (x ∷ xs) = false

unfoldable pub grant_sql : Db → ℕ → String → Option Db
grant_sql db rid name =
    let ps = select (is_named name) db.permissions in
    if no_rows ps || role_exists db rid
    then some (record db { role_permissions = insert_grants rid ps db.role_permissions })
    else none

-- The subquery takes the permission of the name, of which there is one: names are UNIQUE.
unfoldable pub revoke_sql : Db → ℕ → String → Db
revoke_sql db rid name = elim (first (is_named name) db.permissions) [
  | none ↦ db
  | some p ↦ record db {
    role_permissions = select (λ g. not (is_grant_row rid p.id g)) db.role_permissions;
  }
]

-- ON CONFLICT DO UPDATE SET effect
unfoldable pub upsert_overwrite : ℕ → TargetType → ℕ → Effect → ℕ → List Overwrite → List Overwrite
upsert_overwrite ch tt tid effect pid rows =
    if any (is_overwrite_row ch tt tid pid) rows
    then update (is_overwrite_row ch tt tid pid) (λ o. record o { effect = effect }) rows
    else rows
      ++ record {
        channel_id = ch;
        target_type = tt;
        target_id = tid;
        permission_id = pid;
        effect = effect;
      }
        ∷ []

-- One upsert for each permission of the SELECT.
unfoldable pub upsert_overwrites :
    ℕ → TargetType → ℕ → Effect → List Permission → List Overwrite → List Overwrite
upsert_overwrites ch tt tid effect [] rows = rows
upsert_overwrites ch tt tid effect (p ∷ ps) rows =
    upsert_overwrites ch tt tid effect ps (upsert_overwrite ch tt tid effect p.id rows)

unfoldable pub set_overwrite_sql : Db → ℕ → TargetType → ℕ → String → Effect → Option Db
set_overwrite_sql db ch tt tid name effect =
    let ps = select (is_named name) db.permissions in
    if no_rows ps || any (λ c. c.id == ch) db.channels
    then some (record db { overwrites = upsert_overwrites ch tt tid effect ps db.overwrites })
    else none

unfoldable pub delete_overwrite_sql : Db → ℕ → TargetType → ℕ → String → Db
delete_overwrite_sql db ch tt tid name = elim (first (is_named name) db.permissions) [
  | none ↦ db
  | some p ↦ record db {
    overwrites = select (λ o. not (is_overwrite_row ch tt tid p.id o)) db.overwrites;
  }
]

abbrev pub target_type_of : String → Option TargetType
target_type_of s =
    if str_eq s "role" then some role else if str_eq s "user" then some user else none

abbrev pub effect_of : String → Option Effect
effect_of s = if str_eq s "allow" then some allow else if str_eq s "deny" then some deny else none

module _ (codec : UuidCodec) where
  open codec use {parse}

  abbrev pub uuid : Text → Result ℕ
  uuid s = from_option invalid_uuid (parse s)

  abbrev pub run_exec : Pool → Option Db → Result (Option Pool)
  run_exec c none = err query_failed
  run_exec c (some db) =
      if c.fails exec_query then err query_failed else ok (some (record c { db = db }))

  unfoldable pub add_user_to_role : Option Pool → Text → Text → Result (Option Pool)
  add_user_to_role none user_id role_id = ok none
  add_user_to_role (some c) user_id role_id = do
    uid ← uuid user_id
    rid ← uuid role_id
    run_exec c (add_member_sql c.db rid uid)

  unfoldable pub remove_user_from_role : Option Pool → Text → Text → Result (Option Pool)
  remove_user_from_role none user_id role_id = ok none
  remove_user_from_role (some c) user_id role_id = do
    uid ← uuid user_id
    rid ← uuid role_id
    run_exec c (some (remove_member_sql c.db rid uid))

  unfoldable pub grant_role_permission : Option Pool → Text → String → Result (Option Pool)
  grant_role_permission none role_id relation = ok none
  grant_role_permission (some c) role_id relation = do
    name ← from_option unknown_relation (relation_to_name relation)
    rid ← uuid role_id
    run_exec c (grant_sql c.db rid name)

  unfoldable pub revoke_role_permission : Option Pool → Text → String → Result (Option Pool)
  revoke_role_permission none role_id relation = ok none
  revoke_role_permission (some c) role_id relation = do
    name ← from_option unknown_relation (relation_to_name relation)
    rid ← uuid role_id
    run_exec c (some (revoke_sql c.db rid name))

  unfoldable pub set_channel_override :
      Option Pool → Text → String → Text → String → String → Result (Option Pool)
  set_channel_override none channel_id target_type target_id relation effect = ok none
  set_channel_override (some c) channel_id target_type target_id relation effect = do
    tt ← from_option invalid_target_type (target_type_of target_type)
    e ← from_option invalid_effect (effect_of effect)
    name ← from_option unknown_relation (relation_to_name relation)
    ch ← uuid channel_id
    tid ← uuid target_id
    run_exec c (set_overwrite_sql c.db ch tt tid name e)

  -- A target type that the column cannot hold matches no row.
  abbrev delete_matching : Pool → ℕ → Option TargetType → ℕ → String → Db
  delete_matching c ch none tid name = c.db
  delete_matching c ch (some tt) tid name = delete_overwrite_sql c.db ch tt tid name

  unfoldable pub delete_channel_override :
      Option Pool → Text → String → Text → String → Result (Option Pool)
  delete_channel_override none channel_id target_type target_id relation = ok none
  delete_channel_override (some c) channel_id target_type target_id relation = do
    name ← from_option unknown_relation (relation_to_name relation)
    ch ← uuid channel_id
    tid ← uuid target_id
    run_exec c (some (delete_matching c ch (target_type_of target_type) tid name))
