-- ===== src/Authz/Grants.antt =====
-- Who has a permission, stated over the rows: the owner of the guild, and the live members of a
-- live
-- role of it to which the permission or ADMINISTRATOR is granted.
use mathlib.Core.Path.{fun_ext}
use incord.Authz.Names.{user_key, guild_key, trim_prefix, relation_to_name}
use incord.Authz.Tables.{
  Db, Guild, Role, RoleMember, RolePermission, Permission, administrator, is_owner, has_role, holds,
  role_grants, granted, check_sql, is_name_or_admin, is_admin_name, owner_or_admin_sql,
}
use incord.Authz.Pool.{UuidCodec, Pool, check_query}
use incord.Authz.Checks.{check}
use incord.Base.{
  ◌++◌, any, length, drop, has_prefix-append, ℕ, ◌≡◌, ◌↔◌, refl, sym, ◌∙◌, Bool, true, false, not,
  ◌&&◌, some, List, [], ◌∷◌, String, str_eq, eq_iff, arith, Bool-cases, inl, inr, ◌⊎◌, In,
  any_sound, any_complete, ◌==◌, Text, codes,
}

drop-length : (p s : Text) → drop (length p) (p ++ s) ≡ s
drop-length [] s = refl
drop-length (c ∷ p) s = drop-length p s

-- TrimPrefix undoes the prefix of a key.
pub trim_prefix-append : (p s : Text) → trim_prefix (p ++ s) p ≡ s
unfolding trim_prefix
trim_prefix-append p s = rw has_prefix-append (drop-length p s)

pub data Grants (db : Db) (uid gid : ℕ) (name : String) : Type 0 where
  by_owner :
      (g : Guild)
      → In g db.guilds
      → g.id ≡ gid
      → g.owner_id ≡ uid
      → g.deleted ≡ false
      → Grants db uid gid name
  by_role :
      (rm : RoleMember) (r : Role) (rp : RolePermission) (p : Permission)
      → In rm db.role_members
      → In r db.roles
      → In rp db.role_permissions
      → In p db.permissions
      → rm.user_id ≡ uid
      → rm.deleted ≡ false
      → r.id ≡ rm.role_id
      → r.guild_id ≡ gid
      → r.deleted ≡ false
      → rp.role_id ≡ r.id
      → p.id ≡ rp.permission_id
      → (p.name ≡ name) ⊎ (p.name ≡ administrator)
      → Grants db uid gid name

abbrev is_role : ℕ → ℕ → Role → Bool
is_role gid rid r = (r.id == rid) && (r.guild_id == gid) && not r.deleted

abbrev is_permission : (String → Bool) → ℕ → Permission → Bool
is_permission test pid p = (p.id == pid) && test p.name

abbrev is_grant : List Permission → (String → Bool) → ℕ → RolePermission → Bool
is_grant ps test rid rp = (rp.role_id == rid) && any (is_permission test rp.permission_id) ps

abbrev is_source : Db → ℕ → ℕ → (String → Bool) → RoleMember → Bool
is_source db uid gid test rm = holds db uid gid rm && role_grants db test rm.role_id

named_cases : (name n : String) → is_name_or_admin name n ≡ true → (n ≡ name) ⊎ (n ≡ administrator)
named_cases name n h = elim (Bool-cases (str_eq n name)) [
  | inl e ↦ inl ((eq_iff n name).0 e)
  | inr e ↦ inr ((eq_iff n administrator).0 (ground (arith, e, h)))
]

named_intro : (name n : String) → (n ≡ name) ⊎ (n ≡ administrator) → is_name_or_admin name n ≡ true
named_intro name n (inl e) = ground (arith, (eq_iff n name).1 e)
named_intro name n (inr e) = ground (arith, (eq_iff n administrator).1 e)

role_parts :
    (gid rid : ℕ) (r : Role)
    → is_role gid rid r ≡ true
    → (r.id ≡ rid) × (r.guild_id ≡ gid) × (r.deleted ≡ false)
role_parts gid rid r h = ground arith

permission_parts :
    (test : String → Bool) (pid : ℕ) (p : Permission)
    → is_permission test pid p ≡ true
    → (p.id ≡ pid) × (test p.name ≡ true)
permission_parts test pid p h = ground arith

grant_parts :
    (ps : List Permission) (test : String → Bool) (rid : ℕ) (rp : RolePermission)
    → is_grant ps test rid rp ≡ true
    → (rp.role_id ≡ rid) × (any (is_permission test rp.permission_id) ps ≡ true)
grant_parts ps test rid rp h = ground arith

source_parts :
    (db : Db) (uid gid : ℕ) (test : String → Bool) (rm : RoleMember)
    → is_source db uid gid test rm ≡ true
    → (rm.user_id ≡ uid)
      × (rm.deleted ≡ false)
      × (any (is_role gid rm.role_id) db.roles ≡ true)
      × (any (is_grant db.permissions test rm.role_id) db.role_permissions ≡ true)
unfolding has_role role_grants
source_parts db uid gid test rm h = ground arith

module _ (db : Db) (uid gid : ℕ) (name : String) where
  owner-Grants : is_owner db uid gid ≡ true → Grants db uid gid name
  unfolding is_owner
  owner-Grants h =
      let (g, i, e) =
        any_sound (λ g. (g.id == gid) && (g.owner_id == uid) && not g.deleted) db.guilds h in
      by_owner g i (ground arith) (ground arith) (ground arith)

  granted-Grants : granted db (is_name_or_admin name) uid gid ≡ true → Grants db uid gid name
  unfolding granted
  granted-Grants h =
      let test = is_name_or_admin name in
      let (rm, i, a) = any_sound (is_source db uid gid test) db.role_members h in
      let (is_user, live, has_r, has_g) = source_parts db uid gid test rm a in
      let (r, j, b) = any_sound (is_role gid rm.role_id) db.roles has_r in
      let (r_id, r_guild, r_live) = role_parts gid rm.role_id r b in
      let (rp, k, c) =
        any_sound (is_grant db.permissions test rm.role_id) db.role_permissions has_g in
      let (rp_role, has_p) = grant_parts db.permissions test rm.role_id rp c in
      let (p, l, d) = any_sound (is_permission test rp.permission_id) db.permissions has_p in
      let (p_id, p_name) = permission_parts test rp.permission_id p d in
      by_role rm r rp p i j k l is_user live r_id r_guild r_live (rp_role ∙ sym r_id) p_id
        (named_cases name p.name p_name)

  check_sql-Grants : check_sql db uid gid name ≡ true → Grants db uid gid name
  unfolding check_sql
  check_sql-Grants h = elim (Bool-cases (is_owner db uid gid)) [
    | inl e ↦ owner-Grants e
    | inr e ↦ granted-Grants (ground (arith, e, h))
  ]

  Grants-check_sql : Grants db uid gid name → check_sql db uid gid name ≡ true
  unfolding check_sql is_owner granted has_role role_grants
  Grants-check_sql (by_owner g i a b c) = ground (
    arith,
    any_complete (λ g. (g.id == gid) && (g.owner_id == uid) && not g.deleted) g db.guilds i,
  )
  Grants-check_sql (by_role rm r rp p i j k l a b c d e f g h) =
      let test = is_name_or_admin name in
      let named : is_name_or_admin name p.name ≡ true = named_intro name p.name h in
      let ps : any (is_permission test rp.permission_id) db.permissions ≡ true =
        any_complete (is_permission test rp.permission_id) p db.permissions l
          (ground (arith, named)) in
      let rps : any (is_grant db.permissions test rm.role_id) db.role_permissions ≡ true =
        any_complete (is_grant db.permissions test rm.role_id) rp db.role_permissions k
          (ground (arith, ps)) in
      let rs : any (is_role gid rm.role_id) db.roles ≡ true =
        any_complete (is_role gid rm.role_id) r db.roles j (ground arith) in
      let rms : any (is_source db uid gid test) db.role_members ≡ true =
        any_complete (is_source db uid gid test) rm db.role_members i (ground (arith, rs, rps)) in
      ground (arith, rms)

-- The rows that grant ADMINISTRATOR are those that isOwnerOrAdmin looks for.
pub Grants-owner_or_admin_sql :
    (db : Db) (uid gid : ℕ) → Grants db uid gid administrator → owner_or_admin_sql db uid gid ≡ true
unfolding owner_or_admin_sql check_sql
Grants-owner_or_admin_sql db uid gid g =
    let same : is_name_or_admin administrator ≡ is_admin_name = fun_ext (λ n. ground arith) in
    rw (← same, Grants-check_sql db uid gid administrator g)

module _ (codec : UuidCodec) (c : Pool) (user_id guild_id : Text) (uid gid : ℕ)
    (relation name : String) where
  pub check_lem :
      c.fails check_query ≡ false
      → codec.parse user_id ≡ some uid
      → codec.parse guild_id ≡ some gid
      → relation_to_name relation ≡ some name
      → check codec (some c) (user_key user_id) relation (guild_key guild_id)
        ≡ check_sql c.db uid gid name
  unfolding check
  check_lem up pu pg known = rw known (
      rw (trim_prefix-append (codes "user:") user_id)
        (rw pu (rw (trim_prefix-append (codes "guild:") guild_id) (rw (pg, up)))))

  -- A check whose ids parse, whose relation is known and whose query answers says yes if and only
  -- if
  -- the rows grant the permission.
  pub check-Grants :
      c.fails check_query ≡ false
      → codec.parse user_id ≡ some uid
      → codec.parse guild_id ≡ some gid
      → relation_to_name relation ≡ some name
      → (check codec (some c) (user_key user_id) relation (guild_key guild_id) ≡ true)
        ↔ Grants c.db uid gid name
  check-Grants up pu pg known = (
    λ h. check_sql-Grants c.db uid gid name (sym (check_lem up pu pg known) ∙ h),
    λ g. check_lem up pu pg known ∙ Grants-check_sql c.db uid gid name g,
  )
