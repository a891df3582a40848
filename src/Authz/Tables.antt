-- ===== src/Authz/Tables.antt =====
-- The rows that internal/shared/authz/client.go reads and writes (gen/db/models.go and
-- db/timescale/migrations), and its queries as searches through lists of rows. Ids are numbers.
-- Times and descriptive columns are left out. A join on a primary key is a search for the row.
use incord.Base.{
  ℕ, Bool, true, false, not, ◌&&◌, ◌||◌, Option, none, some, List, [], ◌∷◌, ◌++◌, map, String, Text,
  any, select, str_eq, ◌==◌, if◌then◌else◌,
}
use incord.Base.Int.{ℤ, negsuc, ltb_ℤ}

pub record Guild : Type 0 where
  pub id : ℕ
  pub owner_id : ℕ
  pub name : Text
  pub description : Text
  pub icon_url : Text
  pub banner_url : Text
  pub deleted : Bool

pub record Role : Type 0 where
  pub id : ℕ
  pub guild_id : ℕ
  pub name : Text
  pub color : Text
  pub position : ℤ
  pub deleted : Bool

pub record RoleMember : Type 0 where
  pub role_id : ℕ
  pub user_id : ℕ
  pub deleted : Bool

pub record RolePermission : Type 0 where
  pub role_id : ℕ
  pub permission_id : ℕ

pub record Permission : Type 0 where
  pub id : ℕ
  pub name : String

-- The two values that the CHECK constraint of each column allows.
pub data TargetType : Type 0 where
  role user : TargetType

pub data Effect : Type 0 where
  allow deny : Effect

pub record Overwrite : Type 0 where
  pub channel_id : ℕ
  pub target_type : TargetType
  pub target_id : ℕ
  pub permission_id : ℕ
  pub effect : Effect

pub record Channel : Type 0 where
  pub id : ℕ
  pub guild_id : Option ℕ
  pub deleted : Bool

pub record DmMember : Type 0 where
  pub channel_id : ℕ
  pub user_id : ℕ
  pub deleted : Bool

pub record Db : Type 0 where
  pub users : List ℕ
  pub guilds : List Guild
  pub roles : List Role
  pub role_members : List RoleMember
  pub role_permissions : List RolePermission
  pub permissions : List Permission
  pub overwrites : List Overwrite
  pub channels : List Channel
  pub dm_members : List DmMember

abbrev pub administrator : String
administrator = "ADMINISTRATOR"

abbrev pub is_admin_name : String → Bool
is_admin_name n = str_eq n administrator

abbrev pub is_name_or_admin : String → String → Bool
is_name_or_admin name n = str_eq n name || is_admin_name n

abbrev pub is_user_layer : Overwrite → Bool
is_user_layer o = elim o.target_type [ user ↦ true | role ↦ false ]

abbrev pub max_ℤ : ℤ → ℤ → ℤ
max_ℤ a b = if ltb_ℤ a b then b else a

abbrev pub higher : Option ℤ → ℤ → Option ℤ
higher none p = some p
higher (some q) p = some (max_ℤ q p)

unfoldable pub max_position : List Role → Option ℤ
max_position [] = none
max_position (r ∷ rs) = higher (max_position rs) r.position

abbrev pub or_minus_one : Option ℤ → ℤ
or_minus_one none = negsuc 0
or_minus_one (some p) = p

module _ (db : Db) where
  -- guilds.id = gid AND owner_id = uid AND deleted = FALSE
  unfoldable pub is_owner : ℕ → ℕ → Bool
  is_owner uid gid = any (λ g. (g.id == gid) && (g.owner_id == uid) && not g.deleted) db.guilds

  -- The role is a live one of the guild.
  unfoldable pub has_role : ℕ → ℕ → Bool
  has_role gid rid = any (λ r. (r.id == rid) && (r.guild_id == gid) && not r.deleted) db.roles

  -- role_members of the user, joined with the live roles of the guild.
  abbrev pub holds : ℕ → ℕ → RoleMember → Bool
  holds uid gid rm = (rm.user_id == uid) && not rm.deleted && has_role gid rm.role_id

  -- role_permissions of the role, joined with the permissions of a name that passes the test.
  unfoldable pub role_grants : (String → Bool) → ℕ → Bool
  role_grants test rid =
      any
        (λ rp.
          (rp.role_id == rid)
          && any (λ p. (p.id == rp.permission_id) && test p.name) db.permissions)
        db.role_permissions

  unfoldable pub granted : (String → Bool) → ℕ → ℕ → Bool
  granted test uid gid = any (λ rm. holds uid gid rm && role_grants test rm.role_id) db.role_members

  -- checkSQL
  unfoldable pub check_sql : ℕ → ℕ → String → Bool
  check_sql uid gid name = is_owner uid gid || granted (is_name_or_admin name) uid gid

  -- The query of isOwnerOrAdmin.
  unfoldable pub owner_or_admin_sql : ℕ → ℕ → Bool
  owner_or_admin_sql uid gid = is_owner uid gid || granted is_admin_name uid gid

  -- The user holds the role in the guild.
  unfoldable pub is_assigned : ℕ → ℕ → ℕ → Bool
  is_assigned uid gid rid = any (λ rm. (rm.role_id == rid) && holds uid gid rm) db.role_members

  -- No role matches a guild id that is NULL.
  abbrev pub targets : ℕ → Option ℕ → TargetType → ℕ → Bool
  targets uid gid user tid = tid == uid
  targets uid none role tid = false
  targets uid (some gid) role tid = is_assigned uid gid tid

  -- The WHERE clause of the override query.
  abbrev pub applies : ℕ → Option ℕ → ℕ → String → Overwrite → Bool
  applies uid gid ch name o =
      (o.channel_id == ch)
      && any (λ p. (p.id == o.permission_id) && str_eq p.name name) db.permissions
      && targets uid gid o.target_type o.target_id

  -- The rows of the override query, layer 2 (user) before layer 1 (role).
  unfoldable pub override_sql : ℕ → Option ℕ → ℕ → String → List (ℕ × Effect)
  override_sql uid gid ch name =
      let rows = select (applies uid gid ch name) db.overwrites in
      map (λ o. (2, o.effect)) (select is_user_layer rows)
      ++ map (λ o. (1, o.effect)) (select (λ o. not (is_user_layer o)) rows)

  -- COALESCE(MAX(r.position), -1) over the live roles that the user holds in the guild.
  unfoldable pub top_position : ℕ → ℕ → ℤ
  unfolding max_position is_assigned
  top_position uid gid = or_minus_one (
      max_position
        (select (λ r. (r.guild_id == gid) && not r.deleted && is_assigned uid gid r.id) db.roles))

  -- The query of CanActOn.
  unfoldable pub can_act_on_sql : ℕ → ℕ → ℕ → Bool
  can_act_on_sql actor target gid =
      not (is_owner target gid)
      && (is_owner actor gid || ltb_ℤ (top_position target gid) (top_position actor gid))

  unfoldable pub is_dm_member_sql : ℕ → ℕ → Bool
  is_dm_member_sql uid ch =
      any (λ m. (m.channel_id == ch) && (m.user_id == uid) && not m.deleted) db.dm_members
