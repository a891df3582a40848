-- ===== src/Guilds/Inversion.antt =====
-- What a statement of the guild repository that succeeds has done to the tables.
use mathlib.Core.Path.{subst}
use incord.Authz.Tables.{Db, Guild, Role}
use incord.Authz.Untouched.{SameGuilds}
use incord.Guilds.Rows.{
  Tables, Member, Ban, Invite, RoleParams, with_roles, with_guilds, create_role_sql,
  update_role_sql, delete_role_sql, create_guild_sql, add_member_row, guild_exists, user_exists,
}
use incord.Guilds.Membership.{on_db, with_db, with_members, with_invites}
use incord.Guilds.Moderation.{with_bans}
use incord.Base.{
  arith, any, any-append, ◌==◌, [], ◌∷◌, ◌≢◌, ℕ, Bool, true, false, if◌then◌else◌, ◌≡◌, refl, ap,
  Option, none, some, List,
}

abbrev tables_or : {A : Type 0} → Tables → Option (Tables × A) → Tables
tables_or d none = d
tables_or d (some (t, a)) = t

abbrev value_or : {A : Type 0} → A → Option (Tables × A) → A
value_or d none = d
value_or d (some (t, a)) = a

module _ {A : Type 0} (P : Tables → A → Type 0) where
  -- The statement that always succeeds.
  pub some-case :
      {t t' : Tables} {a b : A}
      → ◌≡◌ {A = Option (Tables × A)} (some (t, a)) (some (t', b))
      → P t a
      → P t' b
  some-case {t} {t'} {a} {b} e p =
      subst (λ u. P u b) (ap (tables_or t) e) (subst (P t) (ap (value_or a) e) p)

  pub on_db-case :
      (t : Tables) {t' : Tables} {b : A} {o : Option (Db × A)}
      → on_db t o ≡ some (t', b)
      → ((db : Db) (a : A) → o ≡ some (db, a) → P (record t { db = db }) a)
      → P t' b
  on_db-case t {o = none} e k = cc
  on_db-case t {o = some (db, a)} e k = some-case e (k db a refl)

  pub with_members-case :
      (t : Tables) {t' : Tables} {a b : A} {o : Option (List Member)}
      → with_members t a o ≡ some (t', b)
      → ((ms : List Member) → o ≡ some ms → P (record t { members = ms }) a)
      → P t' b
  with_members-case t {o = none} e k = cc
  with_members-case t {o = some ms} e k = some-case e (k ms refl)

  pub with_invites-case :
      (t : Tables) {t' : Tables} {a b : A} {o : Option (List Invite)}
      → with_invites t a o ≡ some (t', b)
      → ((is : List Invite) → o ≡ some is → P (record t { invites = is }) a)
      → P t' b
  with_invites-case t {o = none} e k = cc
  with_invites-case t {o = some is} e k = some-case e (k is refl)

module _ (P : Tables → Unit {0} → Type 0) where
  pub with_db-case :
      (t : Tables) {t' : Tables} {b : Unit {0}} {o : Option Db}
      → with_db t o ≡ some (t', b)
      → ((db : Db) → o ≡ some db → P (record t { db = db }) tt)
      → P t' b
  with_db-case t {o = none} e k = cc
  with_db-case t {o = some db} e k = some-case P e (k db refl)

  pub with_bans-case :
      (t : Tables) {t' : Tables} {b : Unit {0}} {o : Option (List Ban)}
      → with_bans t o ≡ some (t', b)
      → ((bs : List Ban) → o ≡ some bs → P (record t { bans = bs }) tt)
      → P t' b
  with_bans-case t {o = none} e k = cc
  with_bans-case t {o = some bs} e k = some-case P e (k bs refl)

module _ {A : Type 0} (P : Db → A → Type 0) where
  pub pair-case :
      {d d' : Db} {a b : A}
      → ◌≡◌ {A = Option (Db × A)} (some (d, a)) (some (d', b))
      → P d a
      → P d' b
  pair-case {d} {d'} {a} {b} e p =
      subst (λ x. P x b) (ap (db_of d) e) (subst (P d) (ap (with_of a) e) p)
    where
      db_of : Db → Option (Db × A) → Db
      db_of y none = y
      db_of y (some (x, z)) = x

      with_of : A → Option (Db × A) → A
      with_of y none = y
      with_of y (some (x, z)) = z

  pub if-case :
      (c : Bool) {d d' : Db} {a b : A}
      → ◌≡◌ {A = Option (Db × A)} (if c then some (d, a) else none) (some (d', b))
      → (c ≡ true → P d a)
      → P d' b
  if-case true e p = pair-case e (p refl)
  if-case false e p = cc

pub with_roles-case :
    (P : Db → Role → Type 0) (db : Db) {db' : Db} {b : Role} {o : Option (List Role × Role)}
    → with_roles db o ≡ some (db', b)
    → ((rs : List Role) (r : Role) → o ≡ some (rs, r) → P (record db { roles = rs }) r)
    → P db' b
with_roles-case P db {o = none} e k = cc
with_roles-case P db {o = some (rs, r)} e k = pair-case P e (k rs r refl)

pub with_guilds-case :
    (P : Db → Guild → Type 0) (db : Db) {db' : Db} {b : Guild} {o : Option (List Guild × Guild)}
    → with_guilds db o ≡ some (db', b)
    → ((gs : List Guild) (g : Guild) → o ≡ some (gs, g) → P (record db { guilds = gs }) g)
    → P db' b
with_guilds-case P db {o = none} e k = cc
with_guilds-case P db {o = some (gs, g)} e k = pair-case P e (k gs g refl)

pub create_role-SameGuilds :
    (db db' : Db) (r g : Role) → create_role_sql db r ≡ some (db', g) → SameGuilds db db'
unfolding create_role_sql
create_role-SameGuilds db db' r g h = if-case (λ x y. SameGuilds db x) _ h (λ c. (refl, refl))

pub update_role-SameGuilds :
    (db db' : Db) (p : RoleParams) (g : Role)
    → update_role_sql db p ≡ some (db', g)
    → SameGuilds db db'
unfolding update_role_sql
update_role-SameGuilds db db' p g h =
    with_roles-case (λ x y. SameGuilds db x) db h (λ rs r e. (refl, refl))

pub delete_role-SameGuilds : (db : Db) (rid : ℕ) → SameGuilds db (delete_role_sql db rid)
unfolding delete_role_sql
delete_role-SameGuilds db rid = (refl, refl)

any_self : (g : Guild) → any (λ o. o.id == g.id) (g ∷ []) ≡ true
unfolding any
any_self g = ground arith

-- The guild and its owner are there once it is created.
pub create_guild-exists :
    (db db' : Db) (g g' : Guild)
    → create_guild_sql db g ≡ some (db', g')
    → (guild_exists db' g'.id ≡ true) × (user_exists db' g.owner_id ≡ true)
unfolding create_guild_sql
create_guild-exists db db' g g' h =
    if-case (λ d x. (guild_exists d x.id ≡ true) × (user_exists d g.owner_id ≡ true)) _ h
      λ c. (
        ground (arith, any-append (λ o. o.id == g.id) db.guilds (g ∷ []), any_self g),
        ground (arith, c),
      )

pub add_member_row-some :
    (db : Db) (ms : List Member) (m : Member)
    → guild_exists db m.guild_id ≡ true
    → user_exists db m.user_id ≡ true
    → add_member_row db ms m ≢ none
unfolding add_member_row
add_member_row-some db ms m g u h = ground arith

pub with_members-none :
    {A : Type 0}
    → (t : Tables) (a : A) {o : Option (List Member)} → with_members t a o ≡ none
    → o ≡ none
with_members-none t a {o = none} e = refl
with_members-none t a {o = some ms} e = cc

-- A row whose keys may be missing.
pub row-case :
    (P : Tables → Type 0) (c : Bool) {t t' : Tables} {b : Unit {0}}
    → ◌≡◌ {A = Option (Tables × Unit {0})} (if c then some (t, tt) else none) (some (t', b))
    → P t
    → P t'
row-case P true e p = some-case (λ x y. P x) e p
row-case P false e p = cc
