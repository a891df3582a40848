-- ===== src/Guilds/Rows.antt =====
-- The rows of the guild service (internal/features/guild) beyond those of the permission client,
-- and its queries of gen/db/guilds.sql.go and gen/db/roles.sql.go. A statement that finds no row or
-- breaks a key is `none`.
use incord.Authz.Tables.{Db, Guild, Role, Channel}
use incord.Base.{
  ℕ, ◌+◌, Bool, true, false, not, ◌&&◌, Option, none, some, List, [], ◌∷◌, ◌++◌, Text, codes, any,
  first, select, update, text_eq, length, ◌==◌, if◌then◌else◌,
}
use incord.Base.Int.{ℤ}

pub record Member : Type 0 where
  pub guild_id : ℕ
  pub user_id : ℕ
  pub nickname : Text
  pub invite_code : Option Text
  pub invited_by : Option ℕ
  pub deleted : Bool

pub record Ban : Type 0 where
  pub guild_id : ℕ
  pub user_id : ℕ
  pub reason : Text
  pub deleted : Bool

pub record Invite : Type 0 where
  pub code : Text
  pub guild_id : ℕ
  pub channel_id : ℕ
  pub creator_id : ℕ
  pub max_uses : ℕ
  pub uses : ℕ
  pub expires_at : Option ℕ
  pub deleted : Bool

pub record InviteUse : Type 0 where
  pub invite_code : Text
  pub guild_id : ℕ
  pub user_id : ℕ
  pub inviter_id : ℕ

pub record Tables : Type 0 where
  pub db : Db
  pub members : List Member
  pub bans : List Ban
  pub invites : List Invite
  pub invite_uses : List InviteUse

abbrev pub is_member_key : ℕ → ℕ → Member → Bool
is_member_key gid uid m = (m.guild_id == gid) && (m.user_id == uid)

abbrev pub is_ban_key : ℕ → ℕ → Ban → Bool
is_ban_key gid uid b = (b.guild_id == gid) && (b.user_id == uid)

abbrev pub guild_exists : Db → ℕ → Bool
guild_exists db gid = any (λ g. g.id == gid) db.guilds

abbrev pub user_exists : Db → ℕ → Bool
user_exists db uid = any (λ u. u == uid) db.users

-- What COALESCE does with an optional column.
abbrev pub coalesce : {A : Type 0} → Option A → A → A
coalesce none a = a
coalesce (some b) a = b

-- The optional columns of UpdateGuildParams.
pub record GuildParams : Type 0 where
  pub name : Option Text
  pub description : Option Text
  pub icon_url : Option Text
  pub banner_url : Option Text

pub record RoleParams : Type 0 where
  pub id : ℕ
  pub name : Option Text
  pub color : Option Text
  pub position : Option ℤ

abbrev pub with_params : GuildParams → Guild → Guild
with_params p g = record g {
  name = coalesce p.name g.name;
  description = coalesce p.description g.description;
  icon_url = coalesce p.icon_url g.icon_url;
  banner_url = coalesce p.banner_url g.banner_url;
}

abbrev pub with_role_params : RoleParams → Role → Role
with_role_params p r = record r {
  name = coalesce p.name r.name;
  color = coalesce p.color r.color;
  position = coalesce p.position r.position;
}

-- The row that `UPDATE ... RETURNING` returns.
abbrev pub returned : {A : Type 0} → (A → Bool) → (A → A) → List A → Option (List A × A)
returned p f rows = elim (first p rows) [ none ↦ none | some r ↦ some (update p f rows, f r) ]

unfoldable pub create_guild_sql : Db → Guild → Option (Db × Guild)
unfolding any
create_guild_sql db g =
    if user_exists db g.owner_id && not (guild_exists db g.id)
    then some (record db { guilds = db.guilds ++ g ∷ [] }, g)
    else none

unfoldable pub get_guild_sql : Db → ℕ → Option Guild
get_guild_sql db gid = first (λ g. (g.id == gid) && not g.deleted) db.guilds

abbrev pub with_guilds : Db → Option (List Guild × Guild) → Option (Db × Guild)
with_guilds db none = none
with_guilds db (some (gs, g)) = some (record db { guilds = gs }, g)

unfoldable pub update_guild_sql : Db → ℕ → GuildParams → Option (Db × Guild)
update_guild_sql db gid p = with_guilds db (returned (λ g. g.id == gid) (with_params p) db.guilds)

unfoldable pub transfer_sql : Db → ℕ → ℕ → Option (Db × Guild)
transfer_sql db gid owner =
    if user_exists db owner
    then with_guilds db (returned (λ g. g.id == gid) (λ g. record g { owner_id = owner }) db.guilds)
    else none

unfoldable pub delete_guild_sql : Db → ℕ → Db
delete_guild_sql db gid = record db {
  guilds = update (λ g. g.id == gid) (λ g. record g { deleted = true }) db.guilds;
}

-- INSERT ... ON CONFLICT (guild_id, user_id) DO UPDATE, with the new columns.
unfoldable pub add_member_row : Db → List Member → Member → Option (List Member)
add_member_row db ms m =
    if any (is_member_key m.guild_id m.user_id) ms
    then some (
        update (is_member_key m.guild_id m.user_id)
          (λ o. record o {
            deleted = false;
            nickname = m.nickname;
            invite_code = m.invite_code;
            invited_by = m.invited_by;
          })
          ms)
    else if guild_exists db m.guild_id && user_exists db m.user_id
    then some (ms ++ m ∷ [])
    else none

unfoldable pub remove_member_row : List Member → ℕ → ℕ → List Member
remove_member_row ms gid uid = update (is_member_key gid uid) (λ o. record o { deleted = true }) ms

unfoldable pub get_member : List Member → ℕ → ℕ → Option Member
get_member ms gid uid = first (λ m. is_member_key gid uid m && not m.deleted) ms

unfoldable pub count_members : List Member → ℕ → ℕ
unfolding select
count_members ms gid = length (select (λ m. (m.guild_id == gid) && not m.deleted) ms)

unfoldable pub create_ban_row : Db → List Ban → Ban → Option (List Ban)
create_ban_row db bs b =
    if any (is_ban_key b.guild_id b.user_id) bs
    then some (
        update (is_ban_key b.guild_id b.user_id)
          (λ o. record o { deleted = false; reason = b.reason }) bs)
    else if guild_exists db b.guild_id && user_exists db b.user_id
    then some (bs ++ b ∷ [])
    else none

unfoldable pub delete_ban_row : List Ban → ℕ → ℕ → List Ban
delete_ban_row bs gid uid = update (is_ban_key gid uid) (λ o. record o { deleted = true }) bs

unfoldable pub get_ban : List Ban → ℕ → ℕ → Option Ban
get_ban bs gid uid = first (λ b. is_ban_key gid uid b && not b.deleted) bs

abbrev pub has_code : Text → Invite → Bool
has_code code i = text_eq i.code code

unfoldable pub create_invite_row : Db → List Invite → Invite → Option (List Invite)
create_invite_row db is i =
    if not (any (has_code i.code) is)
      && guild_exists db i.guild_id
      && any (λ c. c.id == i.channel_id) db.channels
      && user_exists db i.creator_id
    then some (is ++ i ∷ [])
    else none

unfoldable pub get_invite : List Invite → Text → Option Invite
get_invite is code = first (λ i. has_code code i && not i.deleted) is

unfoldable pub increment_uses : List Invite → Text → List Invite
increment_uses is code = update (has_code code) (λ i. record i { uses = i.uses + 1 }) is

unfoldable pub create_role_sql : Db → Role → Option (Db × Role)
create_role_sql db r =
    if guild_exists db r.guild_id && not (any (λ o. o.id == r.id) db.roles)
    then some (record db { roles = db.roles ++ r ∷ [] }, r)
    else none

unfoldable pub get_role_sql : Db → ℕ → Option Role
get_role_sql db rid = first (λ r. (r.id == rid) && not r.deleted) db.roles

abbrev pub with_roles : Db → Option (List Role × Role) → Option (Db × Role)
with_roles db none = none
with_roles db (some (rs, r)) = some (record db { roles = rs }, r)

unfoldable pub update_role_sql : Db → RoleParams → Option (Db × Role)
update_role_sql db p = with_roles db (returned (λ r. r.id == p.id) (with_role_params p) db.roles)

unfoldable pub delete_role_sql : Db → ℕ → Db
delete_role_sql db rid = record db {
  roles = update (λ r. r.id == rid) (λ r. record r { deleted = true }) db.roles;
}

unfoldable pub guild_roles : Db → ℕ → List Role
guild_roles db gid = select (λ r. (r.guild_id == gid) && not r.deleted) db.roles

unfoldable pub get_everyone_role : Db → ℕ → Option Role
get_everyone_role db gid =
    first (λ r. (r.guild_id == gid) && text_eq r.name (codes "@everyone") && not r.deleted) db.roles

-- The live guilds that the user is a live member of, one row for each of the user's rows.
unfoldable pub user_guilds : Tables → ℕ → List Guild
user_guilds t uid =
    select (λ g. not g.deleted && any (λ m. is_member_key g.id uid m && not m.deleted) t.members)
      t.db.guilds

unfoldable pub guild_channels : Db → ℕ → List Channel
guild_channels db gid = select (λ c. in_guild gid c.guild_id && not c.deleted) db.channels
  where
    in_guild : ℕ → Option ℕ → Bool
    in_guild g none = false
    in_guild g (some h) = h == g
