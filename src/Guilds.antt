-- ===== src/Guilds.antt =====
-- internal/features/guild/service.go: the state of the service, its events and its calls of the
-- database and of the permission client. The children have the operations.
use incord.Authz.Tables.{Db, Role}
use incord.Authz.Pool.{UuidCodec, Pool}
use incord.Authz.Lists.{list_role_permissions}
use incord.Guilds.Rows.{Tables}
use incord.Base.{
  ℕ, Bool, true, false, Option, none, some, List, [], ◌∷◌, ◌++◌, String, Text, codes, str_eq,
  if◌then◌else◌,
}
use incord.Base.Int.{ℤ, pos}
use incord.Base.Action.{Action, Answer, ok, err}
use incord.Authz.Pool
use incord.Authz.Writes
pub mod Rows
pub mod Membership
pub mod Invites
pub mod Moderation
pub mod RoleCalls
pub mod Assets
pub mod Rules
mod Chains
pub mod Changes
mod Inversion
mod Traces
mod Refines
mod Joining
mod RoleTraces
pub mod Requests
mod Implements
mod RowLaws
mod GuildLaws
mod Outcomes
mod Departures
mod RoleOutcomes
mod Atomic
mod Errors
mod Owners
mod Bans
mod Counted
mod Uses
mod Examples

pub data GuildError : Type 0 where
  guild_not_found not_guild_owner not_guild_member owner_cannot_leave user_banned : GuildError
  user_not_banned invite_not_found invite_expired invite_max_uses role_not_found : GuildError
  member_not_found cannot_kick_owner cannot_ban_owner insufficient_permissions : GuildError
  invalid_permission failed : GuildError

-- The statements of the repository.
pub data Query : Type 0 where
  create_guild get_guild_by_id update_guild delete_guild transfer_guild list_user_guilds : Query
  add_guild_member remove_guild_member get_guild_member list_guild_members count_guild_members :
      Query
  create_ban delete_ban get_ban create_invite get_invite increment_invite_uses : Query
  record_invite_use list_guild_channels get_user_by_id create_role get_role_by_id update_role :
      Query
  delete_role list_guild_roles assign_role remove_role get_everyone_role : Query

pub data EventKind : Type 0 where
  update delete member_add member_remove member_ban member_unban : EventKind
  role_create role_update role_delete role_assign role_remove : EventKind

pub record RoleSnapshot : Type 0 where
  pub role_id : Text
  pub role_name : Text
  pub role_color : Text
  pub role_position : ℤ
  pub role_permissions : List String

-- A GuildEvent on the subject of its guild.
pub record Event : Type 0 where
  pub kind : EventKind
  pub guild_id : Text
  pub user_id : Text
  pub channel_id : Text
  pub name : Text
  pub icon_url : Text
  pub banner_url : Text
  pub role_id : Text
  pub reason : Text
  pub parent_id : Text
  pub topic : Text
  pub role : Option RoleSnapshot

pub record State : Type 0 where
  pub tables : Tables
  pub events : List Event

-- What a call finds outside: the codec of ids, whether there is a permission client and which of its
-- queries fail, which statements fail, the time, and the ids and the code that are drawn.
pub record Env : Type 0 where
  pub codec : UuidCodec
  pub has_authz : Bool
  pub authz_fails : Pool.Query → Bool
  pub fails : Query → Bool
  pub now : ℕ
  pub new_guild : ℕ
  pub new_role : ℕ
  pub new_code : Option Text

abbrev pub Call : Type 0 → Type 0
Call A = Action State GuildError A

abbrev pub from_option : {A : Type 0} → Option A → Answer GuildError A
from_option none = err failed
from_option (some a) = ok a

-- The typed fields that publishGuildEvent knows; another key is dropped.
unfoldable pub set_field : Event → String × Text → Event
set_field e (k, v) =
    if str_eq k "user_id"
    then record e { user_id = v }
    else if str_eq k "channel_id"
    then record e { channel_id = v }
    else if str_eq k "name"
    then record e { name = v }
    else if str_eq k "icon_url"
    then record e { icon_url = v }
    else if str_eq k "banner_url"
    then record e { banner_url = v }
    else if str_eq k "role_id"
    then record e { role_id = v }
    else if str_eq k "reason"
    then record e { reason = v }
    else if str_eq k "parent_id"
    then record e { parent_id = v }
    else if str_eq k "topic"
    then record e { topic = v }
    else e

unfoldable pub set_fields : Event → List (String × Text) → Event
unfolding set_field
set_fields e [] = e
set_fields e (x ∷ xs) = set_fields (set_field e x) xs

-- The extras of publishRoleEvent.
unfoldable pub set_role_fields : Event → List (String × Text) → Event
set_role_fields e [] = e
set_role_fields e ((k, v) ∷ xs) =
    set_role_fields
      (if str_eq k "user_id"
        then record e { user_id = v }
        else if str_eq k "reason"
        then record e { reason = v }
        else e)
      xs

abbrev plain_event : EventKind → Text → Event
plain_event kind gid = record {
  kind = kind;
  guild_id = gid;
  user_id = [];
  channel_id = [];
  name = [];
  icon_url = [];
  banner_url = [];
  role_id = [];
  reason = [];
  parent_id = [];
  topic = [];
  role = none;
}

abbrev or_nothing : Option (List String) → List String
or_nothing none = []
or_nothing (some ns) = ns

module _ (env : Env) where
  abbrev pub id_text : ℕ → Text
  id_text = env.codec.format

  abbrev pub client : State → Option Pool
  client s =
      if env.has_authz then some (record { db = s.tables.db; fails = env.authz_fails }) else none

  abbrev pub stated : {A : Type 0} → State → Option (Tables × A) → State × Answer GuildError A
  stated s none = (s, err failed)
  stated s (some (t, a)) = (record s { tables = t }, ok a)

  -- A statement that writes.
  unfoldable pub statement : {A : Type 0} → Query → (Tables → Option (Tables × A)) → Call A
  statement q f s = if env.fails q then (s, err failed) else stated s (f s.tables)

  -- A query that returns what it finds.
  unfoldable pub lookup : {A : Type 0} → Query → (Tables → Option A) → Call A
  lookup q f s = (s, if env.fails q then err failed else from_option (f s.tables))

  -- `if !s.authz.Can...(...) { return ErrInsufficientPermissions }`
  unfoldable pub permitted : (Option Pool → Bool) → Call (Unit {0})
  permitted test s = (s, if test (client s) then ok tt else err insufficient_permissions)

  abbrev pub settled : State → Writes.Result (Option Pool) → State × Answer GuildError (Unit {0})
  settled s (Writes.Result.ok none) = (s, ok tt)
  settled s (Writes.Result.ok (some p)) =
      (record s { tables = record s.tables { db = p.db } }, ok tt)
  settled s (Writes.Result.err e) = (s, err failed)

  -- A write of the permission client.
  unfoldable pub authz_write : (Option Pool → Writes.Result (Option Pool)) → Call (Unit {0})
  authz_write f s = settled s (f (client s))

  abbrev publish : Event → Call (Unit {0})
  publish e s = (record s { events = s.events ++ e ∷ [] }, ok tt)

  unfoldable pub publish_guild_event : ℕ → EventKind → List (String × Text) → Call (Unit {0})
  unfolding set_fields
  publish_guild_event gid kind extra = publish (set_fields (plain_event kind (id_text gid)) extra)

  abbrev role_event : EventKind → ℕ → Role → List (String × Text) → State → Event
  role_event kind gid r extra s =
      set_role_fields
        (record (plain_event kind (id_text gid)) {
          role_id = id_text r.id;
          role = some (record {
            role_id = id_text r.id;
            role_name = r.name;
            role_color = r.color;
            role_position = r.position;
            role_permissions =
                or_nothing (list_role_permissions env.codec (client s) (id_text r.id));
          });
        })
        extra

  unfoldable pub publish_role_event : ℕ → EventKind → Role → List (String × Text) → Call (Unit {0})
  unfolding set_role_fields list_role_permissions
  publish_role_event gid kind r extra s = publish (role_event kind gid r extra s) s
