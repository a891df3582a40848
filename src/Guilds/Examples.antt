-- ===== src/Guilds/Examples.antt =====
-- The guild theorems at a small server.
use incord.Authz.Tables.{Guild, is_assigned}
use incord.Authz.Names.{user_key, guild_key}
use incord.Authz.Pool.{UuidCodec}
use incord.Authz.Checks.{check}
use incord.Authz.Wrappers.{can_manage_roles, can_guild_permission}
use incord.Guilds.{Env, State, client}
use incord.Guilds.Rows.{Member, Invite, get_guild_sql, get_invite}
use incord.Guilds.Implements.{Lifts}
use incord.Guilds.Requests.{Request, handle, serve, Step}
use incord.Guilds.Membership.{create_guild}
use incord.Guilds.Invites.{join_guild}
use incord.Guilds.Moderation.{leave_guild, kick_member, ban_member, transfer_ownership}
use incord.Guilds.RoleCalls.{grant_role}
use incord.Guilds.Outcomes.{Joined, join_guild-Joined}
use incord.Guilds.Departures.{Kicked, Banned, kick_member-Kicked, ban_member-Banned}
use incord.Guilds.RoleOutcomes.{Transferred, grant_role-granted, transfer_ownership-Transferred}
use incord.Guilds.Errors.{handle_error}
use incord.Guilds.Bans.{IsOut, serve-IsOut}
use incord.Guilds.Owners.{owner_is_member}
use incord.Guilds.Counted.{Counted}
use incord.Guilds.Uses.{is_within, uses_bounded}
use incord.Guilds.RowLaws.{is_in}
use incord.Base.{any, first, select, update, text_eq}
use incord.Base.Action.{◌>>=◌, or_raise, ignore, attempt, raise_if, raise_unless}
use incord.Guilds.{
  statement, lookup, permitted, authz_write, publish_guild_event, publish_role_event, set_field,
  set_fields, set_role_fields,
}
use incord.Guilds.Rows.{
  create_guild_sql, transfer_sql, add_member_row, remove_member_row, get_member, count_members,
  create_ban_row, delete_ban_row, get_ban, create_invite_row, increment_uses, create_role_sql,
  get_role_sql, get_everyone_role, guild_channels,
}
use incord.Guilds.Membership.{ensure_everyone_role, assign_everyone_role, remove_everyone_role}
use incord.Guilds.Invites.{build_join_result, usable_invite, refuse_banned, admit}
use incord.Guilds.Moderation.{create_invite}
use incord.Guilds.Requests.{respond, succeeds}
use incord.Guilds.Errors.{is_atomic}
use incord.Guilds.GuildLaws.{owns}
use incord.Authz.Checks.{can_act_on}
use incord.Authz.Tables.{
  check_sql, is_owner, has_role, role_grants, granted, can_act_on_sql, top_position, max_position,
}
use incord.Authz.Wrappers.{can_kick, can_ban, can_manage_invites}
use incord.Authz.Names.{trim_prefix, relation_to_name, permission_relation, assoc, invert}
use incord.Authz.Writes.{
  add_member_sql, remove_member_sql, add_user_to_role, remove_user_from_role, grant_role_permission,
  grant_sql, insert_grants,
}
use incord.Authz.Lists.{list_role_permissions}
use incord.Base.{arith, ℕ, ◌≡◌, refl, true, false, Option, none, some, List, [], ◌∷◌, Text, codes}
use incord.Base.Int.{pos}

abbrev parse_byte : Text → Option ℕ
parse_byte [] = none
parse_byte (u ∷ []) = some u
parse_byte (u ∷ v ∷ t) = none

-- Ids of one byte.
abbrev byte_codec : UuidCodec
byte_codec = record {
  parse = parse_byte;
  format = λ u. u ∷ [];
  parse-format = λ u. refl;
  parse-nil = refl;
}

abbrev calm : Env
calm = record {
  codec = byte_codec;
  has_authz = true;
  authz_fails = λ q. false;
  fails = λ q. false;
  now = 100;
  new_guild = 11;
  new_role = 22;
  new_code = some (codes "new");
}

abbrev ten : Guild
ten = record {
  id = 10;
  owner_id = 1;
  name = codes "ten";
  description = [];
  icon_url = [];
  banner_url = [];
  deleted = false;
}

abbrev person : ℕ → Member
person uid = record {
  guild_id = 10;
  user_id = uid;
  nickname = [];
  invite_code = none;
  invited_by = none;
  deleted = false;
}

abbrev one_use : Invite
one_use = record {
  code = codes "abc";
  guild_id = 10;
  channel_id = 40;
  creator_id = 1;
  max_uses = 1;
  uses = 0;
  expires_at = some 200;
  deleted = false;
}

-- The owner 1 and the member 2 of the guild 10; 3 is banned from it, 4 is not in it.
abbrev server : State
server = record {
  tables = record {
    db = record {
      users = 1 ∷ 2 ∷ 3 ∷ 4 ∷ [];
      guilds = ten ∷ [];
      roles =
          record {
            id = 20;
            guild_id = 10;
            name = codes "mod";
            color = [];
            position = pos 1;
            deleted = false;
          }
          ∷ [];
      role_members = record { role_id = 20; user_id = 2; deleted = false } ∷ [];
      role_permissions = [];
      permissions = record { id = 30; name = "SEND_MESSAGES" } ∷ [];
      overwrites = [];
      channels = record { id = 40; guild_id = some 10; deleted = false } ∷ [];
      dm_members = [];
    };
    members = person 1 ∷ person 2 ∷ [];
    bans = record { guild_id = 10; user_id = 3; reason = []; deleted = false } ∷ [];
    invites = one_use ∷ [];
    invite_uses = [];
  };
  events = [];
}

abbrev joining : Request
joining = Request.join_guild 4 (codes "abc")

abbrev knocking : List Step
knocking =
    (calm, Request.join_guild 3 (codes "abc"))
    ∷ (calm, Request.unban_member 1 10 2)
    ∷ (calm, Request.kick_member 1 10 2)
    ∷ []

serve-IsOut_example : IsOut 10 3 (serve knocking server).tables
unfolding any Lifts
serve-IsOut_example =
    serve-IsOut 10 3 knocking server
      ((refl, (λ l. l)), ((refl, (λ l. other l.1)), ((refl, (λ l. l)), tt))) (refl, refl, refl)
  where
    other : ◌≡◌ {A = ℕ} 2 3 → ⊥
    other e = omega arith

-- Nothing but the users 1 to 4.
abbrev empty : State
empty = record {
  tables = record {
    db = record server.tables.db {
      guilds = [];
      roles = [];
      role_members = [];
      channels = record { id = 40; guild_id = some 11; deleted = false } ∷ [];
    };
    members = [];
    bans = [];
    invites = [];
    invite_uses = [];
  };
  events = [];
}

abbrev founding : List Step
founding =
    (calm, Request.create_guild 1 (codes "new") [] []) ∷ (calm, Request.leave_guild 1 11) ∷ []

abbrev founded : Guild
founded = record ten { id = 11; name = codes "new" }

owner_is_member_example : is_in (serve founding empty).tables.members 11 1 ≡ true
unfolding serve handle respond succeeds create_guild leave_guild owns any first select update
    text_eq ◌>>=◌ or_raise ignore attempt raise_if raise_unless statement lookup permitted
    authz_write publish_guild_event publish_role_event set_field set_fields create_guild_sql
    get_guild_sql transfer_sql add_member_row remove_member_row get_member count_members
    create_ban_row delete_ban_row get_ban create_invite_row get_invite increment_uses
    create_role_sql get_role_sql get_everyone_role guild_channels ensure_everyone_role
    assign_everyone_role remove_everyone_role check check_sql is_owner granted has_role role_grants
    can_act_on can_act_on_sql top_position max_position trim_prefix can_kick can_ban
    can_manage_invites can_manage_roles can_guild_permission relation_to_name permission_relation
    assoc invert add_member_sql remove_member_sql add_user_to_role remove_user_from_role
owner_is_member_example =
    owner_is_member founding empty 11 founded (refl, (refl, tt)) (λ gid uid h. cc) refl

abbrev inviting : List Step
inviting =
    (calm, Request.create_guild 1 (codes "new") [] [])
    ∷ (calm, Request.create_invite 1 11 40 1 0)
    ∷ (calm, Request.join_guild 4 (codes "new"))
    ∷ (calm, Request.join_guild 2 (codes "new"))
    ∷ []

abbrev spent : Invite
spent = record {
  code = codes "new";
  guild_id = 11;
  channel_id = 40;
  creator_id = 1;
  max_uses = 1;
  uses = 1;
  expires_at = none;
  deleted = false;
}

uses_bounded_example : is_within spent ≡ true
unfolding serve handle respond succeeds create_guild create_invite any first select update text_eq
    ◌>>=◌ or_raise ignore attempt raise_if raise_unless statement lookup permitted authz_write
    publish_guild_event publish_role_event set_field set_fields create_guild_sql get_guild_sql
    transfer_sql add_member_row remove_member_row get_member count_members create_ban_row
    delete_ban_row get_ban create_invite_row get_invite increment_uses create_role_sql get_role_sql
    get_everyone_role guild_channels ensure_everyone_role assign_everyone_role remove_everyone_role
    check check_sql is_owner granted has_role role_grants can_act_on can_act_on_sql top_position
    max_position trim_prefix can_kick can_ban can_manage_invites can_manage_roles
    can_guild_permission relation_to_name permission_relation assoc invert add_member_sql
    remove_member_sql add_user_to_role remove_user_from_role build_join_result usable_invite
    refuse_banned admit join_guild
uses_bounded_example = uses_bounded inviting empty (codes "new") spent (λ code i h. cc) refl

join_guild-Joined_example :
    Joined calm 4
      (codes "abc")
      server
      (record {
        guild = ten;
        channels = record { id = 40; guild_id = some 10; deleted = false } ∷ [];
        member_count = 3;
      })
      (join_guild calm 4 (codes "abc") server).0
unfolding any first select update text_eq ◌>>=◌ or_raise ignore attempt raise_if raise_unless
    statement lookup permitted authz_write publish_guild_event publish_role_event set_field
    set_fields create_guild_sql get_guild_sql transfer_sql add_member_row remove_member_row
    get_member count_members create_ban_row delete_ban_row get_ban create_invite_row get_invite
    increment_uses create_role_sql get_role_sql get_everyone_role guild_channels
    ensure_everyone_role assign_everyone_role remove_everyone_role check check_sql is_owner granted
    has_role role_grants can_act_on can_act_on_sql top_position max_position trim_prefix can_kick
    can_ban can_manage_invites can_manage_roles can_guild_permission relation_to_name
    permission_relation assoc invert add_member_sql remove_member_sql add_user_to_role
    remove_user_from_role build_join_result usable_invite refuse_banned admit join_guild
join_guild-Joined_example =
    join_guild-Joined calm 4 (codes "abc") server (join_guild calm 4 (codes "abc") server).0
      (record {
        guild = ten;
        channels = record { id = 40; guild_id = some 10; deleted = false } ∷ [];
        member_count = 3;
      })
      refl refl

kick_member-Kicked_example : Kicked calm server 1 10 2 tt (kick_member calm 1 10 2 server).0
unfolding kick_member any first select update text_eq ◌>>=◌ or_raise ignore attempt raise_if
    raise_unless statement lookup permitted authz_write publish_guild_event publish_role_event
    set_field set_fields create_guild_sql get_guild_sql transfer_sql add_member_row
    remove_member_row get_member count_members create_ban_row delete_ban_row get_ban
    create_invite_row get_invite increment_uses create_role_sql get_role_sql get_everyone_role
    guild_channels ensure_everyone_role assign_everyone_role remove_everyone_role check check_sql
    is_owner granted has_role role_grants can_act_on can_act_on_sql top_position max_position
    trim_prefix can_kick can_ban can_manage_invites can_manage_roles can_guild_permission
    relation_to_name permission_relation assoc invert add_member_sql remove_member_sql
    add_user_to_role remove_user_from_role
kick_member-Kicked_example =
    kick_member-Kicked calm 1 10 2 server (kick_member calm 1 10 2 server).0 refl

ban_member-Banned_example :
    Banned calm server 1 10 2 tt (ban_member calm 1 10 2 (codes "spam") server).0
unfolding ban_member any first select update text_eq ◌>>=◌ or_raise ignore attempt raise_if
    raise_unless statement lookup permitted authz_write publish_guild_event publish_role_event
    set_field set_fields create_guild_sql get_guild_sql transfer_sql add_member_row
    remove_member_row get_member count_members create_ban_row delete_ban_row get_ban
    create_invite_row get_invite increment_uses create_role_sql get_role_sql get_everyone_role
    guild_channels ensure_everyone_role assign_everyone_role remove_everyone_role check check_sql
    is_owner granted has_role role_grants can_act_on can_act_on_sql top_position max_position
    trim_prefix can_kick can_ban can_manage_invites can_manage_roles can_guild_permission
    relation_to_name permission_relation assoc invert add_member_sql remove_member_sql
    add_user_to_role remove_user_from_role
ban_member-Banned_example =
    ban_member-Banned calm 1 10 2 (codes "spam") server
      (ban_member calm 1 10 2 (codes "spam") server).0 refl refl

transfer_ownership-Transferred_example :
    Transferred calm server 1 10 2
      (record ten { owner_id = 2 })
      (transfer_ownership calm 1 10 2 server).0
unfolding transfer_ownership any first select update text_eq ◌>>=◌ or_raise ignore attempt raise_if
    raise_unless statement lookup permitted authz_write publish_guild_event publish_role_event
    set_field set_fields create_guild_sql get_guild_sql transfer_sql add_member_row
    remove_member_row get_member count_members create_ban_row delete_ban_row get_ban
    create_invite_row get_invite increment_uses create_role_sql get_role_sql get_everyone_role
    guild_channels
transfer_ownership-Transferred_example =
    transfer_ownership-Transferred calm 1 10 2 server (transfer_ownership calm 1 10 2 server).0
      (record ten { owner_id = 2 }) refl

abbrev granting : State
granting = (grant_role calm 1 10 20 "SEND_MESSAGES" server).0

grant_role-granted_example :
    (can_manage_roles byte_codec (client calm server) (1 ∷ []) (10 ∷ []) ≡ true)
    × (can_guild_permission byte_codec (client calm server) (1 ∷ []) (10 ∷ []) "can_send_messages"
        ≡ true)
    × (check byte_codec
          (client calm granting)
          (user_key (2 ∷ []))
          "can_send_messages"
          (guild_key (10 ∷ []))
        ≡ true)
unfolding grant_role grant_role_permission grant_sql insert_grants is_assigned list_role_permissions
    set_role_fields any first select update text_eq ◌>>=◌ or_raise ignore attempt raise_if
    raise_unless statement lookup permitted authz_write publish_guild_event publish_role_event
    set_field set_fields create_guild_sql get_guild_sql transfer_sql add_member_row
    remove_member_row get_member count_members create_ban_row delete_ban_row get_ban
    create_invite_row get_invite increment_uses create_role_sql get_role_sql get_everyone_role
    guild_channels check check_sql is_owner granted has_role role_grants can_act_on can_act_on_sql
    top_position max_position trim_prefix can_kick can_ban can_manage_invites can_manage_roles
    can_guild_permission relation_to_name permission_relation assoc invert add_member_sql
    remove_member_sql add_user_to_role remove_user_from_role
grant_role-granted_example =
    grant_role-granted calm server granting 1 10 20 2 10 "SEND_MESSAGES" "can_send_messages"
      "SEND_MESSAGES" refl refl refl refl refl refl refl

abbrev broken : Env
broken = record calm { fails = λ q. true }

handle_error_example : handle broken (Request.kick_member 1 10 2) server ≡ server
unfolding is_atomic handle respond succeeds kick_member any first select update text_eq ◌>>=◌
    or_raise ignore attempt raise_if raise_unless statement lookup permitted authz_write
    publish_guild_event publish_role_event set_field set_fields check check_sql is_owner granted
    has_role role_grants can_act_on can_act_on_sql top_position max_position trim_prefix can_kick
    can_ban can_manage_invites can_manage_roles can_guild_permission relation_to_name
    permission_relation assoc invert add_member_sql remove_member_sql add_user_to_role
    remove_user_from_role
handle_error_example = handle_error broken (Request.kick_member 1 10 2) server refl refl
