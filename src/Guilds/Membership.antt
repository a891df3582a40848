-- ===== src/Guilds/Membership.antt =====
-- internal/features/guild/service.go: guilds, members, invites and ownership.
use incord.Authz.Tables.{Db, Guild, Role}
use incord.Authz.Wrappers.{can_manage_guild}
use incord.Authz.Writes.{add_member_sql, remove_member_sql, add_user_to_role, remove_user_from_role}
use incord.Guilds
use incord.Guilds.{
  Env, Call, Query, GuildError, statement, lookup, permitted, authz_write, publish_guild_event,
  id_text,
}
use incord.Guilds.Rows.{
  Tables, Member, Ban, Invite, GuildParams, create_guild_sql, get_guild_sql, update_guild_sql,
  delete_guild_sql, add_member_row, remove_member_row, get_member, count_members, get_ban,
  get_invite, create_role_sql, get_everyone_role, user_guilds,
}
use incord.Base.{ℕ, false, Option, none, some, List, [], ◌∷◌, Text, codes, ◌==◌}
use incord.Base.Int.{pos}
use incord.Base.Action.{◌>>=◌, ◌>>◌, pure, or_raise, ignore, attempt, raise_unless}

abbrev pub on_db : {A : Type 0} → Tables → Option (Db × A) → Option (Tables × A)
on_db t none = none
on_db t (some (db, a)) = some (record t { db = db }, a)

abbrev pub with_db : Tables → Option Db → Option (Tables × Unit {0})
with_db t none = none
with_db t (some db) = some (record t { db = db }, tt)

abbrev pub with_members : {A : Type 0} → Tables → A → Option (List Member) → Option (Tables × A)
with_members t a none = none
with_members t a (some ms) = some (record t { members = ms }, a)

abbrev pub with_invites : {A : Type 0} → Tables → A → Option (List Invite) → Option (Tables × A)
with_invites t a none = none
with_invites t a (some is) = some (record t { invites = is }, a)

abbrev everyone : ℕ → ℕ → Role
everyone id gid = record {
  id = id;
  guild_id = gid;
  name = codes "@everyone";
  color = [];
  position = pos 0;
  deleted = false;
}

module _ (env : Env) where
  -- The statements, by the names of repository.go.
  abbrev pub get_guild_by_id : ℕ → Call Guild
  get_guild_by_id gid = lookup env Query.get_guild_by_id (λ t. get_guild_sql t.db gid)

  abbrev pub get_guild_member : ℕ → ℕ → Call Member
  get_guild_member gid uid = lookup env Query.get_guild_member (λ t. get_member t.members gid uid)

  abbrev pub find_ban : ℕ → ℕ → Call Ban
  find_ban gid uid = lookup env Query.get_ban (λ t. get_ban t.bans gid uid)

  abbrev pub find_invite : Text → Call Invite
  find_invite code = lookup env Query.get_invite (λ t. get_invite t.invites code)

  abbrev pub find_everyone : ℕ → Call Role
  find_everyone gid = lookup env Query.get_everyone_role (λ t. get_everyone_role t.db gid)

  abbrev pub add_guild_member : Member → Call (Unit {0})
  add_guild_member m =
      statement env Query.add_guild_member
        (λ t. with_members t tt (add_member_row t.db t.members m))

  abbrev pub remove_guild_member : ℕ → ℕ → Call (Unit {0})
  remove_guild_member gid uid =
      statement env Query.remove_guild_member
        (λ t. some (record t { members = remove_member_row t.members gid uid }, tt))

  abbrev pub assign_row : ℕ → ℕ → Call (Unit {0})
  assign_row rid uid =
      statement env Query.assign_role (λ t. with_db t (add_member_sql t.db rid uid))

  abbrev pub remove_row : ℕ → ℕ → Call (Unit {0})
  remove_row rid uid =
      statement env Query.remove_role (λ t. with_db t (some (remove_member_sql t.db rid uid)))

  abbrev pub insert_role : Role → Call Role
  insert_role r = statement env Query.create_role (λ t. on_db t (create_role_sql t.db r))

  abbrev pub role_or_new : ℕ → Option Role → Call Role
  role_or_new gid (some r) = pure r
  role_or_new gid none = insert_role (everyone env.new_role gid)

  unfoldable pub ensure_everyone_role : ℕ → ℕ → Call (Unit {0})
  ensure_everyone_role gid uid = do
    found ← attempt (find_everyone gid)
    r ← role_or_new gid found
    ignore (assign_row r.id uid)

  abbrev pub assign_found : ℕ → ℕ → Option Role → Call (Unit {0})
  assign_found gid uid none = ignore (ensure_everyone_role gid uid)
  assign_found gid uid (some r) = do
    ignore (assign_row r.id uid)
    ignore
        (authz_write env (λ c. add_user_to_role env.codec c (id_text env uid) (id_text env r.id)))

  unfoldable pub assign_everyone_role : ℕ → ℕ → Call (Unit {0})
  unfolding ensure_everyone_role
  assign_everyone_role gid uid = attempt (find_everyone gid) >>= assign_found gid uid

  abbrev pub remove_found : ℕ → Option Role → Call (Unit {0})
  remove_found uid none = pure tt
  remove_found uid (some r) = do
    ignore (remove_row r.id uid)
    ignore (
        authz_write env
          (λ c. remove_user_from_role env.codec c (id_text env uid) (id_text env r.id)))

  unfoldable pub remove_everyone_role : ℕ → ℕ → Call (Unit {0})
  remove_everyone_role gid uid = attempt (find_everyone gid) >>= remove_found uid

  abbrev pub plain_member : ℕ → ℕ → Member
  plain_member gid uid = record {
    guild_id = gid;
    user_id = uid;
    nickname = [];
    invite_code = none;
    invited_by = none;
    deleted = false;
  }

  abbrev pub new_guild : ℕ → Text → Text → Text → Guild
  new_guild owner name description icon = record {
    id = env.new_guild;
    owner_id = owner;
    name = name;
    description = description;
    icon_url = icon;
    banner_url = [];
    deleted = false;
  }

  -- The part of CreateGuild that follows the two rows.
  abbrev pub open_guild : ℕ → Text → Guild → Call Guild
  open_guild owner name g = do
    ignore (ensure_everyone_role g.id owner)
    publish_guild_event env g.id Guilds.EventKind.member_add
        (("user_id", id_text env owner) ∷ ("name", name) ∷ [])
    pure g

  unfoldable pub create_guild : ℕ → Text → Text → Text → Call Guild
  create_guild owner name description icon = do
    g ←
        statement env Query.create_guild
          λ t. on_db t (create_guild_sql t.db (new_guild owner name description icon))
    add_guild_member (plain_member g.id owner)
    open_guild owner name g

  unfoldable pub get_guild : ℕ → Call (Guild × ℕ)
  get_guild gid = do
    g ← or_raise GuildError.guild_not_found (get_guild_by_id gid)
    n ← lookup env Query.count_guild_members (λ t. some (count_members t.members gid))
    pure (g, n)

  unfoldable pub update_guild : ℕ → ℕ → GuildParams → Call Guild
  update_guild caller gid params = do
    permitted env (λ c. can_manage_guild env.codec c (id_text env caller) (id_text env gid))
    g ← statement env Query.update_guild (λ t. on_db t (update_guild_sql t.db gid params))
    publish_guild_event env gid Guilds.EventKind.update (("name", g.name) ∷ [])
    pure g

  unfoldable pub delete_guild : ℕ → ℕ → Call (Unit {0})
  delete_guild caller gid = do
    g ← or_raise GuildError.guild_not_found (get_guild_by_id gid)
    raise_unless (g.owner_id == caller) GuildError.not_guild_owner
    statement env Query.delete_guild (λ t. with_db t (some (delete_guild_sql t.db gid)))
    publish_guild_event env gid Guilds.EventKind.delete []

  unfoldable pub list_user_guilds : ℕ → Call (List Guild)
  list_user_guilds uid = lookup env Query.list_user_guilds (λ t. some (user_guilds t uid))
