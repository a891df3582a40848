-- ===== src/Authz/Examples.antt =====
-- The permission theorems at a small guild.
use incord.Authz.Lists.{list_guild_permissions}
use incord.Authz.Listed.{list_guild_permissions-check}
use incord.Authz.Tables.{Guild, Role, check_sql}
use incord.Base.{
  In, ◌<◌, ◌⊎◌, ◌&&◌, str_eq, ℕ, ◌+◌, ◌≡◌, refl, Bool, true, false, some, none, [], ◌∷◌, ◌↔◌,
  Option, Text, any, first, select, text_eq, text_eq_iff, ap, Bool-cases, inl, inr,
}
use incord.Base.Int.{pos}
use incord.Authz.Names.{user_key, guild_key, relation_to_name}
use incord.Authz.Tables.{
  Db, RoleMember, Overwrite, allow, deny, user, is_assigned, has_role, is_owner, owner_or_admin_sql,
  can_act_on_sql, top_position,
}
use incord.Authz.Pool.{UuidCodec, Pool}
use incord.Authz.Layers.{decide_effect, see_all}
use incord.Authz.Cache.{put_entry, Cache, cache_channel_guild, get_entry}
use incord.Authz.Checks.{
  check, check_channel, resolve_channel_guild, query_channel_guild, can_act_on,
  apply_channel_override,
}
use incord.Authz.Writes.{
  is_named, grant_role_permission, grant_sql, insert_grants, set_channel_override,
  set_overwrite_sql, upsert_overwrites, upsert_overwrite,
}
use incord.Authz.Grants.{Grants, check-Grants, by_owner}
use incord.Authz.Precedence.{none_seen, precedence, decide-precedence}
use incord.Authz.Hierarchy.{can_act_on_asym}
use incord.Authz.Bypass.{with_overwrites, admin_not_locked_out}
use incord.Authz.Deny.{set_channel_override-denied}
use incord.Authz.Caching.{Agrees, guild_of, check_channel-cache, Lookup, lookups, resolve-recent}
use incord.Authz.Granting.{grant_role_permission-check}
use incord.Authz.Closed.{fails_closed}

abbrev parse_byte : Text → Option ℕ
parse_byte [] = none
parse_byte (u ∷ []) = some u
parse_byte (u ∷ v ∷ t) = none

-- Ids of one byte.
abbrev byte_codec : UuidCodec
byte_codec = record {
  parse = parse_byte;
  format = λ u. u ∷ [];
  parse-format = λ u. refl;
  parse-nil = refl;
}

abbrev member : ℕ → ℕ → Bool → RoleMember
member r u d = record { role_id = r; user_id = u; deleted = d }

abbrev guild : ℕ → ℕ → Guild
guild id owner = record {
  id = id;
  owner_id = owner;
  name = [];
  description = [];
  icon_url = [];
  banner_url = [];
  deleted = false;
}

abbrev role_of : ℕ → ℕ → ℕ → Role
role_of id gid n = record {
  id = id;
  guild_id = gid;
  name = [];
  color = [];
  position = pos n;
  deleted = false;
}

-- 1 owns the guild 10, 2 holds the higher role 20 and 3 the lower role 21. 40 is a channel.
abbrev small : Db
small = record {
  users = 1 ∷ 2 ∷ 3 ∷ [];
  guilds = guild 10 1 ∷ [];
  roles = role_of 20 10 5 ∷ role_of 21 10 1 ∷ [];
  role_members = member 20 2 false ∷ member 21 3 false ∷ [];
  role_permissions = [];
  permissions = record { id = 30; name = "SEND_MESSAGES" } ∷ [];
  overwrites = [];
  channels = record { id = 40; guild_id = some 10; deleted = false } ∷ [];
  dm_members = [];
}

abbrev up : Pool
up = record { db = small; fails = λ q. false }

abbrev down : Pool
down = record { db = small; fails = λ q. true }

abbrev at : Db → Pool
at db = record { db = db; fails = λ q. false }

abbrev denial : Overwrite
denial = record {
  channel_id = 40;
  target_type = user;
  target_id = 3;
  permission_id = 30;
  effect = deny;
}

sends : relation_to_name "can_send_messages" ≡ some "SEND_MESSAGES"
unfolding relation_to_name
sends = refl

catalogued : any (is_named "SEND_MESSAGES") small.permissions ≡ true
unfolding any
catalogued = refl

check-Grants_example :
    (check byte_codec (some up) (user_key (1 ∷ [])) "can_send_messages" (guild_key (10 ∷ []))
      ≡ true)
    ↔ Grants small 1 10 "SEND_MESSAGES"
check-Grants_example =
    check-Grants byte_codec up (1 ∷ []) (10 ∷ []) 1 10 "can_send_messages" "SEND_MESSAGES" refl refl
      refl sends

decide-precedence_example :
    decide_effect (see_all none_seen ((1, deny) ∷ (2, allow) ∷ (2, deny) ∷ [])) true
    ≡ precedence ((1, deny) ∷ (2, allow) ∷ (2, deny) ∷ []) true
decide-precedence_example = decide-precedence ((1, deny) ∷ (2, allow) ∷ (2, deny) ∷ []) true

second_third : can_act_on byte_codec (some up) (2 ∷ []) (3 ∷ []) (10 ∷ []) ≡ true
unfolding can_act_on can_act_on_sql top_position is_owner any select has_role
second_third = refl

can_act_on_asym_example : can_act_on byte_codec (some up) (3 ∷ []) (2 ∷ []) (10 ∷ []) ≡ false
can_act_on_asym_example = can_act_on_asym byte_codec up (10 ∷ []) (2 ∷ []) (3 ∷ []) second_third

resolved : (resolve_channel_guild byte_codec up [] (40 ∷ []) 5 6).1 ≡ some (10 ∷ [])
unfolding resolve_channel_guild query_channel_guild get_entry first
resolved = refl

admin_not_locked_out_example :
    (check_channel byte_codec
      (some (with_overwrites up (record denial { target_id = 1 } ∷ [])))
      []
      5
      6
      (1 ∷ [])
      (40 ∷ [])
      "can_send_messages").1
    ≡ true
admin_not_locked_out_example =
    admin_not_locked_out byte_codec up (record denial { target_id = 1 } ∷ []) [] 5 6 (1 ∷ [])
      (40 ∷ []) (10 ∷ []) 1 10 "can_send_messages" resolved refl refl refl refl
      (by_owner (guild 10 1) (inl refl) refl refl refl)

set_channel_override-denied_example :
    apply_channel_override byte_codec
      (at (record small { overwrites = denial ∷ [] }))
      (3 ∷ [])
      (10 ∷ [])
      (40 ∷ [])
      "can_send_messages"
      true
    ≡ false
unfolding set_channel_override set_overwrite_sql upsert_overwrites upsert_overwrite relation_to_name
    select any
set_channel_override-denied_example =
    set_channel_override-denied byte_codec up (at (record small { overwrites = denial ∷ [] }))
      (40 ∷ []) (3 ∷ []) (10 ∷ []) 40 3 "can_send_messages" "SEND_MESSAGES" true refl refl sends
      catalogued refl refl

abbrev one_entry : Cache
one_entry = (40 ∷ [], record { guild_id = 10 ∷ []; expires_at = 9 }) ∷ []

one_entry-Agrees : Agrees byte_codec up one_entry
unfolding get_entry query_channel_guild first
one_entry-Agrees k e h = elim (Bool-cases (text_eq (40 ∷ []) k)) [
  | inl t ↦
      let same_key : 40 ∷ [] ≡ k = (text_eq_iff (40 ∷ []) k).0 t in
      let found : some (10 ∷ []) ≡ some e.guild_id = ap guild_of (rw t at h) in
      let there : query_channel_guild byte_codec up (40 ∷ []) ≡ some (10 ∷ []) = refl in cc
  | inr f ↦ cc (rw f at h)
]

check_channel-cache_example :
    ((check_channel byte_codec (some up) one_entry 5 6 (3 ∷ []) (40 ∷ []) "can_speak").1
      ≡ (check_channel byte_codec (some up) [] 5 6 (3 ∷ []) (40 ∷ []) "can_speak").1)
    × Agrees byte_codec up
        (check_channel byte_codec (some up) one_entry 5 6 (3 ∷ []) (40 ∷ []) "can_speak").0
check_channel-cache_example =
    check_channel-cache byte_codec up one_entry 5 6 (3 ∷ []) (40 ∷ []) "can_speak" one_entry-Agrees

abbrev first_lookup : Lookup
first_lookup = record { pool = up; channel = 40 ∷ []; now = 5; done = 7 }

-- The database is down at the second lookup.
resolve-recent_example :
    (query_channel_guild byte_codec down (40 ∷ []) ≡ some (10 ∷ []))
    ⊎ ((l : Lookup) × In l (first_lookup ∷ [])
        × (l.channel ≡ 40 ∷ [])
        × (query_channel_guild byte_codec l.pool (40 ∷ []) ≡ some (10 ∷ []))
        × (8 < l.done + 300_000_000_000))
unfolding resolve_channel_guild query_channel_guild lookups get_entry first cache_channel_guild
    put_entry text_eq
resolve-recent_example =
    resolve-recent byte_codec (first_lookup ∷ []) down (40 ∷ []) (10 ∷ []) 8 9 refl

grant_role_permission-check_example :
    check byte_codec
      (some
        (at (record small { role_permissions = record { role_id = 20; permission_id = 30 } ∷ [] })))
      (user_key (2 ∷ []))
      "can_send_messages"
      (guild_key (10 ∷ []))
    ≡ true
unfolding grant_role_permission grant_sql insert_grants relation_to_name is_assigned select any
    has_role
grant_role_permission-check_example =
    grant_role_permission-check byte_codec up
      (at (record small { role_permissions = record { role_id = 20; permission_id = 30 } ∷ [] }))
      (20 ∷ []) (2 ∷ []) (10 ∷ []) 20 2 10 "can_send_messages" "SEND_MESSAGES" refl refl refl sends
      catalogued refl refl refl

fails_closed_example :
    (check byte_codec (some down) (1 ∷ []) "can_speak" (10 ∷ []) ≡ false)
    × ((check_channel byte_codec (some down) one_entry 5 6 (1 ∷ []) (40 ∷ []) "can_speak").1
        ≡ false)
    × (can_act_on byte_codec (some down) (1 ∷ []) (2 ∷ []) (10 ∷ []) ≡ false)
fails_closed_example =
    fails_closed byte_codec down one_entry 5 6 (1 ∷ []) (10 ∷ []) (40 ∷ []) (2 ∷ []) "can_speak"
      (λ q. refl)

list_guild_permissions-check_example :
    any (λ m. str_eq m "SEND_MESSAGES") ("SEND_MESSAGES" ∷ [])
    ≡ (any (is_named "SEND_MESSAGES") small.permissions && check_sql small 1 10 "SEND_MESSAGES")
unfolding list_guild_permissions owner_or_admin_sql is_owner any select
list_guild_permissions-check_example =
    list_guild_permissions-check byte_codec up (1 ∷ []) (10 ∷ []) 1 10 "SEND_MESSAGES"
      ("SEND_MESSAGES" ∷ []) refl refl refl
