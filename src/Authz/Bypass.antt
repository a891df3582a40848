-- ===== src/Authz/Bypass.antt =====
-- Owners and administrators pass every channel override.
use incord.Authz.Grants.{Grants, Grants-owner_or_admin_sql}
use incord.Authz.Tables.{
  administrator, Overwrite, owner_or_admin_sql, is_owner, granted, has_role, role_grants,
}
use incord.Authz.Pool.{UuidCodec, Pool, owner_or_admin_query}
use incord.Authz.Cache.{Cache, is_empty}
use incord.Authz.Checks.{
  check_channel, check_resolved, resolve_channel_guild, is_owner_or_admin, query_channel_guild,
}
use incord.Base.{ℕ, ◌≡◌, refl, true, false, some, List, String, Text}

abbrev pub with_overwrites : Pool → List Overwrite → Pool
with_overwrites c os = record c { db = record c.db { overwrites = os } }

module _ (codec : UuidCodec) (c : Pool) (os : List Overwrite) where
  sql-with_overwrites :
      (uid gid : ℕ)
      → owner_or_admin_sql (record c.db { overwrites = os }) uid gid
        ≡ owner_or_admin_sql c.db uid gid
  unfolding owner_or_admin_sql is_owner granted has_role role_grants
  sql-with_overwrites uid gid = refl

  admin-with_overwrites :
      (user guild : Text)
      → is_owner_or_admin codec (with_overwrites c os) user guild
        ≡ is_owner_or_admin codec c user guild
  unfolding is_owner_or_admin
  admin-with_overwrites user guild = simp sql-with_overwrites

  resolve-with_overwrites :
      (cache : Cache) (channel : Text) (now done : ℕ)
      → resolve_channel_guild codec (with_overwrites c os) cache channel now done
        ≡ resolve_channel_guild codec c cache channel now done
  unfolding resolve_channel_guild query_channel_guild
  resolve-with_overwrites cache channel now done = refl

  admin_lem :
      (user guild : Text) (uid gid : ℕ)
      → c.fails owner_or_admin_query ≡ false
      → codec.parse user ≡ some uid
      → codec.parse guild ≡ some gid
      → Grants c.db uid gid administrator
      → is_owner_or_admin codec c user guild ≡ true
  unfolding is_owner_or_admin owner_or_admin_sql
  admin_lem user guild uid gid up pu pg g =
      rw (pu, pg, up, Grants-owner_or_admin_sql c.db uid gid g)

  -- Where the rows of the tables make a user the owner of a live guild or give the user there a
  -- live role with ADMINISTRATOR, and the ids parse and the query for this answers, the user
  -- passes the check of every channel that resolves to the guild, for every relation and whatever
  -- overrides the table holds.
  pub admin_not_locked_out :
      (cache : Cache) (now done : ℕ) (user channel guild : Text) (uid gid : ℕ) (relation : String)
      → (resolve_channel_guild codec c cache channel now done).1 ≡ some guild
      → is_empty guild ≡ false
      → c.fails owner_or_admin_query ≡ false
      → codec.parse user ≡ some uid
      → codec.parse guild ≡ some gid
      → Grants c.db uid gid administrator
      → (check_channel codec (some (with_overwrites c os)) cache now done user channel relation).1
        ≡ true
  unfolding check_channel check_resolved
  admin_not_locked_out cache now done user channel guild uid gid relation r e up pu pg g =
      let a = admin_lem user guild uid gid up pu pg g in
      rw resolve-with_overwrites (rw r (rw e (rw admin-with_overwrites (rw a))))
