-- ===== src/Authz/Lists.antt =====
-- The listings of internal/shared/authz/client.go. `none` is an error. The lists hold the rows in
-- table order: the ORDER BY of each query is left out.
use incord.Authz.Tables.{
  Db, Overwrite, Permission, TargetType, Effect, owner_or_admin_sql, granted, role_grants,
}
use incord.Authz.Pool.{UuidCodec, Pool, full_query, list_query}
use incord.Base.{
  ℕ, Bool, true, Option, none, some, List, [], ◌∷◌, ◌==◌, first, map, String, Text, select, str_eq,
  if◌then◌else◌,
}

module _ (codec : UuidCodec) where
  open codec use {parse}

  -- The names of the permissions that pass a test, one for each row of the catalogue.
  abbrev pub names_of : Db → (String → Bool) → List String
  names_of db test = map (λ p. p.name) (select (λ p. test p.name) db.permissions)

  abbrev pub list_for : Pool → ℕ → ℕ → Option (List String)
  list_for c uid gid =
      if c.fails full_query
      then none
      else if c.fails list_query
      then none
      else if owner_or_admin_sql c.db uid gid
      then some (names_of c.db (λ n. true))
      else some (names_of c.db (λ n. granted c.db (λ m. str_eq m n) uid gid))

  unfoldable pub list_guild_permissions : Option Pool → Text → Text → Option (List String)
  list_guild_permissions none user_id guild_id = some []
  list_guild_permissions (some c) user_id guild_id = elim (parse user_id) [
    | none ↦ none
    | some uid ↦ elim (parse guild_id) [ none ↦ none | some gid ↦ list_for c uid gid ]
  ]

  unfoldable pub list_role_permissions : Option Pool → Text → Option (List String)
  list_role_permissions none role_id = some []
  list_role_permissions (some c) role_id = elim (parse role_id) [
    | none ↦ none
    | some rid ↦
        if c.fails list_query
        then none
        else some (names_of c.db (λ n. role_grants c.db (λ m. str_eq m n) rid))
  ]

  -- The join with the permission.
  abbrev named_row :
      Overwrite
      → Option Permission
      → List (TargetType × ℕ × String × Effect)
      → List (TargetType × ℕ × String × Effect)
  named_row o none rest = rest
  named_row o (some p) rest = (o.target_type, o.target_id, p.name, o.effect) ∷ rest

  -- Each override of the channel with the name of its permission.
  unfoldable pub override_rows : Db → ℕ → List Overwrite → List (TargetType × ℕ × String × Effect)
  override_rows db ch [] = []
  override_rows db ch (o ∷ os) =
      let rest = override_rows db ch os in
      if o.channel_id == ch
      then named_row o (first (λ p. p.id == o.permission_id) db.permissions) rest
      else rest

  unfoldable pub list_channel_overrides :
      Option Pool → Text → Option (List (TargetType × ℕ × String × Effect))
  unfolding override_rows
  list_channel_overrides none channel_id = some []
  list_channel_overrides (some c) channel_id = elim (parse channel_id) [
    | none ↦ none
    | some ch ↦ if c.fails list_query then none else some (override_rows c.db ch c.db.overwrites)
  ]
