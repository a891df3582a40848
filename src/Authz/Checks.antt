-- ===== src/Authz/Checks.antt =====
-- The permission checks of internal/shared/authz/client.go. Every method lets a nil client through.
use incord.Authz.Names.{user_key, guild_key, trim_prefix, relation_to_name}
use incord.Authz.Tables.{
  Db, check_sql, owner_or_admin_sql, override_sql, can_act_on_sql, is_dm_member_sql,
}
use incord.Authz.Pool.{
  UuidCodec, Pool, or_else, check_query, owner_or_admin_query, override_query, channel_query,
  dm_member_query, act_on_query,
}
use incord.Authz.Layers.{see_all, decide_effect}
use incord.Authz.Cache.{Cache, get_entry, cache_channel_guild, is_empty, fresh}
use incord.Base.{
  ℕ, Bool, true, false, not, ◌&&◌, Option, none, some, [], String, Text, codes, first, ◌==◌,
  if◌then◌else◌,
}

module _ (codec : UuidCodec) where
  open codec use {parse, format}

  unfoldable pub check : Option Pool → Text → String → Text → Bool
  check none user_key relation object_key = true
  check (some c) user_key relation object_key = or_else false (relation_to_name relation) λ name.
      or_else false (parse (trim_prefix user_key (codes "user:"))) λ uid.
        or_else false (parse (trim_prefix object_key (codes "guild:")))
          λ gid. not (c.fails check_query) && check_sql c.db uid gid name

  unfoldable pub is_owner_or_admin : Pool → Text → Text → Bool
  is_owner_or_admin c user_id guild_id = or_else false (parse user_id) λ uid.
      or_else false (parse guild_id)
        λ gid. not (c.fails owner_or_admin_query) && owner_or_admin_sql c.db uid gid

  -- `mustParseUUID`: a guild id that does not parse goes to the query as NULL.
  unfoldable pub apply_channel_override : Pool → Text → Text → Text → String → Bool → Bool
  apply_channel_override c user_id guild_id channel_id relation guild_allowed =
      or_else guild_allowed (relation_to_name relation) λ name.
        or_else guild_allowed (parse user_id) λ uid. or_else guild_allowed (parse channel_id) λ ch.
          if c.fails override_query
          then guild_allowed
          else decide_effect
              (see_all (record { user_effect = none; role_effect = none })
                (override_sql c.db uid (parse guild_id) ch name))
              guild_allowed

  -- The SELECT of resolveChannelGuild: no live row is an error.
  abbrev channel_sql : Db → ℕ → Option (Option ℕ)
  channel_sql db ch = elim (first (λ x. (x.id == ch) && not x.deleted) db.channels) [
    | none ↦ none
    | some x ↦ some x.guild_id
  ]

  abbrev guild_text : Option ℕ → Text
  guild_text none = []
  guild_text (some gid) = format gid

  -- The guild id of a channel by the database, `none` for an error.
  unfoldable pub query_channel_guild : Pool → Text → Option Text
  query_channel_guild c channel_id = elim (parse channel_id) [
    | none ↦ none
    | some ch ↦
        if c.fails channel_query
        then none
        else elim (channel_sql c.db ch) [ none ↦ none | some g ↦ some (guild_text g) ]
  ]

  abbrev remember : Cache → Text → ℕ → Option Text → Cache × Option Text
  remember cache channel_id done none = (cache, none)
  remember cache channel_id done (some g) = (cache_channel_guild cache channel_id g done, some g)

  abbrev resolve_from : Pool → Cache → Text → ℕ → Option Text → Cache × Option Text
  resolve_from c cache channel_id done (some g) = (cache, some g)
  resolve_from c cache channel_id done none =
      remember cache channel_id done (query_channel_guild c channel_id)

  -- resolveChannelGuild at the time `now`, with the answer stored at `done`. The third result of
  -- the
  -- source, isDM, is whether the text is empty.
  unfoldable pub resolve_channel_guild : Pool → Cache → Text → ℕ → ℕ → Cache × Option Text
  resolve_channel_guild c cache channel_id now done =
      resolve_from c cache channel_id done (fresh now (get_entry channel_id cache))

  unfoldable pub is_dm_member : Pool → Text → Text → Bool
  is_dm_member c user_id channel_id = or_else false (parse user_id) λ uid.
      or_else false (parse channel_id)
        λ ch. not (c.fails dm_member_query) && is_dm_member_sql c.db uid ch

  -- checkChannel once the channel is resolved.
  unfoldable pub check_resolved : Pool → Text → Text → String → Option Text → Bool
  check_resolved c user_id channel_id relation none = false
  check_resolved c user_id channel_id relation (some guild_id) =
      if is_empty guild_id
      then is_dm_member c user_id channel_id
      else if is_owner_or_admin c user_id guild_id
      then true
      else apply_channel_override c user_id guild_id channel_id relation
          (check (some c) (user_key user_id) relation (guild_key guild_id))

  unfoldable pub check_channel : Option Pool → Cache → ℕ → ℕ → Text → Text → String → Cache × Bool
  check_channel none cache now done user_id channel_id relation = (cache, true)
  check_channel (some c) cache now done user_id channel_id relation =
      let r = resolve_channel_guild c cache channel_id now done in
      (r.0, check_resolved c user_id channel_id relation r.1)

  unfoldable pub can_act_on : Option Pool → Text → Text → Text → Bool
  can_act_on none actor_id target_id guild_id = true
  can_act_on (some c) actor_id target_id guild_id = or_else false (parse actor_id) λ actor.
      or_else false (parse target_id) λ target.
        or_else false (parse guild_id)
          λ gid. not (c.fails act_on_query) && can_act_on_sql c.db actor target gid
