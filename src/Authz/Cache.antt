-- ===== src/Authz/Cache.antt =====
-- The channel cache of internal/shared/authz/client.go, from a channel id to its guild id.
use incord.Base.{
  ℕ, ◌+◌, Bool, true, false, Option, none, some, List, [], ◌∷◌, Text, length, ltb, leb, text_eq,
  if◌then◌else◌,
}

-- An entry of chanGuildCache; the empty text stands for a DM channel.
pub record CacheEntry : Type 0 where
  pub guild_id : Text
  pub expires_at : ℕ

abbrev pub Cache : Type 0
Cache = List (Text × CacheEntry)

-- 5 minutes, in nanoseconds.
abbrev pub chan_guild_cache_ttl : ℕ
chan_guild_cache_ttl = 300_000_000_000

abbrev pub chan_guild_cache_max : ℕ
chan_guild_cache_max = 5000

-- A Go map with text keys.
unfoldable pub get_entry : Text → Cache → Option CacheEntry
get_entry k [] = none
get_entry k ((j, e) ∷ m) = if text_eq j k then some e else get_entry k m

unfoldable pub put_entry : Text → CacheEntry → Cache → Cache
put_entry k e [] = (k, e) ∷ []
put_entry k e ((j, d) ∷ m) = if text_eq j k then (k, e) ∷ m else (j, d) ∷ put_entry k e m

unfoldable pub cache_channel_guild : Cache → Text → Text → ℕ → Cache
unfolding put_entry
cache_channel_guild cache channel guild now =
    put_entry channel (record { guild_id = guild; expires_at = now + chan_guild_cache_ttl })
      (if leb chan_guild_cache_max (length cache) then [] else cache)

abbrev pub is_empty : Text → Bool
is_empty [] = true
is_empty (c ∷ t) = false

-- The entry of the channel, if there is one that has not expired.
abbrev pub fresh : ℕ → Option CacheEntry → Option Text
fresh now none = none
fresh now (some e) = if ltb now e.expires_at then some e.guild_id else none
