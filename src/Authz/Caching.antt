-- ===== src/Authz/Caching.antt =====
-- The channel cache: it stays bounded, and while it agrees with the channels it changes no answer.
use mathlib.Core.Path.{subst}
use incord.Authz.Pool.{UuidCodec, Pool}
use incord.Authz.Cache.{
  CacheEntry, Cache, chan_guild_cache_max, chan_guild_cache_ttl, get_entry, put_entry,
  cache_channel_guild, fresh,
}
use incord.Authz.Checks.{query_channel_guild, resolve_channel_guild, check_channel}
use incord.Base.{
  In, List, ◌<◌, ◌⊎◌, ◌∙◌, ℕ, ◌+◌, suc, ◌≤◌, ◌≡◌, refl, sym, ap, Option, none, some, [], ◌∷◌, arith,
  Text, String, length, ltb, leb, text_eq, text_eq_iff, if◌then◌else◌, Bool-cases, Option-cases,
  inl, inr,
}

length-put_entry :
    (k : Text) (e : CacheEntry) (m : Cache) → length (put_entry k e m) ≤ suc (length m)
unfolding put_entry
length-put_entry k e [] = omega arith
length-put_entry k e ((j, d) ∷ m) = ground (arith, length-put_entry k e m)

cached_length :
    (cache : Cache) (k g : Text) (now : ℕ)
    → length cache ≤ chan_guild_cache_max
    → length (cache_channel_guild cache k g now) ≤ chan_guild_cache_max
unfolding cache_channel_guild
cached_length cache k g now h =
    let e : CacheEntry = record { guild_id = g; expires_at = now + chan_guild_cache_ttl } in
    elim (Bool-cases (leb chan_guild_cache_max (length cache))) [
      | inl full ↦ ground (arith, length-put_entry k e [])
      | inr space ↦ ground (arith, length-put_entry k e cache)
    ]

get-put_entry :
    (j k : Text) (e : CacheEntry) (m : Cache)
    → get_entry j (put_entry k e m) ≡ (if text_eq k j then some e else get_entry j m)
unfolding get_entry put_entry
get-put_entry j k e [] = refl
get-put_entry j k e ((i, d) ∷ m) = elim (Bool-cases (text_eq i k)) [
  | inl t ↦
      let s : i ≡ k = (text_eq_iff i k).0 t in
      let q : text_eq i j ≡ text_eq k j = rw s in ground (arith, text_eq_iff k j)
  | inr f ↦ ground (arith, get-put_entry j k e m, text_eq_iff i j, text_eq_iff k j)
]

abbrev entry_or : CacheEntry → Option CacheEntry → CacheEntry
entry_or d none = d
entry_or d (some e) = e

abbrev pub guild_of : Option CacheEntry → Option Text
guild_of none = none
guild_of (some e) = some e.guild_id

-- The cache after a lookup, from the entry that was fresh and the answer of the database.
abbrev resolve_with : Cache → Text → ℕ → Option Text → Option Text → Cache × Option Text
resolve_with cache k done o q = elim o [
  | none ↦ elim q [ none ↦ (cache, none) | some g ↦ (cache_channel_guild cache k g done, some g) ]
  | some g ↦ (cache, some g)
]

answer :
    (cache : Cache) (k : Text) (done : ℕ) (q : Option Text)
    → (resolve_with cache k done none q).1 ≡ q
answer cache k done none = refl
answer cache k done (some g) = refl

-- What holds of every entry of the cache and of the new one holds of every entry after the store.
cached-each :
    (P : Text → CacheEntry → Type 0) (cache : Cache) (k g : Text) (now : ℕ)
    → ((j : Text) (e : CacheEntry) → get_entry j cache ≡ some e → P j e)
    → P k (record { guild_id = g; expires_at = now + chan_guild_cache_ttl })
    → (j : Text) (e : CacheEntry) → get_entry j (cache_channel_guild cache k g now) ≡ some e
    → P j e
unfolding cache_channel_guild get_entry
cached-each P cache k g now h q j e found =
    let new : CacheEntry = record { guild_id = g; expires_at = now + chan_guild_cache_ttl } in
    let kept : Cache = if leb chan_guild_cache_max (length cache) then [] else cache in
    let split : (if text_eq k j then some new else get_entry j kept) ≡ some e =
      rw (sym (get-put_entry j k new kept), found) in
    elim (Bool-cases (text_eq k j)) [
      | inl t ↦
          let s : k ≡ j = (text_eq_iff k j).0 t in
          let same : some new ≡ some e = rw t at split in
          let one : new ≡ e = ap (entry_or new) same in
          subst (λ x. P x e) s (subst (λ x. P k x) one q)
      | inr f ↦
          let older : get_entry j kept ≡ some e = rw f at split in
          elim (Bool-cases (leb chan_guild_cache_max (length cache))) [
            | inl full ↦ cc (rw full at older)
            | inr space ↦ h j e (rw space at older)
          ]
    ]

module _ (codec : UuidCodec) (c : Pool) where
  -- Every entry, expired or not, has the guild that the database gives.
  abbrev pub Agrees : Cache → Type 0
  Agrees cache =
      (k : Text) (e : CacheEntry)
      → get_entry k cache ≡ some e
      → query_channel_guild codec c k ≡ some e.guild_id

  cached-Agrees :
      (cache : Cache) (k g : Text) (now : ℕ)
      → Agrees cache
      → query_channel_guild codec c k ≡ some g
      → Agrees (cache_channel_guild cache k g now)
  cached-Agrees cache k g now h q =
      cached-each (λ j e. query_channel_guild codec c j ≡ some e.guild_id) cache k g now h q

  -- What holds of the cache, and of the cache with the answer of the database, holds after a
  -- lookup.
  resolve-keeps :
      (P : Cache → Type 0) (cache : Cache) (k : Text) (now done : ℕ)
      → P cache
      → ((g : Text)
          → query_channel_guild codec c k ≡ some g
          → P (cache_channel_guild cache k g done))
      → P (resolve_channel_guild codec c cache k now done).0
  unfolding resolve_channel_guild
  resolve-keeps P cache k now done p add =
      keeps (fresh now (get_entry k cache)) (query_channel_guild codec c k) refl
    where
      keeps :
          (o q : Option Text)
          → query_channel_guild codec c k ≡ q
          → P (resolve_with cache k done o q).0
      keeps (some g) q e = p
      keeps none none e = p
      keeps none (some g) e = add g e

  resolve-query :
      (cache : Cache) (k : Text) (now done : ℕ)
      → Agrees cache
      → (resolve_channel_guild codec c cache k now done).1 ≡ query_channel_guild codec c k
  unfolding resolve_channel_guild
  resolve-query cache k now done h = elim (Option-cases (get_entry k cache)) [
    | inl missing ↦ rw (missing, answer cache k done (query_channel_guild codec c k))
    | inr (e, there) ↦ elim (Bool-cases (ltb now e.expires_at)) [
      | inl live ↦ rw (there, live, h k e there)
      | inr old ↦ rw (there, old, answer cache k done (query_channel_guild codec c k))
    ]
  ]

-- A lookup keeps the cache within 5000 entries, whatever it holds.
pub resolve-length :
    (codec : UuidCodec) (c : Pool) (cache : Cache) (k : Text) (now done : ℕ)
    → length cache ≤ chan_guild_cache_max
    → length (resolve_channel_guild codec c cache k now done).0 ≤ chan_guild_cache_max
resolve-length codec c cache k now done h =
    resolve-keeps codec c (λ m. length m ≤ chan_guild_cache_max) cache k now done h
      (λ g q. cached_length cache k g done h)

-- While the cache agrees with the channels of the database, a check gives the answer that it gives
-- with an empty cache, and the cache it leaves agrees with the channels as well.
pub check_channel-cache :
    (codec : UuidCodec) (c : Pool) (cache : Cache) (now done : ℕ) (user channel : Text)
    (relation : String)
    → Agrees codec c cache
    → ((check_channel codec (some c) cache now done user channel relation).1
        ≡ (check_channel codec (some c) [] now done user channel relation).1)
      × Agrees codec c (check_channel codec (some c) cache now done user channel relation).0
unfolding check_channel get_entry
check_channel-cache codec c cache now done user channel relation h = (
  rw (
    resolve-query codec c cache channel now done h,
    resolve-query codec c [] channel now done (λ k e f. cc),
  ),
  resolve-keeps codec c (Agrees codec c) cache channel now done h
      (λ g q. cached-Agrees codec c cache channel g done h q),
)

-- A lookup: the database at its time, the channel, and the times at which the cache is read and
-- written.
pub record Lookup : Type 0 where
  pub pool : Pool
  pub channel : Text
  pub now : ℕ
  pub done : ℕ

module _ (codec : UuidCodec) where
  -- The cache that a sequence of lookups leaves.
  unfoldable pub lookups : Cache → List Lookup → Cache
  lookups cache [] = cache
  lookups cache (l ∷ ls) =
      lookups (resolve_channel_guild codec l.pool cache l.channel l.now l.done).0 ls

  -- Where an entry comes from: the database gave its guild at a lookup of its channel.
  abbrev IsFrom : List Lookup → Text → CacheEntry → Type 0
  IsFrom all k e =
      (l : Lookup) × In l all
      × (l.channel ≡ k)
      × (query_channel_guild codec l.pool k ≡ some e.guild_id)
      × (e.expires_at ≡ l.done + chan_guild_cache_ttl)

  abbrev AllFrom : List Lookup → Cache → Type 0
  AllFrom all cache = (k : Text) (e : CacheEntry) → get_entry k cache ≡ some e → IsFrom all k e

  lookups-AllFrom :
      (all ls : List Lookup) (cache : Cache)
      → ((l : Lookup) → In l ls → In l all)
      → AllFrom all cache
      → AllFrom all (lookups cache ls)
  unfolding lookups
  lookups-AllFrom all [] cache i h = h
  lookups-AllFrom all (l ∷ ls) cache i h =
      lookups-AllFrom all ls (resolve_channel_guild codec l.pool cache l.channel l.now l.done).0
        (λ m j. i m (inr j))
        (resolve-keeps codec l.pool (AllFrom all) cache l.channel l.now l.done h (λ g q.
          cached-each (IsFrom all) cache l.channel g l.done h (l, i l (inl refl), refl, q, refl)))

  -- The answer of a lookup after any lookups, of whatever channels and databases and with the cache
  -- emptied and filled in between, is what the database gives now, or what it gave at an earlier
  -- lookup of this channel which was stored less than 5 minutes ago.
  pub resolve-recent :
      (before : List Lookup) (c : Pool) (k g : Text) (now done : ℕ)
      → (resolve_channel_guild codec c (lookups [] before) k now done).1 ≡ some g
      → (query_channel_guild codec c k ≡ some g)
        ⊎ ((l : Lookup) × In l before
            × (l.channel ≡ k)
            × (query_channel_guild codec l.pool k ≡ some g)
            × (now < l.done + 300_000_000_000))
  unfolding resolve_channel_guild get_entry
  resolve-recent before c k g now done h =
      let cache = lookups [] before in
      let from = lookups-AllFrom before before [] (λ l i. i) (λ j e f. cc) in
      elim (Option-cases (get_entry k cache)) [
        | inl missing ↦
            inl (sym (answer cache k done (query_channel_guild codec c k)) ∙ (rw missing at h))
        | inr (e, there) ↦ elim (Bool-cases (ltb now e.expires_at)) [
          | inl live ↦
              let (l, i, same, gave, until) = from k e there in
              let hit : some e.guild_id ≡ some g = rw (there, live) at h in
              inr (l, i, same, gave ∙ hit, ground (arith, live, until))
          | inr old ↦
              inl
                (sym (answer cache k done (query_channel_guild codec c k)) ∙ (rw (there, old) at h))
        ]
      ]
