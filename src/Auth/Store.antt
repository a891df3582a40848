-- ===== src/Auth/Store.antt =====
-- What internal/features/auth stands on outside the repository: the Redis store of the one-time
-- passwords and refresh tokens, bcrypt, the token signer and the mailer.
use incord.Base.{ℕ, Bool, ◌≡◌, ◌≤◌, ◌+◌, Option, none, some, Text, text_eq, ltb, if◌then◌else◌}

-- SET with a time to live, GET and DEL at a time. `none` is an error of the server; GET gives no
-- value for a missing key, which the callers do not tell from an error.
pub record Redis (Store : Type 0) : Type 0 where
  pub set : Store → Text → Text → ℕ → ℕ → Option Store
  pub get : Store → Text → ℕ → Option Text
  pub del : Store → Text → ℕ → Option Store

-- A store reads back what was set until its time is over, has no value for a deleted key, and keeps
-- the other keys.
pub record IsStore {Store : Type 0} (redis : Redis Store) : Type 0 where
  pub get-set :
      (s s' : Store) (k v : Text) (ttl t : ℕ)
      → redis.set s k v ttl t ≡ some s'
      → (j : Text) (later : ℕ) → t ≤ later
      → redis.get s' j later ≡ (
          if text_eq k j
          then (if ltb later (t + ttl) then some v else none)
          else redis.get s j later)
  pub get-del :
      (s s' : Store) (k : Text) (t : ℕ)
      → redis.del s k t ≡ some s'
      → (j : Text) (later : ℕ) → t ≤ later
      → redis.get s' j later ≡ (if text_eq k j then none else redis.get s j later)

pub record Crypto : Type 0 where
  -- bcrypt.GenerateFromPassword and bcrypt.CompareHashAndPassword.
  pub hash_password : Text → Option Text
  pub compare_hash : Text → Text → Bool
  -- The signed access token of a user id, from the time on and for a time.
  pub sign : Text → ℕ → ℕ → Option Text
  -- jwt.Parse with the secret: none if the token is refused, else its claim "sub" if that is a
  -- text.
  pub parse_sub : Text → Option (Option Text)
