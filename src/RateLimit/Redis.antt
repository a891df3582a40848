-- ===== src/RateLimit/Redis.antt =====
-- The Redis server of internal/shared/middleware/ratelimit.go: pipelines of the two commands that
-- the file sends, and what the documentation of Redis says of each.
use incord.Base.{
  ℕ, suc, ◌≡◌, ◌+◌, Bool, false, Option, none, some, List, [], ◌∷◌, Text, text_eq, leb,
  if◌then◌else◌,
}

-- EXPIRE has no NX option: it sets the time to live also where there is one.
pub data Command : Type 0 where
  incr : Text → Command
  expire : Text → ℕ → Command

-- A pipeline of commands at a time: their replies, `none` on an error.
abbrev pub Pipeline : Type 0 → Type 0
Pipeline State = State → List Command → ℕ → State × Option (List ℕ)

-- What a key holds, and the time from which on it is gone, if it has one.
pub record Entry : Type 0 where
  pub value : ℕ
  pub deadline : Option ℕ

abbrev pub is_over : ℕ → Option ℕ → Bool
is_over t none = false
is_over t (some d) = leb d t

-- A key whose time is over is gone.
abbrev pub at_time : ℕ → Option Entry → Option Entry
at_time t none = none
at_time t (some e) = if is_over t e.deadline then none else some e

abbrev pub value_of : Option Entry → ℕ
value_of none = 0
value_of (some e) = e.value

-- INCR adds one and leaves the time to live; a key that is not there becomes 1, without one.
abbrev pub bumped : Option Entry → Entry
bumped none = record { value = 1; deadline = none }
bumped (some e) = record e { value = suc e.value }

-- EXPIRE of a key that is there sets the time from which on it is gone.
abbrev pub renewed : ℕ → Option Entry → Option Entry
renewed d none = none
renewed d (some e) = some (record e { deadline = some d })

abbrev pub apply_all :
    {State : Type 0} → (State → Command → ℕ → State × ℕ) → State → List Command → ℕ → State × List ℕ
apply_all apply s [] t = (s, [])
apply_all apply s (c ∷ cs) t =
    let (s', n) = apply s c t in let (s'', ns) = apply_all apply s' cs t in (s'', n ∷ ns)

abbrev pub answered : {State : Type 0} → State × List ℕ → State × Option (List ℕ)
answered (s, ns) = (s, some ns)

-- A server that answers every pipeline, by its commands in order.
pub record IsRedis {State : Type 0} (exec : Pipeline State) (empty : State) : Type 0 where
  pub apply : State → Command → ℕ → State × ℕ
  pub entry : State → Text → Option Entry
  pub exec-apply :
      (s : State) (cs : List Command) (t : ℕ) → exec s cs t ≡ answered (apply_all apply s cs t)
  pub entry-empty : (k : Text) → entry empty k ≡ none
  pub reply-incr :
      (s : State) (k : Text) (t : ℕ)
      → (apply s (incr k) t).1 ≡ suc (value_of (at_time t (entry s k)))
  pub entry-incr :
      (s : State) (k j : Text) (t : ℕ)
      → entry (apply s (incr k) t).0 j
        ≡ (if text_eq k j then some (bumped (at_time t (entry s k))) else entry s j)
  pub entry-expire :
      (s : State) (k j : Text) (w t : ℕ)
      → entry (apply s (expire k w) t).0 j
        ≡ (if text_eq k j then renewed (t + w) (at_time t (entry s k)) else entry s j)
