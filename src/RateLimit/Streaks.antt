-- ===== src/RateLimit/Streaks.antt =====
-- The interceptor against the history of the requests: what counts is the unbroken streak of
-- requests of a caller and a method, each less than a minute after the one before.
use incord.RateLimit.{
  RateLimit, Request, Outcome, passed, resource_exhausted, rate_key, rate_limit_interceptor,
  outcomes, outcome_of, has_colon,
}
use incord.RateLimit.Redis.{Pipeline, IsRedis}
use incord.RateLimit.Counting.{count, count-empty, counted, check-count, count-counted}
use incord.RateLimit.Keys.{text_eq-rate_key}
use incord.RateLimit.Quotas.{one_minute, quota, caller, resolve_rate_limit_lem}
use incord.Base.{
  ℕ, suc, ◌≡◌, ◌≤◌, ◌+◌, refl, Bool, true, false, ◌&&◌, ◌||◌, some, List, [], ◌∷◌, Text, codes,
  text_eq, has_prefix, ltb, leb, if◌then◌else◌, arith, Bool-cases, inl, inr, text_eq_iff,
}

-- A counted request, the newest first in a history.
pub record Hit : Type 0 where
  pub who : Text
  pub method : Text
  pub at : ℕ

-- How many requests of the caller and the method the streak holds that one at the time `now` would
-- go on.
unfoldable pub streak : Text → Text → ℕ → List Hit → ℕ
streak who method now [] = 0
streak who method now (h ∷ past) =
    let before = streak who method h.at past in
    let older = streak who method now past in
    if text_eq h.who who && text_eq h.method method
    then (if ltb now (h.at + one_minute) then suc before else 0)
    else older

-- The methods of the reflection and health services are not limited.
abbrev pub unlimited : Text → Bool
unlimited method =
    has_prefix method (codes "/grpc.reflection.") || has_prefix method (codes "/grpc.health.")

abbrev pub hit_of : Request → Hit
hit_of r = record { who = caller r; method = r.method; at = r.now }

-- A request passes while the streak with it is within the quota of its method.
abbrev pub decide : List Hit → Request → Outcome
decide past r =
    if unlimited r.method
    then passed
    else if leb (suc (streak (caller r) r.method r.now past)) (quota r.method)
    then passed
    else resource_exhausted (quota r.method) one_minute

abbrev pub remember : List Hit → Request → List Hit
remember past r = if unlimited r.method then past else hit_of r ∷ past

unfoldable pub decisions : List Hit → List Request → List Outcome
unfolding streak
decisions past [] = []
decisions past (r ∷ rs) = decide past r ∷ decisions (remember past r) rs

-- The times do not go back, and no method has a colon in its name.
abbrev pub IsLog : ℕ → List Request → Type 0
IsLog t [] = Unit
IsLog t (r ∷ rs) = (t ≤ r.now) × (has_colon r.method ≡ false) × IsLog r.now rs

streak-hit :
    (h : Hit) (who method : Text) (later : ℕ) (past : List Hit)
    → (if text_eq h.who who && text_eq h.method method
        then (if ltb later (h.at + one_minute) then suc (streak h.who h.method h.at past) else 0)
        else streak who method later past)
      ≡ streak who method later (h ∷ past)
unfolding streak
streak-hit h who method later past =
    elim (Bool-cases (text_eq h.who who && text_eq h.method method)) [
      | inl e ↦
          let callers : h.who ≡ who = (text_eq_iff h.who who).0 (ground arith) in
          let methods : h.method ≡ method = (text_eq_iff h.method method).0 (ground arith) in
          let counted : streak h.who h.method h.at past ≡ streak who method h.at past =
            rw (callers, methods) in
          rw (e, counted)
      | inr f ↦ rw f
    ]

module _ {State : Type 0} (exec : Pipeline State) (empty : State) (up : IsRedis exec empty) where
  outcome_lem :
      (rl : RateLimit) (b : Bool)
      → outcome_of exec rl (some b) ≡ (if b then passed else resource_exhausted rl.limit rl.window)
  outcome_lem rl true = refl
  outcome_lem rl false = refl

  -- From the time `t` on the server counts the streaks of the history.
  Counts : State → List Hit → ℕ → Type 0
  Counts s past t =
      (who method : Text) (later : ℕ)
      → has_colon method ≡ false
      → t ≤ later
      → count exec empty up s (rate_key who method) later ≡ streak who method later past

  -- The state after a request that is counted.
  abbrev after : State → Request → State
  after s r = counted exec empty up s (rate_key (caller r) r.method) one_minute r.now

  interceptor_lem :
      (s : State) (r : Request)
      → rate_limit_interceptor exec s r ≡ (
          if unlimited r.method then (s, passed) else (
            after s r,
            if leb
                  (suc (count exec empty up s (rate_key (caller r) r.method) r.now))
                  (quota r.method)
                then passed
                else resource_exhausted (quota r.method) one_minute,
          ))
  unfolding rate_limit_interceptor
  interceptor_lem s r =
      let rl : RateLimit = record { limit = quota r.method; window = one_minute } in
      let k = rate_key (caller r) r.method in
      rw (
        resolve_rate_limit_lem r,
        check-count exec empty up s k rl r.now,
        outcome_lem rl (leb (suc (count exec empty up s k r.now)) rl.limit),
      )

  interceptor-decide :
      (s : State) (past : List Hit) (t : ℕ) (r : Request)
      → Counts s past t
      → t ≤ r.now
      → has_colon r.method ≡ false
      → (rate_limit_interceptor exec s r).1 ≡ decide past r
  unfolding Counts
  interceptor-decide s past t r c h plain = elim (Bool-cases (unlimited r.method)) [
    | inl e ↦ rw (interceptor_lem s r, e)
    | inr f ↦ rw (interceptor_lem s r, f, c (caller r) r.method r.now plain h)
  ]

  interceptor-Counts :
      (s : State) (past : List Hit) (t : ℕ) (r : Request)
      → Counts s past t
      → t ≤ r.now
      → has_colon r.method ≡ false
      → Counts (rate_limit_interceptor exec s r).0 (remember past r) r.now
  unfolding Counts
  interceptor-Counts s past t r c h plain = λ who method later named l.
      elim (Bool-cases (unlimited r.method)) [
        | inl e ↦ rw (interceptor_lem s r, e, c who method later named (omega arith))
        | inr f ↦
            rw
              (
                interceptor_lem s r,
                f,
                count-counted exec empty up s (rate_key (caller r) r.method) (rate_key who method)
                    one_minute r.now later,
                text_eq-rate_key (caller r) who r.method method plain named,
                c (caller r) r.method r.now plain h,
                c who method later named (omega arith),
              )
              (streak-hit (hit_of r) who method later past)
      ]

  outcomes-decisions :
      (s : State) (past : List Hit) (t : ℕ) (rs : List Request)
      → Counts s past t
      → IsLog t rs
      → outcomes exec s rs ≡ decisions past rs
  unfolding outcomes decisions
  outcomes-decisions s past t [] c h = refl
  outcomes-decisions s past t (r ∷ rs) c h = rw (
    interceptor-decide s past t r c h.0 h.1,
    outcomes-decisions (rate_limit_interceptor exec s r).0 (remember past r) r.now rs
        (interceptor-Counts s past t r c h.0 h.1) h.2,
  )

  empty-Counts : Counts empty [] 0
  unfolding Counts streak
  empty-Counts who method later named h = count-empty exec empty up (rate_key who method) later

-- A server that starts with an empty Redis, one that answers and whose INCR and EXPIRE do what they
-- document, decides every sequence of requests, with times that do not go back and methods without
-- a colon, by the streaks of its history: a request passes if and only if its streak, the requests
-- of the same caller and method with each less than a minute after the one before, is with it at
-- most 100 for an auth call, 30 for a sent message, 10 for a friend request and 60 otherwise, or if
-- its method is one of reflection or health.
pub outcomes-streaks :
    {State : Type 0}
    → (exec : Pipeline State) (empty : State) → IsRedis exec empty
    → (rs : List Request) → IsLog 0 rs
    → outcomes exec empty rs ≡ decisions [] rs
outcomes-streaks exec empty up rs h =
    outcomes-decisions exec empty up empty [] 0 rs (empty-Counts exec empty up) h
