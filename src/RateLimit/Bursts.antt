-- ===== src/RateLimit/Bursts.antt =====
-- Runs of requests of one kind, and a Redis that fails.
use incord.RateLimit.{
  RateLimit, Request, Outcome, passed, resource_exhausted, resolve_rate_limit, is_exempt,
  rate_limit_interceptor, outcomes, check_rate_limit, within, has_colon, rate_key,
}
use incord.RateLimit.Redis.{Pipeline, IsRedis, Command, incr, expire}
use incord.RateLimit.Quotas.{one_minute, quota, caller}
use incord.RateLimit.Streaks.{
  Hit, hit_of, streak, decide, decisions, remember, unlimited, IsLog, outcomes-streaks,
}
use incord.Base.{
  ℕ, suc, ◌≡◌, ◌≤◌, ◌<◌, ◌+◌, refl, true, false, Option, none, some, List, [], ◌∷◌, Text, text_eq,
  ltb, leb, if◌then◌else◌, arith, Bool-cases, inl, inr, text_eq_iff, All, map,
}

-- The request again and again, first at the time `t` and then after each gap.
abbrev pub repeated : Request → ℕ → List ℕ → List Request
repeated r t [] = record r { now = t } ∷ []
repeated r t (g ∷ gs) = record r { now = t } ∷ repeated r (t + g) gs

abbrev pub verdict : Text → ℕ → Outcome
verdict method n =
    if leb (suc n) (quota method) then passed else resource_exhausted (quota method) one_minute

-- One outcome for each request, from the one with `n` before it.
abbrev pub verdicts : Text → ℕ → List ℕ → List Outcome
verdicts method n [] = verdict method n ∷ []
verdicts method n (g ∷ gs) = verdict method n ∷ verdicts method (suc n) gs

within-none :
    {State : Type 0}
    → (exec : Pipeline State) (rl : RateLimit) (p : State × Option (List ℕ)) → p.1 ≡ none
    → within exec rl p ≡ (p.0, none)
within-none exec rl (s, none) h = refl
within-none exec rl (s, some n) h = cc

module _ (r : Request) where
  hit_at : (t : ℕ) → hit_of (record r { now = t }) ≡ record (hit_of r) { at = t }
  unfolding caller
  hit_at t = refl

  repeated-IsLog :
      (s t : ℕ) (gs : List ℕ) → s ≤ t → has_colon r.method ≡ false → IsLog s (repeated r t gs)
  repeated-IsLog s t [] h p = (h, p, tt)
  repeated-IsLog s t (g ∷ gs) h p = (h, p, repeated-IsLog t (t + g) gs (omega arith) p)

  streak-next :
      (past : List Hit) (t g : ℕ)
      → g < one_minute
      → streak (caller r) r.method (t + g) (record (hit_of r) { at = t } ∷ past)
        ≡ suc (streak (caller r) r.method t past)
  unfolding streak
  streak-next past t g h =
      let own : text_eq (caller r) (caller r) ≡ true = (text_eq_iff (caller r) (caller r)).1 refl in
      let same : text_eq r.method r.method ≡ true = (text_eq_iff r.method r.method).1 refl in
      let soon : ltb (t + g) (t + one_minute) ≡ true = ground arith in rw (own, same, soon)

  decide_at :
      (past : List Hit) (t : ℕ)
      → unlimited r.method ≡ false
      → decide past (record r { now = t }) ≡ verdict r.method (streak (caller r) r.method t past)
  unfolding caller
  decide_at past t e = rw e

  decisions-repeated :
      (past : List Hit) (t : ℕ) (gs : List ℕ)
      → unlimited r.method ≡ false
      → All (λ g. g < one_minute) gs
      → decisions past (repeated r t gs) ≡ verdicts r.method (streak (caller r) r.method t past) gs
  unfolding decisions
  decisions-repeated past t [] e h = rw (decide_at past t e)
  decisions-repeated past t (g ∷ gs) e h =
      let past' = record (hit_of r) { at = t } ∷ past in
      let kept : remember past (record r { now = t }) ≡ past' = rw (e, hit_at t) in
      rw (
        decide_at past t e,
        kept,
        decisions-repeated past' (t + g) gs e h.1,
        streak-next past t g h.0,
      )

-- With an empty Redis at the start that answers and whose INCR and EXPIRE do what they document: of
-- requests of one caller and one limited method without a colon, each less than a minute after the
-- one before, exactly the first ones pass, up to the quota of the method, however long the run is:
-- the window does not slide past the old requests.
pub outcomes-repeated :
    {State : Type 0}
    → (exec : Pipeline State) (empty : State) → IsRedis exec empty
    → (r : Request) (t : ℕ) (gs : List ℕ) → unlimited r.method ≡ false
    → has_colon r.method ≡ false
    → All (λ g. g < one_minute) gs
    → outcomes exec empty (repeated r t gs) ≡ verdicts r.method 0 gs
unfolding streak
outcomes-repeated exec empty up r t gs e p h = rw (
  outcomes-streaks exec empty up (repeated r t gs) (repeated-IsLog r 0 t gs (omega arith) p),
  decisions-repeated r [] t gs e h,
)

interceptor_open :
    {State : Type 0}
    → (exec : Pipeline State) (s : State) (r : Request)
    → ((s : State) (cs : List Command) (t : ℕ) → (exec s cs t).1 ≡ none)
    → (rate_limit_interceptor exec s r).1 ≡ passed
unfolding rate_limit_interceptor check_rate_limit
interceptor_open exec s r down = elim (Bool-cases (is_exempt r.method)) [
  | inl e ↦ rw e
  | inr f ↦
      let (who, rl) = resolve_rate_limit r in
      let cs = incr (rate_key who r.method) ∷ expire (rate_key who r.method) rl.window ∷ [] in
      rw (f, within-none exec rl (exec s cs r.now) (down s cs r.now))
]

-- When Redis answers nothing, every request passes.
outcomes_open :
    {State : Type 0}
    → (exec : Pipeline State) (s : State) (rs : List Request)
    → ((s : State) (cs : List Command) (t : ℕ) → (exec s cs t).1 ≡ none)
    → outcomes exec s rs ≡ map (λ r. passed) rs
unfolding outcomes
outcomes_open exec s [] down = refl
outcomes_open exec s (r ∷ rs) down =
    rw (
      interceptor_open exec s r down,
      outcomes_open exec (rate_limit_interceptor exec s r).0 rs down,
    )
