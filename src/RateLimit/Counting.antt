-- ===== src/RateLimit/Counting.antt =====
-- What the pipeline of INCR and EXPIRE makes of the count of a key.
use incord.RateLimit.{RateLimit, check_rate_limit}
use incord.RateLimit.Redis.{
  Pipeline, IsRedis, Entry, is_over, incr, expire, at_time, value_of, bumped, renewed,
}
use incord.Base.{
  ℕ, suc, ◌≡◌, ◌+◌, refl, true, Option, none, some, [], ◌∷◌, Text, text_eq, text_eq_iff, ltb, leb,
  if◌then◌else◌, arith, Bool-cases, inl, inr,
}

at_time-bumped :
    (t : ℕ) (o : Option Entry)
    → at_time t (some (bumped (at_time t o))) ≡ some (bumped (at_time t o))
at_time-bumped t none = refl
at_time-bumped t (some e) = elim (Bool-cases (is_over t e.deadline)) [
  | inl gone ↦ rw gone
  | inr there ↦ rw (there, there)
]

value-bumped : (o : Option Entry) → (bumped o).value ≡ suc (value_of o)
value-bumped none = refl
value-bumped (some e) = refl

value-renewed :
    (later d : ℕ) (e : Entry)
    → value_of (at_time later (renewed d (some e))) ≡ (if ltb later d then e.value else 0)
value-renewed later d e = ground arith

module _ {State : Type 0} (exec : Pipeline State) (empty : State) (up : IsRedis exec empty) where
  open up use {apply, entry, exec-apply, entry-empty, reply-incr, entry-incr, entry-expire}

  -- What a key holds at a time, 0 where it is gone.
  unfoldable pub count : State → Text → ℕ → ℕ
  count s k t = value_of (at_time t (entry s k))

  pub count-empty : (k : Text) (t : ℕ) → count empty k t ≡ 0
  unfolding count
  count-empty k t = rw (entry-empty k)

  abbrev pub counted : State → Text → ℕ → ℕ → State
  counted s k w t = (apply (apply s (incr k) t).0 (expire k w) t).0

  pub check-count :
      (s : State) (k : Text) (rl : RateLimit) (t : ℕ)
      → check_rate_limit exec s k rl t
        ≡ (counted s k rl.window t, some (leb (suc (count s k t)) rl.limit))
  unfolding check_rate_limit count
  check-count s k rl t = rw (exec-apply s (incr k ∷ expire k rl.window ∷ []) t, reply-incr s k t)

  -- The key holds one more, and for the window from this time on, however long it had held what it
  -- did; the other keys stay.
  pub count-counted :
      (s : State) (k j : Text) (w t later : ℕ)
      → count (counted s k w t) j later ≡ (
          if text_eq k j
          then (if ltb later (t + w) then suc (count s k t) else 0)
          else count s j later)
  unfolding count
  count-counted s k j w t later =
      let s1 = (apply s (incr k) t).0 in
      let own : text_eq k k ≡ true = (text_eq_iff k k).1 refl in
      elim (Bool-cases (text_eq k j)) [
        | inl e ↦ rw (
          entry-expire s1 k j w t,
          e,
          entry-incr s k k t,
          own,
          at_time-bumped t (entry s k),
          value-renewed later (t + w) (bumped (at_time t (entry s k))),
          value-bumped (at_time t (entry s k)),
        )
        | inr f ↦ rw (entry-expire s1 k j w t, f, entry-incr s k j t, f)
      ]
