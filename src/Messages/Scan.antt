-- ===== src/Messages/Scan.antt =====
-- internal/features/message/service.go: the loop of indexOf.
use incord.Messages.{scan}
use incord.Base.{
  ℕ, zero, suc, ◌+◌, ◌-◌, ◌<◌, ◌≤◌, ◌≡◌, refl, sym, ap, ◌∙◌, true, false, none, some, [], ◌∷◌, Text,
  any, drop, length, has_prefix, ◌==◌, arith, Bool-cases, inl, inr,
}

drop-nil : (n : ℕ) → ◌≡◌ {A = Text} (drop n []) []
drop-nil zero = refl
drop-nil (suc n) = refl

pub drop-drop : (k e : ℕ) (s : Text) → drop e (drop k s) ≡ drop (k + e) s
drop-drop zero e s = let q : e ≡ zero + e = omega arith in ap (λ n. drop n s) q
drop-drop (suc k) e [] = drop-nil e ∙ sym (drop-nil (suc k + e))
drop-drop (suc k) e (x ∷ s) =
    let q : suc (k + e) ≡ suc k + e = omega arith in drop-drop k e s ∙ ap (λ n. drop n (x ∷ s)) q

pub drop-beyond : (s : Text) (k : ℕ) → length s ≤ k → ◌≡◌ {A = Text} (drop k s) []
drop-beyond [] k h = drop-nil k
drop-beyond (x ∷ s) zero h = let no : ⊥ = omega (arith, h) in absurd no
drop-beyond (x ∷ s) (suc k) h = drop-beyond s k (omega (arith, h))

pub prefix-fits : (s t : Text) → has_prefix s t ≡ true → length t ≤ length s
unfolding has_prefix
prefix-fits s [] h = omega arith
prefix-fits [] (c ∷ t) h = cc
prefix-fits (x ∷ s) (c ∷ t) h = ground (arith, prefix-fits s t)

pub length-drop : (k : ℕ) (s : Text) → length (drop k s) ≡ length s - k
length-drop zero s = omega arith
length-drop (suc k) [] = omega arith
length-drop (suc k) (x ∷ s) = omega (arith, length-drop k s)

module _ (c : ℕ) (tag : Text) where
  pub scan-none :
      (s : Text) (k e : ℕ) → scan (c ∷ tag) s k ≡ none → has_prefix (drop e s) (c ∷ tag) ≡ false
  unfolding scan has_prefix
  scan-none [] k e h = rw (drop-nil e)
  scan-none (x ∷ s) k zero h = elim (Bool-cases (has_prefix (x ∷ s) (c ∷ tag))) [
    | inl p ↦ cc (rw p at h)
    | inr p ↦ p
  ]
  scan-none (x ∷ s) k (suc e) h = elim (Bool-cases (has_prefix (x ∷ s) (c ∷ tag))) [
    | inl p ↦ cc (rw p at h)
    | inr p ↦ scan-none s (k + 1) e (rw p at h)
  ]

  first_no :
      (x : ℕ) (s : Text) (e d : ℕ)
      → has_prefix (x ∷ s) (c ∷ tag) ≡ false
      → ((e : ℕ) → e < d → has_prefix (drop e s) (c ∷ tag) ≡ false)
      → e < suc d
      → has_prefix (drop e (x ∷ s)) (c ∷ tag) ≡ false
  first_no x s zero d p m l = p
  first_no x s (suc e) d p m l = m e (omega (arith, l))

  pub scan-some :
      (s : Text) (k i : ℕ)
      → scan (c ∷ tag) s k ≡ some i
      → (d : ℕ) × (i ≡ k + d)
        × (has_prefix (drop d s) (c ∷ tag) ≡ true)
        × ((e : ℕ) → e < d → has_prefix (drop e s) (c ∷ tag) ≡ false)
  unfolding scan
  scan-some [] k i h = cc
  scan-some (x ∷ s) k i h = elim (Bool-cases (has_prefix (x ∷ s) (c ∷ tag))) [
    | inl p ↦
        let e : some k ≡ some i = rw p at h in
        let q : k ≡ i = cc in (0, omega arith, p, λ e l. let no : ⊥ = omega (arith, l) in absurd no)
    | inr p ↦
        let (d, a, b, m) = scan-some s (k + 1) i (rw p at h) in
        (suc d, omega (arith, a), b, λ e l. first_no x s e d p m l)
  ]

  -- The first byte of the tag stands nowhere in the rest of the tag.
  pub apart :
      (t u : Text) (e : ℕ)
      → has_prefix u t ≡ true
      → any (λ b. b == c) t ≡ false
      → e < length t
      → has_prefix (drop e u) (c ∷ tag) ≡ false
  unfolding has_prefix any
  apart [] u e h n l = let no : ⊥ = omega (arith, l) in absurd no
  apart (b ∷ t) [] e h n l = cc
  apart (b ∷ t) (x ∷ u) zero h n l = ground (arith, h, n)
  apart (b ∷ t) (x ∷ u) (suc e) h n l =
      apart t u e (ground (arith, h)) (ground (arith, n)) (omega (arith, l))
