-- ===== src/Base/Action.antt =====
-- A call that reads and writes a state and may return an error. What was written before an error
-- stays written: the services run their statements without a transaction.
use mathlib.Core.Path.{◌≡◌, refl, ap, ◌∙◌}
use mathlib.Core.Bool.{Bool, true, false}
use mathlib.Core.Option.{Option, none, some}
use incord.Base.Tests.{if◌then◌else◌}

pub data Answer (E A : Type 0) : Type 0 where
  ok : A → Answer E A
  err : E → Answer E A

abbrev pub Action : Type 0 → Type 0 → Type 0 → Type 0
Action S E A = S → S × Answer E A

infixl 5 ◌>>=◌ ◌>>◌
unfoldable pub ◌>>=◌ : {S E A B : Type 0} → Action S E A → (A → Action S E B) → Action S E B
◌>>=◌ m f s = let (s', r) = m s in elim r [ ok a ↦ f a s' | err e ↦ (s', err e) ]

abbrev pub ◌>>◌ : {S E A B : Type 0} → Action S E A → Action S E B → Action S E B
m >> k = m >>= λ _. k

module _ {S E A : Type 0} where
  abbrev pub pure : A → Action S E A
  pure a s = (s, ok a)

  abbrev pub raise : E → Action S E A
  raise e s = (s, err e)

  abbrev pub gets : (S → A) → Action S E A
  gets f s = (s, ok (f s))

  -- `if err != nil { return e }`
  unfoldable pub or_raise : E → Action S E A → Action S E A
  or_raise e m s = let (s', r) = m s in elim r [ ok a ↦ (s', ok a) | err _ ↦ (s', err e) ]

  -- `_ = m`: the error is dropped.
  unfoldable pub ignore : Action S E A → Action S E (Unit {0})
  ignore m s = ((m s).0, ok tt)

  -- `a, err := m`, where the caller tests the error.
  unfoldable pub attempt : Action S E A → Action S E (Option A)
  attempt m s = let (s', r) = m s in elim r [ ok a ↦ (s', ok (some a)) | err _ ↦ (s', ok none) ]

module _ {S E : Type 0} where
  unfoldable pub raise_unless : Bool → E → Action S E (Unit {0})
  raise_unless b e s = (s, if b then ok tt else err e)

  unfoldable pub raise_if : Bool → E → Action S E (Unit {0})
  raise_if b e s = (s, if b then err e else ok tt)

  abbrev pub modify : (S → S) → Action S E (Unit {0})
  modify f s = (f s, ok tt)

-- Whatever the call returns, it keeps the property of the state.
abbrev pub Keeps : {S E A : Type 0} → (S → Type 0) → Action S E A → Type 0
Keeps {S} P m = (s : S) → P s → P (m s).0

module _ {S E A B : Type 0} (P : S → Type 0) where
  pub bind-Keeps :
      (m : Action S E A) (f : A → Action S E B)
      → Keeps P m
      → ((a : A) → Keeps P (f a))
      → Keeps P (m >>= f)
  unfolding ◌>>=◌
  bind-Keeps m f km kf s p = next (m s) (km s p)
    where
      next :
          (x : S × Answer E A)
          → P x.0
          → P (elim x.1 as (λ _. S × Answer E B) [ ok a ↦ f a x.0 | err e ↦ (x.0, err e) ]).0
      next (s', ok a) q = kf a s' q
      next (s', err e) q = q

abbrev pub is_ok : {E A : Type 0} → Answer E A → Bool
is_ok (ok a) = true
is_ok (err e) = false

pub err-ok :
    {S E A X : Type 0}
    → (s s' : S) (e : E) (a : A) → ◌≡◌ {A = S × Answer E A} (s, err e) (s', ok a)
    → X
err-ok s s' e a h = let no : false ≡ true = ap (λ x. is_ok x.1) h in absurd (clash no)
  where
    clash : false ≡ true → ⊥
    clash c = cc

abbrev value_or : {S E A : Type 0} → A → S × Answer E A → A
value_or d (s, ok a) = a
value_or d (s, err e) = d

pub ok-ok :
    {S E A : Type 0}
    → (s s' : S) (a b : A) → ◌≡◌ {A = S × Answer E A} (s, ok a) (s', ok b)
    → (s ≡ s') × (a ≡ b)
ok-ok s s' a b h = (ap (λ x. x.0) h, ap (value_or a) h)

module _ {S E A B : Type 0} where
  -- A chain that succeeds has succeeded in its first call and in the rest.
  pub bind-ok :
      (m : Action S E A) (f : A → Action S E B) (s s' : S) (b : B)
      → (m >>= f) s ≡ (s', ok b)
      → (a : A) × (t : S) × (m s ≡ (t, ok a)) × (f a t ≡ (s', ok b))
  unfolding ◌>>=◌
  bind-ok m f s s' b h = split (m s) refl h
    where
      split :
          (x : S × Answer E A)
          → m s ≡ x
          → elim x.1 as (λ _. S × Answer E B) [ ok a ↦ f a x.0 | err e ↦ (x.0, err e) ] ≡ (s', ok b)
          → (a : A) × (t : S) × (m s ≡ (t, ok a)) × (f a t ≡ (s', ok b))
      split (t, ok a) e k = (a, t, e, k)
      split (t, err e) w k = err-ok t s' e b k

module _ {S E A : Type 0} where
  pub or_raise-ok :
      (e : E) (m : Action S E A) (s s' : S) (a : A) → or_raise e m s ≡ (s', ok a) → m s ≡ (s', ok a)
  unfolding or_raise
  or_raise-ok e m s s' a h = split (m s) refl h
    where
      split :
          (x : S × Answer E A)
          → m s ≡ x
          → elim x.1 as (λ _. S × Answer E A) [ ok a ↦ (x.0, ok a) | err _ ↦ (x.0, err e) ]
            ≡ (s', ok a)
          → m s ≡ (s', ok a)
      split (t, ok b) w k = w ∙ k
      split (t, err f) w k = err-ok t s' e a k

module _ {S E : Type 0} where
  pub raise_unless-ok :
      (b : Bool) (e : E) (s s' : S) → raise_unless b e s ≡ (s', ok tt) → (b ≡ true) × (s ≡ s')
  unfolding raise_unless
  raise_unless-ok true e s s' h = (refl, ap (λ x. x.0) h)
  raise_unless-ok false e s s' h = err-ok s s' e tt h

  pub raise_if-ok :
      (b : Bool) (e : E) (s s' : S) → raise_if b e s ≡ (s', ok tt) → (b ≡ false) × (s ≡ s')
  unfolding raise_if
  raise_if-ok true e s s' h = err-ok s s' e tt h
  raise_if-ok false e s s' h = (refl, ap (λ x. x.0) h)

-- The simplest calls keep everything that they do not change.
module _ {S E : Type 0} (P : S → Type 0) where
  pub or_raise-Keeps :
      {A : Type 0} → (e : E) (m : Action S E A) → Keeps P m → Keeps P (or_raise e m)
  unfolding or_raise
  or_raise-Keeps e m k s p = next (m s) (k s p)
    where
      next :
          {A : Type 0}
          → (x : S × Answer E A) → P x.0
          → P (elim x.1 as (λ _. S × Answer E A) [ ok a ↦ (x.0, ok a) | err _ ↦ (x.0, err e) ]).0
      next (t, ok a) q = q
      next (t, err f) q = q

  pub attempt-Keeps : {A : Type 0} → (m : Action S E A) → Keeps P m → Keeps P (attempt m)
  unfolding attempt
  attempt-Keeps m k s p = next (m s) (k s p)
    where
      next :
          {A : Type 0}
          → (x : S × Answer E A) → P x.0
          → P
              (elim x.1 as (λ _. S × Answer E (Option A)) [
                | ok a ↦ (x.0, ok (some a))
                | err _ ↦ (x.0, ok none)
              ]).0
      next (t, ok a) q = q
      next (t, err f) q = q
