-- ===== src/SqlUtil/Pieces.antt =====
-- No byte of the text is lost: the slices, joined by the semicolons they were cut at, are the text.
use mathlib.Core.List.{append_assoc}
use incord.Base.{
  ℕ, zero, suc, ◌≡◌, ◌≢◌, refl, sym, ap, ◌∙◌, true, inl, inr, List, [], ◌∷◌, ◌++◌, Text, Bool-cases,
  arith,
}
use incord.SqlUtil.{Mode, normal, line_comment, block_comment, single_quote, double_quote, dollar}
use incord.SqlUtil.{round, open_round, slices}

-- A semicolon before each slice.
glue_rest : List Text → Text
glue_rest [] = []
glue_rest (x ∷ xs) = b';' ∷ (x ++ glue_rest xs)

pub glue : List Text → Text
unfolding glue_rest
glue [] = []
glue (x ∷ xs) = x ++ glue_rest xs

open_round_cuts : (c : ℕ) (rest : Text) → (open_round c rest).cuts ≡ true → c ≡ b';'
unfolding open_round
open_round_cuts c rest h = ground arith

pub round_cuts : (m : Mode) (c : ℕ) (rest : Text) → (round m c rest).cuts ≡ true → c ≡ b';'
unfolding round
round_cuts normal c rest h = ground (arith, open_round_cuts c rest h)
round_cuts line_comment c rest h = ground arith
round_cuts block_comment c rest h = ground arith
round_cuts single_quote c rest h = ground arith
round_cuts double_quote c rest h = ground arith
round_cuts (dollar tag) c rest h = ground arith

slices-ne-nil : (m : Mode) (k : ℕ) (sl s : Text) → slices m k sl s ≢ []
unfolding slices
slices-ne-nil m k sl [] h = cc
slices-ne-nil m (suc k) sl (c ∷ s) h = slices-ne-nil m k (sl ++ c ∷ []) s h
slices-ne-nil m zero sl (c ∷ s) h = elim (Bool-cases (round m c s).cuts) [
  | inl e ↦ cc (rw e at h)
  | inr e ↦ slices-ne-nil (round m c s).mode (round m c s).skip (sl ++ c ∷ []) s (rw e at h)
]

glue_rest-slices : (xs : List Text) → xs ≢ [] → glue_rest xs ≡ b';' ∷ glue xs
unfolding glue
glue_rest-slices [] h = absurd (h refl)
glue_rest-slices (x ∷ xs) h = refl

-- The slices, from every mode and position, glued by semicolons are the text.
pub glue-slices : (m : Mode) (k : ℕ) (sl s : Text) → glue (slices m k sl s) ≡ sl ++ s
unfolding slices glue
glue-slices m k sl [] = refl
glue-slices m (suc k) sl (c ∷ s) = glue-slices m k (sl ++ c ∷ []) s ∙ append_assoc sl (c ∷ []) s
glue-slices m zero sl (c ∷ s) =
    let r = round m c s in
    elim (Bool-cases r.cuts) [
      | inl e ↦ rw e (
          ap (λ t. sl ++ t)
            (glue_rest-slices (slices r.mode r.skip [] s) (slices-ne-nil r.mode r.skip [] s)
              ∙ ap (λ t. b';' ∷ t) (glue-slices r.mode r.skip [] s)
              ∙ ap (λ d. d ∷ s) (sym (round_cuts m c s e))))
      | inr e ↦ rw e (glue-slices r.mode r.skip (sl ++ c ∷ []) s ∙ append_assoc sl (c ∷ []) s)
    ]
