-- ===== src/Authz/Inverse.antt =====
-- The two name maps are inverse to each other.
use incord.Authz.Names.{permission_relation, assoc, invert, relation_to_name}
use incord.Base.{
  ◌≡◌, ◌↔◌, refl, ap, ◌∙◌, Bool, true, false, ◌&&◌, Option, none, some, List, [], ◌∷◌, String,
  str_eq, eq_iff, arith, Bool-cases, inl, inr,
}

gives : Option String → String → Bool
gives none s = false
gives (some t) s = str_eq t s

gives_eq : (o : Option String) (s : String) → gives o s ≡ true → o ≡ some s
unfolding gives
gives_eq none s h = ground arith
gives_eq (some t) s h = ap some ((eq_iff t s).0 h)

-- Every pair of the table is turned round by `f`.
turns : (String → Option String) → List (String × String) → Bool
turns f [] = true
turns f ((k, v) ∷ m) = gives (f v) k && turns f m

turns_sound :
    (f : String → Option String) (m : List (String × String)) (k v : String)
    → turns f m ≡ true
    → assoc k m ≡ some v
    → f v ≡ some k
unfolding turns assoc
turns_sound f [] k v h e = ground arith
turns_sound f ((j, w) ∷ m) k v h e = elim (Bool-cases (str_eq j k)) [
  | inl p ↦
      let w_is_v : w ≡ v = ground (arith, p, e) in
      let turned : gives (f w) j ≡ true = ground (arith, h) in
      cc (gives_eq (f w) j turned, w_is_v, (eq_iff j k).0 p)
  | inr p ↦ turns_sound f m k v (ground arith) (ground arith)
]

forward_table : turns relation_to_name permission_relation ≡ true
unfolding turns gives relation_to_name
forward_table = refl

backward_table : turns (λ n. assoc n permission_relation) (invert permission_relation) ≡ true
unfolding turns gives relation_to_name
backward_table = refl

relation_lem : (rel : String) → assoc rel (invert permission_relation) ≡ relation_to_name rel
unfolding relation_to_name
relation_lem rel = refl

-- A permission name has a relation if and only if that relation has this permission name.
pub relation_to_name-inverse :
    (name rel : String)
    → (assoc name permission_relation ≡ some rel) ↔ (relation_to_name rel ≡ some name)
relation_to_name-inverse name rel = (
  turns_sound relation_to_name permission_relation name rel forward_table,
  λ h.
      turns_sound (λ n. assoc n permission_relation) (invert permission_relation) rel name
        backward_table (relation_lem rel ∙ h),
)
