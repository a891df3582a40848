-- ===== src/Messages/Search.antt =====
-- internal/features/message/service.go: what containsEveryoneMention finds.
use incord.Messages.{
  scan, index_of, stands_alone, after, find_mention, contains_everyone_mention, everyone_tag,
  here_tag, or_next,
}
use incord.Messages.Scan.{
  drop-drop, drop-beyond, prefix-fits, length-drop, scan-none, scan-some, apart,
}
use incord.Base.{
  ℕ, zero, suc, ◌+◌, ◌-◌, ◌<◌, ◌≤◌, ◌≡◌, refl, sym, ap, ◌∙◌, Bool, true, false, ◌&&◌, ◌||◌, Option,
  none, some, [], ◌∷◌, Text, codes, any, drop, length, has_prefix, leb, ◌==◌, arith, Bool-cases,
  inl, inr, ◌⊎◌,
}

-- A tag stands at an index, with no letter, digit or underscore beside it.
unfoldable pub mention_at : Text → Text → ℕ → Bool
mention_at content tag i = has_prefix (drop i content) tag && stands_alone content tag i

-- What an answer says of the indices of the text; to give none is no answer.
unfoldable pub Decides : (ℕ → Bool) → Option Bool → Type 0
Decides p none = ⊥
Decides p (some true) = (i : ℕ) × (p i ≡ true)
Decides p (some false) = (i : ℕ) → p i ≡ false

le_or_lt : (a b : ℕ) → (a ≤ b) ⊎ (b < a)
le_or_lt a b = elim (Bool-cases (leb a b)) [
  | inl p ↦ inl (ground arith)
  | inr p ↦ inr (ground arith)
]

prefix_no_mention :
    (content tag : Text) (i : ℕ)
    → has_prefix (drop i content) tag ≡ false
    → mention_at content tag i ≡ false
unfolding mention_at
prefix_no_mention content tag i h = rw h

both :
    (content tag : Text) (i : ℕ)
    → has_prefix (drop i content) tag ≡ true
    → stands_alone content tag i ≡ true
    → mention_at content tag i ≡ true
unfolding mention_at
both content tag i h k = rw (h, k)

module _ (c : ℕ) (tag : Text) (once : any (λ b. b == c) tag ≡ false) where
  unfoldable NoneBefore : Text → ℕ → Type 0
  NoneBefore content j = (e : ℕ) → e < j → mention_at content (c ∷ tag) e ≡ false

  -- No answer of indexOf: the tag stands nowhere from the index on.
  absent :
      (content : Text) (idx : ℕ)
      → index_of content (c ∷ tag) idx ≡ none
      → (d : ℕ) → has_prefix (drop (idx + d) content) (c ∷ tag) ≡ false
  unfolding index_of has_prefix
  absent content idx h d = elim (Bool-cases (leb (length content) idx)) [
    | inl p ↦
        let far : length content ≤ idx + d = ground arith in rw (drop-beyond content (idx + d) far)
    | inr p ↦
        let q : scan (c ∷ tag) (drop idx content) idx ≡ none = rw p at h in
        rw (← drop-drop idx d content, scan-none c tag (drop idx content) idx d q)
  ]

  moved :
      (content : Text) (j k e : ℕ) (b : Bool)
      → e ≡ j + k
      → has_prefix (drop k (drop j content)) (c ∷ tag) ≡ b
      → has_prefix (drop e content) (c ∷ tag) ≡ b
  moved content j k e b q h = rw (q, ← drop-drop j k content, h)

  -- An answer of indexOf: the first place from the index on where the tag stands.
  present :
      (content : Text) (idx i : ℕ)
      → index_of content (c ∷ tag) idx ≡ some i
      → (idx ≤ i)
        × (has_prefix (drop i content) (c ∷ tag) ≡ true)
        × ((e : ℕ) → idx ≤ e → e < i → has_prefix (drop e content) (c ∷ tag) ≡ false)
  unfolding index_of
  present content idx i h = elim (Bool-cases (leb (length content) idx)) [
    | inl p ↦ cc (rw p at h)
    | inr p ↦
        let (d, a, b, m) = scan-some c tag (drop idx content) idx i (rw p at h) in
        (
          omega (arith, a),
          rw (a, ← drop-drop idx d content, b),
          λ e l u.
              moved content idx (e - idx) e false (omega (arith, l))
                (m (e - idx) (omega (arith, a, l, u))),
        )
  ]

  inside :
      (s : Text) (k : ℕ)
      → has_prefix s (c ∷ tag) ≡ true
      → k < length tag
      → has_prefix (drop k (drop 1 s)) (c ∷ tag) ≡ false
  unfolding has_prefix
  inside [] k h l = cc
  inside (x ∷ s) k h l = apart c tag tag s k (ground (arith, h)) once l

  -- The next tag begins behind the one that was found.
  none_inside :
      (content : Text) (i k : ℕ)
      → has_prefix (drop i content) (c ∷ tag) ≡ true
      → k < length tag
      → has_prefix (drop (i + 1 + k) content) (c ∷ tag) ≡ false
  none_inside content i k h l = moved content (i + 1) k (i + 1 + k) false refl (
      ap (λ s. has_prefix (drop k s) (c ∷ tag)) (sym (drop-drop i 1 content))
      ∙ inside (drop i content) k h l)

  behind :
      (content : Text) (idx i : ℕ)
      → NoneBefore content idx
      → index_of content (c ∷ tag) idx ≡ some i
      → stands_alone content (c ∷ tag) i ≡ false
      → NoneBefore content (i + length (c ∷ tag))
  unfolding mention_at NoneBefore
  behind content idx i m h f e l =
      let (a, b, n) = present content idx i h in
      elim (le_or_lt idx e) [
        | inr before ↦ m e before
        | inl from ↦ elim (le_or_lt i e) [
          | inr early ↦ rw (n e from early)
          | inl late ↦ elim (le_or_lt e i) [
            | inl back ↦ let q : e ≡ i = omega arith in rw (q, f, b)
            | inr on ↦
                let q : e ≡ i + 1 + (e - (i + 1)) = omega arith in
                let r : e - (i + 1) < length tag = omega arith in
                prefix_no_mention content (c ∷ tag) e (
                  ap (λ n. has_prefix (drop n content) (c ∷ tag)) q
                  ∙ none_inside content i (e - (i + 1)) b r)
          ]
        ]
      ]

  found :
      (content : Text) (idx : ℕ) (next : ℕ → Option Bool) (o : Option ℕ)
      → NoneBefore content idx
      → index_of content (c ∷ tag) idx ≡ o
      → ((j : ℕ)
          → idx < j
          → j ≤ length content
          → NoneBefore content j
          → Decides (mention_at content (c ∷ tag)) (next j))
      → Decides
          (mention_at content (c ∷ tag))
          (after (λ i. next (i + length (c ∷ tag))) content (c ∷ tag) o)
  unfolding after Decides NoneBefore
  found content idx next none m h r = λ e. elim (le_or_lt idx e) [
    | inr before ↦ m e before
    | inl from ↦
        let q : e ≡ idx + (e - idx) = omega arith in
        prefix_no_mention content (c ∷ tag) e
          (ap (λ n. has_prefix (drop n content) (c ∷ tag)) q ∙ absent content idx h (e - idx))
  ]
  found content idx next (some i) m h r =
      let (a, b, n) = present content idx i h in
      elim (Bool-cases (stands_alone content (c ∷ tag) i)) [
        | inl p ↦
            let hit : Decides (mention_at content (c ∷ tag)) (some true) =
              (i, both content (c ∷ tag) i b p) in
            rw p hit
        | inr p ↦
            let fits : length (c ∷ tag) ≤ length (drop i content) =
              prefix-fits (drop i content) (c ∷ tag) b in
            let size : length (drop i content) ≡ length content - i = length-drop i content in
            let r' : Decides (mention_at content (c ∷ tag)) (next (i + length (c ∷ tag))) =
              r (i + length (c ∷ tag)) (omega (arith, a)) (omega (arith, fits, size))
                (behind content idx i m h p) in
            rw p r'
      ]

  start_none : (content : Text) → NoneBefore content 0
  unfolding NoneBefore
  start_none content = λ e l. let no : ⊥ = omega (arith, l) in absurd no

  decides :
      (fuel : ℕ) (content : Text) (idx : ℕ)
      → length content < fuel + idx
      → idx ≤ length content
      → NoneBefore content idx
      → Decides (mention_at content (c ∷ tag)) (find_mention fuel content (c ∷ tag) idx)
  unfolding find_mention
  decides zero content idx h b m = let no : ⊥ = omega (arith, h, b) in absurd no
  decides (suc fuel) content idx h b m =
      found content idx (λ j. find_mention fuel content (c ∷ tag) j)
        (index_of content (c ∷ tag) idx) m refl
        (λ j l u n. decides fuel content j (omega (arith, h, l)) u n)

-- One of the two tags stands at an index, with no letter, digit or underscore beside it.
unfoldable pub calls_everyone : Text → ℕ → Bool
calls_everyone content i = mention_at content everyone_tag i || mention_at content here_tag i

either :
    (p q : ℕ → Bool) (a b : Option Bool)
    → Decides p a
    → Decides q b
    → Decides (λ i. p i || q i) (or_next a b)
unfolding Decides
either p q none b h k = absurd h
either p q (some true) b (i, e) k = (i, rw e)
either p q (some false) none h k = absurd k
either p q (some false) (some true) h (i, e) = (i, rw (h i, e))
either p q (some false) (some false) h k = λ i. rw (h i, k i)

-- On more fuel than the text is long, the search for a mention of everyone ends with an answer,
-- and the answer says whether there is an index at which one of the two tags stands alone.
pub contains_everyone_mention-decides :
    (fuel : ℕ) (content : Text)
    → length content < fuel
    → Decides (calls_everyone content) (contains_everyone_mention fuel content)
unfolding contains_everyone_mention calls_everyone any
contains_everyone_mention-decides fuel content h =
    either (mention_at content everyone_tag) (mention_at content here_tag)
      (find_mention fuel content everyone_tag 0) (find_mention fuel content here_tag 0)
      (decides 64 (codes "everyone") refl fuel content 0 (omega (arith, h)) (omega arith)
        (start_none 64 (codes "everyone") refl content))
      (decides 64 (codes "here") refl fuel content 0 (omega (arith, h)) (omega arith)
        (start_none 64 (codes "here") refl content))
