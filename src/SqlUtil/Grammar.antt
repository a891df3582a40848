-- ===== src/SqlUtil/Grammar.antt =====
-- A grammar of SQL text: a statement is a run of plain bytes, quoted strings, comments and dollar
-- quoted bodies. The splitter walks over a whole segment, whatever semicolons it holds.
use mathlib.Core.Path.{subst}
use mathlib.Core.List.{append-nil, append_assoc}
use incord.Base.{
  has_prefix-append, ℕ, ◌≡◌, ◌≢◌, refl, sym, ap, ◌∙◌, Bool, true, false, ◌||◌, ◌&&◌, ◌≤◌,
  has_prefix, inl, inr, some, none, [], ◌∷◌, ◌++◌, Text, All, length, length-append, Bool-cases,
  ◌==◌, ==_iff, arith,
}
use incord.SqlUtil.{Mode, normal, line_comment, block_comment, single_quote, double_quote, dollar}
use incord.SqlUtil.{
  go_on, round, open_round, slices, is_tag_byte, read_tag, read_dollar_quote_tag, next_byte,
}

pub data Segment : Type 0 where
  plain : ℕ → Segment
  single double line block : Text → Segment
  tagged : Text → Text → Segment

abbrev pub IsTag : Bool → Text → Type 0
IsTag first [] = Unit
IsTag first (c ∷ t) = (is_tag_byte first c ≡ true) × IsTag false t

-- The text begins with the byte.
abbrev pub begins : ℕ → Text → Bool
begins d [] = false
begins d (c ∷ s) = c == d

-- The text is the rest of an opening tag: bytes of a tag up to a dollar sign.
abbrev pub opens_tag : Bool → Text → Bool
opens_tag first [] = false
opens_tag first (c ∷ s) = (c == b'$') || (is_tag_byte first c && opens_tag false s)

-- A star and a slash stand in the text.
abbrev pub closes_comment : Text → Bool
closes_comment [] = false
closes_comment (c ∷ b) = ((c == b'*') && begins b'/' b) || closes_comment b

-- The tag begins at a byte of the text, where the text has the tag behind it.
abbrev pub closes_early : Text → Text → Bool
closes_early tag [] = false
closes_early tag (c ∷ b) = has_prefix (c ∷ (b ++ tag)) tag || closes_early tag b

abbrev pub tag_text : Text → Text
tag_text t = b'$' ∷ (t ++ b'$' ∷ [])

-- A segment before a text: a plain byte is no quote and no semicolon, and starts no comment and no
-- dollar quote with what follows; a body does not hold what closes it.
abbrev pub IsClean : Segment → Text → Type 0
IsClean (plain c) rest =
    (c ≢ 39)
    × (c ≢ 34)
    × (c ≢ b';')
    × (((c == b'-') && begins b'-' rest) ≡ false)
    × (((c == b'/') && begins b'*' rest) ≡ false)
    × (((c == b'$') && opens_tag true rest) ≡ false)
IsClean (single b) rest = All (λ c. c ≢ 39) b
IsClean (double b) rest = All (λ c. c ≢ 34) b
IsClean (line b) rest = All (λ c. c ≢ 10) b
IsClean (block b) rest = closes_comment b ≡ false
IsClean (tagged t b) rest = IsTag true t × (closes_early (tag_text t) b ≡ false)

abbrev pub print_segment : Segment → Text
print_segment (plain c) = c ∷ []
print_segment (single b) = 39 ∷ (b ++ 39 ∷ [])
print_segment (double b) = 34 ∷ (b ++ 34 ∷ [])
print_segment (line b) = b'-' ∷ b'-' ∷ (b ++ 10 ∷ [])
print_segment (block b) = b'/' ∷ b'*' ∷ (b ++ b'*' ∷ b'/' ∷ [])
print_segment (tagged t b) = tag_text t ++ (b ++ tag_text t)

-- From mode `m` the splitter walks over the bytes `xs` before `rest`, cuts nothing and is in mode
-- `m'` after them.
abbrev pub Walks : Mode → Mode → Text → Text → Type 0
Walks m m' xs rest = (sl : Text) → slices m 0 sl (xs ++ rest) ≡ slices m' 0 (sl ++ xs) rest

step_lem :
    (m m' : Mode) (k c : ℕ) (sl rest : Text)
    → round m c rest ≡ go_on m' k
    → slices m 0 sl (c ∷ rest) ≡ slices m' k (sl ++ c ∷ []) rest
unfolding slices
step_lem m m' k c sl rest e = rw e

skip_lem :
    (m : Mode) (xs sl rest : Text)
    → slices m (length xs) sl (xs ++ rest) ≡ slices m 0 (sl ++ xs) rest
unfolding slices
skip_lem m [] sl rest = rw append-nil
skip_lem m (x ∷ xs) sl rest =
    skip_lem m xs (sl ++ x ∷ []) rest ∙ ap (λ t. slices m 0 t rest) (append_assoc sl (x ∷ []) xs)

pub Walks-nil : (m : Mode) (rest : Text) → Walks m m [] rest
Walks-nil m rest sl = rw append-nil

pub Walks-append :
    (m m' m'' : Mode) (xs ys rest : Text)
    → Walks m m' xs (ys ++ rest)
    → Walks m' m'' ys rest
    → Walks m m'' (xs ++ ys) rest
Walks-append m m' m'' xs ys rest w v sl =
    ap (λ t. slices m 0 sl t) (append_assoc xs ys rest)
    ∙ w sl
    ∙ v (sl ++ xs)
    ∙ ap (λ t. slices m'' 0 t rest) (append_assoc sl xs ys)

-- A round that steps over the bytes `xs` behind its own.
Walks-round :
    (m m' : Mode) (c : ℕ) (xs rest : Text)
    → round m c (xs ++ rest) ≡ go_on m' (length xs)
    → Walks m m' (c ∷ xs) rest
Walks-round m m' c xs rest e sl =
    step_lem m m' (length xs) c sl (xs ++ rest) e
    ∙ skip_lem m' xs (sl ++ c ∷ []) rest
    ∙ ap (λ t. slices m' 0 t rest) (append_assoc sl (c ∷ []) xs)

-- A body of bytes that keep the mode.
Walks-body :
    (P : ℕ → Type 0) (m : Mode)
    → ((c : ℕ) (rest : Text) → P c → round m c rest ≡ go_on m 0)
    → (b rest : Text) → All P b
    → Walks m m b rest
Walks-body P m keep [] rest h = Walks-nil m rest
Walks-body P m keep (c ∷ b) rest h =
    Walks-append _ _ _ (c ∷ []) b rest (Walks-round m m c [] (b ++ rest) (keep c (b ++ rest) h.0))
      (Walks-body P m keep b rest h.1)

-- A closing quote before anything: where a second quote follows, the string goes on either way.
quote_twice :
    (sl rest : Text)
    → slices single_quote 0 sl (39 ∷ 39 ∷ rest) ≡ slices normal 0 (sl ++ 39 ∷ []) (39 ∷ rest)
unfolding slices round
quote_twice sl rest = refl

double_twice :
    (sl rest : Text)
    → slices double_quote 0 sl (34 ∷ 34 ∷ rest) ≡ slices normal 0 (sl ++ 34 ∷ []) (34 ∷ rest)
unfolding slices round
double_twice sl rest = refl

close_round :
    (d : ℕ) (rest : Text) → (d == 39) ≡ false → round single_quote 39 (d ∷ rest) ≡ go_on normal 0
unfolding round
close_round d rest e = rw e

close_round_double :
    (d : ℕ) (rest : Text) → (d == 34) ≡ false → round double_quote 34 (d ∷ rest) ≡ go_on normal 0
unfolding round
close_round_double d rest e = rw e

close_end : round single_quote 39 [] ≡ go_on normal 0
unfolding round
close_end = refl

close_end_double : round double_quote 34 [] ≡ go_on normal 0
unfolding round
close_end_double = refl

Walks-close_single : (rest : Text) → Walks single_quote normal (39 ∷ []) rest
Walks-close_single [] sl = step_lem single_quote normal 0 39 sl [] close_end
Walks-close_single (d ∷ rest) sl = elim (Bool-cases (d == 39)) [
  | inl e ↦
      subst
        (λ x. slices single_quote 0 sl (39 ∷ x ∷ rest) ≡ slices normal 0 (sl ++ 39 ∷ []) (x ∷ rest))
        (sym ((==_iff d 39).0 e)) (quote_twice sl rest)
  | inr e ↦ step_lem single_quote normal 0 39 sl (d ∷ rest) (close_round d rest e)
]

Walks-close_double : (rest : Text) → Walks double_quote normal (34 ∷ []) rest
Walks-close_double [] sl = step_lem double_quote normal 0 34 sl [] close_end_double
Walks-close_double (d ∷ rest) sl = elim (Bool-cases (d == 34)) [
  | inl e ↦
      subst
        (λ x. slices double_quote 0 sl (34 ∷ x ∷ rest) ≡ slices normal 0 (sl ++ 34 ∷ []) (x ∷ rest))
        (sym ((==_iff d 34).0 e)) (double_twice sl rest)
  | inr e ↦ step_lem double_quote normal 0 34 sl (d ∷ rest) (close_round_double d rest e)
]

stay_single : (c : ℕ) (rest : Text) → c ≢ 39 → round single_quote c rest ≡ go_on single_quote 0
unfolding round
stay_single c rest h = ground arith

stay_double : (c : ℕ) (rest : Text) → c ≢ 34 → round double_quote c rest ≡ go_on double_quote 0
unfolding round
stay_double c rest h = ground arith

stay_line : (c : ℕ) (rest : Text) → c ≢ 10 → round line_comment c rest ≡ go_on line_comment 0
unfolding round
stay_line c rest h = ground arith

next-begins : (d : ℕ) (s : Text) → d ≢ 0 → (next_byte s == d) ≡ begins d s
unfolding next_byte
next-begins d [] h = ground arith
next-begins d (c ∷ s) h = refl

next_star : (b rest : Text) → (next_byte (b ++ b'*' ∷ rest) == b'/') ≡ begins b'/' b
unfolding next_byte
next_star [] rest = refl
next_star (c ∷ b) rest = refl

-- The body of a block comment, before its end.
Walks-comment :
    (b rest : Text)
    → closes_comment b ≡ false
    → Walks block_comment block_comment b (b'*' ∷ b'/' ∷ rest)
unfolding round
Walks-comment [] rest h = Walks-nil block_comment (b'*' ∷ b'/' ∷ rest)
Walks-comment (c ∷ b) rest h =
    let end = b'*' ∷ b'/' ∷ rest in
    Walks-append _ _ _ (c ∷ []) b end
      (Walks-round block_comment block_comment c [] (b ++ end)
        (ground (arith, h, next_star b (b'/' ∷ rest))))
      (Walks-comment b rest (ground (arith, h)))

no_tag : (first : Bool) (s : Text) → opens_tag first s ≡ false → read_tag first s ≡ none
unfolding read_tag
no_tag first [] h = refl
no_tag first (c ∷ s) h = ground (arith, h, no_tag false s)

no_quote : (rest : Text) → opens_tag true rest ≡ false → read_dollar_quote_tag (b'$' ∷ rest) ≡ none
unfolding read_dollar_quote_tag
no_quote rest h = ground (arith, no_tag true rest h)

stay_plain : (c : ℕ) (rest : Text) → IsClean (plain c) rest → round normal c rest ≡ go_on normal 0
unfolding round open_round
stay_plain c rest h = ground (
  arith,
  h,
  next-begins b'-' rest (omega arith),
  next-begins b'*' rest (omega arith),
  no_quote rest,
)

-- The opening tag is read whole.
read_tag-name :
    (first : Bool) (t rest : Text)
    → IsTag first t
    → read_tag first (t ++ b'$' ∷ rest) ≡ some (t ++ b'$' ∷ [])
unfolding read_tag
read_tag-name first [] rest h = refl
read_tag-name first (c ∷ t) rest h = ground (arith, read_tag-name false t rest h.1)

open_tag :
    (t rest : Text)
    → IsTag true t
    → round normal b'$' ((t ++ b'$' ∷ []) ++ rest)
      ≡ go_on (dollar (tag_text t)) (length (t ++ b'$' ∷ []))
unfolding round
open_tag t rest h =
    rw append_assoc (ground (arith, read_tag-name true t rest h, length-append t (b'$' ∷ rest)))

close_tag :
    (t rest : Text)
    → round (dollar (tag_text t)) b'$' ((t ++ b'$' ∷ []) ++ rest)
      ≡ go_on normal (length (t ++ b'$' ∷ []))
unfolding round
close_tag t rest = ground (arith, has_prefix-append (t ++ b'$' ∷ []) rest)

-- A prefix that fits before the end does not depend on what comes behind.
prefix-append : (x p rest : Text) → length p ≤ length x → has_prefix (x ++ rest) p ≡ has_prefix x p
unfolding has_prefix
prefix-append x [] rest h = refl
prefix-append [] (d ∷ p) rest h = let no : ⊥ = omega (arith, h) in absurd no
prefix-append (c ∷ x) (d ∷ p) rest h = ground (arith, prefix-append x p rest (omega (arith, h)))

stay_dollar :
    (tag : Text) (c : ℕ) (b rest : Text)
    → has_prefix (c ∷ (b ++ tag)) tag ≡ false
    → round (dollar tag) c (b ++ (tag ++ rest)) ≡ go_on (dollar tag) 0
unfolding round
stay_dollar tag c b rest h =
    let fits : length tag ≤ length (c ∷ (b ++ tag)) = omega (arith, length-append b tag) in
    let same : has_prefix (c ∷ (b ++ (tag ++ rest))) tag ≡ false =
      ap (λ x. has_prefix (c ∷ x) tag) (sym (append_assoc b tag rest))
      ∙ prefix-append (c ∷ (b ++ tag)) tag rest fits
      ∙ h in
    rw same

-- A dollar quoted body, before its tag.
Walks-quoted :
    (tag b rest : Text)
    → closes_early tag b ≡ false
    → Walks (dollar tag) (dollar tag) b (tag ++ rest)
Walks-quoted tag [] rest h = Walks-nil (dollar tag) (tag ++ rest)
Walks-quoted tag (c ∷ b) rest h =
    Walks-append _ _ _ (c ∷ []) b (tag ++ rest)
      (Walks-round (dollar tag) (dollar tag) c [] (b ++ (tag ++ rest))
        (stay_dollar tag c b rest (ground (arith, h))))
      (Walks-quoted tag b rest (ground (arith, h)))

-- From normal mode the splitter walks over a clean segment, cuts nothing and is in normal mode
-- again.
pub Walks-segment :
    (g : Segment) (rest : Text) → IsClean g rest → Walks normal normal (print_segment g) rest
unfolding round
Walks-segment (plain c) rest h = Walks-round normal normal c [] rest (stay_plain c rest h)
Walks-segment (single b) rest h =
    Walks-append _ _ _ (39 ∷ []) (b ++ 39 ∷ []) rest (Walks-round normal single_quote 39 [] _ refl)
      (Walks-append _ _ _ b (39 ∷ []) rest (Walks-body _ single_quote stay_single b _ h)
        (Walks-close_single rest))
Walks-segment (double b) rest h =
    Walks-append _ _ _ (34 ∷ []) (b ++ 34 ∷ []) rest (Walks-round normal double_quote 34 [] _ refl)
      (Walks-append _ _ _ b (34 ∷ []) rest (Walks-body _ double_quote stay_double b _ h)
        (Walks-close_double rest))
Walks-segment (line b) rest h =
    Walks-append _ _ _ (b'-' ∷ b'-' ∷ []) (b ++ 10 ∷ []) rest
      (Walks-round normal line_comment b'-' (b'-' ∷ []) _ refl)
      (Walks-append _ _ _ b (10 ∷ []) rest (Walks-body _ line_comment stay_line b _ h)
        (Walks-round line_comment normal 10 [] rest refl))
Walks-segment (block b) rest h =
    Walks-append _ _ _ (b'/' ∷ b'*' ∷ []) (b ++ b'*' ∷ b'/' ∷ []) rest
      (Walks-round normal block_comment b'/' (b'*' ∷ []) _ refl)
      (Walks-append _ _ _ b (b'*' ∷ b'/' ∷ []) rest (Walks-comment b rest h)
        (Walks-round block_comment normal b'*' (b'/' ∷ []) rest refl))
Walks-segment (tagged t b) rest h =
    Walks-append _ _ _ (tag_text t) (b ++ tag_text t) rest
      (Walks-round normal (dollar (tag_text t)) b'$' (t ++ b'$' ∷ []) _ (open_tag t _ h.0))
      (Walks-append _ _ _ b (tag_text t) rest (Walks-quoted (tag_text t) b rest h.1)
        (Walks-round (dollar (tag_text t)) normal b'$' (t ++ b'$' ∷ []) rest (close_tag t rest)))
