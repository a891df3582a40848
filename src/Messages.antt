-- ===== src/Messages.antt =====
-- internal/features/message/service.go: the users that a message mentions, and everyone.
use incord.Base.{
  ℕ, zero, suc, ◌+◌, Bool, true, false, not, ◌&&◌, ◌||◌, Option, none, some, List, [], ◌∷◌, Text,
  codes, any, drop, length, has_prefix, text_eq, leb, ◌==◌, if◌then◌else◌,
}
mod Mentions
mod Scan
mod Search
mod Examples

-- The ids that come first, without the empty one and the author; `seen` are those kept before.
unfoldable pub dedup_after : Text → List Text → List Text → List Text
dedup_after author seen [] = []
dedup_after author seen (id ∷ ids) =
    let rest = dedup_after author seen ids in
    let next = dedup_after author (id ∷ seen) ids in
    if text_eq id [] || text_eq id author || any (text_eq id) seen then rest else id ∷ next

unfoldable pub dedup_mentions : List Text → Text → List Text
unfolding dedup_after
dedup_mentions ids author = dedup_after author [] ids

unfoldable pub is_alnum : ℕ → Bool
is_alnum b =
    (leb 48 b && leb b 57) || (leb 65 b && leb b 90) || (leb 97 b && leb b 122) || (b == 95)

-- The loop of indexOf, on the text from the index on.
unfoldable pub scan : Text → Text → ℕ → Option ℕ
unfolding has_prefix
scan sub [] i = none
scan sub (c ∷ s) i =
    let rest = scan sub s (i + 1) in if has_prefix (c ∷ s) sub then some i else rest

unfoldable pub index_of : Text → Text → ℕ → Option ℕ
unfolding scan
index_of s sub from = if leb (length s) from then none else scan sub (drop from s) from

abbrev pub byte_at : Text → ℕ → ℕ
byte_at s i = elim (drop i s) [ [] ↦ 0 | c ∷ r ↦ c ]

-- The byte before an index, where there is one.
abbrev pub before_ok : Text → ℕ → Bool
before_ok s zero = true
before_ok s (suc i) = not (is_alnum (byte_at s i))

-- No letter, digit or underscore stands beside the tag at the index.
unfoldable pub stands_alone : Text → Text → ℕ → Bool
unfolding is_alnum
stands_alone content tag i =
    ((i + length tag == length content) || not (is_alnum (byte_at content (i + length tag))))
    && before_ok content i

-- What the inner loop does with an index; `next` is the loop from behind it.
unfoldable pub after : (ℕ → Option Bool) → Text → Text → Option ℕ → Option Bool
after next content tag none = some false
after next content tag (some i) =
    let rest = next i in if stands_alone content tag i then some true else rest

-- The inner loop; `none` when the fuel is used up.
unfoldable pub find_mention : ℕ → Text → Text → ℕ → Option Bool
unfolding index_of stands_alone after
find_mention zero content tag idx = none
find_mention (suc fuel) content tag idx =
    after (λ i. find_mention fuel content tag (i + length tag)) content tag
      (index_of content tag idx)

abbrev pub everyone_tag : Text
everyone_tag = codes "@everyone"

abbrev pub here_tag : Text
here_tag = codes "@here"

abbrev pub or_next : Option Bool → Option Bool → Option Bool
or_next none next = none
or_next (some true) next = some true
or_next (some false) next = next

unfoldable pub contains_everyone_mention : ℕ → Text → Option Bool
unfolding find_mention
contains_everyone_mention fuel content =
    or_next (find_mention fuel content everyone_tag 0) (find_mention fuel content here_tag 0)
