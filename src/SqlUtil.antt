-- ===== src/SqlUtil.antt =====
-- internal/shared/sqlutil/split.go: the part of a migration file between its Goose markers, and
-- the split of SQL text into statements. Texts are lists of bytes. The loop of `SplitStatements`
-- runs over the bytes: `skip` counts the bytes that an `i++` inside a round steps over, and `slice`
-- is the text `sql[start:i]` that the next statement is cut from.
pub mod Trim
mod Pieces
mod Grammar
mod Statements
mod Examples
use Trim.{trim_space}
use incord.Base.{
  has_prefix, ℕ, zero, suc, ◌+◌, ◌-◌, Bool, true, false, not, ◌&&◌, ◌||◌, Option, none, some, List,
  [], ◌∷◌, ◌++◌, Text, codes, length, take, drop, leb, ◌==◌, if◌then◌else◌,
}

-- The flags of the loop, of which at most one is set, as one value.
pub data Mode : Type 0 where
  normal line_comment block_comment single_quote double_quote : Mode
  dollar : Text → Mode

-- What a round does: the mode after it, the further bytes that it steps over, and whether the byte
-- ends a statement.
pub record Round : Type 0 where
  pub mode : Mode
  pub skip : ℕ
  pub cuts : Bool

abbrev pub go_on : Mode → ℕ → Round
go_on m n = record { mode = m; skip = n; cuts = false }

-- The byte after the current one, 0 at the end.
unfoldable pub next_byte : Text → ℕ
next_byte [] = 0
next_byte (c ∷ s) = c

-- `i > 1 &&` before the test for a digit: no digit stands first in a tag.
unfoldable pub is_tag_byte : Bool → ℕ → Bool
is_tag_byte first c =
    (c == b'_')
    || (leb b'a' c && leb c b'z')
    || (leb b'A' c && leb c b'Z')
    || (not first && leb b'0' c && leb c b'9')

abbrev prepend : ℕ → Option Text → Option Text
prepend c none = none
prepend c (some t) = some (c ∷ t)

-- The bytes of the tag after its first `$`, with the closing one.
unfoldable pub read_tag : Bool → Text → Option Text
unfolding is_tag_byte
read_tag first [] = none
read_tag first (c ∷ s) =
    let rest = read_tag false s in
    if c == b'$' then some (c ∷ []) else if is_tag_byte first c then prepend c rest else none

unfoldable pub read_dollar_quote_tag : Text → Option Text
unfolding read_tag
read_dollar_quote_tag [] = none
read_dollar_quote_tag (c ∷ s) =
    if leb 1 (length s) && (c == b'$') then prepend c (read_tag true s) else none

-- The second `switch`, outside comments and quotes.
open_round : ℕ → Text → Round
unfolding next_byte read_dollar_quote_tag
open_round c rest =
    if (c == b'-') && (next_byte rest == b'-')
    then go_on line_comment 1
    else if (c == b'/') && (next_byte rest == b'*')
    then go_on block_comment 1
    else if c == 39
    then go_on single_quote 0
    else if c == 34
    then go_on double_quote 0
    else if c == b'$'
    then elim (read_dollar_quote_tag (c ∷ rest)) [
      | none ↦ go_on normal 0
      | some tag ↦ go_on (dollar tag) (length tag - 1)
    ]
    else if c == b';'
    then record { mode = normal; skip = 0; cuts = true }
    else go_on normal 0

-- A quoted string, closed by `q` and with `q q` for a `q` inside.
quote_round : Mode → ℕ → ℕ → Text → Round
unfolding next_byte
quote_round m q c rest =
    if c == q then (if next_byte rest == q then go_on m 1 else go_on normal 0) else go_on m 0

unfoldable pub round : Mode → ℕ → Text → Round
unfolding open_round quote_round has_prefix next_byte
round normal c rest = open_round c rest
round line_comment c rest = if c == 10 then go_on normal 0 else go_on line_comment 0
round block_comment c rest =
    if (c == b'*') && (next_byte rest == b'/') then go_on normal 1 else go_on block_comment 0
round (dollar tag) c rest =
    if has_prefix (c ∷ rest) tag then go_on normal (length tag - 1) else go_on (dollar tag) 0
round single_quote c rest = quote_round single_quote 39 c rest
round double_quote c rest = quote_round double_quote 34 c rest

-- The slices of the text between the semicolons that end a statement.
unfoldable pub slices : Mode → ℕ → Text → Text → List Text
slices m skip slice [] = slice ∷ []
slices m (suc skip) slice (c ∷ rest) = slices m skip (slice ++ c ∷ []) rest
slices m zero slice (c ∷ rest) =
    let r = round m c rest in
    let cut = slice ∷ slices r.mode r.skip [] rest in
    let more = slices r.mode r.skip (slice ++ c ∷ []) rest in if r.cuts then cut else more

-- `if stmt := strings.TrimSpace(slice); stmt != ""`, then `append`.
abbrev add_statement : Text → List Text → List Text
add_statement [] rest = rest
add_statement (c ∷ t) rest = (c ∷ t) ∷ rest

unfoldable pub keep_statements : List Text → List Text
keep_statements [] = []
keep_statements (s ∷ ss) = add_statement (trim_space s) (keep_statements ss)

unfoldable pub split_statements : Text → List Text
unfolding round slices keep_statements trim_space
split_statements sql = keep_statements (slices normal 0 [] sql)

abbrev one_more : Option ℕ → Option ℕ
one_more none = none
one_more (some n) = some (suc n)

-- strings.Index, `none` for -1.
unfoldable pub index : Text → Text → Option ℕ
unfolding has_prefix
index [] mark = if has_prefix [] mark then some 0 else none
index (c ∷ s) mark = if has_prefix (c ∷ s) mark then some 0 else one_more (index s mark)

abbrev pub up_marker : Text
up_marker = codes "-- +goose Up"

abbrev pub down_marker : Text
down_marker = codes "-- +goose Down"

abbrev before_down : Text → Option ℕ → Text
before_down body none = body
before_down body (some n) = take n body

abbrev up_section : Text → Option ℕ → Text
up_section sql none = sql
up_section sql (some n) =
    let body = drop (n + length up_marker) sql in before_down body (index body down_marker)

unfoldable pub goose_up_section : Text → Text
unfolding index
goose_up_section sql = up_section sql (index sql up_marker)
