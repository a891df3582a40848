-- ===== src/SqlUtil/Statements.antt =====
-- Statements of the grammar, joined by semicolons, come back from the splitter.
use mathlib.Core.List.{append-nil}
use incord.Base.{
  Bool, true, false, select, if◌then◌else◌, ◌≡◌, refl, sym, ap, ◌∙◌, List, [], ◌∷◌, ◌++◌, map, Text,
}
use incord.SqlUtil.{normal, round, slices, keep_statements, add_statement, split_statements}
use incord.SqlUtil.Trim.{trim_space}
use incord.SqlUtil.Grammar.{
  Segment, IsClean, print_segment, Walks, Walks-nil, Walks-append, Walks-segment,
}

abbrev pub print_statement : List Segment → Text
print_statement [] = []
print_statement (g ∷ gs) = print_segment g ++ print_statement gs

abbrev pub join_statements : List (List Segment) → Text
join_statements [] = []
join_statements (s ∷ []) = print_statement s
join_statements (s ∷ t ∷ ss) = print_statement s ++ b';' ∷ join_statements (t ∷ ss)

-- The segments of a statement, each clean before what follows it.
abbrev pub CleanBefore : List Segment → Text → Type 0
CleanBefore [] rest = Unit
CleanBefore (g ∷ gs) rest = IsClean g (print_statement gs ++ rest) × CleanBefore gs rest

-- The statements, each before the semicolon and the next ones.
abbrev pub AllClean : List (List Segment) → Type 0
AllClean [] = Unit
AllClean (s ∷ []) = CleanBefore s []
AllClean (s ∷ t ∷ ss) = CleanBefore s (b';' ∷ join_statements (t ∷ ss)) × AllClean (t ∷ ss)

Walks-statement :
    (gs : List Segment) (rest : Text)
    → CleanBefore gs rest
    → Walks normal normal (print_statement gs) rest
Walks-statement [] rest h = Walks-nil normal rest
Walks-statement (g ∷ gs) rest h =
    Walks-append normal normal normal (print_segment g) (print_statement gs) rest
      (Walks-segment g (print_statement gs ++ rest) h.0) (Walks-statement gs rest h.1)

slices-end : (sl : Text) → slices normal 0 sl [] ≡ sl ∷ []
unfolding slices
slices-end sl = refl

slices-semicolon :
    (sl rest : Text) → slices normal 0 sl (b';' ∷ rest) ≡ sl ∷ slices normal 0 [] rest
unfolding slices round
slices-semicolon sl rest = refl

slices-join :
    (s : List Segment) (ss : List (List Segment))
    → AllClean (s ∷ ss)
    → slices normal 0 [] (join_statements (s ∷ ss)) ≡ map print_statement (s ∷ ss)
slices-join s [] h =
    ap (λ t. slices normal 0 [] t) (sym (append-nil (print_statement s)))
    ∙ Walks-statement s [] h []
    ∙ slices-end (print_statement s)
slices-join s (t ∷ ss) h =
    Walks-statement s (b';' ∷ join_statements (t ∷ ss)) h.0 []
    ∙ slices-semicolon (print_statement s) (join_statements (t ∷ ss))
    ∙ ap (λ r. print_statement s ∷ r) (slices-join t ss h.1)

split_lem : (sql : Text) → split_statements sql ≡ keep_statements (slices normal 0 [] sql)
unfolding split_statements
split_lem sql = refl

abbrev pub is_text : Text → Bool
is_text [] = false
is_text (c ∷ s) = true

-- The texts without the spaces around them, and of these the ones that are not empty.
abbrev pub trimmed : List Text → List Text
trimmed xs = select is_text (map trim_space xs)

added :
    (t : Text) (rest : List Text) → add_statement t rest ≡ (if is_text t then t ∷ rest else rest)
added [] rest = refl
added (c ∷ t) rest = refl

keep_statements-trimmed : (xs : List Text) → keep_statements xs ≡ trimmed xs
unfolding keep_statements select
keep_statements-trimmed [] = refl
keep_statements-trimmed (x ∷ xs) =
    added (trim_space x) (keep_statements xs)
    ∙ ap (λ r. if is_text (trim_space x) then trim_space x ∷ r else r) (keep_statements-trimmed xs)

-- Statements of plain bytes, quoted strings, comments and dollar quoted bodies, joined by
-- semicolons, are split into these statements, each trimmed and the blank ones left out. A plain
-- byte is no quote and no semicolon and starts no comment or dollar quote with what follows it; the
-- body of a string does not hold its quote, that of a comment not its end, and that of a dollar
-- quote not its tag. The semicolons inside these bodies end nothing.
pub split-join :
    (ss : List (List Segment))
    → AllClean ss
    → split_statements (join_statements ss) ≡ trimmed (map print_statement ss)
unfolding split_statements select
split-join [] h = refl
split-join (s ∷ ss) h =
    split_lem (join_statements (s ∷ ss))
    ∙ ap keep_statements (slices-join s ss h)
    ∙ keep_statements-trimmed (map print_statement (s ∷ ss))
