-- ===== src/SqlUtil/Examples.antt =====
-- Runs of the splitter on small texts.
use incord.Base.{has_prefix, ◌≡◌, refl, [], ◌∷◌, List, map, codes, arith}
use incord.SqlUtil.{is_tag_byte, split_statements, goose_up_section}
use incord.SqlUtil.Grammar.{Segment, plain, single, tagged, block}
use incord.SqlUtil.Statements.{AllClean, trimmed, join_statements, print_statement, split-join}

two_statements :
    split_statements (codes " select ';' ; -- a;b\n drop $x$;$x$;")
    ≡ codes "select ';'" ∷ codes "-- a;b\n drop $x$;$x$" ∷ []
unfolding split_statements
two_statements = refl

up_section_only : goose_up_section (codes "-- +goose Up\nA;\n-- +goose Down\nB;") ≡ codes "\nA;\n"
unfolding goose_up_section
up_section_only = refl

-- `a-'; '` and ` $1$f1$x;$y$f1$/*;*;*/`
abbrev two : List (List Segment)
two =
    (plain b'a' ∷ plain b'-' ∷ single (codes "; ") ∷ [])
    ∷ (plain 32
        ∷ plain b'$'
        ∷ plain b'1'
        ∷ tagged (codes "f1") (codes "x;$y")
        ∷ block (codes ";*;")
        ∷ [])
    ∷ []

two-AllClean : AllClean two
unfolding is_tag_byte has_prefix
two-AllClean = ground arith

split-join_example : split_statements (join_statements two) ≡ trimmed (map print_statement two)
split-join_example = split-join two two-AllClean
