-- ===== src/SqlUtil/Trim.antt =====
-- strings.TrimSpace of Go's standard library, on ASCII text.
use mathlib.Core.List.{reverse}
use incord.Base.{ℕ, Bool, ◌||◌, [], ◌∷◌, Text, leb, ◌&&◌, ◌==◌, if◌then◌else◌}

unfoldable pub is_space : ℕ → Bool
is_space c = (leb 9 c && leb c 13) || (c == 32)

unfoldable pub trim_left : Text → Text
trim_left [] = []
trim_left (c ∷ s) = if is_space c then trim_left s else c ∷ s

unfoldable pub trim_space : Text → Text
unfolding is_space trim_left
trim_space s = reverse (trim_left (reverse (trim_left s)))
