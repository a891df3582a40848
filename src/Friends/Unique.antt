-- ===== src/Friends/Unique.antt =====
-- The invariant of the table: no key twice, and at most one live row between any two users. So a
-- lookup that takes one row of those that match has no choice.
use incord.Base.{ℕ, suc, ◌≤◌, Bool, false, List, [], ◌∷◌, update, if◌then◌else◌}
use incord.Friends.Rows.{Status, Friendship, has_key, is_live}

unfoldable pub count : (Friendship → Bool) → List Friendship → ℕ
count p [] = 0
count p (f ∷ fs) = if p f then suc (count p fs) else count p fs

pub record IsUnique (rows : List Friendship) : Type 0 where
  pub keys : (a b : ℕ) → count (has_key a b) rows ≤ 1
  pub live : (a b : ℕ) → count (is_live a b) rows ≤ 1

abbrev revive : ℕ → ℕ → Status → List Friendship → List Friendship
revive u t status = update (has_key u t) (λ r. record r { deleted = false; status = status })

abbrev restate : ℕ → ℕ → Status → List Friendship → List Friendship
restate u t status = update (has_key u t) (λ r. record r { status = status })
