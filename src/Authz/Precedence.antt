-- ===== src/Authz/Precedence.antt =====
-- The override rows, in whatever order the query returns them: the user layer goes before the role
-- layer, a deny before an allow in the user layer, and an allow before a deny in the role layer.
use incord.Authz.Tables.{Effect, allow, deny}
use incord.Authz.Layers.{Seen, is_deny, is_allow, see, see_all, decide_effect}
use incord.Base.{
  ℕ, ◌≡◌, Bool, true, false, not, ◌&&◌, ◌||◌, none, some, List, [], ◌∷◌, any, arith, ◌==◌,
  if◌then◌else◌,
}

-- A row of the layer with the effect.
abbrev pub denies : ℕ → ℕ × Effect → Bool
denies layer (l, e) = (l == layer) && is_deny (some e)

abbrev pub allows : ℕ → ℕ × Effect → Bool
allows layer (l, e) = (l == layer) && is_allow (some e)

unfoldable pub precedence : List (ℕ × Effect) → Bool → Bool
precedence rows guild_allowed =
    if any (denies 2) rows
    then false
    else if any (allows 2) rows
    then true
    else if any (allows 1) rows
    then true
    else if any (denies 1) rows
    then false
    else guild_allowed

abbrev pub none_seen : Seen
none_seen = record { user_effect = none; role_effect = none }

user_deny :
    (rows : List (ℕ × Effect)) (s : Seen)
    → is_deny (see_all s rows).user_effect ≡ (is_deny s.user_effect || any (denies 2) rows)
unfolding see_all see any
user_deny [] s = ground arith
user_deny ((l, allow) ∷ rows) s = ground (arith, user_deny rows (see s (l, allow)))
user_deny ((l, deny) ∷ rows) s = ground (arith, user_deny rows (see s (l, deny)))

user_allow :
    (rows : List (ℕ × Effect)) (s : Seen)
    → is_allow (see_all s rows).user_effect ≡ (
        not (is_deny s.user_effect || any (denies 2) rows)
        && (is_allow s.user_effect || any (allows 2) rows))
unfolding see_all see any
user_allow [] s = ground arith
user_allow ((l, allow) ∷ rows) s = ground (arith, user_allow rows (see s (l, allow)))
user_allow ((l, deny) ∷ rows) s = ground (arith, user_allow rows (see s (l, deny)))

role_allow :
    (rows : List (ℕ × Effect)) (s : Seen)
    → is_allow (see_all s rows).role_effect ≡ (is_allow s.role_effect || any (allows 1) rows)
unfolding see_all see any
role_allow [] s = ground arith
role_allow ((l, allow) ∷ rows) s = ground (arith, role_allow rows (see s (l, allow)))
role_allow ((l, deny) ∷ rows) s = ground (arith, role_allow rows (see s (l, deny)))

role_deny :
    (rows : List (ℕ × Effect)) (s : Seen)
    → is_deny (see_all s rows).role_effect ≡ (
        not (is_allow s.role_effect || any (allows 1) rows)
        && (is_deny s.role_effect || any (denies 1) rows))
unfolding see_all see any
role_deny [] s = ground arith
role_deny ((l, allow) ∷ rows) s = ground (arith, role_deny rows (see s (l, allow)))
role_deny ((l, deny) ∷ rows) s = ground (arith, role_deny rows (see s (l, deny)))

-- The loop and the decision after it give the precedence, for any rows in any order.
pub decide-precedence :
    (rows : List (ℕ × Effect)) (guild_allowed : Bool)
    → decide_effect (see_all none_seen rows) guild_allowed ≡ precedence rows guild_allowed
unfolding decide_effect precedence
decide-precedence rows g = ground (
  arith,
  user_deny rows none_seen,
  user_allow rows none_seen,
  role_allow rows none_seen,
  role_deny rows none_seen,
)
