-- ===== src/Authz/Layers.antt =====
-- applyChannelOverride of internal/shared/authz/client.go: the loop over the override rows and the
-- decision that follows.
use incord.Authz.Tables.{Effect, allow, deny}
use incord.Base.{ℕ, Bool, true, false, not, Option, some, List, [], ◌∷◌, ◌==◌, if◌then◌else◌}

-- One override row seen by the loop of applyChannelOverride. `none` is the empty string.
pub record Seen : Type 0 where
  pub user_effect : Option Effect
  pub role_effect : Option Effect

abbrev pub is_deny : Option Effect → Bool
is_deny (some deny) = true
is_deny _ = false

abbrev pub is_allow : Option Effect → Bool
is_allow (some allow) = true
is_allow _ = false

-- In the user layer a deny sticks, in the role layer an allow.
unfoldable pub see : Seen → ℕ × Effect → Seen
see s (layer, effect) =
    if layer == 2
    then (if not (is_deny s.user_effect) then record s { user_effect = some effect } else s)
    else if layer == 1
    then (if not (is_allow s.role_effect) then record s { role_effect = some effect } else s)
    else s

unfoldable pub see_all : Seen → List (ℕ × Effect) → Seen
see_all s [] = s
see_all s (r ∷ rs) = see_all (see s r) rs

-- The final `switch`.
unfoldable pub decide_effect : Seen → Bool → Bool
decide_effect s guild_allowed =
    if is_deny s.user_effect
    then false
    else if is_allow s.user_effect
    then true
    else if is_deny s.role_effect
    then false
    else if is_allow s.role_effect
    then true
    else guild_allowed
