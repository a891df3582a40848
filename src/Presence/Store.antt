-- ===== src/Presence/Store.antt =====
-- The Redis hashes of internal/features/presence/service.go.
use incord.Base.{ℕ, ◌≡◌, Option, none, some, false, List, [], ◌∷◌, Text, text_eq, if◌then◌else◌}

-- A field of the map that HGETALL returns.
unfoldable pub field : Text → List (Text × Text) → Option Text
field f [] = none
field f ((g, v) ∷ vals) = let rest = field f vals in if text_eq g f then some v else rest

-- HSET of fields, HGETALL, and the text that the client writes for an integer. `none` is an error.
pub record Hashes (Store : Type 0) : Type 0 where
  pub hset : Store → Text → List (Text × Text) → Option Store
  pub hgetall : Store → Text → Option (List (Text × Text))
  pub format_int : ℕ → Text

-- A hash that was set answers with these fields, whatever else it holds, and the other hashes stay.
pub record IsHashes {Store : Type 0} (hashes : Hashes Store) : Type 0 where
  pub hgetall-hset :
      (s s' : Store) (k : Text) (fs : List (Text × Text))
      → hashes.hset s k fs ≡ some s'
      → (v : Text × Text) × (vals : List (Text × Text)) × (hashes.hgetall s' k ≡ some (v ∷ vals))
        × ((f x : Text) → field f fs ≡ some x → field f (v ∷ vals) ≡ some x)
  pub hgetall-other :
      (s s' : Store) (k j : Text) (fs : List (Text × Text))
      → hashes.hset s k fs ≡ some s'
      → text_eq k j ≡ false
      → hashes.hgetall s' j ≡ hashes.hgetall s j
