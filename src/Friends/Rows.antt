-- ===== src/Friends/Rows.antt =====
-- The queries of the `friendships` table. Its primary key is (user_id, friend_id), and a deleted
-- row stays in it with `deleted` set.
use incord.Base.{
  ℕ, Bool, true, false, not, ◌&&◌, ◌||◌, Option, none, some, List, [], ◌∷◌, ◌++◌, String, any,
  first, update, ◌==◌, if◌then◌else◌,
}

-- The `status` column. The code writes the first three only.
pub data Status : Type 0 where
  pending accepted blocked : Status
  other : String → Status

pub record Friendship : Type 0 where
  pub user_id : ℕ
  pub friend_id : ℕ
  pub status : Status
  pub deleted : Bool

unfoldable pub same_key : ℕ → ℕ → ℕ → ℕ → Bool
same_key x y a b = (x == a) && (y == b)

-- The same two users, in either order.
unfoldable pub same_pair : ℕ → ℕ → ℕ → ℕ → Bool
unfolding same_key
same_pair x y a b = same_key x y a b || same_key x y b a

-- user_id = $1 AND friend_id = $2
abbrev pub has_key : ℕ → ℕ → Friendship → Bool
has_key a b f = same_key f.user_id f.friend_id a b

-- The same in either direction.
abbrev pub joins : ℕ → ℕ → Friendship → Bool
joins a b f = same_pair f.user_id f.friend_id a b

abbrev pub is_live : ℕ → ℕ → Friendship → Bool
is_live a b f = joins a b f && not f.deleted

unfoldable pub get_friendship : List Friendship → ℕ → ℕ → Option Friendship
unfolding first
get_friendship rows a b = first (is_live a b) rows

-- INSERT ... ON CONFLICT (user_id, friend_id) DO UPDATE ... RETURNING. A row that is new must refer
-- to two users.
unfoldable pub create_friendship :
    (ℕ → Bool) → List Friendship → ℕ → ℕ → Status → Option (List Friendship × Friendship)
unfolding any first update
create_friendship has_user rows a b status =
    let f : Friendship = record { user_id = a; friend_id = b; status = status; deleted = false } in
    if any (has_key a b) rows
    then some (update (has_key a b) (λ r. record r { deleted = false; status = status }) rows, f)
    else if has_user a && has_user b
    then some (rows ++ f ∷ [], f)
    else none

-- UPDATE ... RETURNING: no row is an error.
unfoldable pub update_friendship_status :
    List Friendship → ℕ → ℕ → Status → Option (List Friendship × Friendship)
unfolding any first update
update_friendship_status rows a b status = elim (first (has_key a b) rows) [
  | none ↦ none
  | some f ↦
      some (
        update (has_key a b) (λ r. record r { status = status }) rows,
        record f { status = status },
      )
]

unfoldable pub delete_friendship : List Friendship → ℕ → ℕ → List Friendship
unfolding update
delete_friendship rows a b = update (joins a b) (λ r. record r { deleted = true }) rows
