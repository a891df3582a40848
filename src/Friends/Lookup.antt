-- ===== src/Friends/Lookup.antt =====
-- What a lookup finds after each write of the `friendships` table, for every pair of users.
use incord.Base.{
  ℕ, ◌≡◌, ◌≢◌, refl, Bool, true, false, none, some, List, [], ◌∷◌, ◌++◌, any, first, update,
  if◌then◌else◌, arith, Option-cases, inl, inr,
}
use incord.Friends.Rows.{
  Status, Friendship, same_key, same_pair, has_key, joins, get_friendship, create_friendship,
  update_friendship_status, delete_friendship,
}

module _ (x y u t a b : ℕ) where
  pub same_pair-of_key : same_key x y u t ≡ true → same_pair x y a b ≡ same_pair u t a b
  unfolding same_key same_pair
  same_pair-of_key h = ground arith

  pub same_pair-of_pair : same_pair x y u t ≡ true → same_pair x y a b ≡ same_pair u t a b
  unfolding same_pair
  same_pair-of_pair h = ground arith

  pub same_pair-of_same : same_pair u t a b ≡ true → same_pair x y a b ≡ same_pair x y u t
  unfolding same_pair
  same_pair-of_same h = ground arith

pub same_key_eq : (x y u t : ℕ) → same_key x y u t ≡ true → (x ≡ u) × (y ≡ t)
unfolding same_key
same_key_eq x y u t h = ground arith

pub same_pair-key : (x y u t : ℕ) → same_key x y u t ≡ true → same_pair x y u t ≡ true
unfolding same_pair
same_pair-key x y u t h = ground arith

pub same_pair_comm : (u t a b : ℕ) → same_pair u t a b ≡ same_pair u t b a
unfolding same_pair
same_pair_comm u t a b = ground arith

pub same_pair_self : (u t : ℕ) → same_pair u t u t ≡ true
unfolding same_pair
same_pair_self u t = ground arith

module _ (u t a b : ℕ) where
  pub get-delete :
      (rows : List Friendship)
      → get_friendship (delete_friendship rows u t) a b
        ≡ (if same_pair u t a b then none else get_friendship rows a b)
  unfolding get_friendship delete_friendship
  get-delete [] = ground arith
  get-delete (f ∷ fs) = ground (
    arith,
    get-delete fs,
    same_pair-of_pair f.user_id f.friend_id u t a b,
    same_pair-of_same f.user_id f.friend_id u t a b,
  )

  abbrev revive : Status → List Friendship → List Friendship
  revive status = update (has_key u t) (λ r. record r { deleted = false; status = status })

  get-revive_other :
      (status : Status) (rows : List Friendship)
      → same_pair u t a b ≡ false
      → get_friendship (revive status rows) a b ≡ get_friendship rows a b
  unfolding get_friendship update
  get-revive_other status [] h = refl
  get-revive_other status (f ∷ fs) h =
      ground (arith, get-revive_other status fs h, same_pair-of_key f.user_id f.friend_id u t a b)

  -- A row that is written again: live, with the new status.
  get-rewrite :
      (status : Status) (rows : List Friendship)
      → get_friendship rows u t ≡ none
      → any (has_key u t) rows ≡ true
      → get_friendship (revive status rows) a b ≡ (
          if same_pair u t a b
          then some (record { user_id = u; friend_id = t; status = status; deleted = false })
          else get_friendship rows a b)
  unfolding get_friendship update any
  get-rewrite status [] h k = ground arith
  get-rewrite status (f ∷ fs) h k = ground (
    arith,
    get-rewrite status fs,
    get-revive_other status fs,
    same_key_eq f.user_id f.friend_id u t,
    same_pair-of_key f.user_id f.friend_id u t a b,
    same_pair-of_same f.user_id f.friend_id u t a b,
    same_pair-key f.user_id f.friend_id u t,
  )

  get-add :
      (status : Status) (rows : List Friendship)
      → get_friendship rows u t ≡ none
      → get_friendship
          (rows ++ record { user_id = u; friend_id = t; status = status; deleted = false } ∷ [])
          a
          b
        ≡ (if same_pair u t a b
            then some (record { user_id = u; friend_id = t; status = status; deleted = false })
            else get_friendship rows a b)
  unfolding get_friendship
  get-add status [] h = ground arith
  get-add status (f ∷ fs) h =
      ground (arith, get-add status fs, same_pair-of_same f.user_id f.friend_id u t a b)

  pub get-create :
      (has_user : ℕ → Bool) (status : Status) (rows rows' : List Friendship) (f : Friendship)
      → get_friendship rows u t ≡ none
      → create_friendship has_user rows u t status ≡ some (rows', f)
      → get_friendship rows' a b ≡ (
          if same_pair u t a b
          then some (record { user_id = u; friend_id = t; status = status; deleted = false })
          else get_friendship rows a b)
  unfolding create_friendship
  get-create has_user status rows rows' f h e =
      ground (arith, get-rewrite status rows h, get-add status rows h)

  abbrev restate : Status → List Friendship → List Friendship
  restate status = update (has_key u t) (λ r. record r { status = status })

  get-restate_other :
      (status : Status) (rows : List Friendship)
      → same_pair u t a b ≡ false
      → get_friendship (restate status rows) a b ≡ get_friendship rows a b
  unfolding get_friendship update
  get-restate_other status [] h = refl
  get-restate_other status (f ∷ fs) h =
      ground (arith, get-restate_other status fs h, same_pair-of_key f.user_id f.friend_id u t a b)

  get-restate :
      (status : Status) (rows : List Friendship) (g : Friendship)
      → get_friendship rows u t ≡ some g
      → has_key u t g ≡ true
      → get_friendship (restate status rows) a b ≡ (
          if same_pair u t a b
          then some (record g { status = status })
          else get_friendship rows a b)
  unfolding get_friendship update
  get-restate status [] g h k = cc
  get-restate status (f ∷ fs) g h k = ground (
    arith,
    get-restate status fs g,
    get-restate_other status fs,
    same_pair-of_same f.user_id f.friend_id u t a b,
    same_pair-of_key f.user_id f.friend_id u t a b,
    same_pair-key f.user_id f.friend_id u t,
  )

  pub get-update_status :
      (status : Status) (rows rows' : List Friendship) (f g : Friendship)
      → get_friendship rows u t ≡ some g
      → has_key u t g ≡ true
      → update_friendship_status rows u t status ≡ some (rows', f)
      → get_friendship rows' a b ≡ (
          if same_pair u t a b
          then some (record g { status = status })
          else get_friendship rows a b)
  unfolding update_friendship_status
  get-update_status status rows rows' f g h k e = ground (arith, get-restate status rows g h k)

-- A lookup finds a live row between the two users.
pub get-joins :
    (a b : ℕ) (rows : List Friendship) (f : Friendship)
    → get_friendship rows a b ≡ some f
    → (joins a b f ≡ true) × (f.deleted ≡ false)
unfolding get_friendship
get-joins a b [] f h = cc
get-joins a b (x ∷ xs) f h = ground (arith, get-joins a b xs f)

pub get_friendship_comm :
    (a b : ℕ) (rows : List Friendship) → get_friendship rows a b ≡ get_friendship rows b a
unfolding get_friendship
get_friendship_comm a b [] = refl
get_friendship_comm a b (x ∷ xs) =
    ground (arith, get_friendship_comm a b xs, same_pair_comm x.user_id x.friend_id a b)

first-found :
    (u t : ℕ) (rows : List Friendship) (g : Friendship)
    → get_friendship rows u t ≡ some g
    → has_key u t g ≡ true
    → first (has_key u t) rows ≢ none
unfolding get_friendship
first-found u t [] g h k = ground arith
first-found u t (f ∷ fs) g h k = ground (arith, first-found u t fs g)

-- The row that a lookup found is there for an update.
pub update-found :
    (u t : ℕ) (status : Status) (rows : List Friendship) (g : Friendship)
    → get_friendship rows u t ≡ some g
    → has_key u t g ≡ true
    → update_friendship_status rows u t status ≢ none
unfolding update_friendship_status
update-found u t status rows g h k = ground (arith, first-found u t rows g h k)

-- A new friendship between two users of the database is stored.
pub create-some :
    (has_user : ℕ → Bool) (u t : ℕ) (status : Status) (rows : List Friendship)
    → has_user u ≡ true
    → has_user t ≡ true
    → create_friendship has_user rows u t status ≢ none
unfolding create_friendship
create-some has_user u t status rows h k e = ground arith

pub same_pair_swap : (u t a b : ℕ) → same_pair t u a b ≡ same_pair u t a b
unfolding same_pair same_key
same_pair_swap u t a b = ground arith

pub get-same :
    (u t a b : ℕ) (rows : List Friendship)
    → same_pair u t a b ≡ true
    → get_friendship rows a b ≡ get_friendship rows u t
unfolding same_pair
get-same u t a b rows h = ground (arith, get_friendship_comm u t rows)

-- The insertion of a first row between two users, and what a lookup finds after it.
pub creates :
    (has_user : ℕ → Bool) (u t : ℕ) (status : Status) (a b : ℕ) (rows : List Friendship)
    → has_user u ≡ true
    → has_user t ≡ true
    → get_friendship rows u t ≡ none
    → (r : List Friendship × Friendship) × (create_friendship has_user rows u t status ≡ some r)
      × (get_friendship r.0 a b ≡ (
          if same_pair u t a b
          then some (record { user_id = u; friend_id = t; status = status; deleted = false })
          else get_friendship rows a b))
creates has_user u t status a b rows h k e =
    elim (Option-cases (create_friendship has_user rows u t status)) [
      | inl p ↦ absurd (create-some has_user u t status rows h k p)
      | inr (r, p) ↦ (r, p, get-create u t a b has_user status rows r.0 r.1 e p)
    ]

-- The update of the row that a lookup found.
pub updates :
    (u t : ℕ) (status : Status) (a b : ℕ) (rows : List Friendship) (g : Friendship)
    → get_friendship rows u t ≡ some g
    → has_key u t g ≡ true
    → (r : List Friendship × Friendship) × (update_friendship_status rows u t status ≡ some r)
      × (get_friendship r.0 a b ≡ (
          if same_pair u t a b
          then some (record g { status = status })
          else get_friendship rows a b))
updates u t status a b rows g h k = elim (Option-cases (update_friendship_status rows u t status)) [
  | inl p ↦ absurd (update-found u t status rows g h k p)
  | inr (r, p) ↦ (r, p, get-update_status u t a b status rows r.0 r.1 g h k p)
]
