-- ===== src/Friends/Refines.antt =====
-- The service implements the specification: each call changes the bond of its pair as `bond_after`
-- says, and no other bond.
use incord.Base.{ℕ, ◌≡◌, ◌≢◌, true, false, Option-cases, inl, inr, ◌⊎◌, if◌then◌else◌, arith}
use incord.Friends.{
  Env, State, Query, get_query, create_query, update_query, delete_query, send_friend_request,
  accept_friend_request, decline_friend_request, cancel_friend_request, remove_friend, block_user,
  unblock_user,
}
use incord.Friends.Rows.{
  Friendship, pending, accepted, blocked, same_key, same_pair, has_key, joins, get_friendship,
  delete_friendship,
}
use incord.Friends.Lookup.{
  get-delete, get-joins, get_friendship_comm, creates, updates, same_pair_swap, same_pair_self,
  get-same,
}
use incord.Friends.Spec.{
  unknown, bond, bond_after, Call, send, accept, decline, cancel, remove, block, unblock,
}

-- No query fails, and the two users are in the database.
pub record IsHealthy (env : Env) (user friend : ℕ) : Type 0 where
  pub answers : (q : Query) → env.fails q ≡ false
  pub has_user : env.has_user user ≡ true
  pub has_friend : env.has_user friend ≡ true

unfoldable pub perform : Env → Call → State → ℕ → ℕ → State
perform env send s user friend = (send_friend_request env s user friend).0
perform env accept s user friend = (accept_friend_request env s user friend).0
perform env decline s user friend = (decline_friend_request env s user friend).0
perform env cancel s user friend = (cancel_friend_request env s user friend).0
perform env remove s user friend = (remove_friend env s user friend).0
perform env block s user friend = (block_user env s user friend).0
perform env unblock s user friend = (unblock_user env s user friend).0

-- The row between two users is the request of `x` if and only if its key is in that order.
requester-key :
    (x y : ℕ) (g : Friendship)
    → joins x y g ≡ true
    → ((g.user_id ≡ x) × (g.friend_id ≡ y) × (has_key x y g ≡ true))
      ⊎ ((g.user_id ≡ y) × (g.friend_id ≡ x))
unfolding same_pair same_key
requester-key x y g h = ground arith

module _ (env : Env) (s : State) (user friend : ℕ) (healthy : IsHealthy env user friend) where
  abbrev pub Refines : Call → ℕ → ℕ → Type 0
  Refines call a b = bond (perform env call s user friend).rows a b ≡ (
      if same_pair user friend a b
      then bond_after call user friend (bond s.rows a b)
      else bond s.rows a b)

  send-Refines : user ≢ friend → bond s.rows user friend ≢ unknown → (a b : ℕ) → Refines send a b
  unfolding perform send_friend_request bond bond_after
  send-Refines ne known a b = ground (
    arith,
    ne,
    known,
    healthy.answers get_query,
    healthy.answers create_query,
    creates env.has_user user friend pending a b s.rows healthy.has_user healthy.has_friend,
    get-same user friend a b s.rows,
  )

  accept-Refines : user ≢ friend → (a b : ℕ) → Refines accept a b
  unfolding perform accept_friend_request bond bond_after
  accept-Refines ne a b = elim (Option-cases (get_friendship s.rows friend user)) [
    | inl e ↦ ground (
      arith,
      e,
      healthy.answers get_query,
      get-same user friend a b s.rows,
      get_friendship_comm friend user s.rows,
    )
    | inr (g, e) ↦ ground (
      arith,
      e,
      ne,
      healthy.answers get_query,
      healthy.answers update_query,
      get-same user friend a b s.rows,
      get_friendship_comm friend user s.rows,
      get-joins friend user s.rows g e,
      same_pair_swap user friend a b,
      requester-key friend user g,
      updates friend user accepted a b s.rows g e,
    )
  ]

  decline-Refines : (a b : ℕ) → Refines decline a b
  unfolding perform decline_friend_request bond bond_after
  decline-Refines a b = ground (
    arith,
    healthy.answers get_query,
    healthy.answers delete_query,
    get-delete friend user a b s.rows,
    get-same user friend a b s.rows,
    get_friendship_comm friend user s.rows,
    same_pair_swap user friend a b,
  )

  cancel-Refines : (a b : ℕ) → Refines cancel a b
  unfolding perform cancel_friend_request bond bond_after
  cancel-Refines a b = ground (
    arith,
    healthy.answers get_query,
    healthy.answers delete_query,
    get-delete user friend a b s.rows,
    get-same user friend a b s.rows,
  )

  remove-Refines : (a b : ℕ) → Refines remove a b
  unfolding perform remove_friend bond bond_after
  remove-Refines a b = ground (
    arith,
    healthy.answers get_query,
    healthy.answers delete_query,
    get-delete user friend a b s.rows,
    get-same user friend a b s.rows,
  )

  unblock-Refines : (a b : ℕ) → Refines unblock a b
  unfolding perform unblock_user bond bond_after
  unblock-Refines a b = ground (
    arith,
    healthy.answers get_query,
    healthy.answers delete_query,
    get-delete user friend a b s.rows,
    get-same user friend a b s.rows,
  )

  block-Refines : user ≢ friend → (a b : ℕ) → Refines block a b
  unfolding perform block_user bond bond_after
  block-Refines ne a b = ground (
    arith,
    ne,
    healthy.answers create_query,
    healthy.answers delete_query,
    get-delete user friend a b s.rows,
    get-delete user friend user friend s.rows,
    same_pair_self user friend,
    creates env.has_user user friend blocked a b (delete_friendship s.rows user friend)
        healthy.has_user healthy.has_friend,
  )

  -- The change for every call between two different users, when no query fails, both are in the
  -- database and the table holds no unknown status between them.
  pub perform-Refines :
      (call : Call)
      → user ≢ friend
      → bond s.rows user friend ≢ unknown
      → (a b : ℕ) → Refines call a b
  perform-Refines send ne known a b = send-Refines ne known a b
  perform-Refines accept ne known a b = accept-Refines ne a b
  perform-Refines decline ne known a b = decline-Refines a b
  perform-Refines cancel ne known a b = cancel-Refines a b
  perform-Refines remove ne known a b = remove-Refines a b
  perform-Refines block ne known a b = block-Refines ne a b
  perform-Refines unblock ne known a b = unblock-Refines a b
