-- ===== src/Friends/Keeps.antt =====
-- The writes of each call: a predicate on the rows is kept by a call if the one write that the call
-- may make keeps it.
use incord.Base.{◌≡◌, ◌≢◌, false, Option-cases, inl, inr, some, none, ℕ, List, arith}
use incord.Friends.{
  Env, State, get_query, delete_query, send_friend_request, accept_friend_request,
  decline_friend_request, cancel_friend_request, remove_friend, block_user, unblock_user,
}
use incord.Friends.Rows.{
  Friendship, pending, accepted, blocked, get_friendship, create_friendship,
  update_friendship_status, delete_friendship,
}
use incord.Friends.Spec.{unknown, bond, send, accept, decline, cancel, remove, block, unblock}
use incord.Friends.Refines.{perform}

module _ (P : List Friendship → Type 0) (env : Env) (s : State) (user friend : ℕ)
    (p : P s.rows) where
  pub send-keeps :
      env.fails get_query ≡ false
      → bond s.rows user friend ≢ unknown
      → ((rows' : List Friendship) (f : Friendship)
          → get_friendship s.rows user friend ≡ none
          → create_friendship env.has_user s.rows user friend pending ≡ some (rows', f)
          → P rows')
      → P (perform env send s user friend).rows
  unfolding perform send_friend_request bond
  send-keeps up known keep =
      elim (Option-cases (create_friendship env.has_user s.rows user friend pending)) [
        | inl e ↦ ground (arith, p, e, up, known)
        | inr ((rows', f), e) ↦ ground (arith, p, e, up, known, keep rows' f)
      ]

  pub accept-keeps :
      ((rows' : List Friendship) (f : Friendship)
        → update_friendship_status s.rows friend user accepted ≡ some (rows', f)
        → P rows')
      → P (perform env accept s user friend).rows
  unfolding perform accept_friend_request
  accept-keeps keep = elim (Option-cases (update_friendship_status s.rows friend user accepted)) [
    | inl e ↦ ground (arith, p, e)
    | inr ((rows', f), e) ↦ ground (arith, p, e, keep rows' f)
  ]

  pub decline-keeps :
      P (delete_friendship s.rows friend user) → P (perform env decline s user friend).rows
  unfolding perform decline_friend_request
  decline-keeps q = ground (arith, p, q)

  pub cancel-keeps :
      P (delete_friendship s.rows user friend) → P (perform env cancel s user friend).rows
  unfolding perform cancel_friend_request
  cancel-keeps q = ground (arith, p, q)

  pub remove-keeps :
      P (delete_friendship s.rows user friend) → P (perform env remove s user friend).rows
  unfolding perform remove_friend
  remove-keeps q = ground (arith, p, q)

  pub unblock-keeps :
      P (delete_friendship s.rows user friend) → P (perform env unblock s user friend).rows
  unfolding perform unblock_user
  unblock-keeps q = ground (arith, p, q)

  pub block-keeps :
      env.fails delete_query ≡ false
      → P (delete_friendship s.rows user friend)
      → ((rows' : List Friendship) (f : Friendship)
          → create_friendship env.has_user
              (delete_friendship s.rows user friend)
              user
              friend
              blocked
            ≡ some (rows', f)
          → P rows')
      → P (perform env block s user friend).rows
  unfolding perform block_user
  block-keeps up q keep =
      elim (Option-cases (
        create_friendship env.has_user (delete_friendship s.rows user friend) user friend
          blocked)) [
            | inl e ↦ ground (arith, p, q, e, up)
            | inr ((rows', f), e) ↦ ground (arith, p, q, e, up, keep rows' f)
          ]
