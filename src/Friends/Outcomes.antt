-- ===== src/Friends/Outcomes.antt =====
-- What a call leaves behind: an error and nothing else, or its notifications.
use mathlib.Core.List.{append_assoc, append-nil}
use incord.Base.{
  List, [], ◌∷◌, ◌++◌, if◌then◌else◌, ℕ, ◌≡◌, ◌≢◌, refl, true, false, Option, none, some, arith,
}
use incord.Friends.{
  Event, EventKind, request, request_accepted, declined, request_cancelled, removed, Env, State,
  FriendError, Result, ok, err, query_failed, create_query, delete_query, send_friend_request,
  accept_friend_request, decline_friend_request, cancel_friend_request, remove_friend, block_user,
  unblock_user,
}
use incord.Friends.Lookup.{get-delete, same_pair_self}
use incord.Friends.Spec.{
  strangers, bond, Call, send, accept, decline, cancel, remove, block, unblock,
}
use incord.Friends.Refines.{perform}

abbrev pub error_of {ℓ} : {A : Type ℓ} → Result A → Option FriendError
error_of (ok a) = none
error_of (err e) = some e

unfoldable pub call_error : Env → Call → State → ℕ → ℕ → Option FriendError
call_error env send s user friend = error_of (send_friend_request env s user friend).1
call_error env accept s user friend = error_of (accept_friend_request env s user friend).1
call_error env decline s user friend = error_of (decline_friend_request env s user friend).1
call_error env cancel s user friend = error_of (cancel_friend_request env s user friend).1
call_error env remove s user friend = error_of (remove_friend env s user friend).1
call_error env block s user friend = error_of (block_user env s user friend).1
call_error env unblock s user friend = error_of (unblock_user env s user friend).1

abbrev about : ℕ → EventKind → ℕ → Option ℕ → Event
about to kind who channel = record {
  recipient = to;
  kind = kind;
  user_id = who;
  channel_id = channel;
}

-- Whom a call that succeeds notifies. Blocking and unblocking are silent.
unfoldable pub notifications : Env → Call → ℕ → ℕ → List Event
notifications env send user friend = about friend request user none ∷ []
notifications env accept user friend =
    about friend request_accepted user (env.open_dm user friend)
    ∷ about user request_accepted friend (env.open_dm user friend)
    ∷ []
notifications env decline user friend = about friend declined user none ∷ []
notifications env cancel user friend = about friend request_cancelled user none ∷ []
notifications env remove user friend = about friend removed user none ∷ []
notifications env block user friend = []
notifications env unblock user friend = []

module _ (env : Env) (s : State) (user friend : ℕ) where
  -- A call that returns an error has changed no row and published no event, `BlockUser` apart.
  pub perform_error :
      (c : Call) (e : FriendError)
      → c ≢ block
      → call_error env c s user friend ≡ some e
      → perform env c s user friend ≡ s
  unfolding perform call_error send_friend_request accept_friend_request decline_friend_request
      cancel_friend_request remove_friend unblock_user
  perform_error send e ne h = ground arith
  perform_error accept e ne h = ground arith
  perform_error decline e ne h = ground arith
  perform_error cancel e ne h = ground arith
  perform_error remove e ne h = ground arith
  perform_error block e ne h = absurd (ne refl)
  perform_error unblock e ne h = ground arith

  -- `BlockUser` deletes before it inserts: where the insertion fails it returns an error, and
  -- whatever the two users were to each other is gone.
  pub block_not_atomic :
      user ≢ friend
      → env.fails delete_query ≡ false
      → env.fails create_query ≡ true
      → (call_error env block s user friend ≡ some query_failed)
        × (bond (perform env block s user friend).rows user friend ≡ strangers)
  unfolding perform call_error block_user bond
  block_not_atomic ne up down =
      ground (arith, ne, get-delete user friend user friend s.rows, same_pair_self user friend)

  -- A call that succeeds publishes its notifications, in order and after the earlier events, where
  -- a
  -- NATS client is set, and nothing otherwise.
  pub events-perform :
      (c : Call)
      → call_error env c s user friend ≡ none
      → (perform env c s user friend).events
        ≡ (if env.nats then s.events ++ notifications env c user friend else s.events)
  unfolding perform call_error notifications send_friend_request accept_friend_request
      decline_friend_request cancel_friend_request remove_friend unblock_user block_user
  events-perform send h = ground arith
  events-perform accept h = ground (
    arith,
    append_assoc s.events (about friend request_accepted user (env.open_dm user friend) ∷ [])
        (about user request_accepted friend (env.open_dm user friend) ∷ []),
  )
  events-perform decline h = ground arith
  events-perform cancel h = ground arith
  events-perform remove h = ground arith
  events-perform block h = ground (arith, append-nil s.events)
  events-perform unblock h = ground (arith, append-nil s.events)
