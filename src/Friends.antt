-- ===== src/Friends.antt =====
-- features/user: friend requests, friends and blocks (service.go, block_checker.go), over the
-- queries of the `friendships` table (gen/db/friendships.sql.go, of
-- db/timescale/queries/friendships.sql). A user id is its 128-bit number. Left out of a row are
-- `created_at` and `updated_at`, and of an event the sender's profile and its time, which no
-- operation here reads.
pub mod Rows
mod Lookup
pub mod Spec
pub mod Refines
pub mod History
pub mod Outcomes
mod Examples
mod Keeps
pub mod Unique
use Rows.{
  Status, pending, accepted, blocked, other, Friendship, get_friendship, create_friendship,
  update_friendship_status, delete_friendship,
}
use incord.Base.{
  ℕ, Bool, true, false, not, ◌||◌, Option, none, some, List, [], ◌∷◌, ◌++◌, ◌==◌, if◌then◌else◌,
}

-- model.go, and `query_failed` for an error that the database returned.
pub data FriendError : Type 0 where
  cannot_friend_self already_friends friend_request_exists user_blocked : FriendError
  no_friend_request not_friends not_blocked query_failed : FriendError

pub data Result {ℓ} (A : Type ℓ) : Type ℓ where
  ok : A → Result A
  err : FriendError → Result A

pub data EventKind : Type 0 where
  request request_accepted declined request_cancelled removed : EventKind

-- A FriendActivityEvent: whom it goes to, whom it is about, and the DM channel of an acceptance.
pub record Event : Type 0 where
  pub recipient : ℕ
  pub kind : EventKind
  pub user_id : ℕ
  pub channel_id : Option ℕ

pub data Query : Type 0 where
  get_query create_query update_query delete_query : Query

-- What surrounds the service: which of a call's queries fail, the rows of `users` that a new
-- friendship may refer to, whether a NATS client is set, and the DM opener.
pub record Env : Type 0 where
  pub fails : Query → Bool
  pub has_user : ℕ → Bool
  pub nats : Bool
  pub open_dm : ℕ → ℕ → Option ℕ

pub record State : Type 0 where
  pub rows : List Friendship
  pub events : List Event

abbrev is_pending : Status → Bool
is_pending pending = true
is_pending _ = false

abbrev is_accepted : Status → Bool
is_accepted accepted = true
is_accepted _ = false

abbrev is_blocked_status : Status → Bool
is_blocked_status blocked = true
is_blocked_status _ = false

abbrev with_rows : State → Option (List Friendship × Friendship) → Option (State × Friendship)
with_rows s none = none
with_rows s (some (rows, f)) = some (record s { rows = rows }, f)

module _ (env : Env) where
  -- A query that fails looks to the callers like one that found no row.
  unfoldable pub find_friendship : State → ℕ → ℕ → Option Friendship
  find_friendship s a b = if env.fails get_query then none else get_friendship s.rows a b

  unfoldable pub publish : State → ℕ → EventKind → ℕ → Option ℕ → State
  publish s to kind about channel =
      if env.nats
      then record s {
        events =
            s.events
            ++ record { recipient = to; kind = kind; user_id = about; channel_id = channel } ∷ [];
      }
      else s

  -- CreateFriendship of repository.go.
  unfoldable pub create_row : State → ℕ → ℕ → Status → Option (State × Friendship)
  create_row s user target status =
      if env.fails create_query
      then none
      else with_rows s (create_friendship env.has_user s.rows user target status)

  unfoldable pub update_row : State → ℕ → ℕ → Status → Option (State × Friendship)
  update_row s user target status =
      if env.fails update_query
      then none
      else with_rows s (update_friendship_status s.rows user target status)

  unfoldable pub delete_rows : State → ℕ → ℕ → Option State
  delete_rows s user target =
      if env.fails delete_query
      then none
      else some (record s { rows = delete_friendship s.rows user target })

  -- The end of SendFriendRequest, from `CreateFriendship` on.
  abbrev requested : State → ℕ → ℕ → Option (State × Friendship) → State × Result Friendship
  requested s user target none = (s, err query_failed)
  requested s user target (some (s', f)) = (publish s' target request user none, ok f)

  abbrev send_unless : State → ℕ → ℕ → Option Friendship → State × Result Friendship
  send_unless s user target none = requested s user target (create_row s user target pending)
  send_unless s user target (some existing) = elim existing.status [
    | accepted ↦ (s, err already_friends)
    | pending ↦ (s, err friend_request_exists)
    | blocked ↦ (s, err user_blocked)
    | other _ ↦ requested s user target (create_row s user target pending)
  ]

  unfoldable pub send_friend_request : State → ℕ → ℕ → State × Result Friendship
  unfolding find_friendship publish create_row
  send_friend_request s user target =
      if user == target
      then (s, err cannot_friend_self)
      else send_unless s user target (find_friendship s user target)

  -- Both users are told, each about the other, with the DM channel if one was opened.
  abbrev accepted_by : State → ℕ → ℕ → Option (State × Friendship) → State × Result Friendship
  accepted_by s user requester none = (s, err query_failed)
  accepted_by s user requester (some (s', f)) =
      let channel = env.open_dm user requester in
      (
        publish (publish s' requester request_accepted user channel) user request_accepted requester
            channel,
        ok f,
      )

  abbrev accept_if : State → ℕ → ℕ → Option Friendship → State × Result Friendship
  accept_if s user requester none = (s, err no_friend_request)
  accept_if s user requester (some existing) =
      if not (is_pending existing.status)
      then (s, err no_friend_request)
      else if not (existing.user_id == requester) || not (existing.friend_id == user)
      then (s, err no_friend_request)
      else accepted_by s user requester (update_row s requester user accepted)

  unfoldable pub accept_friend_request : State → ℕ → ℕ → State × Result Friendship
  unfolding find_friendship publish update_row
  accept_friend_request s user requester =
      accept_if s user requester (find_friendship s requester user)

  -- The deletion that ends decline, cancel and remove: it publishes to the other user.
  abbrev deleted_by : State → ℕ → EventKind → ℕ → Option State → State × Result (Unit {0})
  deleted_by s to kind user none = (s, err query_failed)
  deleted_by s to kind user (some s') = (publish s' to kind user none, ok tt)

  abbrev decline_if : State → ℕ → ℕ → Option Friendship → State × Result (Unit {0})
  decline_if s user requester none = (s, err no_friend_request)
  decline_if s user requester (some existing) =
      if not (is_pending existing.status)
      then (s, err no_friend_request)
      else deleted_by s requester declined user (delete_rows s requester user)

  unfoldable pub decline_friend_request : State → ℕ → ℕ → State × Result (Unit {0})
  unfolding find_friendship publish delete_rows
  decline_friend_request s user requester =
      decline_if s user requester (find_friendship s requester user)

  abbrev cancel_if : State → ℕ → ℕ → Option Friendship → State × Result (Unit {0})
  cancel_if s user target none = (s, err no_friend_request)
  cancel_if s user target (some existing) =
      if not (is_pending existing.status) || not (existing.user_id == user)
      then (s, err no_friend_request)
      else deleted_by s target request_cancelled user (delete_rows s user target)

  unfoldable pub cancel_friend_request : State → ℕ → ℕ → State × Result (Unit {0})
  unfolding find_friendship publish delete_rows
  cancel_friend_request s user target = cancel_if s user target (find_friendship s user target)

  abbrev remove_if : State → ℕ → ℕ → Option Friendship → State × Result (Unit {0})
  remove_if s user friend none = (s, err not_friends)
  remove_if s user friend (some existing) =
      if not (is_accepted existing.status)
      then (s, err not_friends)
      else deleted_by s friend removed user (delete_rows s user friend)

  unfoldable pub remove_friend : State → ℕ → ℕ → State × Result (Unit {0})
  unfolding find_friendship publish delete_rows
  remove_friend s user friend = remove_if s user friend (find_friendship s user friend)

  -- The error of the deletion is dropped.
  abbrev or_same : State → Option State → State
  or_same s none = s
  or_same s (some s') = s'

  abbrev blocked_row : State → Option (State × Friendship) → State × Result (Unit {0})
  blocked_row s none = (s, err query_failed)
  blocked_row s (some (s', f)) = (s', ok tt)

  unfoldable pub block_user : State → ℕ → ℕ → State × Result (Unit {0})
  unfolding create_row delete_rows
  block_user s user target =
      if user == target
      then (s, err cannot_friend_self)
      else let s' = or_same s (delete_rows s user target) in
        blocked_row s' (create_row s' user target blocked)

  abbrev unblocked : State → Option State → State × Result (Unit {0})
  unblocked s none = (s, err query_failed)
  unblocked s (some s') = (s', ok tt)

  abbrev unblock_if : State → ℕ → ℕ → Option Friendship → State × Result (Unit {0})
  unblock_if s user target none = (s, err not_blocked)
  unblock_if s user target (some existing) =
      if not (is_blocked_status existing.status) || not (existing.user_id == user)
      then (s, err not_blocked)
      else unblocked s (delete_rows s user target)

  unfoldable pub unblock_user : State → ℕ → ℕ → State × Result (Unit {0})
  unfolding find_friendship delete_rows
  unblock_user s user target = unblock_if s user target (find_friendship s user target)

  -- BlockChecker.IsBlocked, on ids that parse.
  abbrev has_blocked_status : Option Friendship → Bool
  has_blocked_status none = false
  has_blocked_status (some f) = is_blocked_status f.status

  unfoldable pub is_blocked : State → ℕ → ℕ → Bool
  unfolding find_friendship
  is_blocked s user target = has_blocked_status (find_friendship s user target)
