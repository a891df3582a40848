-- ===== src/Friends/Spec.antt =====
-- What the friendship table means to its users: one bond between any two of them, and how each call
-- changes the bond of the pair that it names.
use incord.Base.{ℕ, Option, none, some, List, ◌==◌, if◌then◌else◌}
use incord.Friends.Rows.{Status, pending, accepted, blocked, other, Friendship, get_friendship}

pub data Bond : Type 0 where
  strangers friends unknown : Bond
  requested_by blocked_by : ℕ → Bond

abbrev pub bond_of_status : ℕ → Status → Bond
bond_of_status by pending = requested_by by
bond_of_status by accepted = friends
bond_of_status by blocked = blocked_by by
bond_of_status by (other s) = unknown

abbrev pub bond_of : Option Friendship → Bond
bond_of none = strangers
bond_of (some f) = bond_of_status f.user_id f.status

unfoldable pub bond : List Friendship → ℕ → ℕ → Bond
bond rows a b = bond_of (get_friendship rows a b)

pub data Call : Type 0 where
  send accept decline cancel remove block unblock : Call

-- The bond after `user` makes a call about `friend`.
unfoldable pub bond_after : Call → ℕ → ℕ → Bond → Bond
bond_after send user friend strangers = requested_by user
bond_after send user friend unknown = requested_by user
bond_after accept user friend (requested_by x) = if x == friend then friends else requested_by x
bond_after decline user friend (requested_by x) = strangers
bond_after cancel user friend (requested_by x) = if x == user then strangers else requested_by x
bond_after remove user friend friends = strangers
bond_after block user friend b = blocked_by user
bond_after unblock user friend (blocked_by x) = if x == user then strangers else blocked_by x
bond_after _ user friend b = b
