-- ===== src/Presence.antt =====
-- internal/features/presence/service.go: the status that a user has set, kept in a Redis hash, and
-- the events to friends. A status is an int32 of the protocol; 1 to 4 are online, idle, dnd,
-- offline.
use incord.Base.{
  ℕ, zero, suc, ◌+◌, ◌*◌, ◌-◌, Bool, true, false, not, ◌&&◌, ◌||◌, Option, none, some, List, [],
  ◌∷◌, ◌++◌, Text, codes, text_eq, leb, ◌==◌, if◌then◌else◌,
}
use incord.Base.Int.{ℤ, pos, negsuc}
use incord.Presence.Store.{Hashes, field}
pub mod Store
mod Reads
mod Examples

-- A time.Time and a timestamppb.Timestamp: the seconds since 1970, and the nanoseconds of the
-- second.
pub record Time : Type 0 where
  pub seconds : ℕ
  pub nanos : ℕ

pub record Timestamp : Type 0 where
  pub seconds : ℤ
  pub nanos : ℕ

pub record Presence : Type 0 where
  pub user_id : Text
  pub status : ℤ
  pub custom_status : Text
  pub last_seen : Option Timestamp

-- FriendActivityEvent on the subject of the user.
pub record Event : Type 0 where
  pub user_id : Text
  pub status : ℤ
  pub custom_status : Text
  pub profile : Text × Text

pub record State (Store : Type 0) : Type 0 where
  pub redis : Store
  pub events : List Event

-- The resolver of profiles and stored statuses.
pub record Resolver : Type 0 where
  pub lookup_basic_profile : Text → Text × Text
  pub get_status_intent : Text → Text × Text

pub record Env : Type 0 where
  pub now : Time
  pub nats : Bool
  pub resolver : Option Resolver

abbrev pub presence_key : Text → Text
presence_key user_id = codes "presence:" ++ user_id

-- A missing key of a Go map gives the empty text.
unfoldable pub status_to_string : ℤ → Text
status_to_string (pos n) =
    if n == 1
    then codes "online"
    else if n == 2
    then codes "idle"
    else if n == 3
    then codes "dnd"
    else if n == 4
    then codes "offline"
    else []
status_to_string (negsuc n) = []

-- The enums of both protocols have the same numbers, and an unknown one becomes 0.
unfoldable pub status_to_stream : ℤ → ℤ
status_to_stream (pos n) = if leb 1 n && leb n 4 then pos n else pos 0
status_to_stream (negsuc n) = pos 0

unfoldable pub string_to_status : Text → Option ℤ
string_to_status s =
    if text_eq s (codes "online")
    then some (pos 1)
    else if text_eq s (codes "idle")
    then some (pos 2)
    else if text_eq s (codes "dnd")
    then some (pos 3)
    else if text_eq s (codes "offline")
    then some (pos 4)
    else none

abbrev digits_from : ℕ → Text → Option ℕ
digits_from acc [] = some acc
digits_from acc (c ∷ s) =
    let rest = digits_from (acc * 10 + (c - b'0')) s in
    if leb b'0' c && leb c b'9' then rest else none

abbrev digits : Text → Option ℕ
digits [] = none
digits (c ∷ s) = digits_from 0 (c ∷ s)

abbrev positive : ℕ → Option ℕ → Option ℤ
positive bound none = none
positive bound (some n) = if leb (suc n) bound then some (pos n) else none

abbrev negative : ℕ → Option ℕ → Option ℤ
negative bound none = none
negative bound (some zero) = some (pos 0)
negative bound (some (suc n)) = if leb (suc n) bound then some (negsuc n) else none

-- strconv.ParseInt(s, 10, bits), by the bound 2^(bits-1).
unfoldable pub parse_int : ℕ → Text → Option ℤ
parse_int bound [] = none
parse_int bound (c ∷ s) =
    if c == b'+'
    then positive bound (digits s)
    else if c == b'-'
    then negative bound (digits s)
    else positive bound (digits (c ∷ s))

abbrev pub int32_bound : ℕ
int32_bound = 2_147_483_648

abbrev pub int64_bound : ℕ
int64_bound = 9_223_372_036_854_775_808

abbrev or_zero : Option ℤ → ℤ
or_zero none = pos 0
or_zero (some n) = n

abbrev known_or : Option ℤ → Option ℤ → ℤ
known_or (some n) number = n
known_or none number = or_zero number

abbrev parse_status : Option Text → ℤ
parse_status none = pos 0
parse_status (some s) = known_or (string_to_status s) (parse_int int32_bound s)

abbrev or_empty : Option Text → Text
or_empty none = []
or_empty (some s) = s

-- time.Unix(ts, 0)
abbrev at_second : Option ℤ → Option Timestamp
at_second none = none
at_second (some ts) = some (record { seconds = ts; nanos = 0 })

abbrev parse_seen : Option Text → Option Timestamp
parse_seen none = none
parse_seen (some s) = at_second (parse_int int64_bound s)

unfoldable pub parse_presence : Text → List (Text × Text) → Presence
unfolding string_to_status parse_int
parse_presence user_id vals = record {
  user_id = user_id;
  status = parse_status (field (codes "status") vals);
  custom_status = or_empty (field (codes "custom_status") vals);
  last_seen = parse_seen (field (codes "last_seen") vals);
}

abbrev pub offline : Text → Presence
offline user_id = record { user_id = user_id; status = pos 4; custom_status = []; last_seen = none }

abbrev pub presence_of : Text → List (Text × Text) → Presence
presence_of user_id [] = offline user_id
presence_of user_id (v ∷ vals) = parse_presence user_id (v ∷ vals)

module _ {Store : Type 0} (hashes : Hashes Store) where
  abbrev profile_of : Option Resolver → Text → Text × Text
  profile_of none user_id = ([], [])
  profile_of (some r) user_id = r.lookup_basic_profile user_id

  unfoldable pub publish_presence : Env → State Store → Text → ℤ → Text → State Store
  unfolding status_to_stream
  publish_presence env s user_id status custom_status =
      if env.nats
      then record s {
        events =
            s.events
            ++ record {
              user_id = user_id;
              status = status_to_stream status;
              custom_status = custom_status;
              profile = profile_of env.resolver user_id;
            }
              ∷ [];
      }
      else s

  -- now.Unix() drops the nanoseconds.
  abbrev pub presence_fields : Time → ℤ → Text → List (Text × Text)
  presence_fields now status custom_status =
      (codes "status", status_to_string status)
      ∷ (codes "custom_status", custom_status)
      ∷ (codes "last_seen", hashes.format_int now.seconds)
      ∷ []

  abbrev updated :
      Env → State Store → Text → ℤ → Text → Option Store → State Store × Option Presence
  updated env s user_id status custom_status none = (s, none)
  updated env s user_id status custom_status (some r) = (
    publish_presence env (record s { redis = r }) user_id status custom_status,
    some (record {
      user_id = user_id;
      status = status;
      custom_status = custom_status;
      last_seen = some (record { seconds = pos env.now.seconds; nanos = env.now.nanos });
    }),
  )

  -- `none` is an error.
  unfoldable pub update_presence :
      Env → State Store → Text → ℤ → Text → State Store × Option Presence
  unfolding status_to_string
  update_presence env s user_id status custom_status =
      updated env s user_id status custom_status
        (hashes.hset s.redis (presence_key user_id) (presence_fields env.now status custom_status))

  unfoldable pub set_offline : Env → State Store → Text → State Store × Option Presence
  set_offline env s user_id = update_presence env s user_id (pos 4) []

  abbrev connected_as : Env → State Store → Text → Text × Text → State Store
  connected_as env s user_id (status, custom) =
      (update_presence env s user_id (intent (string_to_status status)) custom).0
    where
      intent : Option ℤ → ℤ
      intent none = pos 1
      intent (some n) = n

  abbrev connected : Env → State Store → Text → Option Resolver → State Store
  connected env s user_id none = s
  connected env s user_id (some r) = connected_as env s user_id (r.get_status_intent user_id)

  unfoldable pub on_user_connect : Env → State Store → Text → State Store
  on_user_connect env s user_id = connected env s user_id env.resolver

  unfoldable pub on_user_disconnect : Env → State Store → Text → State Store
  on_user_disconnect env s user_id = (set_offline env s user_id).0

  abbrev live_of : Option (List (Text × Text)) → Text × Text
  live_of none = (codes "offline", [])
  live_of (some []) = (codes "offline", [])
  live_of (some (v ∷ vals)) = (
    or_empty (field (codes "status") (v ∷ vals)),
    or_empty (field (codes "custom_status") (v ∷ vals)),
  )

  -- With a Redis client.
  unfoldable pub get_live_status : State Store → Text → Text × Text
  get_live_status s user_id = live_of (hashes.hgetall s.redis (presence_key user_id))

  abbrev presence_in : Text → Option (List (Text × Text)) → Option Presence
  presence_in user_id none = none
  presence_in user_id (some vals) = some (presence_of user_id vals)

  unfoldable pub get_presence : State Store → Text → Option Presence
  unfolding parse_presence
  get_presence s user_id = presence_in user_id (hashes.hgetall s.redis (presence_key user_id))

  abbrev bulk_of : Text → Option (List (Text × Text)) → Presence
  bulk_of user_id none = offline user_id
  bulk_of user_id (some vals) = presence_of user_id vals

  unfoldable pub bulk_presences : State Store → List Text → List Presence
  unfolding parse_presence
  bulk_presences s [] = []
  bulk_presences s (u ∷ us) =
      bulk_of u (hashes.hgetall s.redis (presence_key u)) ∷ bulk_presences s us

  -- The flag says whether the pipeline as a whole answers.
  unfoldable pub get_bulk_presence : Bool → State Store → List Text → Option (List Presence)
  unfolding bulk_presences
  get_bulk_presence answers s user_ids = if answers then some (bulk_presences s user_ids) else none
