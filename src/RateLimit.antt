-- ===== src/RateLimit.antt =====
-- internal/shared/middleware/ratelimit.go: the interceptor that limits the requests of a user or an
-- address. Redis is a parameter: what Redis documents of INCR and EXPIRE. Times are in nanoseconds.
use incord.Base.{
  ℕ, Bool, true, false, ◌&&◌, ◌||◌, Option, none, some, List, [], ◌∷◌, ◌++◌, Text, codes,
  has_prefix, text_eq, leb, ◌==◌, any, if◌then◌else◌,
}
use incord.RateLimit.Redis.{Pipeline, incr, expire}
pub mod Redis
mod Counting
mod Keys
mod Quotas
mod Streaks
mod Bursts
mod Examples

pub record RateLimit : Type 0 where
  pub limit : ℕ
  pub window : ℕ

-- A call with its method, the user of its context (empty if there is none), the address of its peer
-- and its time.
pub record Request : Type 0 where
  pub method : Text
  pub user_id : Text
  pub peer : Option Text
  pub now : ℕ

-- `passed` hands the request to the handler.
pub data Outcome : Type 0 where
  passed : Outcome
  resource_exhausted : ℕ → ℕ → Outcome

abbrev pub minute : ℕ
minute = 60_000_000_000

abbrev pub auth_limit : RateLimit
auth_limit = record { limit = 100; window = minute }

abbrev pub default_limit : RateLimit
default_limit = record { limit = 60; window = minute }

abbrev pub message_send_limit : RateLimit
message_send_limit = record { limit = 30; window = minute }

abbrev pub friend_request_limit : RateLimit
friend_request_limit = record { limit = 10; window = minute }

unfoldable pub auth_rate_limits : List Text
auth_rate_limits =
    codes "/auth.v1.AuthService/Register"
    ∷ codes "/auth.v1.AuthService/Login"
    ∷ codes "/auth.v1.AuthService/VerifyOTP"
    ∷ codes "/auth.v1.AuthService/ResendOTP"
    ∷ []

unfoldable pub message_send_methods : List Text
message_send_methods =
    codes "/message.v1.MessageService/SendMessage"
    ∷ codes "/message.v1.MessageService/SendDirectMessage"
    ∷ []

unfoldable pub friend_request_methods : List Text
friend_request_methods = codes "/user.v1.UserService/SendFriendRequest" ∷ []

abbrev pub is_one_of : List Text → Text → Bool
is_one_of ms m = any (text_eq m) ms

abbrev has_colon : Text → Bool
has_colon s = any (λ c. c == b':') s

-- addr[:strings.LastIndex(addr, ":")], for an address that has a colon.
unfoldable pub strip_port : Text → Text
strip_port [] = []
strip_port (c ∷ s) = let rest = strip_port s in if has_colon s then c ∷ rest else []

unfoldable pub peer_ip : Option Text → Text
unfolding strip_port
peer_ip none = codes "unknown"
peer_ip (some addr) = if has_colon addr then strip_port addr else addr

abbrev is_empty : Text → Bool
is_empty [] = true
is_empty (c ∷ s) = false

unfoldable pub resolve_rate_limit : Request → Text × RateLimit
unfolding auth_rate_limits message_send_methods friend_request_methods peer_ip any
resolve_rate_limit r =
    let identity = if is_empty r.user_id then peer_ip r.peer else r.user_id in
    if is_one_of auth_rate_limits r.method
    then (peer_ip r.peer, auth_limit)
    else if is_one_of message_send_methods r.method
    then (identity, message_send_limit)
    else if is_one_of friend_request_methods r.method
    then (identity, friend_request_limit)
    else (identity, default_limit)

abbrev pub is_exempt : Text → Bool
is_exempt method =
    has_prefix method (codes "/grpc.reflection.") || has_prefix method (codes "/grpc.health.")

abbrev pub rate_key : Text → Text → Text
rate_key identity method = codes "ratelimit:" ++ identity ++ codes ":" ++ method

module _ {State : Type 0} (exec : Pipeline State) where
  -- `incrCmd.Val()` is 0 without a reply.
  abbrev within : RateLimit → State × Option (List ℕ) → State × Option Bool
  within rl (s, none) = (s, none)
  within rl (s, some []) = (s, some (leb 0 rl.limit))
  within rl (s, some (count ∷ replies)) = (s, some (leb count rl.limit))

  unfoldable pub check_rate_limit : State → Text → RateLimit → ℕ → State × Option Bool
  check_rate_limit s key rl now = within rl (exec s (incr key ∷ expire key rl.window ∷ []) now)

  -- Without an answer the request passes.
  abbrev outcome_of : RateLimit → Option Bool → Outcome
  outcome_of rl none = passed
  outcome_of rl (some true) = passed
  outcome_of rl (some false) = resource_exhausted rl.limit rl.window

  abbrev limited : State → Request → Text × RateLimit → State × Outcome
  limited s r (identity, rl) =
      let c = check_rate_limit s (rate_key identity r.method) rl r.now in (c.0, outcome_of rl c.1)

  unfoldable pub rate_limit_interceptor : State → Request → State × Outcome
  unfolding check_rate_limit
  rate_limit_interceptor s r =
      if is_exempt r.method then (s, passed) else limited s r (resolve_rate_limit r)

  -- The requests of a server, one after the other.
  unfoldable pub outcomes : State → List Request → List Outcome
  unfolding rate_limit_interceptor
  outcomes s [] = []
  outcomes s (r ∷ rs) = let x = rate_limit_interceptor s r in x.1 ∷ outcomes x.0 rs
