-- ===== src/RateLimit/Quotas.antt =====
-- Who is counted and how much a method allows, as a table of its own, against resolveRateLimit.
use incord.RateLimit.{
  RateLimit, Request, auth_rate_limits, message_send_methods, friend_request_methods,
  resolve_rate_limit, is_one_of, peer_ip, is_empty,
}
use incord.Base.{
  ℕ, ◌≡◌, refl, Bool, true, false, ◌||◌, [], ◌∷◌, Text, codes, text_eq, any, if◌then◌else◌, arith,
}

-- 60 seconds in nanoseconds.
abbrev pub one_minute : ℕ
one_minute = 60_000_000_000

abbrev pub is_auth_call : Text → Bool
is_auth_call m =
    text_eq m (codes "/auth.v1.AuthService/Register")
    || text_eq m (codes "/auth.v1.AuthService/Login")
    || text_eq m (codes "/auth.v1.AuthService/VerifyOTP")
    || text_eq m (codes "/auth.v1.AuthService/ResendOTP")

abbrev pub is_send : Text → Bool
is_send m =
    text_eq m (codes "/message.v1.MessageService/SendMessage")
    || text_eq m (codes "/message.v1.MessageService/SendDirectMessage")

abbrev pub is_friend_request : Text → Bool
is_friend_request m = text_eq m (codes "/user.v1.UserService/SendFriendRequest")

-- How many requests of a streak pass: 100 of an auth call, 30 sent messages, 10 friend requests and
-- 60 of any other method.
unfoldable pub quota : Text → ℕ
quota m =
    if is_auth_call m then 100 else if is_send m then 30 else if is_friend_request m then 10 else 60

-- Who is counted: the address for an auth call and for a request without a user, else the user.
unfoldable pub caller : Request → Text
caller r = if is_auth_call r.method || text_eq r.user_id [] then peer_ip r.peer else r.user_id

empty_lem : (t : Text) → is_empty t ≡ text_eq t []
unfolding text_eq
empty_lem [] = refl
empty_lem (c ∷ t) = refl

auth_lem : (m : Text) → is_one_of auth_rate_limits m ≡ is_auth_call m
unfolding auth_rate_limits any
auth_lem m = ground arith

send_lem : (m : Text) → is_one_of message_send_methods m ≡ is_send m
unfolding message_send_methods any
send_lem m = ground arith

friend_lem : (m : Text) → is_one_of friend_request_methods m ≡ is_friend_request m
unfolding friend_request_methods any
friend_lem m = ground arith

pub resolve_rate_limit_lem :
    (r : Request)
    → resolve_rate_limit r ≡ (caller r, record { limit = quota r.method; window = one_minute })
unfolding resolve_rate_limit caller quota
resolve_rate_limit_lem r =
    rw (auth_lem r.method, send_lem r.method, friend_lem r.method, empty_lem r.user_id)
      (cases (is_auth_call r.method) (is_send r.method) (is_friend_request r.method)
        (text_eq r.user_id []))
  where
    cases :
        (a b c d : Bool)
        → ◌≡◌ {A = Text × RateLimit}
            (if a
              then (peer_ip r.peer, record { limit = 100; window = one_minute })
              else if b
              then (
                if d then peer_ip r.peer else r.user_id,
                record { limit = 30; window = one_minute },
              )
              else if c
              then (
                if d then peer_ip r.peer else r.user_id,
                record { limit = 10; window = one_minute },
              )
              else (
                if d then peer_ip r.peer else r.user_id,
                record { limit = 60; window = one_minute },
              ))
            (
              if a || d then peer_ip r.peer else r.user_id,
              record {
                limit = if a then 100 else if b then 30 else if c then 10 else 60;
                window = one_minute;
              },
            )
    cases true b c d = refl
    cases false true c d = refl
    cases false false true d = refl
    cases false false false d = refl
