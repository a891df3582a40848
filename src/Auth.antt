-- ===== src/Auth.antt =====
-- internal/features/auth: registration, verification by a one-time password, login and the
-- rotation of refresh tokens (service.go and repository.go).
use incord.Auth.Store.{Redis, Crypto}
use incord.Base.{
  ℕ, suc, ◌+◌, ◌%◌, ◌/◌, Bool, true, false, not, ◌&&◌, ◌||◌, Option, none, some, List, [], ◌∷◌,
  ◌++◌, Text, codes, text_eq, any, first, update, if◌then◌else◌,
}
pub mod Store
mod Sessions
mod Otp
pub mod Accounts
mod Handles
mod Examples

pub data AuthError : Type 0 where
  invalid_credentials invalid_token invalid_otp not_verified internal : AuthError

pub data Result (A : Type 0) : Type 0 where
  ok : A → Result A
  err : AuthError → Result A

pub record User : Type 0 where
  pub id : Text
  pub username : Text
  pub display_name : Text
  pub email : Text
  pub password_hash : Text
  pub verified : Bool
  pub deleted : Bool

pub record TokenPair : Type 0 where
  pub access_token : Text
  pub refresh_token : Text

pub record JwtConfig : Type 0 where
  pub access_token_ttl : ℕ
  pub refresh_token_ttl : ℕ

pub record State (Store : Type 0) : Type 0 where
  pub users : List User
  pub redis : Store

pub data UserQuery : Type 0 where
  by_email mark_verified : UserQuery

-- What a call draws or finds outside: its time, the random bytes of a refresh token in hexadecimal,
-- the random number of a one-time password, which queries of the users fail, and whether the
-- mailer,
-- if there is one, sends.
pub record Env : Type 0 where
  pub now : ℕ
  pub random_token : Option Text
  pub random_number : ℕ
  pub fails : UserQuery → Bool
  pub mailer : Option Bool

abbrev pub refresh_key : Text → Text
refresh_key token = codes "refresh:" ++ token

abbrev pub otp_key : Text → Text
otp_key email = codes "otp:" ++ email

-- 5 minutes, in nanoseconds.
abbrev pub otp_ttl : ℕ
otp_ttl = 300_000_000_000

abbrev pub has_email : Text → User → Bool
has_email email u = text_eq u.email email && not u.deleted

abbrev pub has_id : Text → User → Bool
has_id id u = text_eq u.id id

unfoldable pub get_user_by_email : Env → List User → Text → Option User
unfolding first
get_user_by_email env users email =
    if env.fails by_email then none else first (has_email email) users

-- UPDATE ... RETURNING: no row is an error.
unfoldable pub verify_user : Env → List User → Text → Option (List User)
unfolding any update
verify_user env users id =
    if env.fails mark_verified
    then none
    else if any (has_id id) users
    then some (update (has_id id) (λ u. record u { verified = true }) users)
    else none

abbrev digit : ℕ → ℕ
digit n = b'0' + n % 10

-- fmt.Sprintf("%06d", n), for a number below a million.
unfoldable pub generate_otp : ℕ → Text
generate_otp n =
    digit (n / 100_000)
    ∷ digit (n / 10_000)
    ∷ digit (n / 1000)
    ∷ digit (n / 100)
    ∷ digit (n / 10)
    ∷ digit n
    ∷ []

module _ {Store : Type 0} (redis : Redis Store) (crypto : Crypto) (cfg : JwtConfig) where
  open redis use {set, get, del}
  open crypto use {compare_hash, sign}

  abbrev stored : State Store → Text → Text → Option Store → State Store × Result TokenPair
  stored s access refresh none = (s, err internal)
  stored s access refresh (some r) =
      (record s { redis = r }, ok (record { access_token = access; refresh_token = refresh }))

  abbrev store_refresh :
      Env → State Store → Text → Text → Option Text → State Store × Result TokenPair
  store_refresh env s user_id access none = (s, err internal)
  store_refresh env s user_id access (some refresh) =
      stored s access refresh
        (set s.redis (refresh_key refresh) user_id cfg.refresh_token_ttl env.now)

  abbrev with_access : Env → State Store → Text → Option Text → State Store × Result TokenPair
  with_access env s user_id none = (s, err internal)
  with_access env s user_id (some access) = store_refresh env s user_id access env.random_token

  unfoldable pub generate_tokens : Env → State Store → Text → State Store × Result TokenPair
  generate_tokens env s user_id =
      with_access env s user_id (sign user_id env.now cfg.access_token_ttl)

  -- The user id in front of the tokens.
  abbrev with_user : Text → State Store × Result TokenPair → State Store × Result (Text × TokenPair)
  with_user id (s, ok t) = (s, ok (id, t))
  with_user id (s, err e) = (s, err e)

  abbrev login_as : Env → State Store → Text → Option User → State Store × Result (Text × TokenPair)
  login_as env s password none = (s, err invalid_credentials)
  login_as env s password (some u) =
      if not (compare_hash u.password_hash password)
      then (s, err invalid_credentials)
      else if not u.verified
      then (s, err not_verified)
      else with_user u.id (generate_tokens env s u.id)

  unfoldable pub login : Env → State Store → Text → Text → State Store × Result (Text × TokenPair)
  login env s email password = login_as env s password (get_user_by_email env s.users email)

  abbrev rotate : Env → State Store → Text → Option Store → State Store × Result TokenPair
  rotate env s user_id none = (s, err internal)
  rotate env s user_id (some r) = generate_tokens env (record s { redis = r }) user_id

  abbrev refresh_for : Env → State Store → Text → Option Text → State Store × Result TokenPair
  refresh_for env s token none = (s, err invalid_token)
  refresh_for env s token (some user_id) =
      rotate env s user_id (del s.redis (refresh_key token) env.now)

  unfoldable pub refresh_token : Env → State Store → Text → State Store × Result TokenPair
  refresh_token env s token = refresh_for env s token (get s.redis (refresh_key token) env.now)

  abbrev deleted_or : State Store → Option Store → State Store × Result (Unit {0})
  deleted_or s none = (s, err internal)
  deleted_or s (some r) = (record s { redis = r }, ok tt)

  unfoldable pub logout : Env → State Store → Text → State Store × Result (Unit {0})
  logout env s token = deleted_or s (del s.redis (refresh_key token) env.now)

  -- The error of the deletion is dropped.
  abbrev or_same : State Store → Option Store → State Store
  or_same s none = s
  or_same s (some r) = record s { redis = r }

  abbrev verified_as :
      Env → State Store → Text → Text → Option (List User) → State Store × Result (Text × TokenPair)
  verified_as env s email id none = (s, err internal)
  verified_as env s email id (some users) =
      let s' = record s { users = users } in
      with_user id (generate_tokens env (or_same s' (del s'.redis (otp_key email) env.now)) id)

  abbrev verify_as :
      Env → State Store → Text → Option User → State Store × Result (Text × TokenPair)
  verify_as env s email none = (s, err invalid_credentials)
  verify_as env s email (some u) = verified_as env s email u.id (verify_user env s.users u.id)

  abbrev verify_with :
      Env → State Store → Text → Text → Option Text → State Store × Result (Text × TokenPair)
  verify_with env s email otp none = (s, err invalid_otp)
  verify_with env s email otp (some stored_otp) =
      if not (text_eq stored_otp otp)
      then (s, err invalid_otp)
      else verify_as env s email (get_user_by_email env s.users email)

  unfoldable pub verify_otp :
      Env → State Store → Text → Text → State Store × Result (Text × TokenPair)
  verify_otp env s email otp = verify_with env s email otp (get s.redis (otp_key email) env.now)

  abbrev mailed : State Store → Option Bool → State Store × Result (Unit {0})
  mailed s none = (s, ok tt)
  mailed s (some true) = (s, ok tt)
  mailed s (some false) = (s, err internal)

  abbrev otp_stored : Env → State Store → Option Store → State Store × Result (Unit {0})
  otp_stored env s none = (s, err internal)
  otp_stored env s (some r) = mailed (record s { redis = r }) env.mailer

  unfoldable pub send_otp : Env → State Store → Text → State Store × Result (Unit {0})
  unfolding generate_otp
  send_otp env s email =
      otp_stored env s
        (set s.redis (otp_key email) (generate_otp env.random_number) otp_ttl env.now)

  abbrev resend_for : Env → State Store → Text → Option User → State Store × Result (Unit {0})
  resend_for env s email none = (s, err invalid_credentials)
  resend_for env s email (some u) = send_otp env s email

  unfoldable pub resend_otp : Env → State Store → Text → State Store × Result (Unit {0})
  resend_otp env s email = resend_for env s email (get_user_by_email env s.users email)

abbrev valid_sub : Option (Option Text) → Text × Bool
valid_sub none = ([], false)
valid_sub (some none) = ([], false)
valid_sub (some (some user_id)) = (user_id, true)

unfoldable pub validate_token : Crypto → Text → Text × Bool
validate_token crypto access_token = valid_sub (crypto.parse_sub access_token)
