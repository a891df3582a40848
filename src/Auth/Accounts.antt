-- ===== src/Auth/Accounts.antt =====
-- internal/features/auth/repository.go: the choice of a free handle for a new user, and Register of
-- service.go. The table is users.sql.go with the unique columns of 000001_users.sql.
use incord.Auth.{State, User, Env, Result, err, internal, send_otp}
use incord.Auth.Store.{Redis, Crypto}
use incord.Auth.{JwtConfig}
use incord.Base.{
  ℕ, ◌+◌, ◌%◌, ◌/◌, Bool, false, ◌||◌, Option, none, some, List, [], ◌∷◌, ◌++◌, Text, codes,
  text_eq, any, take, if◌then◌else◌,
}

-- What one attempt draws: the number of the discriminator, the id that the database gives, and
-- whether the insertion fails for another reason than a unique column.
pub record Draw : Type 0 where
  pub number : ℕ
  pub id : Text
  pub fails : Bool

pub data Inserted : Type 0 where
  inserted : List User → User → Inserted
  unique_violation other_failure : Inserted

-- A username or an email address of both, also of a deleted user.
abbrev pub clashes : User → User → Bool
clashes u v = text_eq v.username u.username || text_eq v.email u.email

unfoldable pub create_user : Bool → List User → User → Inserted
unfolding any
create_user fails users u =
    if fails
    then other_failure
    else if any (clashes u) users
    then unique_violation
    else inserted (users ++ u ∷ []) u

abbrev digit : ℕ → ℕ
digit n = b'0' + n % 10

-- fmt.Sprintf("%04d", n+1), for a drawn number below 9999.
abbrev pub random_discriminator : ℕ → Text
random_discriminator n =
    digit ((n + 1) / 1000) ∷ digit ((n + 1) / 100) ∷ digit ((n + 1) / 10) ∷ digit (n + 1) ∷ []

abbrev pub max_handle_attempts : ℕ
max_handle_attempts = 10

abbrev pub new_user : Text → Text → Text → Draw → User
new_user username email hash d = record {
  id = d.id;
  username = username ++ codes "#" ++ random_discriminator d.number;
  display_name = username;
  email = email;
  password_hash = hash;
  verified = false;
  deleted = false;
}

-- The next attempt, unless this one has created the user or failed for another reason.
abbrev pub or_next : Inserted → Inserted → Inserted
or_next (inserted us u) rest = inserted us u
or_next unique_violation rest = rest
or_next other_failure rest = other_failure

-- The loop: `unique_violation` after the last attempt is the error of the allocation.
unfoldable pub attempts : List User → Text → Text → Text → List Draw → Inserted
attempts users username email hash [] = unique_violation
attempts users username email hash (d ∷ ds) =
    or_next (create_user d.fails users (new_user username email hash d))
      (attempts users username email hash ds)

unfoldable pub create_user_with_username : List User → Text → Text → Text → List Draw → Inserted
unfolding attempts
create_user_with_username users username email hash draws =
    attempts users username email hash (take max_handle_attempts draws)

module _ {Store : Type 0} (redis : Redis Store) (crypto : Crypto) (cfg : JwtConfig) where
  -- The id is returned also when the one-time password cannot be sent.
  abbrev register_as :
      Env → State Store → Text → Inserted → State Store × Option Text × Result (Unit {0})
  register_as env s email (inserted users u) =
      let r = send_otp redis crypto cfg env (record s { users = users }) email in
      (r.0, some u.id, r.1)
  register_as env s email unique_violation = (s, none, err internal)
  register_as env s email other_failure = (s, none, err internal)

  abbrev register_with :
      Env
      → State Store
      → Text
      → Text
      → List Draw
      → Option Text
      → State Store × Option Text × Result (Unit {0})
  register_with env s username email draws none = (s, none, err internal)
  register_with env s username email draws (some hash) =
      register_as env s email (create_user_with_username s.users username email hash draws)

  unfoldable pub register :
      Env
      → State Store
      → Text
      → Text
      → Text
      → List Draw
      → State Store × Option Text × Result (Unit {0})
  register env s username email password draws =
      register_with env s username email draws (crypto.hash_password password)
