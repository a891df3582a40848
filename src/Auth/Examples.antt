-- ===== src/Auth/Examples.antt =====
-- The session theorems at a store that keeps a log of its writes.
use incord.Auth.Store.{Redis, IsStore, Crypto}
use incord.Auth.{
  err, invalid_token, invalid_otp, User, TokenPair, JwtConfig, State, Env, refresh_key, otp_key,
  otp_ttl, get_user_by_email, verify_user, generate_tokens, generate_otp, login, refresh_token,
  verify_otp, send_otp, resend_otp,
}
use incord.Auth.Sessions.{refresh_token-rotates}
use incord.Auth.Otp.{is_invalid_otp, login_sound, resend_otp-verify, verify_otp-once}
use incord.Auth.Accounts.{
  Draw, new_user, create_user_with_username, max_handle_attempts, other_failure, unique_violation,
}
use incord.Auth.Handles.{registered, first_free, create_user-first, create_user-taken}
use incord.Base.{
  In, take, ℕ, ◌≡◌, ◌+◌, refl, sym, ap, Bool, true, false, not, ◌&&◌, Option, none, some, List, [],
  ◌∷◌, Text, codes, text_eq, first, any, update, ltb, arith, if◌then◌else◌,
}

pub record Entry : Type 0 where
  pub key : Text
  pub value : Option Text
  pub until : ℕ

abbrev read : List Entry → Text → ℕ → Option Text
read [] j later = none
read (e ∷ es) j later =
    let older = read es j later in
    if text_eq e.key j then (if ltb later e.until then e.value else none) else older

abbrev log : Redis (List Entry)
log = record {
  set = λ s k v ttl t. some (record { key = k; value = some v; until = t + ttl } ∷ s);
  get = read;
  del = λ s k t. some (record { key = k; value = none; until = t } ∷ s);
}

abbrev log_or : List Entry → Option (List Entry) → List Entry
log_or d none = d
log_or d (some s) = s

same_either : (b : Bool) (o : Option Text) → (if b then o else o) ≡ o
same_either true o = refl
same_either false o = refl

log-IsStore : IsStore log
log-IsStore = record {
  get-set = λ s s' k v ttl t e j later h. rw (sym (ap (log_or s) e));
  get-del = λ s s' k t e j later h. rw (sym (ap (log_or s) e), same_either (ltb later t) none);
}

abbrev clear : Crypto
clear = record {
  hash_password = λ p. some p;
  compare_hash = text_eq;
  sign = λ u t ttl. some u;
  parse_sub = λ t. some (some t);
}

abbrev cfg : JwtConfig
cfg = record { access_token_ttl = 100; refresh_token_ttl = 1000 }

abbrev ann : User
ann = record {
  id = codes "1";
  username = codes "ann#0001";
  display_name = codes "ann";
  email = codes "a@b";
  password_hash = codes "pw";
  verified = true;
  deleted = false;
}

abbrev at : ℕ → Text → Env
at t token = record {
  now = t;
  random_token = some token;
  random_number = 42;
  fails = λ q. false;
  mailer = none;
}

abbrev start : State (List Entry)
start = record { users = ann ∷ []; redis = [] }

abbrev holding : Text → Text → State (List Entry)
holding k v = record start { redis = record { key = k; value = some v; until = 500 } ∷ [] }

abbrev pair : Text → TokenPair
pair token = record { access_token = codes "1"; refresh_token = token }

abbrev rotated : State (List Entry)
rotated = record start {
  redis =
      record { key = refresh_key (codes "n"); value = some (codes "1"); until = 1007 }
      ∷ record { key = refresh_key (codes "o"); value = none; until = 7 }
      ∷ (holding (refresh_key (codes "o")) (codes "1")).redis;
}

refresh_token-rotates_example :
    (log.get rotated.redis (refresh_key (codes "n")) 9 ≡ (
      if ltb 9 (7 + 1000)
      then log.get (holding (refresh_key (codes "o")) (codes "1")).redis (refresh_key (codes "o")) 7
      else none))
    × ((refresh_token log clear cfg (at 9 (codes "m")) rotated (codes "o")).1 ≡ err invalid_token)
unfolding refresh_token generate_tokens text_eq
refresh_token-rotates_example =
    refresh_token-rotates log clear cfg log-IsStore (at 7 (codes "n")) (at 9 (codes "m"))
      (holding (refresh_key (codes "o")) (codes "1")) rotated (codes "o") (pair (codes "n")) refl
      (omega arith) refl

abbrev logged_out : State (List Entry)
logged_out = record start {
  redis =
      record { key = refresh_key (codes "o"); value = none; until = 7 }
      ∷ (holding (refresh_key (codes "o")) (codes "1")).redis;
}

abbrev logged_in : State (List Entry)
logged_in = record start {
  redis = record { key = refresh_key (codes "n"); value = some (codes "1"); until = 1007 } ∷ [];
}

login_sound_example :
    (u : User) × In u start.users
    × (u.email ≡ codes "a@b")
    × (u.deleted ≡ false)
    × (clear.compare_hash u.password_hash (codes "pw") ≡ true)
    × (u.verified ≡ true)
    × (u.id ≡ codes "1")
    × (log.get logged_in.redis (refresh_key (codes "n")) 9
        ≡ (if ltb 9 (7 + 1000) then some (codes "1") else none))
unfolding login generate_tokens get_user_by_email first text_eq
login_sound_example =
    login_sound log clear cfg log-IsStore (at 7 (codes "n")) start logged_in (codes "a@b")
      (codes "pw") (codes "1") (pair (codes "n")) 9 refl (omega arith)

abbrev sent : State (List Entry)
sent = record start {
  redis =
      record { key = otp_key (codes "a@b"); value = some (codes "000042"); until = 7 + otp_ttl }
      ∷ [];
}

resend_otp-verify_example :
    is_invalid_otp
      (verify_otp log clear cfg (at 9 (codes "n")) sent (codes "a@b") (codes "000042")).1
    ≡ not (ltb 9 (7 + otp_ttl) && text_eq (generate_otp 42) (codes "000042"))
unfolding resend_otp send_otp generate_otp get_user_by_email first text_eq
resend_otp-verify_example =
    resend_otp-verify log clear cfg log-IsStore (at 7 (codes "n")) (at 9 (codes "n")) start sent
      (codes "a@b") (codes "000042") refl (omega arith)

abbrev checked : State (List Entry)
checked = record start {
  redis =
      record { key = refresh_key (codes "n"); value = some (codes "1"); until = 1007 }
      ∷ record { key = otp_key (codes "a@b"); value = none; until = 7 }
      ∷ (holding (otp_key (codes "a@b")) (codes "000042")).redis;
}

verify_otp-once_example :
    (verify_otp log clear cfg (at 9 (codes "m")) checked (codes "a@b") (codes "000042")).1
    ≡ err invalid_otp
unfolding verify_otp generate_tokens verify_user get_user_by_email first any update text_eq
verify_otp-once_example =
    verify_otp-once log clear cfg log-IsStore (at 7 (codes "n")) (at 9 (codes "m"))
      (holding (otp_key (codes "a@b")) (codes "000042")) checked (codes "a@b") (codes "000042")
      (codes "1") (codes "000042") (pair (codes "n"))
      (record { key = otp_key (codes "a@b"); value = none; until = 7 }
        ∷ (holding (otp_key (codes "a@b")) (codes "000042")).redis)
      refl refl (omega arith)

abbrev draw : ℕ → Draw
draw n = record { number = n; id = codes "2"; fails = false }

abbrev bob : User
bob = new_user (codes "bob") (codes "b@b") (codes "pw") (draw 6)

-- The first draw gives the handle of ann.
create_user-first_example :
    create_user_with_username
      (ann ∷ [])
      (codes "ann")
      (codes "b@b")
      (codes "pw")
      (draw 5 ∷ draw 6 ∷ [])
    ≡ registered
        (ann ∷ [])
        (codes "ann")
        (codes "b@b")
        (codes "pw")
        (first_free (ann ∷ []) (codes "ann") (take 10 (draw 5 ∷ draw 6 ∷ [])))
unfolding any text_eq
create_user-first_example =
    create_user-first (ann ∷ []) (codes "ann") (codes "b@b") (codes "pw") (draw 5 ∷ draw 6 ∷ [])
      refl refl

create_user-taken_example :
    create_user_with_username
      (ann ∷ [])
      (codes "bob")
      (codes "a@b")
      (codes "pw")
      (draw 6 ∷ draw 7 ∷ [])
    ≡ (if any (λ d. d.fails) (take max_handle_attempts (draw 6 ∷ draw 7 ∷ []))
        then other_failure
        else unique_violation)
unfolding any text_eq
create_user-taken_example =
    create_user-taken (ann ∷ []) (codes "bob") (codes "a@b") (codes "pw") (draw 6 ∷ draw 7 ∷ [])
      refl
