-- ===== src/Auth/Otp.antt =====
-- Logins and one-time passwords: who gets tokens, and how often a password serves.
use mathlib.Core.Path.{subst}
use incord.Auth.Store.{Redis, IsStore, Crypto}
use incord.Auth.{
  Result, ok, err, invalid_otp, User, TokenPair, JwtConfig, State, Env, refresh_key, otp_key,
  otp_ttl, get_user_by_email, verify_user, generate_tokens, generate_otp, login, verify_otp,
  with_user, or_same, verify_as, has_email, by_email, send_otp, resend_otp, mailed, login_as,
}
use incord.Auth.Sessions.{IsIssued, generate_tokens-IsIssued, get-issued, is_ok, bool_clash}
use incord.Base.{
  ℕ, ◌≡◌, ◌≤◌, ◌+◌, refl, ap, ◌∙◌, Bool, true, false, not, ◌&&◌, Option, none, some, Text, text_eq,
  text_eq_iff, ltb, In, List, first_sound, arith, if◌then◌else◌, Option-cases, Bool-cases, inl, inr,
}

otp_refresh_keys : (a b : Text) → text_eq (refresh_key a) (otp_key b) ≡ false
unfolding text_eq
otp_refresh_keys a b = refl

abbrev without_user :
    {Store : Type 0} → State Store × Result (Text × TokenPair) → State Store × Result TokenPair
without_user (s, ok (id, t)) = (s, ok t)
without_user (s, err e) = (s, err e)

abbrev id_of : Text → Result (Text × TokenPair) → Text
id_of d (ok (id, t)) = id
id_of d (err e) = d

-- The error that VerifyOTP returns for the password itself.
abbrev pub is_invalid_otp : Result (Text × TokenPair) → Bool
is_invalid_otp (err invalid_otp) = true
is_invalid_otp _ = false

module _ {Store : Type 0} (redis : Redis Store) (crypto : Crypto) (cfg : JwtConfig) where
  with_user-ok :
      (s' : State Store) (id i : Text) (pair : TokenPair) (x : State Store × Result TokenPair)
      → with_user redis crypto cfg id x ≡ (s', ok (i, pair))
      → (x ≡ (s', ok pair)) × (id ≡ i)
  with_user-ok s' id i pair (s, ok t) h = (ap without_user h, ap (λ x. id_of id x.1) h)
  with_user-ok s' id i pair (s, err e) h = absurd (bool_clash (ap (λ x. is_ok x.1) h))

  login-steps :
      (env : Env) (s s' : State Store) (password id : Text) (pair : TokenPair) (o : Option User)
      → login_as redis crypto cfg env s password o ≡ (s', ok (id, pair))
      → (u : User) × (o ≡ some u)
        × (crypto.compare_hash u.password_hash password ≡ true)
        × (u.verified ≡ true)
        × (u.id ≡ id)
        × IsIssued redis crypto cfg env s.redis u.id s' pair
  login-steps env s s' password id pair none h = absurd (bool_clash (ap (λ x. is_ok x.1) h))
  login-steps env s s' password id pair (some u) h =
      elim (Bool-cases (crypto.compare_hash u.password_hash password)) [
        | inl c ↦ elim (Bool-cases u.verified) [
          | inl v ↦
              let (made, same) =
                with_user-ok s' u.id id pair (generate_tokens redis crypto cfg env s u.id)
                  (rw (c, v) at h) in
              (
                u,
                refl,
                c,
                v,
                same,
                generate_tokens-IsIssued redis crypto cfg env s s' u.id pair made,
              )
          | inr v ↦ absurd (bool_clash (ap (λ x. is_ok x.1) (rw (c, v) at h)))
        ]
        | inr c ↦ absurd (bool_clash (ap (λ x. is_ok x.1) (rw c at h)))
      ]

  tokens-otp :
      (env : Env) (s : State Store) (id : Text)
      → is_invalid_otp (with_user redis crypto cfg id (generate_tokens redis crypto cfg env s id)).1
        ≡ false
  unfolding generate_tokens
  tokens-otp env s id = elim (Option-cases (crypto.sign id env.now cfg.access_token_ttl)) [
    | inl e ↦ rw e
    | inr (access, e) ↦ elim (Option-cases env.random_token) [
      | inl f ↦ rw (e, f)
      | inr (refresh, f) ↦
          elim (Option-cases
            (redis.set s.redis (refresh_key refresh) id cfg.refresh_token_ttl env.now)) [
              | inl g ↦ rw (e, f, g)
              | inr (r, g) ↦ rw (e, f, g)
            ]
    ]
  ]

  -- Behind the comparison of the passwords nothing complains about them.
  verify_as-otp :
      (env : Env) (s : State Store) (email : Text) (o : Option User)
      → is_invalid_otp (verify_as redis crypto cfg env s email o).1 ≡ false
  verify_as-otp env s email none = refl
  verify_as-otp env s email (some u) = elim (Option-cases (verify_user env s.users u.id)) [
    | inl e ↦ rw e
    | inr (users, e) ↦
        let s2 =
          or_same redis crypto cfg (record s { users = users })
            (redis.del s.redis (otp_key email) env.now) in
        rw (e, tokens-otp env s2 u.id)
  ]

  verify_otp-otp :
      (env : Env) (s : State Store) (email otp v : Text)
      → redis.get s.redis (otp_key email) env.now ≡ some v
      → is_invalid_otp (verify_otp redis crypto cfg env s email otp).1 ≡ not (text_eq v otp)
  unfolding verify_otp
  verify_otp-otp env s email otp v e = elim (Bool-cases (text_eq v otp)) [
    | inl f ↦ rw (e, f, verify_as-otp env s email (get_user_by_email env s.users email))
    | inr f ↦ rw (e, f)
  ]

  no_otp :
      (env : Env) (s : State Store) (email otp : Text)
      → redis.get s.redis (otp_key email) env.now ≡ none
      → (verify_otp redis crypto cfg env s email otp).1 ≡ err invalid_otp
  unfolding verify_otp
  no_otp env s email otp e = rw e

  mailed_store :
      (s : State Store) (m : Option Bool) → s.redis ≡ (mailed redis crypto cfg s m).0.redis
  mailed_store s none = refl
  mailed_store s (some true) = refl
  mailed_store s (some false) = refl

  send_otp-set :
      (env : Env) (s s' : State Store) (email : Text)
      → send_otp redis crypto cfg env s email ≡ (s', ok tt)
      → redis.set s.redis (otp_key email) (generate_otp env.random_number) otp_ttl env.now
        ≡ some s'.redis
  unfolding send_otp
  send_otp-set env s s' email h =
      elim (Option-cases
        (redis.set s.redis (otp_key email) (generate_otp env.random_number) otp_ttl env.now)) [
          | inl e ↦ absurd (bool_clash (ap (λ x. is_ok x.1) (rw e at h)))
          | inr (r, e) ↦
              let store : r ≡ s'.redis =
                mailed_store (record s { redis = r }) env.mailer
                ∙ ap (λ x. x.0.redis) (rw e at h) in
              rw (e, store)
        ]

-- After ResendOTP has returned without error, VerifyOTP complains about the password of this email
-- address if and only if the 5 minutes are over or the password is not the one that was drawn.
pub resend_otp-verify :
    {Store : Type 0}
    → (redis : Redis Store) (crypto : Crypto) (cfg : JwtConfig) → IsStore redis
    → (env later : Env) (s s' : State Store) (email otp : Text)
    → resend_otp redis crypto cfg env s email ≡ (s', ok tt)
    → env.now ≤ later.now
    → is_invalid_otp (verify_otp redis crypto cfg later s' email otp).1
      ≡ not (ltb later.now (env.now + otp_ttl) && text_eq (generate_otp env.random_number) otp)
unfolding resend_otp
resend_otp-verify redis crypto cfg laws env later s s' email otp h le =
    let code = generate_otp env.random_number in
    let set : redis.set s.redis (otp_key email) code otp_ttl env.now ≡ some s'.redis =
      elim (Option-cases (get_user_by_email env s.users email)) [
        | inl e ↦ absurd (bool_clash (ap (λ x. is_ok x.1) (rw e at h)))
        | inr (u, e) ↦ send_otp-set redis crypto cfg env s s' email (rw e at h)
      ] in
    let own : text_eq (otp_key email) (otp_key email) ≡ true =
      (text_eq_iff (otp_key email) (otp_key email)).1 refl in
    let read =
      laws.get-set s.redis s'.redis (otp_key email) code otp_ttl env.now set (otp_key email)
        later.now le in
    elim (Bool-cases (ltb later.now (env.now + otp_ttl))) [
      | inl live ↦
          rw (verify_otp-otp redis crypto cfg later s' email otp code (rw (read, own, live)), live)
      | inr over ↦ rw (no_otp redis crypto cfg later s' email otp (rw (read, own, over)), over)
    ]

-- The user whom the query finds is a row with this email address that is not deleted.
get_user-live :
    (env : Env) (users : List User) (email : Text) (u : User)
    → get_user_by_email env users email ≡ some u
    → In u users × (u.email ≡ email) × (u.deleted ≡ false)
unfolding get_user_by_email
get_user-live env users email u h = elim (Bool-cases (env.fails by_email)) [
  | inl f ↦ cc (rw f at h)
  | inr f ↦
      let (member, has) = first_sound (has_email email) users u (rw f at h) in
      (member, (text_eq_iff u.email email).0 (ground arith), ground arith)
]

-- A login that succeeds is that of a user whose row is in the table, has this email address, is
-- not deleted and is verified, and whose password hash fits; until its time is over the refresh
-- token stands for this user.
pub login_sound :
    {Store : Type 0}
    → (redis : Redis Store) (crypto : Crypto) (cfg : JwtConfig) → IsStore redis
    → (env : Env) (s s' : State Store) (email password id : Text) (pair : TokenPair) (later : ℕ)
    → login redis crypto cfg env s email password ≡ (s', ok (id, pair))
    → env.now ≤ later
    → (u : User) × In u s.users
      × (u.email ≡ email)
      × (u.deleted ≡ false)
      × (crypto.compare_hash u.password_hash password ≡ true)
      × (u.verified ≡ true)
      × (u.id ≡ id)
      × (redis.get s'.redis (refresh_key pair.refresh_token) later
          ≡ (if ltb later (env.now + cfg.refresh_token_ttl) then some id else none))
unfolding login
login_sound redis crypto cfg laws env s s' email password id pair later h le =
    let (u, found, fits, live, same, issued) =
      login-steps redis crypto cfg env s s' password id pair (get_user_by_email env s.users email)
        h in
    let own : text_eq pair.refresh_token pair.refresh_token ≡ true =
      (text_eq_iff pair.refresh_token pair.refresh_token).1 refl in
    let (member, mail, current) = get_user-live env s.users email u found in
    (
      u,
      member,
      mail,
      current,
      fits,
      live,
      same,
      rw (
        get-issued redis crypto cfg laws env s.redis u.id s' pair later pair.refresh_token issued
            le,
        own,
        same,
      ),
    )

module _ {Store : Type 0} (redis : Redis Store) (crypto : Crypto) (cfg : JwtConfig) where
  -- Tokens leave the one-time passwords alone.
  get-otp :
      IsStore redis
      → (env : Env) (r : Store) (user_id : Text) (s' : State Store) (pair : TokenPair) (later : ℕ)
        (email : Text)
      → IsIssued redis crypto cfg env r user_id s' pair
      → env.now ≤ later
      → redis.get s'.redis (otp_key email) later ≡ redis.get r (otp_key email) later
  unfolding IsIssued
  get-otp laws env r user_id s' pair later email issued le = rw (
    laws.get-set r s'.redis (refresh_key pair.refresh_token) user_id cfg.refresh_token_ttl env.now
        issued (otp_key email) later le,
    otp_refresh_keys pair.refresh_token email,
  )

  verify-steps :
      (env : Env) (s s' : State Store) (email id : Text) (pair : TokenPair) (r : Store)
      (o : Option User)
      → redis.del s.redis (otp_key email) env.now ≡ some r
      → verify_as redis crypto cfg env s email o ≡ (s', ok (id, pair))
      → IsIssued redis crypto cfg env r id s' pair
  verify-steps env s s' email id pair r none d h = absurd (bool_clash (ap (λ x. is_ok x.1) h))
  verify-steps env s s' email id pair r (some u) d h =
      elim (Option-cases (verify_user env s.users u.id)) [
        | inl e ↦ absurd (bool_clash (ap (λ x. is_ok x.1) (rw e at h)))
        | inr (users, e) ↦
            let s2 = record s { users = users; redis = r } in
            let (made, same) =
              with_user-ok redis crypto cfg s' u.id id pair
                (generate_tokens redis crypto cfg env s2 u.id) (rw (e, d) at h) in
            subst (λ i. IsIssued redis crypto cfg env r i s' pair) same
              (generate_tokens-IsIssued redis crypto cfg env s2 s' u.id pair made)
      ]

-- A one-time password serves once: after a verification that succeeds and whose deletion of the
-- password answers, every verification of this email address is refused until a new password is
-- stored.
pub verify_otp-once :
    {Store : Type 0}
    → (redis : Redis Store) (crypto : Crypto) (cfg : JwtConfig) → IsStore redis
    → (env later : Env) (s s' : State Store) (email otp id again : Text) (pair : TokenPair)
      (r : Store)
    → verify_otp redis crypto cfg env s email otp ≡ (s', ok (id, pair))
    → redis.del s.redis (otp_key email) env.now ≡ some r
    → env.now ≤ later.now
    → (verify_otp redis crypto cfg later s' email again).1 ≡ err invalid_otp
unfolding verify_otp
verify_otp-once redis crypto cfg laws env later s s' email otp id again pair r h d le =
    elim (Option-cases (redis.get s.redis (otp_key email) env.now)) [
      | inl e ↦ absurd (bool_clash (ap (λ x. is_ok x.1) (rw e at h)))
      | inr (v, e) ↦ elim (Bool-cases (text_eq v otp)) [
        | inl f ↦
            let issued =
              verify-steps redis crypto cfg env s s' email id pair r
                (get_user_by_email env s.users email) d (rw (e, f) at h) in
            let own : text_eq (otp_key email) (otp_key email) ≡ true =
              (text_eq_iff (otp_key email) (otp_key email)).1 refl in
            let gone =
              laws.get-del s.redis r (otp_key email) env.now d (otp_key email) later.now le in
            no_otp redis crypto cfg later s' email again (
              rw (
                get-otp redis crypto cfg laws env r id s' pair later.now email issued le,
                gone,
                own,
              ))
        | inr f ↦ absurd (bool_clash (ap (λ x. is_ok x.1) (rw (e, f) at h)))
      ]
    ]
