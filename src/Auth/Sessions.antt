-- ===== src/Auth/Sessions.antt =====
-- Refresh tokens and one-time passwords over time: what a login, a rotation, a logout and a
-- verification leave valid.
use incord.Auth.Store.{Redis, IsStore, Crypto}
use incord.Auth.{
  Result, ok, err, invalid_token, TokenPair, JwtConfig, State, Env, refresh_key, otp_key,
  generate_tokens, stored, refresh_token, logout,
}
use incord.Base.{
  ℕ, ◌≡◌, ◌≤◌, ◌+◌, refl, sym, ap, Bool, true, false, Option, none, some, Text, text_eq,
  text_eq_iff, ltb, if◌then◌else◌, Option-cases, inl, inr,
}

-- Keys of one prefix differ as their ends do, and the two prefixes never meet.
refresh_keys : (a b : Text) → text_eq (refresh_key a) (refresh_key b) ≡ text_eq a b
unfolding text_eq
refresh_keys a b = refl

refresh_otp_keys : (a b : Text) → text_eq (refresh_key a) (otp_key b) ≡ false
unfolding text_eq
refresh_otp_keys a b = refl

abbrev refresh_of : Text → Result TokenPair → Text
refresh_of d (ok pair) = pair.refresh_token
refresh_of d (err e) = d

abbrev pub is_ok : {A : Type 0} → Result A → Bool
is_ok (ok a) = true
is_ok (err e) = false

pub bool_clash : false ≡ true → ⊥
bool_clash h = cc

module _ {Store : Type 0} (redis : Redis Store) (crypto : Crypto) (cfg : JwtConfig) where
  -- The tokens were issued by a SET of the refresh token that answered.
  unfoldable pub IsIssued : Env → Store → Text → State Store → TokenPair → Type 0
  IsIssued env r user_id s' pair =
      redis.set r (refresh_key pair.refresh_token) user_id cfg.refresh_token_ttl env.now
      ≡ some s'.redis

  stored-IsIssued :
      (env : Env) (s s' : State Store) (user_id access refresh : Text) (pair : TokenPair)
      (o : Option Store)
      → redis.set s.redis (refresh_key refresh) user_id cfg.refresh_token_ttl env.now ≡ o
      → stored redis crypto cfg s access refresh o ≡ (s', ok pair)
      → IsIssued env s.redis user_id s' pair
  unfolding IsIssued
  stored-IsIssued env s s' user_id access refresh pair none e h =
      let no : false ≡ true = ap (λ x. is_ok x.1) h in cc
  stored-IsIssued env s s' user_id access refresh pair (some r) e h =
      let token : refresh ≡ pair.refresh_token = ap (λ x. refresh_of refresh x.1) h in
      let store : r ≡ s'.redis = ap (λ x. x.0.redis) h in rw (sym token, e, store)

  pub generate_tokens-IsIssued :
      (env : Env) (s s' : State Store) (user_id : Text) (pair : TokenPair)
      → generate_tokens redis crypto cfg env s user_id ≡ (s', ok pair)
      → IsIssued env s.redis user_id s' pair
  unfolding generate_tokens
  generate_tokens-IsIssued env s s' user_id pair h =
      elim (Option-cases (crypto.sign user_id env.now cfg.access_token_ttl)) [
        | inl e ↦ let no : false ≡ true = ap (λ x. is_ok x.1) (rw e at h) in cc
        | inr (access, e) ↦ elim (Option-cases env.random_token) [
          | inl f ↦ let no : false ≡ true = ap (λ x. is_ok x.1) (rw (e, f) at h) in cc
          | inr (refresh, f) ↦
              stored-IsIssued env s s' user_id access refresh pair
                (redis.set s.redis (refresh_key refresh) user_id cfg.refresh_token_ttl env.now) refl
                (rw (e, f) at h)
        ]
      ]

  -- What a rotation that succeeds has read, deleted and written.
  refresh_token-steps :
      (env : Env) (s s' : State Store) (token : Text) (pair : TokenPair)
      → refresh_token redis crypto cfg env s token ≡ (s', ok pair)
      → (user_id : Text) × (r : Store) × (redis.get s.redis (refresh_key token) env.now
          ≡ some user_id)
        × (redis.del s.redis (refresh_key token) env.now ≡ some r)
        × IsIssued env r user_id s' pair
  unfolding refresh_token
  refresh_token-steps env s s' token pair h =
      elim (Option-cases (redis.get s.redis (refresh_key token) env.now)) [
        | inl e ↦ let no : false ≡ true = ap (λ x. is_ok x.1) (rw e at h) in absurd (bool_clash no)
        | inr (user_id, e) ↦ elim (Option-cases (redis.del s.redis (refresh_key token) env.now)) [
          | inl f ↦
              let no : false ≡ true = ap (λ x. is_ok x.1) (rw (e, f) at h) in absurd (bool_clash no)
          | inr (r, f) ↦ (
            user_id,
            r,
            e,
            f,
            generate_tokens-IsIssued env (record s { redis = r }) s' user_id pair (rw (e, f) at h),
          )
        ]
      ]

  -- A refresh token without a value is refused.
  no-token :
      (env : Env) (s : State Store) (token : Text)
      → redis.get s.redis (refresh_key token) env.now ≡ none
      → (refresh_token redis crypto cfg env s token).1 ≡ err invalid_token
  unfolding refresh_token
  no-token env s token e = rw e

  -- The user of a token after a SET of one token.
  pub get-issued :
      IsStore redis
      → (env : Env) (r : Store) (user_id : Text) (s' : State Store) (pair : TokenPair) (later : ℕ)
        (token : Text)
      → IsIssued env r user_id s' pair
      → env.now ≤ later
      → redis.get s'.redis (refresh_key token) later ≡ (
          if text_eq pair.refresh_token token
          then (if ltb later (env.now + cfg.refresh_token_ttl) then some user_id else none)
          else redis.get r (refresh_key token) later)
  unfolding IsIssued
  get-issued laws env r user_id s' pair later token issued le =
      rw (sym (refresh_keys pair.refresh_token token)) (
        laws.get-set r s'.redis (refresh_key pair.refresh_token) user_id cfg.refresh_token_ttl
          env.now issued (refresh_key token) later le)

-- A rotation that succeeds with another token than the old one moves the session: until its time is
-- over the new refresh token stands for the user of the old one, and the old one is refused for
-- ever after.
pub refresh_token-rotates :
    {Store : Type 0}
    → (redis : Redis Store) (crypto : Crypto) (cfg : JwtConfig) → IsStore redis
    → (env later : Env) (s s' : State Store) (token : Text) (pair : TokenPair)
    → refresh_token redis crypto cfg env s token ≡ (s', ok pair)
    → env.now ≤ later.now
    → text_eq pair.refresh_token token ≡ false
    → (redis.get s'.redis (refresh_key pair.refresh_token) later.now ≡ (
        if ltb later.now (env.now + cfg.refresh_token_ttl)
        then redis.get s.redis (refresh_key token) env.now
        else none))
      × ((refresh_token redis crypto cfg later s' token).1 ≡ err invalid_token)
refresh_token-rotates redis crypto cfg laws env later s s' token pair h le differ =
    let (user_id, r, got, deleted, issued) =
      refresh_token-steps redis crypto cfg env s s' token pair h in
    let same : text_eq pair.refresh_token pair.refresh_token ≡ true =
      (text_eq_iff pair.refresh_token pair.refresh_token).1 refl in
    let same_key : text_eq (refresh_key token) (refresh_key token) ≡ true =
      (text_eq_iff (refresh_key token) (refresh_key token)).1 refl in
    let new =
      get-issued redis crypto cfg laws env r user_id s' pair later.now pair.refresh_token issued
        le in
    let old = get-issued redis crypto cfg laws env r user_id s' pair later.now token issued le in
    let gone =
      laws.get-del s.redis r (refresh_key token) env.now deleted (refresh_key token) later.now le in
    (
      rw (new, same, got),
      no-token redis crypto cfg later s' token (rw (old, differ, gone, same_key)),
    )

-- A refresh token that was logged out without error is refused for ever after.
pub logout-refused :
    {Store : Type 0}
    → (redis : Redis Store) (crypto : Crypto) (cfg : JwtConfig) → IsStore redis
    → (env later : Env) (s s' : State Store) (token : Text)
    → logout redis crypto cfg env s token ≡ (s', ok tt)
    → env.now ≤ later.now
    → (refresh_token redis crypto cfg later s' token).1 ≡ err invalid_token
unfolding logout
logout-refused redis crypto cfg laws env later s s' token h le =
    elim (Option-cases (redis.del s.redis (refresh_key token) env.now)) [
      | inl e ↦ let no : false ≡ true = ap (λ x. is_ok x.1) (rw e at h) in absurd (bool_clash no)
      | inr (r, e) ↦
          let store : r ≡ s'.redis = ap (λ x. x.0.redis) (rw e at h) in
          let same_key : text_eq (refresh_key token) (refresh_key token) ≡ true =
            (text_eq_iff (refresh_key token) (refresh_key token)).1 refl in
          let gone =
            laws.get-del s.redis r (refresh_key token) env.now e (refresh_key token) later.now le in
          no-token redis crypto cfg later s' token (rw (sym store, gone, same_key))
    ]
