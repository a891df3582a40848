-- ===== src/Auth/Handles.antt =====
-- The handles that are given out.
use mathlib.Core.List.{append_assoc}
use incord.Auth.{User}
use incord.Auth.Accounts.{
  Draw, Inserted, inserted, unique_violation, other_failure, clashes, create_user, attempts,
  create_user_with_username, new_user, max_handle_attempts,
}
use incord.Base.{
  Bool, true, false, ◌||◌, List, [], ◌∷◌, ◌++◌, Text, text_eq, any, take, if◌then◌else◌, ◌≡◌, refl,
  arith, Bool-cases, inl, inr, ℕ, ◌+◌, ◌/◌, ◌%◌, not, Option, none, some, first, ◌∙◌, ap,
}

-- The handle of a name for a drawn number: the name, a hash sign and the number plus one as four
-- decimal digits.
abbrev pub handle : Text → ℕ → Text
handle username n =
    username
    ++ b'#'
      ∷ (48 + (n + 1) / 1000 % 10)
      ∷ (48 + (n + 1) / 100 % 10)
      ∷ (48 + (n + 1) / 10 % 10)
      ∷ (48 + (n + 1) % 10)
      ∷ []

-- A user has the handle already, live or deleted.
abbrev pub is_taken : List User → Text → Draw → Bool
is_taken users username d = any (λ v. text_eq v.username (handle username d.number)) users

-- The first of the draws whose handle is free.
abbrev pub first_free : List User → Text → List Draw → Option Draw
first_free users username ds = first (λ d. not (is_taken users username d)) ds

-- The user with this handle, neither verified nor deleted, at the end of the table.
abbrev named : Text → Text → Text → Draw → Text → User
named username email hash d name = record {
  id = d.id;
  username = name;
  display_name = username;
  email = email;
  password_hash = hash;
  verified = false;
  deleted = false;
}

abbrev pub registered : List User → Text → Text → Text → Option Draw → Inserted
registered users username email hash none = unique_violation
registered users username email hash (some d) =
    let u = named username email hash d (handle username d.number) in inserted (users ++ u ∷ []) u

create_user-fails :
    (users : List User) (u : User) (b : Bool) → b ≡ true → create_user b users u ≡ other_failure
unfolding create_user
create_user-fails users u b f = rw f

create_user-clashes :
    (users : List User) (u : User) (b : Bool)
    → b ≡ false
    → any (clashes u) users ≡ true
    → create_user b users u ≡ unique_violation
unfolding create_user
create_user-clashes users u b f c = rw (f, c)

create_user-free :
    (users : List User) (u : User) (b : Bool)
    → b ≡ false
    → any (clashes u) users ≡ false
    → create_user b users u ≡ inserted (users ++ u ∷ []) u
unfolding create_user
create_user-free users u b f c = rw (f, c)

or_false : {b : Bool} → (b || false) ≡ b
or_false {b} = ground arith

new_user-handle :
    (username email hash : Text) (d : Draw)
    → (new_user username email hash d).username ≡ handle username d.number
new_user-handle username email hash d = simp append_assoc

-- With an email address that is free, an attempt clashes exactly where the handle is taken.
clashes-is_taken :
    (users : List User) (username email hash : Text) (d : Draw)
    → any (λ v. text_eq v.email email) users ≡ false
    → any (clashes (new_user username email hash d)) users ≡ is_taken users username d
unfolding any
clashes-is_taken [] username email hash d h = refl
clashes-is_taken (v ∷ users) username email hash d h =
    let same : text_eq v.username (new_user username email hash d).username
        ≡ text_eq v.username (handle username d.number) =
      ap (text_eq v.username) (new_user-handle username email hash d) in
    let rest : any (clashes (new_user username email hash d)) users ≡ is_taken users username d =
      clashes-is_taken users username email hash d (ground (arith, h)) in
    let free : text_eq v.email email ≡ false = ground (arith, h) in rw (same, free, rest, or_false)

first_attempts :
    (users : List User) (username email hash : Text) (ds : List Draw)
    → any (λ v. text_eq v.email email) users ≡ false
    → any (λ d. d.fails) ds ≡ false
    → attempts users username email hash ds
      ≡ registered users username email hash (first_free users username ds)
unfolding attempts any first
first_attempts users username email hash [] h n = refl
first_attempts users username email hash (d ∷ ds) h n =
    let u = new_user username email hash d in
    let up : d.fails ≡ false = ground (arith, n) in
    let rest = first_attempts users username email hash ds h (ground (arith, n)) in
    let same = clashes-is_taken users username email hash d h in
    elim (Bool-cases (is_taken users username d)) [
      | inl c ↦ rw (create_user-clashes users u d.fails up (same ∙ c), c, rest)
      | inr c ↦
          let one : u ≡ named username email hash d (handle username d.number) =
            ap (named username email hash d) (new_user-handle username email hash d) in
          rw (create_user-free users u d.fails up (same ∙ c), c, one)
    ]

-- With an email address that no user has, and where no insertion fails for another reason than a
-- unique column, the new user gets the first free handle of the first ten draws, at the end of the
-- table, and there is no new user where none of these is free. A handle is the name, a hash sign and
-- the drawn number plus one as four digits, and one that a deleted user has is not free.
pub create_user-first :
    (users : List User) (username email hash : Text) (draws : List Draw)
    → any (λ v. text_eq v.email email) users ≡ false
    → any (λ d. d.fails) (take 10 draws) ≡ false
    → create_user_with_username users username email hash draws
      ≡ registered users username email hash (first_free users username (take 10 draws))
unfolding create_user_with_username
create_user-first users username email hash draws h n =
    first_attempts users username email hash (take 10 draws) h n

taken_clashes :
    (users : List User) (username email hash : Text) (d : Draw)
    → any (λ v. text_eq v.email email) users ≡ true
    → any (clashes (new_user username email hash d)) users ≡ true
unfolding any
taken_clashes [] username email hash d h = h
taken_clashes (v ∷ users) username email hash d h =
    ground (arith, taken_clashes users username email hash d)

next :
    (b c : Bool)
    → b ≡ false
    → (if c then other_failure else unique_violation)
      ≡ (if b || c then other_failure else unique_violation)
next b c f = rw f

taken_attempts :
    (users : List User) (username email hash : Text) (ds : List Draw)
    → any (λ v. text_eq v.email email) users ≡ true
    → attempts users username email hash ds
      ≡ (if any (λ d. d.fails) ds then other_failure else unique_violation)
unfolding attempts any
taken_attempts users username email hash [] h = refl
taken_attempts users username email hash (d ∷ ds) h =
    let u = new_user username email hash d in
    let rest = taken_attempts users username email hash ds h in
    elim (Bool-cases d.fails) [
      | inl f ↦ rw (create_user-fails users u d.fails f, f)
      | inr f ↦
          rw
            (
              create_user-clashes users u d.fails f (taken_clashes users username email hash d h),
              rest,
            )
            (next d.fails (any (λ d. d.fails) ds) f)
    ]

-- With an email address that is taken, also by a deleted user, no user is created: the attempts go
-- on until one fails for another reason or the draws, ten at most, are spent, and then the error is
-- that of the handles.
pub create_user-taken :
    (users : List User) (username email hash : Text) (draws : List Draw)
    → any (λ v. text_eq v.email email) users ≡ true
    → create_user_with_username users username email hash draws ≡ (
        if any (λ d. d.fails) (take max_handle_attempts draws)
        then other_failure
        else unique_violation)
unfolding create_user_with_username
create_user-taken users username email hash draws h =
    taken_attempts users username email hash (take max_handle_attempts draws) h
