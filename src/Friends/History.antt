-- ===== src/Friends/History.antt =====
-- Whole histories of calls, and what they make of a block.
use incord.Base.{
  In, some, true, Bool-cases, inl, inr, ◌⊎◌, first_sound, first_complete, ℕ, ◌≡◌, ◌≢◌, refl, false,
  List, [], ◌∷◌, All, if◌then◌else◌, arith, ap, ◌∙◌,
}
use incord.Friends.{Env, State, send_friend_request, get_query, err, user_blocked}
use incord.Friends.Rows.{Friendship, blocked, get_friendship, is_live, same_key, same_pair}
use incord.Friends.Lookup.{same_pair_self, same_key_eq}
use incord.Friends.Spec.{
  Bond, strangers, unknown, blocked_by, bond, bond_after, Call, send, accept, decline, cancel,
  remove, block, unblock,
}
use incord.Friends.Refines.{IsHealthy, perform, perform-Refines}

pub record Step : Type 0 where
  pub call : Call
  pub user : ℕ
  pub friend : ℕ

unfoldable pub run : Env → State → List Step → State
unfolding perform
run env s [] = s
run env s (c ∷ cs) = run env (perform env c.call s c.user c.friend) cs

-- The bond of one pair, followed through a history.
unfoldable pub run_bond : ℕ → ℕ → Bond → List Step → Bond
unfolding bond_after same_pair
run_bond a b x [] = x
run_bond a b x (c ∷ cs) =
    run_bond a b (if same_pair c.user c.friend a b then bond_after c.call c.user c.friend x else x)
      cs

-- A step between two different users of the database, with no query failing.
abbrev pub IsSound : Env → Step → Type 0
IsSound env c = (c.user ≢ c.friend) × IsHealthy env c.user c.friend

-- No row holds a status that the code does not write.
abbrev pub IsKnown : State → Type 0
IsKnown s = (a b : ℕ) → bond s.rows a b ≢ unknown

bond_after-known : (c : Call) (u f : ℕ) (x : Bond) → x ≢ unknown → bond_after c u f x ≢ unknown
unfolding bond_after
bond_after-known send u f x h e = ground arith
bond_after-known accept u f x h e = ground arith
bond_after-known decline u f x h e = ground arith
bond_after-known cancel u f x h e = ground arith
bond_after-known remove u f x h e = ground arith
bond_after-known block u f x h e = ground arith
bond_after-known unblock u f x h e = ground arith

-- A row of the two users, in either direction.
abbrev pub IsBetween : ℕ → ℕ → Friendship → Type 0
IsBetween a b f = ((f.user_id ≡ a) × (f.friend_id ≡ b)) ⊎ ((f.user_id ≡ b) × (f.friend_id ≡ a))

IsBetween-live :
    (a b : ℕ) (f : Friendship) → IsBetween a b f → f.deleted ≡ false → is_live a b f ≡ true
unfolding same_pair
IsBetween-live a b f h d = ground (arith, h, d)

live-IsBetween :
    (a b : ℕ) (f : Friendship) → is_live a b f ≡ true → IsBetween a b f × (f.deleted ≡ false)
unfolding same_pair
live-IsBetween a b f h = (pair (Bool-cases (same_key f.user_id f.friend_id a b)), ground arith)
  where
    pair :
        (same_key f.user_id f.friend_id a b ≡ true) ⊎ (same_key f.user_id f.friend_id a b ≡ false)
        → IsBetween a b f
    pair (inl e) = inl (same_key_eq f.user_id f.friend_id a b e)
    pair (inr e) = inr (same_key_eq f.user_id f.friend_id b a (ground arith))

module _ (env : Env) where
  pub perform-IsKnown :
      (s : State) (c : Step)
      → IsSound env c
      → IsKnown s
      → IsKnown (perform env c.call s c.user c.friend)
  perform-IsKnown s c ok known a b = ground (
    arith,
    perform-Refines env s c.user c.friend ok.1 c.call ok.0 (known c.user c.friend) a b,
    known a b,
    bond_after-known c.call c.user c.friend (bond s.rows a b),
  )

  -- After any history of calls, each by a user about another one, the bond of every two users is
  -- the one that the specification computes from the bond at the start, if no query fails and all
  -- the users are in the database.
  pub run-bond :
      (s : State) (cs : List Step)
      → All (IsSound env) cs
      → IsKnown s
      → (a b : ℕ) → bond (run env s cs).rows a b ≡ run_bond a b (bond s.rows a b) cs
  unfolding run run_bond
  run-bond s [] h known a b = refl
  run-bond s (c ∷ cs) h known a b =
      run-bond (perform env c.call s c.user c.friend) cs h.1 (perform-IsKnown s c h.0 known) a b
      ∙ ap (λ x. run_bond a b x cs)
          (perform-Refines env s c.user c.friend h.0.1 c.call h.0.0 (known c.user c.friend) a b)

  send-found :
      (s : State) (user friend : ℕ) (q : Friendship)
      → env.fails get_query ≡ false
      → user ≢ friend
      → get_friendship s.rows user friend ≡ some q
      → q.status ≡ blocked
      → send_friend_request env s user friend ≡ (s, err user_blocked)
  unfolding send_friend_request
  send-found s user friend q up ne found b = ground (arith, found, b)

  -- A request between two users is refused, and changes nothing, where the lookup answers, the
  -- table has a row of the two, in either direction, that is not deleted and is a block, and every
  -- row of the two that is not deleted is one.
  pub send-blocked :
      (s : State) (user friend : ℕ) (r : Friendship)
      → env.fails get_query ≡ false
      → user ≢ friend
      → In r s.rows
      → IsBetween user friend r
      → r.deleted ≡ false
      → ((q : Friendship)
          → In q s.rows
          → IsBetween user friend q
          → q.deleted ≡ false
          → q.status ≡ blocked)
      → send_friend_request env s user friend ≡ (s, err user_blocked)
  unfolding get_friendship
  send-blocked s user friend r up ne member pair current all =
      let (q, found) =
        first_complete (is_live user friend) s.rows r member
          (IsBetween-live user friend r pair current) in
      let (there, live) = first_sound (is_live user friend) s.rows q found in
      let (other, kept) = live-IsBetween user friend q live in
      send-found s user friend q up ne found (all q there other kept)

  -- A block can be lifted by the user whom it is against: if `other` has blocked `user`, and `user`
  -- blocks and unblocks `other`, the two are strangers.
  pub block_lifted :
      (s : State) (user friend : ℕ)
      → IsHealthy env user friend
      → user ≢ friend
      → bond s.rows user friend ≡ blocked_by friend
      → bond (perform env unblock (perform env block s user friend) user friend).rows user friend
        ≡ strangers
  unfolding bond_after
  block_lifted s user friend healthy ne h = ground (
    arith,
    h,
    same_pair_self user friend,
    perform-Refines env s user friend healthy block ne (λ e. ground arith) user friend,
    perform-Refines env (perform env block s user friend) user friend healthy unblock ne
        (λ e. ground (
          arith,
          h,
          same_pair_self user friend,
          perform-Refines env s user friend healthy block ne (λ e'. ground arith) user friend,
        ))
        user friend,
  )
