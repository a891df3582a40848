-- ===== src/Friends/Examples.antt =====
-- The friendship theorems at small tables.
use incord.Base.{
  In, inl, inr, ℕ, ◌≡◌, refl, true, false, some, none, [], ◌∷◌, ◌++◌, List, if◌then◌else◌, arith,
}
use incord.Friends.{
  Env, State, query_failed, create_query, err, user_blocked, cannot_friend_self,
  send_friend_request,
}
use incord.Friends.Rows.{Friendship, blocked, get_friendship, create_friendship, same_pair}
use incord.Friends.Spec.{strangers, blocked_by, bond, bond_after, send, accept, block, unblock}
use incord.Friends.Refines.{IsHealthy, perform, perform-Refines}
use incord.Friends.History.{
  Step, run, run_bond, run-bond, send-blocked, IsBetween, block_lifted, IsKnown,
}
use incord.Friends.Outcomes.{
  call_error, notifications, perform_error, block_not_atomic, events-perform,
}

abbrev calm : Env
calm = record { fails = λ q. false; has_user = λ u. true; nats = true; open_dm = λ a b. some 7 }

abbrev empty : State
empty = record { rows = []; events = [] }

-- The insertion fails and the deletion does not.
abbrev no_insert : Env
no_insert = record calm { fails = λ q. elim q [ create_query ↦ true | _ ↦ false ] }

abbrev row : ℕ → ℕ → Friendship
row a b = record { user_id = a; friend_id = b; status = blocked; deleted = false }

-- 2 has blocked 1.
abbrev one_block : State
one_block = record { rows = row 2 1 ∷ []; events = [] }

healthy : (a b : ℕ) → IsHealthy calm a b
healthy a b = record { answers = λ q. refl; has_user = refl; has_friend = refl }

empty-IsKnown : IsKnown empty
unfolding bond get_friendship
empty-IsKnown a b = ground arith

one_block-bond : bond one_block.rows 1 2 ≡ blocked_by 2
unfolding bond get_friendship same_pair
one_block-bond = refl

abbrev story : List Step
story =
    record { call = send; user = 1; friend = 2 }
    ∷ record { call = accept; user = 2; friend = 1 }
    ∷ record { call = block; user = 1; friend = 2 }
    ∷ []

perform-Refines_example : bond (perform calm block one_block 1 2).rows 2 1 ≡ (
    if same_pair 1 2 2 1
    then bond_after block 1 2 (bond one_block.rows 2 1)
    else bond one_block.rows 2 1)
perform-Refines_example =
    perform-Refines calm one_block 1 2 (healthy 1 2) block (omega arith)
      (λ e. ground (arith, one_block-bond)) 2 1

run-bond_example : bond (run calm empty story).rows 2 1 ≡ run_bond 2 1 (bond empty.rows 2 1) story
run-bond_example =
    run-bond calm empty story
      ((omega arith, healthy 1 2), ((omega arith, healthy 2 1), ((omega arith, healthy 1 2), tt)))
      empty-IsKnown 2 1

only_block :
    (q : Friendship)
    → In q one_block.rows
    → IsBetween 1 2 q
    → q.deleted ≡ false
    → q.status ≡ blocked
only_block q (inl e) pair current = rw (← e)
only_block q (inr i) pair current = absurd i

send-blocked_example : send_friend_request calm one_block 1 2 ≡ (one_block, err user_blocked)
send-blocked_example =
    send-blocked calm one_block 1 2 (row 2 1) refl (omega arith) (inl refl) (inr (refl, refl)) refl
      only_block

block_lifted_example :
    bond (perform calm unblock (perform calm block one_block 1 2) 1 2).rows 1 2 ≡ strangers
block_lifted_example = block_lifted calm one_block 1 2 (healthy 1 2) (omega arith) one_block-bond

block_not_atomic_example :
    (call_error no_insert block one_block 1 2 ≡ some query_failed)
    × (bond (perform no_insert block one_block 1 2).rows 1 2 ≡ strangers)
block_not_atomic_example = block_not_atomic no_insert one_block 1 2 (omega arith) refl refl

send_self_error : call_error calm send one_block 1 1 ≡ some cannot_friend_self
unfolding call_error send_friend_request
send_self_error = refl

perform_error_example : perform calm send one_block 1 1 ≡ one_block
perform_error_example =
    perform_error calm one_block 1 1 send cannot_friend_self (λ e. ground arith) send_self_error

send_ok : call_error calm send empty 1 2 ≡ none
unfolding call_error send_friend_request get_friendship create_friendship
send_ok = refl

events-perform_example :
    (perform calm send empty 1 2).events ≡ empty.events ++ notifications calm send 1 2
events-perform_example = events-perform calm empty 1 2 send send_ok
