-- ===== src/Guilds/Uses.antt =====
-- internal/features/guild/service.go: the recorded uses of an invite stay within its maximum.
use mathlib.Core.Path.{subst}
use incord.Authz.Tables.{Db}
use incord.Guilds.{Env, State}
use incord.Guilds.Rows.{Tables, Invite, has_code, create_invite_row, get_invite, increment_uses}
use incord.Guilds.Invites.{is_used_up}
use incord.Guilds.Changes.{
  Change, Changes-keeps, roles, rename, transfer, close, found, found_empty, leave, ban, unban,
  invite, join, use_invite, log_use,
}
use incord.Guilds.Requests.{Step, handle, serve}
use incord.Guilds.Implements.{Lifts, handle-Changes}
use incord.Authz.Exec.{if-some}
use incord.Base.{
  ℕ, ◌≡◌, refl, sym, ◌∙◌, Bool, true, false, ◌||◌, ◌&&◌, not, Option, none, some, List, [], ◌∷◌,
  ◌++◌, first, update, Text, text_eq, text_eq_iff, leb, arith, ◌==◌, if◌then◌else◌, Bool-cases, inl,
  inr,
}

-- A maximum of 0 sets no bound.
abbrev pub is_within : Invite → Bool
is_within i = (i.max_uses == 0) || leb i.uses i.max_uses

-- The live invite of the code, if there is one, is within its maximum.
unfoldable within : List Invite → Text → Bool
within [] code = true
within (i ∷ is) code = if has_code code i && not i.deleted then is_within i else within is code

within-first :
    (is : List Invite) (code : Text) (i : Invite)
    → first (λ o. has_code code o && not o.deleted) is ≡ some i
    → (within is code ≡ is_within i) × (has_code code i ≡ true)
unfolding within first
within-first [] code i h = cc
within-first (o ∷ is) code i h = elim (Bool-cases (has_code code o && not o.deleted)) [
  | inl e ↦
      let d : some o ≡ some i = rw e at h in
      let q : o ≡ i = cc in (rw (e, q), subst (λ x. has_code code x ≡ true) q (ground (arith, e)))
  | inr e ↦ let r = within-first is code i (rw e at h) in (rw (e, r.0), r.1)
]

within-append :
    (is : List Invite) (i : Invite) (code : Text)
    → i.uses ≡ 0
    → within is code ≡ true
    → within (is ++ i ∷ []) code ≡ true
unfolding within
within-append [] i code e h = ground (arith, e)
within-append (o ∷ is) i code e h = ground (arith, h, within-append is i code e)

apart : (x c code : Text) → text_eq c code ≡ false → text_eq x c ≡ true → text_eq x code ≡ false
apart x c code ne h = elim (Bool-cases (text_eq x code)) [
  | inl e ↦
      let p : x ≡ c = (text_eq_iff x c).0 h in
      absurd (clash (sym ne ∙ subst (λ y. text_eq y code ≡ true) p e))
  | inr e ↦ e
]
  where
    clash : false ≡ true → ⊥
    clash q = cc

-- One more use of the code, while the live invite is not used up.
within-other :
    (is : List Invite) (c code : Text)
    → text_eq c code ≡ false
    → within (increment_uses is c) code ≡ within is code
unfolding within increment_uses update
within-other [] c code ne = refl
within-other (o ∷ is) c code ne = ground (arith, within-other is c code ne, apart o.code c code ne)

within_self :
    (is : List Invite) (code : Text) (i : Invite)
    → first (λ o. has_code code o && not o.deleted) is ≡ some i
    → is_used_up i ≡ false
    → within (increment_uses is code) code ≡ true
unfolding within first increment_uses update
within_self [] code i h free = cc
within_self (o ∷ is) code i h free = elim (Bool-cases (has_code code o && not o.deleted)) [
  | inl e ↦
      let d : some o ≡ some i = rw e at h in
      let q : o ≡ i = cc in ground (arith, e, subst (λ x. is_used_up x ≡ false) (sym q) free)
  | inr e ↦ ground (arith, e, within_self is code i (rw e at h) free)
]

-- Every live invite is within its maximum.
abbrev IsWithin : Tables → Type 0
IsWithin t = (code : Text) → within t.invites code ≡ true

use-within :
    (is : List Invite) (given code : Text) (i : Invite)
    → get_invite is given ≡ some i
    → is_used_up i ≡ false
    → within is code ≡ true
    → within (increment_uses is i.code) code ≡ true
unfolding get_invite
use-within is given code i h free w =
    let same : i.code ≡ given = (text_eq_iff i.code given).0 (within-first is given i h).1 in
    subst (λ c. within (increment_uses is c) code ≡ true) (sym same)
      (elim (Bool-cases (text_eq given code)) [
        | inl e ↦
            let q : given ≡ code = (text_eq_iff given code).0 e in
            subst (λ c. within (increment_uses is given) c ≡ true) q (within_self is given i h free)
        | inr e ↦ within-other is given code e ∙ w
      ])

create-within :
    (db : Db) (is is' : List Invite) (i : Invite) (code : Text)
    → create_invite_row db is i ≡ some is'
    → i.uses ≡ 0
    → within is code ≡ true
    → within is' code ≡ true
unfolding create_invite_row
create-within db is is' i code h fresh w =
    subst (λ xs. within xs code ≡ true) (if-some _ (is ++ i ∷ []) is' h)
      (within-append is i code fresh w)

Change-IsWithin :
    (env : Env) (Lifted : ℕ → ℕ → Type 0) (t t' : Tables)
    → Change env Lifted t t'
    → IsWithin t
    → IsWithin t'
Change-IsWithin env Lifted t t' (roles s) w = w
Change-IsWithin env Lifted t t' (rename g p x e) w = w
Change-IsWithin env Lifted t t' (transfer g owner m x e d) w = w
Change-IsWithin env Lifted t t' (close g) w = w
Change-IsWithin env Lifted t t' (found x x' m d row e) w = w
Change-IsWithin env Lifted t t' (found_empty x x' d e) w = w
Change-IsWithin env Lifted t t' (leave g u guest) w = w
Change-IsWithin env Lifted t t' (ban b guest e) w = w
Change-IsWithin env Lifted t t' (unban g u lifted) w = w
Change-IsWithin env Lifted t t' (invite i fresh e) w =
    λ code. create-within t.db t.invites _ i code e fresh (w code)
Change-IsWithin env Lifted t t' (join code i u m usable free row e) w = w
Change-IsWithin env Lifted t t' (use_invite given i (there, live, free)) w =
    λ code. use-within t.invites given code i there free (w code)
Change-IsWithin env Lifted t t' log_use w = w

serve-IsWithin :
    (steps : List Step) (s : State) → IsWithin s.tables → IsWithin (serve steps s).tables
unfolding serve
serve-IsWithin [] s w = w
serve-IsWithin ((env, r) ∷ rest) s w =
    serve-IsWithin rest (handle env r s) (
      Changes-keeps IsWithin (λ t t'. Change-IsWithin env (Lifts r) t t') (handle-Changes env r s)
        w)

-- Every live invite with a maximum has been used at most that often.
abbrev pub IsBounded : Tables → Type 0
IsBounded t = (code : Text) (i : Invite) → get_invite t.invites code ≡ some i → is_within i ≡ true

within-none :
    (is : List Invite) (code : Text)
    → first (λ o. has_code code o && not o.deleted) is ≡ none
    → within is code ≡ true
unfolding within first
within-none [] code h = refl
within-none (o ∷ is) code h = elim (Bool-cases (has_code code o && not o.deleted)) [
  | inl e ↦ cc (rw e at h)
  | inr e ↦ rw (e, within-none is code (rw e at h))
]

IsBounded-IsWithin : (t : Tables) → IsBounded t → IsWithin t
unfolding get_invite
IsBounded-IsWithin t b code = split (first (λ o. has_code code o && not o.deleted) t.invites) refl
  where
    split :
        (o : Option Invite)
        → first (λ o. has_code code o && not o.deleted) t.invites ≡ o
        → within t.invites code ≡ true
    split none e = within-none t.invites code e
    split (some i) e = (within-first t.invites code i e).0 ∙ b code i e

-- Whatever is called and whatever fails, the number of uses that the row of a live invite with a
-- maximum holds is at most the maximum, if this is so of every invite at the start. A join whose
-- increment fails is not in this number.
pub uses_bounded :
    (steps : List Step) (s : State) (code : Text) (i : Invite)
    → IsBounded s.tables
    → get_invite (serve steps s).tables.invites code ≡ some i
    → is_within i ≡ true
unfolding get_invite
uses_bounded steps s code i b h =
    sym (within-first (serve steps s).tables.invites code i h).0
    ∙ serve-IsWithin steps s (IsBounded-IsWithin s.tables b) code
