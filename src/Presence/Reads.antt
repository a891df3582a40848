-- ===== src/Presence/Reads.antt =====
-- What the reads of a presence give after the writes.
use incord.Presence.{
  Time, Timestamp, Presence, State, Env, presence_key, presence_fields, status_to_string,
  string_to_status, parse_int, int64_bound, parse_presence, publish_presence, update_presence,
  get_presence, get_bulk_presence, bulk_presences, offline,
}
use incord.Presence.Store.{Hashes, IsHashes, field}
use incord.Base.{
  ℕ, ◌≡◌, ◌≤◌, refl, sym, ap, ◌∙◌, Bool, true, false, Option, none, some, List, [], ◌∷◌, map, Text,
  codes, text_eq, if◌then◌else◌, arith, Option-cases, inl, inr,
}
use incord.Base.Int.{ℤ, pos}

known-status : (n : ℕ) → 1 ≤ n → n ≤ 4 → string_to_status (status_to_string (pos n)) ≡ some (pos n)
unfolding string_to_status status_to_string text_eq
known-status n a b = ground arith

abbrev is_some : Option Presence → Bool
is_some none = false
is_some (some p) = true

abbrev presence_or : Presence → Option Presence → Presence
presence_or d none = d
presence_or d (some p) = p

-- The time cut down to its second.
abbrev pub second : Time → Timestamp
second t = record { seconds = pos t.seconds; nanos = 0 }

clash : false ≡ true → ⊥
clash h = cc

module _ {Store : Type 0} (hashes : Hashes Store) where
  publish-redis :
      (env : Env) (s : State Store) (u : Text) (st : ℤ) (cs : Text)
      → (publish_presence hashes env s u st cs).redis ≡ s.redis
  unfolding publish_presence
  publish-redis env s u st cs = ground arith

  written :
      (now : Time) (st : ℤ) (cs : Text)
      → (field (codes "status") (presence_fields hashes now st cs) ≡ some (status_to_string st))
        × (field (codes "custom_status") (presence_fields hashes now st cs) ≡ some cs)
        × (field (codes "last_seen") (presence_fields hashes now st cs)
            ≡ some (hashes.format_int now.seconds))
  unfolding field text_eq
  written now st cs = (refl, refl, refl)

  -- The fields that a write has left are read back.
  fields-presence :
      (u : Text) (now : Time) (st : ℤ) (cs : Text) (vals : List (Text × Text))
      → ((f x : Text) → field f (presence_fields hashes now st cs) ≡ some x → field f vals ≡ some x)
      → string_to_status (status_to_string st) ≡ some st
      → parse_int int64_bound (hashes.format_int now.seconds) ≡ some (pos now.seconds)
      → parse_presence u vals
        ≡ record { user_id = u; status = st; custom_status = cs; last_seen = some (second now) }
  unfolding parse_presence
  fields-presence u now st cs vals keeps known seen =
      let (a, b, c) = written now st cs in
      rw (
        keeps (codes "status") (status_to_string st) a,
        keeps (codes "custom_status") cs b,
        keeps (codes "last_seen") (hashes.format_int now.seconds) c,
        known,
        seen,
      )

  -- The store after an update that answers, and what the update returns.
  update-steps :
      (env : Env) (s s' : State Store) (u : Text) (st : ℤ) (cs : Text) (p : Presence)
      → update_presence hashes env s u st cs ≡ (s', some p)
      → (hashes.hset s.redis (presence_key u) (presence_fields hashes env.now st cs)
          ≡ some s'.redis)
        × (record {
          user_id = u;
          status = st;
          custom_status = cs;
          last_seen = some (record { seconds = pos env.now.seconds; nanos = env.now.nanos });
        }
            ≡ p)
  unfolding update_presence
  update-steps env s s' u st cs p h =
      elim (Option-cases
        (hashes.hset s.redis (presence_key u) (presence_fields hashes env.now st cs))) [
          | inl e ↦ let no : false ≡ true = ap (λ x. is_some x.1) (rw e at h) in absurd (clash no)
          | inr (r, e) ↦
              let store : r ≡ s'.redis =
                sym (publish-redis env (record s { redis = r }) u st cs)
                ∙ ap (λ x. x.0.redis) (rw e at h) in
              (rw (e, store), ap (λ x. presence_or p x.1) (rw e at h))
        ]

abbrev pub or_offline : Text → Option Presence → Presence
or_offline u none = offline u
or_offline u (some p) = p

bulks :
    {Store : Type 0}
    → (hashes : Hashes Store) (s : State Store) (us : List Text)
    → bulk_presences hashes s us ≡ map (λ u. or_offline u (get_presence hashes s u)) us
unfolding bulk_presences get_presence
bulks hashes s [] = refl
bulks hashes s (u ∷ us) = elim (Option-cases (hashes.hgetall s.redis (presence_key u))) [
  | inl e ↦ rw (e, bulks hashes s us)
  | inr (vals, e) ↦ rw (e, bulks hashes s us)
]

-- Bulk reads give what single reads give, with offline for a user whose read fails.
pub bulk-map :
    {Store : Type 0}
    → (hashes : Hashes Store) (answers : Bool) (s : State Store) (us : List Text)
    → get_bulk_presence hashes answers s us
      ≡ (if answers then some (map (λ u. or_offline u (get_presence hashes s u)) us) else none)
unfolding get_bulk_presence
bulk-map hashes answers s us = rw (bulks hashes s us)

-- After a user has set one of the four statuses without error, and provided that the text of the
-- seconds reads back as their number, UpdatePresence has returned the full time of the call and
-- GetPresence returns the same presence with that time cut down to its second; and no other user's
-- presence has changed.
pub update-get :
    {Store : Type 0}
    → (hashes : Hashes Store) → IsHashes hashes
    → (env : Env) (s s' : State Store) (u v : Text) (n : ℕ) (cs : Text) (p : Presence) → 1 ≤ n
    → n ≤ 4
    → parse_int int64_bound (hashes.format_int env.now.seconds) ≡ some (pos env.now.seconds)
    → text_eq (presence_key u) (presence_key v) ≡ false
    → update_presence hashes env s u (pos n) cs ≡ (s', some p)
    → (p.last_seen ≡ some (record { seconds = pos env.now.seconds; nanos = env.now.nanos }))
      × (get_presence hashes s' u ≡ some (record p { last_seen = some (second env.now) }))
      × (get_presence hashes s' v ≡ get_presence hashes s v)
unfolding get_presence
update-get hashes laws env s s' u v n cs p low high seen differ h =
    let (set, result) = update-steps hashes env s s' u (pos n) cs p h in
    let fs = presence_fields hashes env.now (pos n) cs in
    let (w, vals, all, keeps) = laws.hgetall-hset s.redis s'.redis (presence_key u) fs set in
    let other =
      laws.hgetall-other s.redis s'.redis (presence_key u) (presence_key v) fs set differ in
    let read =
      fields-presence hashes u env.now (pos n) cs (w ∷ vals) keeps (known-status n low high) seen in
    let stamp = ap (λ q. q.last_seen) (sym result) in (stamp, rw (all, read, ← result), rw other)
