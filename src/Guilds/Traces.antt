-- ===== src/Guilds/Traces.antt =====
-- internal/features/guild/service.go: what the steps that the calls share keep. They change roles and
-- who holds them, so they keep what those changes keep.
use incord.Authz.Tables.{Db, Role}
use incord.Authz.Pool.{Pool}
use incord.Authz.Writes
use incord.Authz.Writes.{add_user_to_role, remove_user_from_role}
use incord.Authz.Untouched.{
  SameGuilds, LeavesGuilds, add_member-SameGuilds, remove_member-SameGuilds,
  add_user_to_role-LeavesGuilds, remove_user_from_role-LeavesGuilds,
}
use incord.Guilds.{State, Env, Query, lookup, Call, client, id_text, authz_write}
use incord.Guilds.Rows.{Tables}
use incord.Guilds.Rules.{
  Outcome, Shows, resume, call_then, pure_lem, statement_lem, attempt_lem, ignore_lem, authz_lem,
}
use incord.Guilds.Inversion.{some-case, on_db-case, with_db-case, create_role-SameGuilds}
use incord.Guilds.Membership.{
  assign_row, remove_row, ensure_everyone_role, remove_everyone_role, assign_everyone_role,
  insert_role, role_or_new, remove_found, assign_found,
}
use incord.Base.{ℕ, ◌≡◌, sym, ap, ◌∙◌, Bool, true, false, Option, none, some, if◌then◌else◌}
use incord.Base.Action.{ok, err, ◌>>=◌, attempt, ignore}

-- The property holds of the tables that the call leaves.
abbrev pub Stays : (Tables → Type 0) → {A : Type 0} → Outcome A → Type 0
Stays P o = P o.0.tables

-- The call returns no error, and the property holds of the tables.
abbrev pub Sure : (Tables → Type 0) → {A : Type 0} → Outcome A → Type 0
Sure P (s, ok a) = P s.tables
Sure P (s, err e) = ⊥

-- Changes of roles, of who holds them and of what they permit keep the property.
abbrev pub KeptByRoles : (Tables → Type 0) → Type 0
KeptByRoles P = (t : Tables) (db : Db) → SameGuilds t.db db → P t → P (record t { db = db })

pool_of : (env : Env) (s : State) (d : Pool) → client env s ≡ some d → s.tables.db ≡ d.db
pool_of env s d h = split env.has_authz h
  where
    db_or : Option Pool → Db
    db_or none = d.db
    db_or (some p) = p.db

    split :
        (b : Bool)
        → (if b then some (record { db = s.tables.db; fails = env.authz_fails }) else none) ≡ some d
        → s.tables.db ≡ d.db
    split true e = ap db_or e
    split false e = cc

pub sure_lem :
    {A : Type 0}
    → (P : Tables → Type 0) (X : Outcome A → Type 0) (m : Call A) (s : State) → Shows (Sure P) m s
    → ((a : A) (s' : State) → P s'.tables → X (s', ok a))
    → Shows X m s
sure_lem {A = A} P X m s first next = record { holds = split (m s) first.holds }
  where
    split : (o : Outcome A) → Sure P o → X o
    split (s', ok a) h = next a s' h
    split (s', err e) h = absurd h

module _ (env : Env) (P : Tables → Type 0) (kept : KeptByRoles P) where
  -- A write of the permission client.
  pub authz-Stays :
      (f : Option Pool → Writes.Result (Option Pool)) (s : State)
      → LeavesGuilds f
      → P s.tables
      → Shows (Stays P) (authz_write env f) s
  authz-Stays f s leaves h = authz_lem env f h (λ _. h) (λ p e. kept _ _ (same_db p e) h)
    where
      same_db :
          (p : Pool) → f (client env s) ≡ Writes.Result.ok (some p) → SameGuilds s.tables.db p.db
      same_db p e =
          let (d, c, same) = leaves (client env s) p e in
          let at : d.db ≡ s.tables.db = sym (pool_of env s d c) in
          (same.0 ∙ ap (λ db. db.guilds) at, same.1 ∙ ap (λ db. db.users) at)

  pub add_to_role-Stays :
      (user role : ℕ) (s : State)
      → P s.tables
      → Shows
          (Stays P)
          (authz_write env
            (λ c. add_user_to_role env.codec c (id_text env user) (id_text env role)))
          s
  add_to_role-Stays user role s =
      authz-Stays _ s
        (add_user_to_role-LeavesGuilds env.codec (id_text env role) (id_text env user))

  pub remove_from_role-Stays :
      (user role : ℕ) (s : State)
      → P s.tables
      → Shows
          (Stays P)
          (authz_write env
            (λ c. remove_user_from_role env.codec c (id_text env user) (id_text env role)))
          s
  remove_from_role-Stays user role s =
      authz-Stays _ s
        (remove_user_from_role-LeavesGuilds env.codec (id_text env role) (id_text env user))

  pub assign_row-Stays :
      (rid uid : ℕ) (s : State) → P s.tables → Shows (Stays P) (assign_row env rid uid) s
  assign_row-Stays rid uid s h = statement_lem env _ _ h (λ t a e.
      with_db-case (λ t' a'. P t') s.tables e
        (λ db d. kept _ _ (add_member-SameGuilds s.tables.db db rid uid d) h))

  pub remove_row-Stays :
      (rid uid : ℕ) (s : State) → P s.tables → Shows (Stays P) (remove_row env rid uid) s
  remove_row-Stays rid uid s h = statement_lem env _ _ h (λ t a e.
      some-case (λ t' a'. P t') e (kept _ _ (remove_member-SameGuilds s.tables.db rid uid) h))

  -- Two calls in a row.
  pub bind-Stays :
      {A B : Type 0}
      → (m : Call A) (k : A → Call B) (s : State) → Shows (Stays P) m s
      → ((a : A) (s' : State) → P s'.tables → Shows (Stays P) (k a) s')
      → Shows (Stays P) (m >>= k) s
  bind-Stays {A = A} m k s first next = call_then m k (record { holds = split (m s) first.holds })
    where
      split : (o : Outcome A) → Stays P o → Stays P (resume k o)
      split (s', ok a) h = (next a s' h).holds
      split (s', err e) h = h

  -- The call returns a value, and the property holds.
  pub Sure-then :
      {A B : Type 0}
      → (X : Outcome B → Type 0) (m : Call A) (k : A → Call B) (s : State) → Shows (Sure P) m s
      → ((a : A) (s' : State) → P s'.tables → Shows X (k a) s')
      → Shows X (m >>= k) s
  Sure-then X m k s first next =
      call_then m k (sure_lem P (λ o. X (resume k o)) m s first (λ a s' h. (next a s' h).holds))

  pub Sure-Stays :
      {A : Type 0} → (m : Call A) (s : State) → Shows (Sure P) m s → Shows (Stays P) m s
  Sure-Stays m s first = sure_lem P (Stays P) m s first (λ a s' h. h)

  pub ignore-Sure :
      {A : Type 0} → (m : Call A) (s : State) → Shows (Stays P) m s → Shows (Sure P) (ignore m) s
  ignore-Sure m s h = ignore_lem m (record { holds = h.holds })

  pub ignore-Stays :
      {A : Type 0} → (m : Call A) (s : State) → Shows (Stays P) m s → Shows (Stays P) (ignore m) s
  ignore-Stays m s h = ignore_lem m (record { holds = h.holds })

  attempt-Sure :
      {A : Type 0}
      → (q : Query) (f : Tables → Option A) (s : State) → P s.tables
      → Shows (Sure P) (attempt (lookup env q f)) s
  attempt-Sure q f s h = attempt_lem env q f (λ _. h) (λ a e. h)

  remove_found-Sure :
      (uid : ℕ) (found : Option Role) (s : State)
      → P s.tables
      → Shows (Sure P) (remove_found env uid found) s
  remove_found-Sure uid none s h = pure_lem tt h
  remove_found-Sure uid (some r) s h =
      Sure-then (Sure P) _ _ s (ignore-Sure _ s (remove_row-Stays r.id uid s h))
        λ a s' h'. ignore-Sure _ s' (remove_from_role-Stays uid r.id s' h')

  pub remove_everyone_role-Sure :
      (gid uid : ℕ) (s : State) → P s.tables → Shows (Sure P) (remove_everyone_role env gid uid) s
  unfolding remove_everyone_role
  remove_everyone_role-Sure gid uid s h =
      Sure-then (Sure P) _ _ s (attempt-Sure _ _ s h)
        λ found s' h'. remove_found-Sure uid found s' h'

  pub remove_everyone_role-Stays :
      (gid uid : ℕ) (s : State) → P s.tables → Shows (Stays P) (remove_everyone_role env gid uid) s
  remove_everyone_role-Stays gid uid s h = Sure-Stays _ s (remove_everyone_role-Sure gid uid s h)

  pub insert_role-Stays :
      (r : Role) (s : State) → P s.tables → Shows (Stays P) (insert_role env r) s
  insert_role-Stays r s h = statement_lem env _ _ h (λ t a e.
      on_db-case (λ t' a'. P t') s.tables e
        (λ db g d. kept _ _ (create_role-SameGuilds s.tables.db db r g d) h))

  role_or_new-Stays :
      (gid : ℕ) (found : Option Role) (s : State)
      → P s.tables
      → Shows (Stays P) (role_or_new env gid found) s
  role_or_new-Stays gid none s h = insert_role-Stays _ s h
  role_or_new-Stays gid (some r) s h = pure_lem r h

  pub ensure_everyone_role-Stays :
      (gid uid : ℕ) (s : State) → P s.tables → Shows (Stays P) (ensure_everyone_role env gid uid) s
  unfolding ensure_everyone_role
  ensure_everyone_role-Stays gid uid s h =
      Sure-then (Stays P) _ _ s (attempt-Sure _ _ s h) (λ found s₁ h₁.
        bind-Stays _ _ s₁ (role_or_new-Stays gid found s₁ h₁)
          (λ r s₂ h₂. ignore-Stays _ s₂ (assign_row-Stays r.id uid s₂ h₂)))

  assign_found-Sure :
      (gid uid : ℕ) (found : Option Role) (s : State)
      → P s.tables
      → Shows (Sure P) (assign_found env gid uid found) s
  assign_found-Sure gid uid none s h = ignore-Sure _ s (ensure_everyone_role-Stays gid uid s h)
  assign_found-Sure gid uid (some r) s h =
      Sure-then (Sure P) _ _ s (ignore-Sure _ s (assign_row-Stays r.id uid s h))
        λ a s' h'. ignore-Sure _ s' (add_to_role-Stays uid r.id s' h')

  pub assign_everyone_role-Sure :
      (gid uid : ℕ) (s : State) → P s.tables → Shows (Sure P) (assign_everyone_role env gid uid) s
  unfolding assign_everyone_role
  assign_everyone_role-Sure gid uid s h =
      Sure-then (Sure P) _ _ s (attempt-Sure _ _ s h)
        λ found s' h'. assign_found-Sure gid uid found s' h'

  pub assign_everyone_role-Stays :
      (gid uid : ℕ) (s : State) → P s.tables → Shows (Stays P) (assign_everyone_role env gid uid) s
  assign_everyone_role-Stays gid uid s h = Sure-Stays _ s (assign_everyone_role-Sure gid uid s h)
