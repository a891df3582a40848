-- ===== src/Guilds/Rules.antt =====
-- Rules for the calls of internal/features/guild/service.go: what has to be shown of the outcomes of
-- the first statement, so that the outcome of the call as a whole has a property.
use incord.Authz.Pool.{Pool}
use incord.Authz.Writes
use incord.Guilds.{
  State, Env, Call, Query, GuildError, Event, EventKind, statement, lookup, permitted, authz_write,
  from_option, stated, settled, client, publish_guild_event, publish_role_event,
}
use incord.Guilds.Rows.{Tables}
use incord.Authz.Tables.{Role}
use incord.Base.{
  ℕ, Bool, true, false, Option, none, some, List, String, Text, ◌≡◌, refl, if◌then◌else◌, sym, ◌∙◌,
}
use incord.Base.Action.{
  Answer, ok, err, pure, ◌>>=◌, or_raise, ignore, attempt, raise_if, raise_unless,
}

abbrev pub Outcome : Type 0 → Type 0
Outcome A = State × Answer GuildError A

-- What follows a call that has been run.
abbrev pub resume : {A B : Type 0} → (A → Call B) → Outcome A → Outcome B
resume k (s, ok a) = k a s
resume k (s, err e) = (s, err e)

-- The outcome of the call on the state has the property.
pub record Shows {A : Type 0} (X : Outcome A → Type 0) (m : Call A) (s : State) : Type 0 where
  pub holds : X (m s)

module _ {A B : Type 0} {X : Outcome B → Type 0} {s : State} where
  pub call_then :
      (m : Call A) (k : A → Call B) → Shows (λ o. X (resume k o)) m s → Shows X (m >>= k) s
  unfolding ◌>>=◌
  call_then m k h = record { holds = split (m s) h.holds }
    where
      split : (o : Outcome A) → X (resume k o) → X (((λ s'. o) >>= k) s)
      split (t, ok a) r = r
      split (t, err e) r = r

abbrev pub with_tables : State → Tables → State
with_tables s t = record s { tables = t }

abbrev pub with_pool : State → Pool → State
with_pool s p = with_tables s (record s.tables { db = p.db })

module _ {A : Type 0} {X : Outcome A → Type 0} {s : State} where
  pub pure_lem : (a : A) → X (s, ok a) → Shows X (pure a) s
  pure_lem a h = record { holds = h }

  module _ (env : Env) (q : Query) where
    pub lookup_lem :
        (f : Tables → Option A)
        → X (s, err GuildError.failed)
        → ((a : A) → f s.tables ≡ some a → X (s, ok a))
        → Shows X (lookup env q f) s
    unfolding lookup
    lookup_lem f bad good = record { holds = split (env.fails q) (f s.tables) refl }
      where
        split :
            (b : Bool) (o : Option A)
            → f s.tables ≡ o
            → X (s, if b then err GuildError.failed else from_option o)
        split true o e = bad
        split false none e = bad
        split false (some a) e = good a e

    pub statement_lem :
        (f : Tables → Option (Tables × A))
        → X (s, err GuildError.failed)
        → ((t : Tables) (a : A) → f s.tables ≡ some (t, a) → X (with_tables s t, ok a))
        → Shows X (statement env q f) s
    unfolding statement
    statement_lem f bad good = record { holds = split (env.fails q) (f s.tables) refl }
      where
        split :
            (b : Bool) (o : Option (Tables × A))
            → f s.tables ≡ o
            → X (if b then (s, err GuildError.failed) else stated env s o)
        split true o e = bad
        split false none e = bad
        split false (some (t, a)) e = good t a e

    -- A query whose error is replaced.
    pub found_lem :
        (f : Tables → Option A) (e : GuildError)
        → X (s, err e)
        → ((a : A) → f s.tables ≡ some a → X (s, ok a))
        → Shows X (or_raise e (lookup env q f)) s
    unfolding or_raise lookup
    found_lem f e bad good = record { holds = split (env.fails q) (f s.tables) refl }
      where
        split :
            (b : Bool) (o : Option A)
            → f s.tables ≡ o
            → X (or_raise e (λ s'. (s', if b then err GuildError.failed else from_option o)) s)
        split true o d = bad
        split false none d = bad
        split false (some a) d = good a d

module _ {A : Type 0} {X : Outcome (Option A) → Type 0} {s : State} (env : Env) (q : Query) where
  -- A query whose error the caller takes for a row that is not there.
  pub attempt_lem :
      (f : Tables → Option A)
      → ((env.fails q ≡ false → f s.tables ≡ none) → X (s, ok none))
      → ((a : A) → f s.tables ≡ some a → X (s, ok (some a)))
      → Shows X (attempt (lookup env q f)) s
  unfolding attempt lookup
  attempt_lem f missing good = record { holds = split (env.fails q) refl (f s.tables) refl }
    where
      clash : true ≡ false → ⊥
      clash c = cc

      split :
          (b : Bool)
          → env.fails q ≡ b
          → (o : Option A) → f s.tables ≡ o
          → X (attempt (λ s'. (s', if b then err GuildError.failed else from_option o)) s)
      split true d o e = missing (λ c. absurd (clash (sym d ∙ c)))
      split false d none e = missing (λ _. e)
      split false d (some a) e = good a e

module _ {X : Outcome (Unit {0}) → Type 0} {s : State} where
  -- A call whose error is dropped.
  pub ignore_lem :
      {A : Type 0} → (m : Call A) → Shows (λ o. X (o.0, ok tt)) m s → Shows X (ignore m) s
  unfolding ignore
  ignore_lem m h = record { holds = h.holds }

  pub raise_if_lem :
      (b : Bool) (e : GuildError)
      → X (s, err e)
      → (b ≡ false → X (s, ok tt))
      → Shows X (raise_if b e) s
  unfolding raise_if
  raise_if_lem b e bad good = record {
    holds =
        elim b as (λ c. b ≡ c → X (s, if c then err e else ok tt)) [
          | true ↦ λ _. bad
          | false ↦ good
        ]
          refl;
  }

  pub raise_unless_lem :
      (b : Bool) (e : GuildError)
      → X (s, err e)
      → (b ≡ true → X (s, ok tt))
      → Shows X (raise_unless b e) s
  unfolding raise_unless
  raise_unless_lem b e bad good = record {
    holds =
        elim b as (λ c. b ≡ c → X (s, if c then ok tt else err e)) [
          | true ↦ good
          | false ↦ λ _. bad
        ]
          refl;
  }

  module _ (env : Env) where
    pub permitted_lem :
        (test : Option Pool → Bool)
        → X (s, err GuildError.insufficient_permissions)
        → (test (client env s) ≡ true → X (s, ok tt))
        → Shows X (permitted env test) s
    unfolding permitted
    permitted_lem test bad good = record { holds = split (test (client env s)) refl }
      where
        split :
            (b : Bool)
            → test (client env s) ≡ b
            → X (s, if b then ok tt else err GuildError.insufficient_permissions)
        split true e = good e
        split false e = bad

    pub authz_lem :
        (f : Option Pool → Writes.Result (Option Pool))
        → X (s, err GuildError.failed)
        → (f (client env s) ≡ Writes.Result.ok none → X (s, ok tt))
        → ((p : Pool) → f (client env s) ≡ Writes.Result.ok (some p) → X (with_pool s p, ok tt))
        → Shows X (authz_write env f) s
    unfolding authz_write
    authz_lem f bad without good = record { holds = split (f (client env s)) refl }
      where
        split : (r : Writes.Result (Option Pool)) → f (client env s) ≡ r → X (settled env s r)
        split (Writes.Result.ok none) e = without e
        split (Writes.Result.ok (some p)) e = good p e
        split (Writes.Result.err x) e = bad

    -- An event changes no table.
    pub publish_lem :
        (gid : ℕ) (kind : EventKind) (extra : List (String × Text))
        → ((es : List Event) → X (record s { events = es }, ok tt))
        → Shows X (publish_guild_event env gid kind extra) s
    unfolding publish_guild_event
    publish_lem gid kind extra h = record { holds = h _ }

    pub publish_role_lem :
        (gid : ℕ) (kind : EventKind) (r : Role) (extra : List (String × Text))
        → ((es : List Event) → X (record s { events = es }, ok tt))
        → Shows X (publish_role_event env gid kind r extra) s
    unfolding publish_role_event
    publish_role_lem gid kind r extra h = record { holds = h _ }

-- A statement that writes, with what its failure means.
pub statement_cases :
    {A : Type 0} {X : Outcome A → Type 0} {s : State}
    → (env : Env) (q : Query) (f : Tables → Option (Tables × A))
    → ((env.fails q ≡ false → f s.tables ≡ none) → X (s, err GuildError.failed))
    → ((t : Tables) (a : A) → f s.tables ≡ some (t, a) → X (with_tables s t, ok a))
    → Shows X (statement env q f) s
unfolding statement
statement_cases {A = A} {X = X} {s = s} env q f bad good = record {
  holds = split (env.fails q) refl (f s.tables) refl;
}
  where
    clash : true ≡ false → ⊥
    clash c = cc

    split :
        (b : Bool)
        → env.fails q ≡ b
        → (o : Option (Tables × A)) → f s.tables ≡ o
        → X (if b then (s, err GuildError.failed) else stated env s o)
    split true d o e = bad (λ c. absurd (clash (sym d ∙ c)))
    split false d none e = bad (λ _. e)
    split false d (some (t, a)) e = good t a e
