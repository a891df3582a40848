-- ===== src/Guilds/Chains.antt =====
-- Rules for the calls of internal/features/guild/service.go whose first statement is one of those of
-- Guilds/Rules.
use incord.Authz.Pool.{Pool}
use incord.Guilds.{State, Env, Call, Query, GuildError, statement, lookup, permitted, client}
use incord.Guilds.Rows.{Tables}
use incord.Base.{Bool, true, false, Option, none, some, ◌≡◌}
use incord.Base.Action.{err, ◌>>=◌, or_raise, attempt, raise_if, raise_unless}
use incord.Guilds.Rules.{
  Outcome, Shows, with_tables, call_then, lookup_lem, found_lem, statement_lem, attempt_lem,
  raise_if_lem, raise_unless_lem, permitted_lem,
}

module _ {A B : Type 0} {X : Outcome B → Type 0} {s : State} (env : Env) (q : Query) where
  pub lookup_then :
      (f : Tables → Option A) (k : A → Call B)
      → X (s, err GuildError.failed)
      → ((a : A) → f s.tables ≡ some a → Shows X (k a) s)
      → Shows X (lookup env q f >>= k) s
  lookup_then f k bad good =
      call_then (lookup env q f) k (lookup_lem env q f bad (λ a e. (good a e).holds))

  pub found_then :
      (f : Tables → Option A) (e : GuildError) (k : A → Call B)
      → X (s, err e)
      → ((a : A) → f s.tables ≡ some a → Shows X (k a) s)
      → Shows X (or_raise e (lookup env q f) >>= k) s
  found_then f e k bad good =
      call_then (or_raise e (lookup env q f)) k (found_lem env q f e bad (λ a d. (good a d).holds))

  pub statement_then :
      (f : Tables → Option (Tables × A)) (k : A → Call B)
      → X (s, err GuildError.failed)
      → ((t : Tables) (a : A) → f s.tables ≡ some (t, a) → Shows X (k a) (with_tables s t))
      → Shows X (statement env q f >>= k) s
  statement_then f k bad good =
      call_then (statement env q f) k (statement_lem env q f bad (λ t a e. (good t a e).holds))

  pub attempt_then :
      (f : Tables → Option A) (k : Option A → Call B)
      → ((env.fails q ≡ false → f s.tables ≡ none) → Shows X (k none) s)
      → ((a : A) → f s.tables ≡ some a → Shows X (k (some a)) s)
      → Shows X (attempt (lookup env q f) >>= k) s
  attempt_then f k missing good =
      call_then (attempt (lookup env q f)) k
        (attempt_lem env q f (λ e. (missing e).holds) (λ a e. (good a e).holds))

module _ {B : Type 0} {X : Outcome B → Type 0} {s : State} where
  pub raise_if_then :
      (b : Bool) (e : GuildError) (k : Unit {0} → Call B)
      → X (s, err e)
      → (b ≡ false → Shows X (k tt) s)
      → Shows X (raise_if b e >>= k) s
  raise_if_then b e k bad good =
      call_then (raise_if b e) k (raise_if_lem b e bad (λ d. (good d).holds))

  pub raise_unless_then :
      (b : Bool) (e : GuildError) (k : Unit {0} → Call B)
      → X (s, err e)
      → (b ≡ true → Shows X (k tt) s)
      → Shows X (raise_unless b e >>= k) s
  raise_unless_then b e k bad good =
      call_then (raise_unless b e) k (raise_unless_lem b e bad (λ d. (good d).holds))

  pub permitted_then :
      (env : Env) (test : Option Pool → Bool) (k : Unit {0} → Call B)
      → X (s, err GuildError.insufficient_permissions)
      → (test (client env s) ≡ true → Shows X (k tt) s)
      → Shows X (permitted env test >>= k) s
  permitted_then env test k bad good =
      call_then (permitted env test) k (permitted_lem env test bad (λ d. (good d).holds))
