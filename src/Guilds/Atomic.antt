-- ===== src/Guilds/Atomic.antt =====
-- internal/features/guild/service.go: an error of a call that checks before its only statement comes
-- with the state that the call was given.
use incord.Guilds.{State, Env, Call, publish_guild_event, publish_role_event, EventKind}
use incord.Authz.Pool.{Pool}
use incord.Authz.Tables.{Role}
use incord.Authz.Writes.{Result}
use incord.Guilds.Rows.{GuildParams, RoleParams}
use incord.Guilds.Rules.{
  Outcome, Shows, call_then, ignore_lem, pure_lem, statement_lem, authz_lem, publish_lem,
  publish_role_lem,
}
use incord.Guilds.Chains.{
  lookup_then, found_then, statement_then, raise_if_then, raise_unless_then, permitted_then,
}
use incord.Guilds.Membership.{update_guild, delete_guild}
use incord.Guilds.Moderation.{
  leave_guild, kick_member, unban_member, create_invite, transfer_ownership, code_or_fail, farewell,
}
use incord.Guilds.RoleCalls.{
  create_role, update_role, delete_role, assign_role, remove_role, known_relation,
  change_permission,
}
use incord.Guilds.Assets.{upload, storage}
use incord.Guilds.Traces.{Sure-then, remove_everyone_role-Sure}
use incord.Base.{ℕ, ◌≡◌, refl, Bool, Option, none, some, Text, String, List, []}
use incord.Base.Action.{ok, err, ◌>>=◌, ignore, pure}

-- An error comes with the state that the call was given.
abbrev pub KeepsOnError : State → {A : Type 0} → Outcome A → Type 0
KeepsOnError s₀ (s, ok a) = Unit
KeepsOnError s₀ (s, err e) = s ≡ s₀

module _ (env : Env) (s : State) where
  abbrev Atomic : {A : Type 0} → Call A → Type 0
  Atomic m = Shows (KeepsOnError s) m s

  -- What comes after the last statement cannot fail.
  publish_pure :
      {A : Type 0}
      → (gid : ℕ) (kind : EventKind) (extra : List (String × Text)) (a : A) (s' : State)
      → Shows (KeepsOnError s) (publish_guild_event env gid kind extra >>= λ _. pure a) s'
  unfolding publish_guild_event ◌>>=◌
  publish_pure gid kind extra a s' = record { holds = tt }

  publish_role_pure :
      (gid : ℕ) (kind : EventKind) (r : Role) (s' : State)
      → Shows (KeepsOnError s) (publish_role_event env gid kind r [] >>= λ _. pure r) s'
  unfolding publish_role_event ◌>>=◌
  publish_role_pure gid kind r s' = record { holds = tt }

  publish_role-quiet :
      (gid : ℕ) (kind : EventKind) (r : Role) (s' : State)
      → KeepsOnError s (publish_role_event env gid kind r [] s')
  unfolding publish_role_event
  publish_role-quiet gid kind r s' = tt

  ignored :
      {A B : Type 0}
      → (m : Call A) (k : Unit {0} → Call B) (s' : State)
      → ((s'' : State) → Shows (KeepsOnError s) (k tt) s'')
      → Shows (KeepsOnError s) (ignore m >>= k) s'
  ignored m k s' next = call_then _ _ (ignore_lem m (record { holds = (next (m s').0).holds }))

  farewell-Atomic : (gid uid : ℕ) (s' : State) → Shows (KeepsOnError s) (farewell env gid uid) s'
  farewell-Atomic gid uid s' =
      Sure-then env (λ t. Unit) (λ t db e h. tt) _ _ _ s'
        (remove_everyone_role-Sure env (λ t. Unit) (λ t db e h. tt) gid uid s' tt)
        λ a s'' h. publish_lem env _ _ _ λ es. tt

  pub update_guild-Atomic :
      (caller gid : ℕ) (p : GuildParams) → Atomic (update_guild env caller gid p)
  unfolding update_guild
  update_guild-Atomic caller gid p =
      permitted_then env _ _ refl λ _. statement_then env _ _ _ refl λ t g e. publish_pure _ _ _ g _

  pub delete_guild-Atomic : (caller gid : ℕ) → Atomic (delete_guild env caller gid)
  unfolding delete_guild
  delete_guild-Atomic caller gid = found_then env _ _ _ _ refl λ g ge.
      raise_unless_then _ _ _ refl
        λ owner. statement_then env _ _ _ refl λ t a e. publish_lem env _ _ _ λ es. tt

  pub leave_guild-Atomic : (uid gid : ℕ) → Atomic (leave_guild env uid gid)
  unfolding leave_guild
  leave_guild-Atomic uid gid = found_then env _ _ _ _ refl λ g ge. raise_if_then _ _ _ refl λ guest.
      found_then env _ _ _ _ refl
        λ m me. statement_then env _ _ _ refl λ t a e. farewell-Atomic gid uid _

  pub kick_member-Atomic : (caller gid target : ℕ) → Atomic (kick_member env caller gid target)
  unfolding kick_member
  kick_member-Atomic caller gid target = permitted_then env _ _ refl λ _.
      permitted_then env _ _ refl λ _. found_then env _ _ _ _ refl λ g ge.
        raise_if_then _ _ _ refl λ guest.
          found_then env _ _ _ _ refl
            λ m me. statement_then env _ _ _ refl λ t a e. farewell-Atomic gid target _

  pub unban_member-Atomic : (caller gid target : ℕ) → Atomic (unban_member env caller gid target)
  unfolding unban_member
  unban_member-Atomic caller gid target = permitted_then env _ _ refl λ _.
      found_then env _ _ _ _ refl
        λ b be. statement_then env _ _ _ refl λ t a e. publish_lem env _ _ _ λ es. tt

  code-Atomic :
      {A : Type 0}
      → (o : Option Text) (k : Text → Call A) → ((c : Text) → Atomic (k c))
      → Atomic (code_or_fail env o >>= k)
  code-Atomic none k next = call_then _ k (record { holds = refl })
  code-Atomic (some c) k next = call_then _ k (pure_lem c (next c).holds)

  pub create_invite-Atomic :
      (caller gid channel max_uses age : ℕ)
      → Atomic (create_invite env caller gid channel max_uses age)
  unfolding create_invite
  create_invite-Atomic caller gid channel max_uses age = found_then env _ _ _ _ refl λ m me.
      permitted_then env _ _ refl
        λ _. code-Atomic env.new_code _ λ c. statement_lem env _ _ refl λ t i e. tt

  pub transfer_ownership-Atomic :
      (caller gid owner : ℕ) → Atomic (transfer_ownership env caller gid owner)
  unfolding transfer_ownership
  transfer_ownership-Atomic caller gid owner = found_then env _ _ _ _ refl λ g ge.
      raise_unless_then _ _ _ refl λ is_owner.
        found_then env _ _ _ _ refl
          λ m me. statement_then env _ _ _ refl λ t g' e. publish_pure _ _ _ g' _

  pub create_role-Atomic :
      (caller gid : ℕ) (name color : Text) → Atomic (create_role env caller gid name color)
  unfolding create_role
  create_role-Atomic caller gid name color = permitted_then env _ _ refl λ _.
      lookup_then env _ _ _ refl
        λ rs e. statement_then env _ _ _ refl λ t r d. publish_role_pure _ _ r _

  pub update_role-Atomic : (caller gid : ℕ) (p : RoleParams) → Atomic (update_role env caller gid p)
  unfolding update_role
  update_role-Atomic caller gid p =
      permitted_then env _ _ refl
        λ _. statement_then env _ _ _ refl λ t r e. publish_role_pure _ _ r _

  pub delete_role-Atomic : (caller gid rid : ℕ) → Atomic (delete_role env caller gid rid)
  unfolding delete_role
  delete_role-Atomic caller gid rid = permitted_then env _ _ refl λ _.
      found_then env _ _ _ _ refl
        λ r re. statement_then env _ _ _ refl λ t a e. publish_role_lem env _ _ _ _ λ es. tt

  pub assign_role-Atomic :
      (caller gid target rid : ℕ) → Atomic (assign_role env caller gid target rid)
  unfolding assign_role
  assign_role-Atomic caller gid target rid = permitted_then env _ _ refl λ _.
      found_then env _ _ _ _ refl λ m me. found_then env _ _ _ _ refl λ r re.
        statement_then env _ _ _ refl
          λ t a e. ignored _ _ _ λ s''. publish_role_lem env _ _ _ _ λ es. tt

  pub remove_role-Atomic :
      (caller gid target rid : ℕ) → Atomic (remove_role env caller gid target rid)
  unfolding remove_role
  remove_role-Atomic caller gid target rid = permitted_then env _ _ refl λ _.
      found_then env _ _ _ _ refl λ r re.
        statement_then env _ _ _ refl
          λ t a e. ignored _ _ _ λ s''. publish_role_lem env _ _ _ _ λ es. tt

  known-Atomic :
      {A : Type 0}
      → (o : Option String) (k : String → Call A) → ((relation : String) → Atomic (k relation))
      → Atomic (known_relation env o >>= k)
  known-Atomic none k next = call_then _ k (record { holds = refl })
  known-Atomic (some relation) k next = call_then _ k (pure_lem relation (next relation).holds)

  pub change_permission-Atomic :
      (caller gid rid : ℕ) (permission : String)
      (write : Option Pool → Text → String → Result (Option Pool))
      → Atomic (change_permission env caller gid rid permission write)
  change_permission-Atomic caller gid rid permission write = permitted_then env _ _ refl λ _.
      known-Atomic _ _ λ relation. permitted_then env _ _ refl λ _.
        found_then env _ _ _ _ refl λ r re. call_then _ _ (
          authz_lem env _ refl (λ _. publish_role-quiet gid _ r _)
            λ p e. publish_role-quiet gid _ r _)

  storage-Atomic :
      {A : Type 0}
      → (put : Option (Text → Text → Text → Bool)) (signer : Option (Text → Option Text))
        (drawn : Text)
      → (o : Option (Text → Text → Text → Bool)) (k : (Text → Text → Text → Bool) → Call A)
      → ((p : Text → Text → Text → Bool) → Atomic (k p))
      → Atomic (storage env put signer drawn o >>= k)
  storage-Atomic put signer drawn none k next = call_then _ k (record { holds = refl })
  storage-Atomic put signer drawn (some p) k next = call_then _ k (pure_lem p (next p).holds)

  pub upload-Atomic :
      (put : Option (Text → Text → Text → Bool)) (signer : Option (Text → Option Text))
      (drawn : Text) (kind : Text) (max : ℕ) (params : Text → GuildParams) (extra : String)
      (caller gid : ℕ) (filename content_type bytes : Text)
      → Atomic
          (upload env put signer drawn kind max params extra caller gid filename content_type bytes)
  upload-Atomic put signer drawn kind max params extra caller gid filename content_type bytes =
      storage-Atomic put signer drawn put _ λ p. permitted_then env _ _ refl λ _.
        raise_if_then _ _ _ refl λ _. raise_if_then _ _ _ refl λ _.
          raise_unless_then _ _ _ refl λ _.
            raise_unless_then _ _ _ refl
              λ _. statement_then env _ _ _ refl λ t g e. publish_pure _ _ _ _ _
