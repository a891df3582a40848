-- ===== src/Guilds/RoleOutcomes.antt =====
-- internal/features/guild/service.go: what granting a permission to a role and transferring a guild
-- have found and done.
use mathlib.Core.Path.{subst}
use incord.Authz.Names.{assoc, permission_relation, relation_to_name, user_key, guild_key}
use incord.Authz.Tables.{Db, Guild, Role, is_assigned}
use incord.Authz.Pool.{Pool, check_query}
use incord.Authz.Checks.{check}
use incord.Authz.Wrappers.{can_manage_roles, can_guild_permission}
use incord.Authz.Writes.{is_named, grant_role_permission}
use incord.Authz.Writes
use incord.Authz.Granting.{grant_lem, grant_role_permission-check, grant_role_permission-has_pool}
use incord.Guilds.{
  State, Env, Call, Event, EventKind, publish_role_event, publish_guild_event, client, id_text,
}
use incord.Guilds.Rows.{get_guild_sql}
use incord.Guilds.Rules.{
  Outcome, Shows, with_pool, with_tables, call_then, pure_lem, statement_lem, authz_lem,
  publish_lem, publish_role_lem,
}
use incord.Guilds.Chains.{found_then, raise_unless_then, permitted_then}
use incord.Guilds.Inversion.{on_db-case}
use incord.Guilds.Moderation.{transfer_ownership}
use incord.Guilds.RoleCalls.{grant_role, known_relation}
use incord.Guilds.GuildLaws.{owns, get_guild-owns, owns-new_owner, transfer-rows}
use incord.Guilds.Outcomes.{OnOk, on_ok}
use incord.Guilds.RowLaws.{is_in, get_member-is_in, first-any, has_some}
use incord.Base.{
  ℕ, ◌≡◌, refl, sym, ap, ◌∙◌, true, false, none, some, List, [], ◌∷◌, ◌&&◌, not, ◌≢◌, String, any,
  ◌==◌,
}
use incord.Base.Action.{ok, pure, ◌>>=◌}

module _ (env : Env) (s : State) (caller gid rid u g : ℕ) (permission relation name : String)
    (has : env.has_authz ≡ true) (up : env.authz_fails check_query ≡ false)
    (known : assoc permission permission_relation ≡ some relation)
    (named : relation_to_name relation ≡ some name)
    (listed : any (is_named name) s.tables.db.permissions ≡ true) where
  abbrev Granted : Unit {0} → State → Type 0
  Granted a s' =
      (can_manage_roles env.codec (client env s) (id_text env caller) (id_text env gid) ≡ true)
      × (can_guild_permission env.codec (client env s) (id_text env caller) (id_text env gid)
            relation
          ≡ true)
      × (is_assigned s'.tables.db u g rid ≡ true
          → check env.codec (client env s') (user_key (id_text env u)) relation
              (guild_key (id_text env g))
            ≡ true)

  the_client :
      (s' : State) → client env s' ≡ some (record { db = s'.tables.db; fails = env.authz_fails })
  the_client s' = rw has

  abbrev pool : State → Pool
  pool s' = record { db = s'.tables.db; fails = env.authz_fails }

  same_pool :
      (d : Db) (p : Pool)
      → d ≡ p.db
      → p.fails ≡ env.authz_fails
      → some (record { db = d; fails = env.authz_fails }) ≡ some p
  same_pool d p a b = cc

  published :
      (s' : State) (r : Role)
      → ((es : List Event) → Granted tt (record s' { events = es }))
      → Shows (OnOk Granted) (publish_role_event env gid EventKind.role_update r []) s'
  published s' r h = publish_role_lem env gid EventKind.role_update r [] h

  known-Granted :
      (k : String → Call (Unit {0}))
      → Shows (OnOk Granted) (k relation) s
      → Shows (OnOk Granted) (known_relation env (assoc permission permission_relation) >>= k) s
  known-Granted k next =
      subst (λ o. Shows (OnOk Granted) (known_relation env o >>= k) s) (sym known)
        (call_then _ k (pure_lem relation next.holds))

  granted_check :
      (p : Pool) (s' : State)
      → s'.tables.db ≡ p.db
      → grant_role_permission env.codec (client env s) (id_text env rid) relation
        ≡ Writes.Result.ok (some p)
      → is_assigned s'.tables.db u g rid ≡ true
      → check env.codec
          (client env s')
          (user_key (id_text env u))
          relation
          (guild_key (id_text env g))
        ≡ true
  granted_check p s' same e a =
      let id : (n : ℕ) → env.codec.parse (id_text env n) ≡ some n = env.codec.parse-format in
      let e' : grant_role_permission env.codec (some (pool s)) (id_text env rid) relation
          ≡ Writes.Result.ok (some p) =
        rw (the_client s) at e in
      let faults : p.fails ≡ env.authz_fails =
        (grant_lem env.codec (pool s) p (id_text env rid) rid relation name (id rid) named e').1 in
      let here : client env s' ≡ some p = the_client s' ∙ same_pool s'.tables.db p same faults in
      subst
        (λ c.
          check env.codec c (user_key (id_text env u)) relation (guild_key (id_text env g)) ≡ true)
        (sym here)
        (grant_role_permission-check env.codec (pool s) p (id_text env rid) (id_text env u)
          (id_text env g) rid u g relation name (id rid) (id u) (id g) named listed e'
          (subst (λ d. is_assigned d u g rid ≡ true) same a) (ap (λ f. f check_query) faults ∙ up))

  no_client :
      grant_role_permission env.codec (client env s) (id_text env rid) relation
      ≢ Writes.Result.ok none
  no_client e =
      grant_role_permission-has_pool env.codec (pool s) (id_text env rid) rid relation name
        (env.codec.parse-format rid) named (rw (the_client s) at e)

  grant_role-Shows : Shows (OnOk Granted) (grant_role env caller gid rid permission) s
  unfolding grant_role
  grant_role-Shows = permitted_then env _ _ tt λ may. known-Granted _ (
      permitted_then env _ _ tt λ can. found_then env _ _ _ _ tt λ r re. call_then _ _ (
        authz_lem env _ tt (λ e. absurd (no_client e))
          λ p e.
            (published (with_pool s p) r
              λ es. (may, can, λ a. granted_check p (with_pool s p) refl e a)).holds))

-- A call that grants a permission to a role without error, in a server with a permission client whose
-- checks answer, is by a caller who may manage the roles of the guild and has this permission in it; and
-- afterwards every user who holds the role, in whatever guild it belongs to, passes the check of the
-- permission there. The permission is in the catalogue.
pub grant_role-granted :
    (env : Env) (s s' : State) (caller gid rid u g : ℕ) (permission relation name : String)
    → env.has_authz ≡ true
    → env.authz_fails check_query ≡ false
    → assoc permission permission_relation ≡ some relation
    → relation_to_name relation ≡ some name
    → any (is_named name) s.tables.db.permissions ≡ true
    → ◌≡◌ {A = Outcome (Unit {0})} (grant_role env caller gid rid permission s) (s', ok tt)
    → is_assigned s'.tables.db u g rid ≡ true
    → (can_manage_roles env.codec (client env s) (id_text env caller) (id_text env gid) ≡ true)
      × (can_guild_permission env.codec
            (client env s)
            (id_text env caller)
            (id_text env gid)
            relation
          ≡ true)
      × (check env.codec
            (client env s')
            (user_key (id_text env u))
            relation
            (guild_key (id_text env g))
          ≡ true)
grant_role-granted env s s' caller gid rid u g permission relation name has up known named listed e
      a =
    let (may, can, passes) =
      on_ok (Granted env s caller gid rid u g permission relation name has up known named listed)
        (grant_role env caller gid rid permission) s s' tt
        (grant_role-Shows env s caller gid rid u g permission relation name has up known named
          listed)
        e in
    (may, can, passes a)

module _ (env : Env) (s : State) (caller gid owner : ℕ) where
  abbrev pub Transferred : Guild → State → Type 0
  Transferred g' s' =
      (owns s.tables.db.guilds gid caller ≡ true)
      × (is_in s.tables.members gid owner ≡ true)
      × ((u : ℕ) → owns s'.tables.db.guilds gid u ≡ (owner == u))

  live_guild :
      (g : Guild)
      → get_guild_sql s.tables.db gid ≡ some g
      → any (λ o. (o.id == gid) && not o.deleted) s.tables.db.guilds ≡ true
  unfolding get_guild_sql
  live_guild g e = sym (first-any _ s.tables.db.guilds) ∙ ap has_some e

  transfer_ownership-Shows : Shows (OnOk Transferred) (transfer_ownership env caller gid owner) s
  unfolding transfer_ownership
  transfer_ownership-Shows = found_then env _ _ _ _ tt λ g ge. raise_unless_then _ _ _ tt λ owned.
      found_then env _ _ _ _ tt λ m me. call_then _ _ (
        statement_lem env _ _ tt λ t g' e.
          on_db-case (λ t' a'. OnOk Transferred (told a' (with_tables s t'))) s.tables e
            λ db a d.
              (announced a (with_tables s (record s.tables { db = db })) λ es. (
                get_guild-owns s.tables.db gid caller g ge ∙ owned,
                get_member-is_in s.tables.members gid owner m me,
                λ u.
                    transfer-rows s.tables.db db a (λ gs. owns gs gid u ≡ (owner == u)) gid owner d
                      (owns-new_owner gid owner u s.tables.db.guilds (live_guild g ge)),
              )).holds)
    where
      told : Guild → Call Guild
      told a =
          publish_guild_event env gid EventKind.update (("transferred_to", id_text env owner) ∷ [])
          >>= λ _. pure a

      announced :
          (a : Guild) (s' : State)
          → ((es : List Event) → Transferred a (record s' { events = es }))
          → Shows (OnOk Transferred) (told a) s'
      announced a s' h = call_then _ _ (publish_lem env _ _ _ λ es. h es)

-- A transfer that succeeds is by the owner of the guild, to a member of it, who alone owns the guild
-- afterwards.
pub transfer_ownership-Transferred :
    (env : Env) (caller gid owner : ℕ) (s s' : State) (g : Guild)
    → ◌≡◌ {A = Outcome Guild} (transfer_ownership env caller gid owner s) (s', ok g)
    → Transferred env s caller gid owner g s'
transfer_ownership-Transferred env caller gid owner s s' g =
    on_ok (Transferred env s caller gid owner) (transfer_ownership env caller gid owner) s s' g
      (transfer_ownership-Shows env s caller gid owner)
