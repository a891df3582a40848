-- ===== src/Authz/Deny.antt =====
-- SetChannelOverride against applyChannelOverride of internal/shared/authz/client.go: a denied user
-- is locked out.
use mathlib.Core.Path.{subst}
use incord.Authz.Names.{relation_to_name}
use incord.Authz.Tables.{
  Db, Permission, Overwrite, TargetType, Effect, role, user, allow, deny, override_sql, applies,
  targets, is_user_layer,
}
use incord.Authz.Pool.{UuidCodec, Pool, override_query}
use incord.Authz.Precedence.{denies, precedence, decide-precedence}
use incord.Authz.Checks.{apply_channel_override}
use incord.Authz.Exec.{exec_lem, if-some}
use incord.Authz.Writes.{
  ok, is_overwrite_row, is_named, upsert_overwrite, upsert_overwrites, set_overwrite_sql,
  set_channel_override, same_target, no_rows,
}
use incord.Base.{
  ℕ, ◌≡◌, refl, Bool, true, false, not, ◌&&◌, ◌||◌, Option, some, List, [], ◌∷◌, any, update,
  select, map, arith, ◌==◌, Text, String, Bool-cases, inl, inr, any-append, any-select, any-map,
  any-none, any_sound, any_complete, In, str_eq,
}

abbrev is_deny_effect : Effect → Bool
is_deny_effect deny = true
is_deny_effect allow = false

-- The row that denies the user the permission in the channel.
abbrev denying : ℕ → ℕ → ℕ → Overwrite → Bool
denying ch uid pid o = is_overwrite_row ch user uid pid o && is_deny_effect o.effect

module _ (ch uid pid : ℕ) where
  deny-update :
      (q : ℕ) (rows : List Overwrite)
      → any
          (denying ch uid pid)
          (update (is_overwrite_row ch user uid q) (λ o. record o { effect = deny }) rows)
        ≡ ((q == pid) && any (is_overwrite_row ch user uid q) rows || any (denying ch uid pid) rows)
  unfolding any update
  deny-update q [] = ground arith
  deny-update q (o ∷ os) = ground (arith, deny-update q os)

  deny-one :
      (q : ℕ)
      → any (denying ch uid pid) (
          record {
            channel_id = ch;
            target_type = user;
            target_id = uid;
            permission_id = q;
            effect = deny;
          }
          ∷ [])
        ≡ (q == pid)
  unfolding any
  deny-one q = ground arith

  deny-upsert :
      (q : ℕ) (rows : List Overwrite)
      → any (denying ch uid pid) (upsert_overwrite ch user uid deny q rows)
        ≡ ((q == pid) || any (denying ch uid pid) rows)
  unfolding upsert_overwrite
  deny-upsert q rows = elim (Bool-cases (any (is_overwrite_row ch user uid q) rows)) [
    | inl old ↦ ground (arith, deny-update q rows)
    | inr new ↦ ground (
      arith,
      deny-one q,
      any-append (denying ch uid pid) rows (
          record {
            channel_id = ch;
            target_type = user;
            target_id = uid;
            permission_id = q;
            effect = deny;
          }
          ∷ []),
    )
  ]

  deny-upserts :
      (ps : List Permission) (rows : List Overwrite)
      → any (denying ch uid pid) (upsert_overwrites ch user uid deny ps rows)
        ≡ (any (λ p. p.id == pid) ps || any (denying ch uid pid) rows)
  unfolding upsert_overwrites any
  deny-upserts [] rows = refl
  deny-upserts (p ∷ ps) rows =
      ground (
        arith,
        deny-upserts ps (upsert_overwrite ch user uid deny p.id rows),
        deny-upsert p.id rows,
      )

module _ (db : Db) (uid : ℕ) (gid : Option ℕ) (ch : ℕ) (name : String) where
  -- A row of the user layer that denies.
  abbrev denies_user : Overwrite → Bool
  denies_user o = is_user_layer o && denies 2 (2, o.effect)

  user-first :
      any (denies 2) (override_sql db uid gid ch name)
      ≡ any (λ o. applies db uid gid ch name o && denies_user o) db.overwrites
  unfolding override_sql
  user-first =
      let rows = select (applies db uid gid ch name) db.overwrites in
      let users : List (ℕ × Effect) = map (λ o. (2, o.effect)) (select is_user_layer rows) in
      let roles : List (ℕ × Effect) =
        map (λ o. (1, o.effect)) (select (λ o. not (is_user_layer o)) rows) in
      let roles_none : any (denies 2) roles ≡ false = rw (
        any-map (denies 2) (λ (o : Overwrite). (1, o.effect))
            (select (λ o. not (is_user_layer o)) rows),
        any-none (λ (o : Overwrite). denies 2 (1, o.effect))
            (select (λ o. not (is_user_layer o)) rows) (λ o. refl),
      ) in
      let users_any : any (denies 2) users
          ≡ any (λ o. applies db uid gid ch name o && denies_user o) db.overwrites =
        rw (
          any-map (denies 2) (λ (o : Overwrite). (2, o.effect)) (select is_user_layer rows),
          any-select (λ (o : Overwrite). denies 2 (2, o.effect)) is_user_layer rows,
          any-select denies_user (applies db uid gid ch name) db.overwrites,
        ) in
      ground (arith, any-append (denies 2) users roles, roles_none, users_any)

  denying_row :
      (c : ℕ) (tt : TargetType) (tid : ℕ) (e : Effect) (same_permission found : Bool)
      → ((c == ch) && same_target tt user && (tid == uid) && same_permission && is_deny_effect e)
        ≡ true
      → found ≡ true
      → ((c == ch)
          && found
          && targets db uid gid tt tid
          && ((elim tt [ user ↦ true | role ↦ false ]) && denies 2 (2, e)))
        ≡ true
  denying_row c role tid e s f h k = ground arith
  denying_row c user tid deny s f h k = ground arith
  denying_row c user tid allow s f h k = ground arith

  denying-applies :
      (p : Permission) (o : Overwrite)
      → In p db.permissions
      → str_eq p.name name ≡ true
      → denying ch uid p.id o ≡ true
      → (applies db uid gid ch name o && denies_user o) ≡ true
  denying-applies p o i n d =
      let e : o.permission_id ≡ p.id = ground arith in
      let found : any (λ q. (q.id == p.id) && str_eq q.name name) db.permissions ≡ true =
        any_complete (λ q. (q.id == p.id) && str_eq q.name name) p db.permissions i
          (ground arith) in
      let found2 : any (λ q. (q.id == o.permission_id) && str_eq q.name name) db.permissions
          ≡ true =
        rw (e, found) in
      denying_row o.channel_id o.target_type o.target_id o.effect (o.permission_id == p.id)
        (any (λ q. (q.id == o.permission_id) && str_eq q.name name) db.permissions) d found2

  -- A denying row of a permission of the name makes the override query return a deny of the user.
  row-denies :
      (p : Permission)
      → In p db.permissions
      → str_eq p.name name ≡ true
      → any (denying ch uid p.id) db.overwrites ≡ true
      → any (denies 2) (override_sql db uid gid ch name) ≡ true
  row-denies p i n h =
      let (o, oi, od) = any_sound (denying ch uid p.id) db.overwrites h in
      rw (
        user-first,
        any_complete (λ o. applies db uid gid ch name o && denies_user o) o db.overwrites oi
            (denying-applies p o i n od),
      )

-- The rows that the upsert of a deny leaves.
set-denies :
    (db db' : Db) (ch uid : ℕ) (name : String) (gid : Option ℕ)
    → any (is_named name) db.permissions ≡ true
    → set_overwrite_sql db ch user uid name deny ≡ some db'
    → any (denies 2) (override_sql db' uid gid ch name) ≡ true
unfolding set_overwrite_sql
set-denies db db' ch uid name gid known h =
    let ps = select (is_named name) db.permissions in
    let os = upsert_overwrites ch user uid deny ps db.overwrites in
    let e : record db { overwrites = os } ≡ db' =
      if-some (no_rows ps || any (λ c. c.id == ch) db.channels) (record db { overwrites = os }) db'
        h in
    let (p, i, n) = any_sound (is_named name) db.permissions known in
    let found : any (λ q. q.id == p.id) ps ≡ true = rw (
      any-select (λ q. q.id == p.id) (is_named name) db.permissions,
      any_complete (λ q. is_named name q && (q.id == p.id)) p db.permissions i (ground arith),
    ) in
    let row : any (denying ch uid p.id) os ≡ true =
      ground (arith, deny-upserts ch uid p.id ps db.overwrites) in
    subst (λ d. any (denies 2) (override_sql d uid gid ch name) ≡ true) e
      (row-denies (record db { overwrites = os }) uid gid ch name p i n row)

module _ (codec : UuidCodec) (c c' : Pool) (channel user_id : Text) (ch uid : ℕ)
    (relation name : String) where
  set_lem :
      codec.parse channel ≡ some ch
      → codec.parse user_id ≡ some uid
      → relation_to_name relation ≡ some name
      → set_channel_override codec (some c) channel "user" user_id relation "deny" ≡ ok (some c')
      → (set_overwrite_sql c.db ch user uid name deny ≡ some c'.db) × (c'.fails ≡ c.fails)
  unfolding set_channel_override
  set_lem pc pu pr h =
      exec_lem codec c c' (set_overwrite_sql c.db ch user uid name deny) (rw (pc, pu, pr) at h)

-- After SetChannelOverride has set a user's effect in a channel to "deny" without error, for a
-- relation that stands for a catalogued permission, applyChannelOverride refuses that user in that
-- channel when its query succeeds, whatever the guild grants and whatever overrides were there
-- before.
pub set_channel_override-denied :
    (codec : UuidCodec) (c c' : Pool) (channel user_id guild : Text) (ch uid : ℕ)
    (relation name : String) (guild_allowed : Bool)
    → codec.parse channel ≡ some ch
    → codec.parse user_id ≡ some uid
    → relation_to_name relation ≡ some name
    → any (is_named name) c.db.permissions ≡ true
    → c'.fails override_query ≡ false
    → set_channel_override codec (some c) channel "user" user_id relation "deny" ≡ ok (some c')
    → apply_channel_override codec c' user_id guild channel relation guild_allowed ≡ false
unfolding apply_channel_override precedence
set_channel_override-denied codec c c' channel user_id guild ch uid relation name g pc pu pr known
      live h =
    let set = set_lem codec c c' channel user_id ch uid relation name pc pu pr h in
    let rows = override_sql c'.db uid (codec.parse guild) ch name in
    rw (
      pr,
      pu,
      pc,
      live,
      decide-precedence rows g,
      set-denies c.db c'.db ch uid name (codec.parse guild) known set.0,
    )
