-- ===== src/Authz/Members.antt =====
-- Role members: who holds a role after AddUserToRole and RemoveUserFromRole, for every user and
-- role.
use mathlib.Core.Path.{subst}
use incord.Authz.Tables.{Db, RoleMember, has_role, holds, is_assigned}
use incord.Authz.Pool.{UuidCodec, Pool}
use incord.Authz.Exec.{exec_lem, if-some}
use incord.Authz.Writes.{
  ok, is_member_row, add_member_sql, remove_member_sql, role_exists, add_user_to_role,
  remove_user_from_role,
}
use incord.Base.{
  ℕ, ◌≡◌, refl, Bool, true, false, not, ◌&&◌, ◌||◌, none, some, List, [], ◌∷◌, ◌++◌, any, update,
  arith, ◌==◌, if◌then◌else◌, Text, inl, inr, any-append, Bool-cases,
}

-- A live row of the user and the role.
abbrev is_live_row : ℕ → ℕ → RoleMember → Bool
is_live_row uid rid rm = (rm.role_id == rid) && (rm.user_id == uid) && not rm.deleted

any-holds :
    (db : Db) (uid gid rid : ℕ) (ms : List RoleMember)
    → any (λ rm. (rm.role_id == rid) && holds db uid gid rm) ms
      ≡ (has_role db gid rid && any (is_live_row uid rid) ms)
unfolding any
any-holds db uid gid rid [] = ground arith
any-holds db uid gid rid (m ∷ ms) = ground (arith, any-holds db uid gid rid ms)

assigned-split :
    (db : Db) (uid gid rid : ℕ)
    → is_assigned db uid gid rid
      ≡ (has_role db gid rid && any (is_live_row uid rid) db.role_members)
unfolding is_assigned
assigned-split db uid gid rid = any-holds db uid gid rid db.role_members

abbrev pub same : ℕ → ℕ → ℕ → ℕ → Bool
same u r a b = (u == a) && (r == b)

module _ (uid rid u r : ℕ) where
  live-revive_other :
      (ms : List RoleMember)
      → same uid rid u r ≡ false
      → any
          (is_live_row u r)
          (update (is_member_row rid uid) (λ m. record m { deleted = false }) ms)
        ≡ any (is_live_row u r) ms
  unfolding any update
  live-revive_other [] h = refl
  live-revive_other (m ∷ ms) h = ground (arith, live-revive_other ms h)

  live-revive :
      (ms : List RoleMember)
      → any (is_member_row rid uid) ms ≡ true
      → any
          (is_live_row u r)
          (update (is_member_row rid uid) (λ m. record m { deleted = false }) ms)
        ≡ (same uid rid u r || any (is_live_row u r) ms)
  unfolding any update
  live-revive [] h = ground arith
  live-revive (m ∷ ms) h = ground (arith, live-revive ms, live-revive_other ms)

  live-remove :
      (ms : List RoleMember)
      → any (is_live_row u r) (update (is_member_row rid uid) (λ m. record m { deleted = true }) ms)
        ≡ (not (same uid rid u r) && any (is_live_row u r) ms)
  unfolding any update
  live-remove [] = ground arith
  live-remove (m ∷ ms) = ground (arith, live-remove ms)

live-one :
    (uid rid u r : ℕ)
    → any (is_live_row u r) (record { role_id = rid; user_id = uid; deleted = false } ∷ [])
      ≡ same uid rid u r
unfolding any
live-one uid rid u r = ground arith

has_role-members :
    (db : Db) (ms : List RoleMember) (gid rid : ℕ)
    → has_role (record db { role_members = ms }) gid rid ≡ has_role db gid rid
unfolding has_role
has_role-members db ms gid rid = refl

module _ (codec : UuidCodec) (c : Pool) (user role : Text) (uid rid : ℕ) where
  add_lem :
      (c' : Pool)
      → codec.parse user ≡ some uid
      → codec.parse role ≡ some rid
      → add_user_to_role codec (some c) user role ≡ ok (some c')
      → add_member_sql c.db rid uid ≡ some c'.db
  unfolding add_user_to_role
  add_lem c' pu pr h = (exec_lem codec c c' (add_member_sql c.db rid uid) (rw (pu, pr) at h)).0

  remove_lem :
      (c' : Pool)
      → codec.parse user ≡ some uid
      → codec.parse role ≡ some rid
      → remove_user_from_role codec (some c) user role ≡ ok (some c')
      → some (remove_member_sql c.db rid uid) ≡ some c'.db
  unfolding remove_user_from_role
  remove_lem c' pu pr h =
      (exec_lem codec c c' (some (remove_member_sql c.db rid uid)) (rw (pu, pr) at h)).0

module _ (db : Db) (uid rid u g r : ℕ) where
  assigned-add_member :
      (db' : Db)
      → add_member_sql db rid uid ≡ some db'
      → is_assigned db' u g r ≡ (if same uid rid u r then has_role db g r else is_assigned db u g r)
  unfolding add_member_sql
  assigned-add_member db' e = elim (Bool-cases (any (is_member_row rid uid) db.role_members)) [
    | inl old ↦
        let ms =
          update (is_member_row rid uid) (λ m. record m { deleted = false }) db.role_members in
        let e' : some (record db { role_members = ms }) ≡ some db' = rw old at e in
        let e2 : record db { role_members = ms } ≡ db' = cc in
        subst
          (λ o.
            is_assigned o u g r
            ≡ (if same uid rid u r then has_role db g r else is_assigned db u g r))
          e2
          (ground (
            arith,
            assigned-split (record db { role_members = ms }) u g r,
            assigned-split db u g r,
            has_role-members db ms g r,
            live-revive uid rid u r db.role_members old,
          ))
    | inr new ↦
        let ms = db.role_members ++ record { role_id = rid; user_id = uid; deleted = false } ∷ [] in
        let e' : (if role_exists db rid && any (λ z. z == uid) db.users
              then some (record db { role_members = ms })
              else none)
            ≡ some db' =
          rw new at e in
        let e2 : record db { role_members = ms } ≡ db' =
          if-some (role_exists db rid && any (λ z. z == uid) db.users)
            (record db { role_members = ms }) db' e' in
        subst
          (λ o.
            is_assigned o u g r
            ≡ (if same uid rid u r then has_role db g r else is_assigned db u g r))
          e2
          (ground (
            arith,
            assigned-split (record db { role_members = ms }) u g r,
            assigned-split db u g r,
            has_role-members db ms g r,
            any-append (is_live_row u r) db.role_members
                (record { role_id = rid; user_id = uid; deleted = false } ∷ []),
            live-one uid rid u r,
          ))
  ]

  assigned-remove_member :
      is_assigned (remove_member_sql db rid uid) u g r
      ≡ (if same uid rid u r then false else is_assigned db u g r)
  unfolding remove_member_sql
  assigned-remove_member =
      let ms = update (is_member_row rid uid) (λ m. record m { deleted = true }) db.role_members in
      (ground (
        arith,
        assigned-split (record db { role_members = ms }) u g r,
        assigned-split db u g r,
        has_role-members db ms g r,
        live-remove uid rid u r db.role_members,
      ))

-- When AddUserToRole returns without error on ids that parse, the user holds the role in every
-- guild that the role is a live role of, and the membership of no other user and no other role has
-- changed.
add_user_to_role-assigned :
    (codec : UuidCodec) (c c' : Pool) (user role : Text) (uid rid u g r : ℕ)
    → codec.parse user ≡ some uid
    → codec.parse role ≡ some rid
    → add_user_to_role codec (some c) user role ≡ ok (some c')
    → is_assigned c'.db u g r
      ≡ (if same uid rid u r then has_role c.db g r else is_assigned c.db u g r)
add_user_to_role-assigned codec c c' user role uid rid u g r pu pr h =
    assigned-add_member c.db uid rid u g r c'.db (add_lem codec c user role uid rid c' pu pr h)

-- When RemoveUserFromRole returns without error on ids that parse, the user holds the role in no
-- guild, and the membership of no other user and no other role has changed.
pub remove_user_from_role-assigned :
    (codec : UuidCodec) (c c' : Pool) (user role : Text) (uid rid u g r : ℕ)
    → codec.parse user ≡ some uid
    → codec.parse role ≡ some rid
    → remove_user_from_role codec (some c) user role ≡ ok (some c')
    → is_assigned c'.db u g r ≡ (if same uid rid u r then false else is_assigned c.db u g r)
remove_user_from_role-assigned codec c c' user role uid rid u g r pu pr h =
    let s = remove_lem codec c user role uid rid c' pu pr h in
    let e : remove_member_sql c.db rid uid ≡ c'.db = cc in
    subst (λ o. is_assigned o u g r ≡ (if same uid rid u r then false else is_assigned c.db u g r))
      e (assigned-remove_member c.db uid rid u g r)
