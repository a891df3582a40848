-- ===== src/Guilds/GuildLaws.antt =====
-- The rows of guilds after the statements of gen/db/guilds.sql.go.
use mathlib.Core.Path.{subst}
use incord.Authz.Tables.{Db, Guild}
use incord.Guilds.Rows.{
  GuildParams, guild_exists, user_exists, create_guild_sql, get_guild_sql, update_guild_sql,
  transfer_sql, delete_guild_sql, with_params, with_guilds, returned,
}
use incord.Guilds.Inversion.{if-case, with_guilds-case}
use incord.Base.{
  ℕ, ◌≡◌, refl, ap, Bool, true, false, not, ◌&&◌, ◌||◌, Option, none, some, List, [], ◌∷◌, ◌++◌,
  any, first, update, any-append, Bool-cases, inl, inr, arith, ◌==◌, if◌then◌else◌,
}

-- The guild is there, and the user owns it.
unfoldable pub owns : List Guild → ℕ → ℕ → Bool
owns [] gid uid = false
owns (g ∷ gs) gid uid =
    if (g.id == gid) && not g.deleted then g.owner_id == uid else owns gs gid uid

owns-first :
    (gid uid : ℕ) (g : Guild) (gs : List Guild)
    → first (λ o. (o.id == gid) && not o.deleted) gs ≡ some g
    → owns gs gid uid ≡ (g.owner_id == uid)
unfolding first owns
owns-first gid uid g [] h = cc
owns-first gid uid g (o ∷ gs) h = elim (Bool-cases ((o.id == gid) && not o.deleted)) [
  | inl e ↦ let d : some o ≡ some g = rw e at h in let eq : o ≡ g = cc in rw (e, eq)
  | inr e ↦ rw (e, owns-first gid uid g gs (rw e at h))
]

pub get_guild-owns :
    (db : Db) (gid uid : ℕ) (g : Guild)
    → get_guild_sql db gid ≡ some g
    → owns db.guilds gid uid ≡ (g.owner_id == uid)
unfolding get_guild_sql
get_guild-owns db gid uid g h = owns-first gid uid g db.guilds h

module _ (gid uid : ℕ) where
  pub owns-absent : (gs : List Guild) → any (λ g. g.id == gid) gs ≡ false → owns gs gid uid ≡ false
  unfolding owns any
  owns-absent [] h = refl
  owns-absent (g ∷ gs) h = ground (arith, owns-absent gs)

  pub owns-append :
      (gs : List Guild) (g : Guild)
      → any (λ o. o.id == g.id) gs ≡ false
      → owns (gs ++ g ∷ []) gid uid
        ≡ (if g.id == gid then not g.deleted && (g.owner_id == uid) else owns gs gid uid)
  unfolding owns any
  owns-append [] g h = ground arith
  owns-append (o ∷ gs) g h = ground (arith, owns-append gs g)

  -- An update that keeps ids, owners and deletions keeps the owners.
  pub owns-update :
      (q : Guild → Bool) (f : Guild → Guild) (gs : List Guild)
      → ((g : Guild)
          → ((f g).id ≡ g.id) × ((f g).owner_id ≡ g.owner_id) × ((f g).deleted ≡ g.deleted))
      → owns (update q f gs) gid uid ≡ owns gs gid uid
  unfolding owns update
  owns-update q f [] same = refl
  owns-update q f (g ∷ gs) same =
      let (a, b, c) = same g in ground (arith, a, b, c, owns-update q f gs same)

  pub owns-transfer :
      (g owner : ℕ) (gs : List Guild)
      → owns (update (λ o. o.id == g) (λ o. record o { owner_id = owner }) gs) gid uid ≡ true
      → (owns gs gid uid || (g == gid) && (owner == uid)) ≡ true
  unfolding owns update
  owns-transfer g owner [] h = ground arith
  owns-transfer g owner (o ∷ gs) h = ground (arith, owns-transfer g owner gs)

  owns-deleted :
      (g : ℕ) (gs : List Guild)
      → (g == gid) ≡ true
      → owns (update (λ o. o.id == g) (λ o. record o { deleted = true }) gs) gid uid ≡ false
  unfolding owns update
  owns-deleted g [] h = refl
  owns-deleted g (o ∷ gs) h = ground (arith, h, owns-deleted g gs h)

  pub owns-delete :
      (g : ℕ) (gs : List Guild)
      → owns (update (λ o. o.id == g) (λ o. record o { deleted = true }) gs) gid uid ≡ true
      → owns gs gid uid ≡ true
  unfolding owns update
  owns-delete g [] h = ground arith
  owns-delete g (o ∷ gs) h = ground (arith, h, owns-delete g gs, owns-deleted g gs)

module _ (q : Guild → Bool) (f : Guild → Guild) where
  pub exists-update :
      (gid : ℕ) (gs : List Guild)
      → ((g : Guild) → (f g).id ≡ g.id)
      → any (λ g. g.id == gid) (update q f gs) ≡ any (λ g. g.id == gid) gs
  unfolding any update
  exists-update gid [] same = refl
  exists-update gid (g ∷ gs) same = ground (arith, same g, exists-update gid gs same)

abbrev rows_or : {A : Type 0} → List A → Option (List A × A) → List A
rows_or d none = d
rows_or d (some (xs, a)) = xs

-- The rows that `UPDATE ... RETURNING` leaves.
returned-rows :
    (p : Guild → Bool) (f : Guild → Guild) (rows gs : List Guild) (g : Guild)
    → returned p f rows ≡ some (gs, g)
    → update p f rows ≡ gs
returned-rows p f rows gs g h = split (first p rows) h
  where
    split :
        (o : Option Guild)
        → ◌≡◌ {A = Option (List Guild × Guild)}
            (elim o [ none ↦ none | some r ↦ some (update p f rows, f r) ])
            (some (gs, g))
        → update p f rows ≡ gs
    split none e = cc
    split (some r) e = ap (rows_or gs) e

module _ (db db' : Db) (g : Guild) (P : List Guild → Type 0) where
  pub update_guild-rows :
      (gid : ℕ) (p : GuildParams)
      → update_guild_sql db gid p ≡ some (db', g)
      → P (update (λ o. o.id == gid) (with_params p) db.guilds)
      → P db'.guilds
  unfolding update_guild_sql
  update_guild-rows gid p h base =
      with_guilds-case (λ d x. P d.guilds) db h
        λ gs r e. subst P (returned-rows _ _ db.guilds gs r e) base

  pub transfer-rows :
      (gid owner : ℕ)
      → transfer_sql db gid owner ≡ some (db', g)
      → P (update (λ o. o.id == gid) (λ o. record o { owner_id = owner }) db.guilds)
      → P db'.guilds
  unfolding transfer_sql
  transfer-rows gid owner h base = split (user_exists db owner) h
    where
      split :
          (b : Bool)
          → (if b
              then with_guilds db
                  (returned (λ o. o.id == gid) (λ o. record o { owner_id = owner }) db.guilds)
              else none)
            ≡ some (db', g)
          → P db'.guilds
      split true e =
          with_guilds-case (λ d x. P d.guilds) db e
            λ gs r d. subst P (returned-rows _ _ db.guilds gs r d) base
      split false e = cc

  pub create_guild-rows :
      (new : Guild)
      → create_guild_sql db new ≡ some (db', g)
      → (guild_exists db new.id ≡ false → P (db.guilds ++ new ∷ []))
      → P db'.guilds
  unfolding create_guild_sql
  create_guild-rows new h base = if-case (λ d x. P d.guilds) _ h λ c. base (ground (arith, c))

pub create_guild-same :
    (db db' : Db) (g new : Guild) → create_guild_sql db new ≡ some (db', g) → g ≡ new
unfolding create_guild_sql
create_guild-same db db' g new h = if-case (λ d x. x ≡ new) _ h λ c. refl

pub create_guild-fresh :
    (db db' : Db) (g new : Guild)
    → create_guild_sql db new ≡ some (db', g)
    → guild_exists db new.id ≡ false
unfolding create_guild_sql
create_guild-fresh db db' g new h =
    if-case (λ d x. guild_exists db new.id ≡ false) _ h λ c. ground (arith, c)

pub exists-create :
    (gid : ℕ) (db db' : Db) (g new : Guild)
    → create_guild_sql db new ≡ some (db', g)
    → any (λ o. o.id == gid) db.guilds ≡ true
    → any (λ o. o.id == gid) db'.guilds ≡ true
exists-create gid db db' g new h there =
    create_guild-rows db db' g (λ gs. any (λ o. o.id == gid) gs ≡ true) new h
      λ fresh. ground (arith, there, any-append (λ o. o.id == gid) db.guilds (new ∷ []))

pub exists-delete :
    (gid g : ℕ) (db : Db)
    → any (λ o. o.id == gid) (delete_guild_sql db g).guilds ≡ any (λ o. o.id == gid) db.guilds
unfolding delete_guild_sql
exists-delete gid g db = exists-update _ _ gid db.guilds λ o. refl

-- A new id is that of no guild.
pub fresh-differs :
    (a b : ℕ) (gs : List Guild)
    → any (λ o. o.id == a) gs ≡ false
    → any (λ o. o.id == b) gs ≡ true
    → (a == b) ≡ false
unfolding any
fresh-differs a b [] h k = ground arith
fresh-differs a b (o ∷ gs) h k = ground (arith, fresh-differs a b gs)

pub owns-delete_guild :
    (gid uid g : ℕ) (db : Db)
    → owns (delete_guild_sql db g).guilds gid uid ≡ true
    → owns db.guilds gid uid ≡ true
unfolding delete_guild_sql
owns-delete_guild gid uid g db = owns-delete gid uid g db.guilds

-- A transfer of a guild that is there gives it this owner.
pub owns-new_owner :
    (gid owner uid : ℕ) (gs : List Guild)
    → any (λ o. (o.id == gid) && not o.deleted) gs ≡ true
    → owns (update (λ o. o.id == gid) (λ o. record o { owner_id = owner }) gs) gid uid
      ≡ (owner == uid)
unfolding owns update any
owns-new_owner gid owner uid [] h = ground (arith, h)
owns-new_owner gid owner uid (o ∷ gs) h = ground (arith, h, owns-new_owner gid owner uid gs)
