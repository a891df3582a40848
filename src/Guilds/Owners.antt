-- ===== src/Guilds/Owners.antt =====
-- internal/features/guild/service.go: the owner of a live guild is a member of it.
use mathlib.Core.Path.{subst}
use incord.Authz.Tables.{Db, Guild}
use incord.Guilds.{Env, State, Query}
use incord.Guilds.Rows.{Tables, Member, add_member_row, get_guild_sql}
use incord.Guilds.Changes.{
  Change, Changes-keeps, IsRowOf, roles, rename, transfer, close, found, found_empty, leave, ban,
  unban, invite, join, use_invite, log_use,
}
use incord.Guilds.Requests.{Step, handle, serve}
use incord.Guilds.Implements.{Lifts, handle-Changes}
use incord.Guilds.RowLaws.{is_in, is_same, is_in-remove, is_in-add, get_member-is_in}
use incord.Guilds.GuildLaws.{
  owns, get_guild-owns, owns-append, owns-update, owns-transfer, owns-delete_guild,
  update_guild-rows, transfer-rows, create_guild-rows, create_guild-same,
}
use incord.Base.{
  ℕ, ◌≡◌, refl, sym, ap, ◌∙◌, true, false, ◌||◌, some, List, [], ◌∷◌, ◌++◌, any, All, arith, ◌==◌,
}

-- Every live guild has its owner as a live member.
abbrev pub IsLed : Tables → Type 0
IsLed t = (gid uid : ℕ) → owns t.db.guilds gid uid ≡ true → is_in t.members gid uid ≡ true

-- A new row leaves nobody out.
add-keeps :
    (a b g u : ℕ) (ms ms' : List Member) (db : Db) (m : Member)
    → IsRowOf a b m
    → add_member_row db ms m ≡ some ms'
    → is_in ms' g u ≡ (is_same a b g u || is_in ms g u)
add-keeps a b g u ms ms' db m (e, f, live) h =
    let added : is_in ms' g u ≡ (is_same m.guild_id m.user_id g u || is_in ms g u) =
      is_in-add db ms ms' m g u h live in
    added ∙ rw (e, f)

-- Who is one of two is either.
is_in-same :
    (a b g u : ℕ) (ms : List Member)
    → is_same a b g u ≡ true
    → is_in ms a b ≡ true
    → is_in ms g u ≡ true
is_in-same a b g u ms e h =
    let p : a ≡ g = ground arith in
    let q : b ≡ u = ground arith in
    subst (λ x. is_in ms x u ≡ true) p (subst (λ y. is_in ms a y ≡ true) q h)

owns-same :
    (g u gid uid : ℕ) (gs : List Guild) → is_same g u gid uid ≡ true → owns gs gid uid ≡ owns gs g u
owns-same g u gid uid gs e =
    let p : g ≡ gid = ground arith in let q : u ≡ uid = ground arith in rw (p, q)

founder_or_old :
    (gid uid : ℕ) (x : Guild) (a : ℕ) (ms : List Member) (gs : List Guild)
    → a ≡ x.id
    → any (λ o. o.id == x.id) gs ≡ false
    → (owns gs gid uid ≡ true → is_in ms gid uid ≡ true)
    → owns (gs ++ x ∷ []) gid uid ≡ true
    → (is_same a x.owner_id gid uid || is_in ms gid uid) ≡ true
founder_or_old gid uid x a ms gs e fresh led k =
    ground (arith, e, k, led, owns-append gid uid gs x fresh)

Change-IsLed :
    (env : Env) (Lifted : ℕ → ℕ → Type 0) (t t' : Tables)
    → env.fails Query.add_guild_member ≡ false
    → Change env Lifted t t'
    → IsLed t
    → IsLed t'
Change-IsLed env Lifted t t' up (roles s) led gid uid h =
    led gid uid (ap (λ gs. owns gs gid uid) (sym s.0) ∙ h)
Change-IsLed env Lifted t t' up (rename g p x e) led gid uid h =
    update_guild-rows t.db _ x (λ gs. owns gs gid uid ≡ true → is_in t.members gid uid ≡ true) g p e
      (λ k. led gid uid (sym (owns-update gid uid _ _ t.db.guilds λ o. (refl, refl, refl)) ∙ k)) h
Change-IsLed env Lifted t t' up (transfer g owner m x e d) led gid uid h =
    transfer-rows t.db _ x (λ gs. owns gs gid uid ≡ true → is_in t.members gid uid ≡ true) g owner d
      (λ k. ground (
        arith,
        led gid uid,
        owns-transfer gid uid g owner t.db.guilds k,
        is_in-same g owner gid uid t.members,
        get_member-is_in t.members g owner m e,
      ))
      h
Change-IsLed env Lifted t t' up (close g) led gid uid h =
    led gid uid (owns-delete_guild gid uid g t.db h)
Change-IsLed env Lifted t t' up (found {ms = ms} x x' m d row e) led gid uid h =
    create_guild-rows t.db _ x' (λ gs. owns gs gid uid ≡ true → is_in ms gid uid ≡ true) x d
      (λ fresh k.
        add-keeps x'.id x.owner_id gid uid t.members ms _ m row e
        ∙ founder_or_old gid uid x x'.id t.members t.db.guilds
            (ap (λ o. o.id) (create_guild-same t.db _ x' x d)) fresh (led gid uid) k)
      h
Change-IsLed env Lifted t t' up (found_empty x x' d e) led gid uid h = absurd (clash (sym e ∙ up))
  where
    clash : true ≡ false → ⊥
    clash c = cc
Change-IsLed env Lifted t t' up (leave g u (o, oe, guest)) led gid uid h =
    is_in-remove g u gid uid t.members
    ∙ ground (
      arith,
      led gid uid h,
      h,
      guest,
      get_guild-owns t.db g u o oe,
      owns-same g u gid uid t.db.guilds,
    )
Change-IsLed env Lifted t t' up (ban b guest e) led gid uid h = led gid uid h
Change-IsLed env Lifted t t' up (unban g u lifted) led gid uid h = led gid uid h
Change-IsLed env Lifted t t' up (invite i fresh e) led gid uid h = led gid uid h
Change-IsLed env Lifted t t' up (join code i u m usable free row e) led gid uid h =
    add-keeps i.guild_id u gid uid t.members _ t.db m row e ∙ ground (arith, led gid uid h)
Change-IsLed env Lifted t t' up (use_invite code i usable) led gid uid h = led gid uid h
Change-IsLed env Lifted t t' up log_use led gid uid h = led gid uid h

-- A step in which the row of a new member can be written.
abbrev AddsMembers : Step → Type 0
AddsMembers (env, r) = env.fails Query.add_guild_member ≡ false

serve-IsLed :
    (steps : List Step) (s : State)
    → All AddsMembers steps
    → IsLed s.tables
    → IsLed (serve steps s).tables
unfolding serve
serve-IsLed [] s h led = led
serve-IsLed ((env, r) ∷ rest) s (up, h) led =
    serve-IsLed rest (handle env r s) h (
      Changes-keeps IsLed (λ t t'. Change-IsLed env (Lifts r) t t' up) (handle-Changes env r s) led)

-- The owner of every live guild is a live member of it, after every sequence of calls from tables
-- where this is so, with whatever failures but one: the insertion of a member.
pub owner_is_member :
    (steps : List Step) (s : State) (gid : ℕ) (g : Guild)
    → All AddsMembers steps
    → IsLed s.tables
    → get_guild_sql (serve steps s).tables.db gid ≡ some g
    → is_in (serve steps s).tables.members gid g.owner_id ≡ true
owner_is_member steps s gid g h led there =
    serve-IsLed steps s h led gid g.owner_id
      (get_guild-owns (serve steps s).tables.db gid g.owner_id g there ∙ self g.owner_id)
  where
    self : (n : ℕ) → (n == n) ≡ true
    self n = ground arith
