-- ===== src/Guilds/RowLaws.antt =====
-- The rows of members, bans, guilds and invites after the statements of gen/db/guilds.sql.go, as the
-- answers that the queries give.
use mathlib.Core.Path.{subst}
use incord.Authz.Tables.{Db}
use incord.Guilds.Rows.{
  Member, Ban, is_member_key, is_ban_key, guild_exists, user_exists, add_member_row,
  remove_member_row, get_member, get_ban, create_ban_row, delete_ban_row,
}
use incord.Authz.Exec.{if-some}
use incord.Base.{
  ℕ, ◌≡◌, refl, sym, ap, ◌∙◌, Bool, true, false, not, ◌&&◌, ◌||◌, Option, none, some, List, [], ◌∷◌,
  ◌++◌, any, first, update, any-append, Bool-cases, inl, inr, arith, ◌==◌, Text,
}

-- The guild has the user as a live member.
abbrev pub is_in : List Member → ℕ → ℕ → Bool
is_in ms gid uid = any (λ m. is_member_key gid uid m && not m.deleted) ms

-- The user is banned from the guild.
abbrev pub is_banned : List Ban → ℕ → ℕ → Bool
is_banned bs gid uid = any (λ b. is_ban_key gid uid b && not b.deleted) bs

abbrev pub is_same : ℕ → ℕ → ℕ → ℕ → Bool
is_same g u a b = (g == a) && (u == b)

abbrev pub has_some : {A : Type 0} → Option A → Bool
has_some none = false
has_some (some a) = true

-- A query of one row finds a row where one is.
pub first-any : {A : Type 0} → (p : A → Bool) (xs : List A) → has_some (first p xs) ≡ any p xs
unfolding first any
first-any p [] = refl
first-any p (x ∷ xs) = elim (Bool-cases (p x)) [ inl e ↦ rw e | inr e ↦ rw (e, first-any p xs) ]

pub get_member-is_in :
    (ms : List Member) (gid uid : ℕ) (m : Member)
    → get_member ms gid uid ≡ some m
    → is_in ms gid uid ≡ true
unfolding get_member
get_member-is_in ms gid uid m h = sym (first-any _ ms) ∙ ap has_some h

pub get_ban-is_banned :
    (bs : List Ban) (gid uid : ℕ) → get_ban bs gid uid ≡ none → is_banned bs gid uid ≡ false
unfolding get_ban
get_ban-is_banned bs gid uid h = sym (first-any _ bs) ∙ ap has_some h

module _ (gid uid g u : ℕ) where
  pub is_in-remove :
      (ms : List Member)
      → is_in (remove_member_row ms gid uid) g u ≡ (not (is_same gid uid g u) && is_in ms g u)
  unfolding remove_member_row any update
  is_in-remove [] = ground arith
  is_in-remove (m ∷ ms) = ground (arith, is_in-remove ms)

  pub is_banned-revive :
      (bs : List Ban) (reason : Text)
      → is_banned bs g u ≡ true
      → is_banned
          (update (is_ban_key gid uid) (λ o. record o { deleted = false; reason = reason }) bs)
          g
          u
        ≡ true
  unfolding any update
  is_banned-revive [] reason h = ground arith
  is_banned-revive (b ∷ bs) reason h = ground (arith, is_banned-revive bs reason)

  pub is_banned-delete :
      (bs : List Ban)
      → is_banned (delete_ban_row bs gid uid) g u ≡ (not (is_same gid uid g u) && is_banned bs g u)
  unfolding delete_ban_row any update
  is_banned-delete [] = ground arith
  is_banned-delete (b ∷ bs) = ground (arith, is_banned-delete bs)

module _ (m : Member) (g u : ℕ) where
  abbrev renewed : Member → Member
  renewed o = record o {
    deleted = false;
    nickname = m.nickname;
    invite_code = m.invite_code;
    invited_by = m.invited_by;
  }

  is_in-renew_other :
      (ms : List Member)
      → is_same m.guild_id m.user_id g u ≡ false
      → is_in (update (is_member_key m.guild_id m.user_id) renewed ms) g u ≡ is_in ms g u
  unfolding any update
  is_in-renew_other [] h = ground arith
  is_in-renew_other (o ∷ ms) h = ground (arith, is_in-renew_other ms h)

  is_in-renew :
      (ms : List Member)
      → any (is_member_key m.guild_id m.user_id) ms ≡ true
      → is_in (update (is_member_key m.guild_id m.user_id) renewed ms) g u
        ≡ (is_same m.guild_id m.user_id g u || is_in ms g u)
  unfolding any update
  is_in-renew [] h = ground arith
  is_in-renew (o ∷ ms) h = ground (arith, is_in-renew ms, is_in-renew_other ms)

is_in-one :
    (m : Member) (g u : ℕ)
    → m.deleted ≡ false
    → is_in (m ∷ []) g u ≡ is_same m.guild_id m.user_id g u
unfolding any
is_in-one m g u live = ground (arith, live)

abbrev the : {A : Type 0} → A → Option A → A
the d none = d
the d (some a) = a

some-eq : {A : Type 0} → (a b : A) → some a ≡ some b → a ≡ b
some-eq a b e = ap (the a) e

-- The row of a member brings this user into this guild, and nobody else.
pub is_in-add :
    (db : Db) (ms ms' : List Member) (m : Member) (g u : ℕ)
    → add_member_row db ms m ≡ some ms'
    → m.deleted ≡ false
    → is_in ms' g u ≡ (is_same m.guild_id m.user_id g u || is_in ms g u)
unfolding add_member_row
is_in-add db ms ms' m g u h live = elim (Bool-cases (any (is_member_key m.guild_id m.user_id) ms)) [
  | inl old ↦
      subst (λ xs. is_in xs g u ≡ (is_same m.guild_id m.user_id g u || is_in ms g u))
        (some-eq _ ms' (rw old at h)) (is_in-renew m g u ms old)
  | inr new ↦
      subst (λ xs. is_in xs g u ≡ (is_same m.guild_id m.user_id g u || is_in ms g u))
        (if-some (guild_exists db m.guild_id && user_exists db m.user_id) (ms ++ m ∷ []) ms'
          (rw new at h))
        (ground (
          arith,
          any-append (λ o. is_member_key g u o && not o.deleted) ms (m ∷ []),
          is_in-one m g u live,
        ))
]

-- A ban takes no other ban away.
pub is_banned-create :
    (db : Db) (bs bs' : List Ban) (b : Ban) (g u : ℕ)
    → create_ban_row db bs b ≡ some bs'
    → is_banned bs g u ≡ true
    → is_banned bs' g u ≡ true
unfolding create_ban_row
is_banned-create db bs bs' b g u h old =
    elim (Bool-cases (any (is_ban_key b.guild_id b.user_id) bs)) [
      | inl e ↦
          subst (λ xs. is_banned xs g u ≡ true) (some-eq _ bs' (rw e at h))
            (is_banned-revive b.guild_id b.user_id g u bs b.reason old)
      | inr e ↦
          subst (λ xs. is_banned xs g u ≡ true)
            (if-some (guild_exists db b.guild_id && user_exists db b.user_id) (bs ++ b ∷ []) bs'
              (rw e at h))
            (ground (arith, old, any-append (λ o. is_ban_key g u o && not o.deleted) bs (b ∷ [])))
    ]

is_banned-renew :
    (gid uid : ℕ) (bs : List Ban) (reason : Text)
    → any (is_ban_key gid uid) bs ≡ true
    → is_banned
        (update (is_ban_key gid uid) (λ o. record o { deleted = false; reason = reason }) bs)
        gid
        uid
      ≡ true
unfolding any update
is_banned-renew gid uid [] reason h = cc
is_banned-renew gid uid (b ∷ bs) reason h = ground (arith, h, is_banned-renew gid uid bs reason)

is_banned-one : (b : Ban) → b.deleted ≡ false → is_banned (b ∷ []) b.guild_id b.user_id ≡ true
unfolding any
is_banned-one b live = ground (arith, live)

-- A ban bans.
pub is_banned-new :
    (db : Db) (bs bs' : List Ban) (b : Ban)
    → create_ban_row db bs b ≡ some bs'
    → b.deleted ≡ false
    → is_banned bs' b.guild_id b.user_id ≡ true
unfolding create_ban_row
is_banned-new db bs bs' b h live = elim (Bool-cases (any (is_ban_key b.guild_id b.user_id) bs)) [
  | inl e ↦
      subst (λ xs. is_banned xs b.guild_id b.user_id ≡ true) (some-eq _ bs' (rw e at h))
        (is_banned-renew b.guild_id b.user_id bs b.reason e)
  | inr e ↦
      subst (λ xs. is_banned xs b.guild_id b.user_id ≡ true)
        (if-some (guild_exists db b.guild_id && user_exists db b.user_id) (bs ++ b ∷ []) bs'
          (rw e at h))
        (ground (
          arith,
          any-append (λ o. is_ban_key b.guild_id b.user_id o && not o.deleted) bs (b ∷ []),
          is_banned-one b live,
        ))
]
