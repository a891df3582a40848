-- ===== src/Guilds/Bans.antt =====
-- internal/features/guild/service.go: a user who is banned and no member stays out of the guild.
use mathlib.Core.Path.{subst}
use incord.Authz.Tables.{Db}
use incord.Guilds.{Env, State, Query}
use incord.Guilds.Rows.{Tables, Member, add_member_row}
use incord.Guilds.Changes.{
  Change, Changes-keeps, IsRowOf, roles, rename, transfer, close, found, found_empty, leave, ban,
  unban, invite, join, use_invite, log_use,
}
use incord.Guilds.Requests.{Step, handle, serve}
use incord.Guilds.Implements.{Lifts, handle-Changes}
use incord.Guilds.RowLaws.{
  is_in, is_banned, is_same, is_in-remove, is_in-add, is_banned-create, is_banned-delete,
  get_ban-is_banned,
}
use incord.Guilds.GuildLaws.{
  exists-update, update_guild-rows, transfer-rows, create_guild-same, create_guild-fresh,
  exists-create, exists-delete, fresh-differs,
}
use incord.Base.{
  ℕ, ◌≡◌, refl, sym, ap, ◌∙◌, Bool, true, false, ◌||◌, some, List, [], ◌∷◌, any, All, arith, ◌==◌,
}

-- The user is banned from a guild that is there, and no member of it.
abbrev pub IsOut : ℕ → ℕ → Tables → Type 0
IsOut g u t =
    (any (λ o. o.id == g) t.db.guilds ≡ true)
    × (is_banned t.bans g u ≡ true)
    × (is_in t.members g u ≡ false)

module _ (g u : ℕ) where
  -- The row of another member, or of this one in another guild, changes nothing.
  add-other :
      (a b : ℕ) (ms ms' : List Member) (db : Db) (m : Member)
      → IsRowOf a b m
      → is_same a b g u ≡ false
      → add_member_row db ms m ≡ some ms'
      → is_in ms g u ≡ false
      → is_in ms' g u ≡ false
  add-other a b ms ms' db m (e, f, live) differs h out =
      let added : is_in ms' g u ≡ (is_same m.guild_id m.user_id g u || is_in ms g u) =
        is_in-add db ms ms' m g u h live in
      added ∙ ground (arith, e, f, differs, out)

  Change-IsOut :
      (env : Env) (Lifted : ℕ → ℕ → Type 0) (t t' : Tables)
      → env.fails Query.get_ban ≡ false
      → ¬ (Lifted g u)
      → Change env Lifted t t'
      → IsOut g u t
      → IsOut g u t'
  Change-IsOut env Lifted t t' up kept (roles s) (there, banned, out) =
      (ap (any (λ o. o.id == g)) s.0 ∙ there, banned, out)
  Change-IsOut env Lifted t t' up kept (rename gid p x e) (there, banned, out) = (
    update_guild-rows t.db _ x (λ gs. any (λ o. o.id == g) gs ≡ true) gid p e
        (exists-update _ _ g t.db.guilds (λ o. refl) ∙ there),
    banned,
    out,
  )
  Change-IsOut env Lifted t t' up kept (transfer gid owner m x e d) (there, banned, out) = (
    transfer-rows t.db _ x (λ gs. any (λ o. o.id == g) gs ≡ true) gid owner d
        (exists-update _ _ g t.db.guilds (λ o. refl) ∙ there),
    banned,
    out,
  )
  Change-IsOut env Lifted t t' up kept (close gid) (there, banned, out) =
      (exists-delete g gid t.db ∙ there, banned, out)
  Change-IsOut env Lifted t t' up kept (found x x' m d row e) (there, banned, out) =
      let same : x' ≡ x = create_guild-same t.db _ x' x d in
      let differs = fresh-differs x.id g t.db.guilds (create_guild-fresh t.db _ x' x d) there in
      (
        exists-create g t.db _ x' x d there,
        banned,
        add-other x'.id x.owner_id t.members _ _ m row (rw (same, differs)) e out,
      )
  Change-IsOut env Lifted t t' up kept (found_empty x x' d e) (there, banned, out) =
      (exists-create g t.db _ x' x d there, banned, out)
  Change-IsOut env Lifted t t' up kept (leave gid uid guest) (there, banned, out) =
      (there, banned, ground (arith, out, is_in-remove gid uid g u t.members))
  Change-IsOut env Lifted t t' up kept (ban b guest e) (there, banned, out) =
      (there, is_banned-create t.db t.bans _ b g u e banned, out)
  Change-IsOut env Lifted t t' up kept (unban gid uid lifted) (there, banned, out) = (
    there,
    is_banned-delete gid uid g u t.bans ∙ ground (arith, banned, other (is_same gid uid g u) refl),
    out,
  )
    where
      other : (b : Bool) → is_same gid uid g u ≡ b → is_same gid uid g u ≡ false
      other true e =
          let a : gid ≡ g = ground arith in
          let c : uid ≡ u = ground arith in
          absurd (kept (subst (λ x. Lifted x u) a (subst (Lifted gid) c lifted)))
      other false e = e
  Change-IsOut env Lifted t t' up kept (invite i fresh e) h = h
  Change-IsOut env Lifted t t' up kept (join code i uid m usable free row e) (there, banned, out) =
      (
        there,
        banned,
        add-other i.guild_id uid t.members _ t.db m row (other (is_same i.guild_id uid g u) refl) e
            out,
      )
    where
      clash : true ≡ false → ⊥
      clash c = cc

      other : (b : Bool) → is_same i.guild_id uid g u ≡ b → is_same i.guild_id uid g u ≡ false
      other true e' =
          let a : i.guild_id ≡ g = ground arith in
          let c : uid ≡ u = ground arith in
          absurd (
            clash (
              sym banned
              ∙ subst (λ x. is_banned t.bans x u ≡ false) a
                  (subst (λ y. is_banned t.bans i.guild_id y ≡ false) c
                    (get_ban-is_banned t.bans i.guild_id uid (free up)))))
      other false e' = e'
  Change-IsOut env Lifted t t' up kept (use_invite code i usable) h = h
  Change-IsOut env Lifted t t' up kept log_use h = h

  -- A step whose lookup of the ban answers, and which is no call that lifts it.
  abbrev Respects : Step → Type 0
  Respects (env, r) = (env.fails Query.get_ban ≡ false) × (¬ (Lifts r g u))

  -- A user who is banned from a guild and no member of it is so after every sequence of calls, with
  -- whatever failures, as long as no query of a ban fails and no call lifts this ban.
  pub serve-IsOut :
      (steps : List Step) (s : State)
      → All Respects steps
      → IsOut g u s.tables
      → IsOut g u (serve steps s).tables
  unfolding serve
  serve-IsOut [] s h out = out
  serve-IsOut ((env, r) ∷ rest) s ((up, kept), h) out = serve-IsOut rest (handle env r s) h (
      Changes-keeps (IsOut g u) (λ t t'. Change-IsOut env (Lifts r) t t' up kept)
        (handle-Changes env r s) out)
