-- ===== src/Guilds/Changes.antt =====
-- What the calls of internal/features/guild/service.go can do to the tables: an abstract view of the
-- service as changes, with the guards that the invariants need, of which every call makes a
-- sequence.
use incord.Authz.Tables.{Db, Guild}
use incord.Authz.Untouched.{SameGuilds}
use incord.Guilds.{Env, Query}
use incord.Guilds.Rows.{
  Tables, Member, Ban, Invite, InviteUse, GuildParams, create_guild_sql, get_guild_sql,
  update_guild_sql, transfer_sql, delete_guild_sql, add_member_row, remove_member_row, get_member,
  get_ban, create_ban_row, delete_ban_row, create_invite_row, get_invite, increment_uses,
}
use incord.Guilds.Invites.{is_expired, is_used_up}
use incord.Base.{ℕ, ◌≡◌, true, false, none, some, List, Text, ◌==◌}

-- The row of a member is the live one of the two ids.
abbrev pub IsRowOf : ℕ → ℕ → Member → Type 0
IsRowOf gid uid m = (m.guild_id ≡ gid) × (m.user_id ≡ uid) × (m.deleted ≡ false)

-- The invite is a live one that has neither run out nor been used up.
abbrev pub IsUsable : Env → Tables → Text → Invite → Type 0
IsUsable env t code i =
    (get_invite t.invites code ≡ some i) × (is_expired env.now i ≡ false) × (is_used_up i ≡ false)

-- The guild is there and the user does not own it.
abbrev pub IsGuest : Tables → ℕ → ℕ → Type 0
IsGuest t gid uid = (g : Guild) × (get_guild_sql t.db gid ≡ some g) × ((g.owner_id == uid) ≡ false)

-- The changes of a server that lifts the bans of `Lifted`, by guild and user.
pub data Change (env : Env) (Lifted : ℕ → ℕ → Type 0) : Tables → Tables → Type 0 where
  -- Roles, who holds them and what they permit.
  roles : {t : Tables} {db : Db} → SameGuilds t.db db → Change env Lifted t (record t { db = db })
  rename :
      {t : Tables} {db : Db}
      → (gid : ℕ) (p : GuildParams) (g : Guild) → update_guild_sql t.db gid p ≡ some (db, g)
      → Change env Lifted t (record t { db = db })
  transfer :
      {t : Tables} {db : Db}
      → (gid owner : ℕ) (m : Member) (g : Guild) → get_member t.members gid owner ≡ some m
      → transfer_sql t.db gid owner ≡ some (db, g)
      → Change env Lifted t (record t { db = db })
  close :
      {t : Tables} → (gid : ℕ) → Change env Lifted t (record t { db = delete_guild_sql t.db gid })
  found :
      {t : Tables} {db : Db} {ms : List Member}
      → (g g' : Guild) (m : Member) → create_guild_sql t.db g ≡ some (db, g')
      → IsRowOf g'.id g.owner_id m
      → add_member_row db t.members m ≡ some ms
      → Change env Lifted t (record t { db = db; members = ms })
  -- The guild alone, when the row of its owner fails.
  found_empty :
      {t : Tables} {db : Db}
      → (g g' : Guild) → create_guild_sql t.db g ≡ some (db, g')
      → env.fails Query.add_guild_member ≡ true
      → Change env Lifted t (record t { db = db })
  leave :
      {t : Tables}
      → (gid uid : ℕ) → IsGuest t gid uid
      → Change env Lifted t (record t { members = remove_member_row t.members gid uid })
  ban :
      {t : Tables} {bs : List Ban}
      → (b : Ban) → IsGuest t b.guild_id b.user_id
      → create_ban_row t.db t.bans b ≡ some bs
      → Change env Lifted t (record t { bans = bs })
  unban :
      {t : Tables}
      → (gid uid : ℕ) → Lifted gid uid
      → Change env Lifted t (record t { bans = delete_ban_row t.bans gid uid })
  invite :
      {t : Tables} {is : List Invite}
      → (i : Invite) → i.uses ≡ 0
      → create_invite_row t.db t.invites i ≡ some is
      → Change env Lifted t (record t { invites = is })
  join :
      {t : Tables} {ms : List Member}
      → (code : Text) (i : Invite) (uid : ℕ) (m : Member) → IsUsable env t code i
      → (env.fails Query.get_ban ≡ false → get_ban t.bans i.guild_id uid ≡ none)
      → IsRowOf i.guild_id uid m
      → add_member_row t.db t.members m ≡ some ms
      → Change env Lifted t (record t { members = ms })
  use_invite :
      {t : Tables}
      → (code : Text) (i : Invite) → IsUsable env t code i
      → Change env Lifted t (record t { invites = increment_uses t.invites i.code })
  log_use : {t : Tables} {us : List InviteUse} → Change env Lifted t (record t { invite_uses = us })

infixl 4 ◌▷◌
-- A sequence of changes.
pub data Changes (env : Env) (Lifted : ℕ → ℕ → Type 0) : Tables → Tables → Type 0 where
  same : {t : Tables} → Changes env Lifted t t
  ◌▷◌ : {t u v : Tables} → Changes env Lifted t u → Change env Lifted u v → Changes env Lifted t v

-- What every change keeps, every sequence keeps.
pub Changes-keeps :
    {env : Env} {Lifted : ℕ → ℕ → Type 0} {t u : Tables}
    → (P : Tables → Type 0) → ((v w : Tables) → Change env Lifted v w → P v → P w)
    → Changes env Lifted t u
    → P t
    → P u
Changes-keeps P step same p = p
Changes-keeps P step (cs ▷ c) p = step _ _ c (Changes-keeps P step cs p)
