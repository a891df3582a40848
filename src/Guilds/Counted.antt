-- ===== src/Guilds/Counted.antt =====
-- internal/features/guild/service.go: every member who joins by an invite is counted.
use incord.Guilds.{State, Env, Query}
use incord.Guilds.Rows.{Tables, Invite, get_invite}
use incord.Guilds.RowLaws.{is_in}
use incord.Base.{ℕ, ◌≡◌, ◌+◌, true, false, Option, none, some, Text, ◌⊎◌}

abbrev invite_or : Invite → Option Invite → Invite
invite_or d none = d
invite_or d (some i) = i

-- The live invite of the code is there before; afterwards it has been used once more, or it is as it
-- was and the user had been a member of its guild.
abbrev pub Counted : ℕ → Text → Tables → State → Type 0
Counted uid code t s' =
    (i : Invite) × (get_invite t.invites code ≡ some i)
    × (((is_in t.members i.guild_id uid ≡ true) × (s'.tables.invites ≡ t.invites))
        ⊎ (get_invite s'.tables.invites code ≡ some (record i { uses = i.uses + 1 })))

module _ (env : Env) (up : env.fails Query.increment_invite_uses ≡ false) (uid : ℕ) (code : Text)
    (s : State) where
  module _ (i : Invite) (found : get_invite s.tables.invites code ≡ some i) where
    abbrev Plus : Tables → Type 0
    Plus t = get_invite t.invites code ≡ some (record i { uses = i.uses + 1 })
