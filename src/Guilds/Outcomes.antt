-- ===== src/Guilds/Outcomes.antt =====
-- internal/features/guild/service.go: what a call that succeeds has found and done.
use mathlib.Core.Path.{subst}
use incord.Guilds.{State, Env, Query, Call}
use incord.Guilds.Rows.{
  Tables, Member, Invite, get_member, get_ban, get_guild_sql, count_members, add_member_row,
}
use incord.Guilds.Rules.{
  Outcome, Shows, with_tables, resume, call_then, pure_lem, statement_lem, publish_lem,
}
use incord.Guilds.Chains.{lookup_then, attempt_then, statement_then}
use incord.Guilds.Changes.{IsUsable}
use incord.Guilds.Inversion.{some-case, with_members-case, row-case}
use incord.Guilds.Invites.{
  JoinResult, join_guild, admit, welcome, count_use, record_use, build_join_result, invited,
}
use incord.Guilds.Joining.{usable_invite_then, refuse_banned_then}
use incord.Guilds.RowLaws.{is_in, is_banned, is_in-add, get_member-is_in, get_ban-is_banned}
use incord.Guilds.Traces.{
  Stays, Sure, KeptByRoles, Sure-then, sure_lem, ignore-Sure, assign_everyone_role-Sure,
}
use incord.Base.{ℕ, ◌≡◌, refl, ◌∙◌, true, false, none, some, List, Text, arith}
use incord.Base.Action.{ok, err, ◌>>=◌}

-- The property holds of the value and of the state, if there is a value.
abbrev pub OnOk : {A : Type 0} → (A → State → Type 0) → Outcome A → Type 0
OnOk Q (s, ok a) = Q a s
OnOk Q (s, err e) = Unit

pub on_ok :
    {A : Type 0}
    → (Q : A → State → Type 0) (m : Call A) (s s' : State) (a : A) → Shows (OnOk Q) m s
    → ◌≡◌ {A = Outcome A} (m s) (s', ok a)
    → Q a s'
on_ok Q m s s' a h e = subst (OnOk Q) e h.holds

module _ (env : Env) (uid : ℕ) (gid : ℕ) where
  abbrev Inside : Tables → Type 0
  Inside t = is_in t.members gid uid ≡ true

  inside : KeptByRoles Inside
  inside t db e h = h

  count_use-Inside :
      (i : Invite) (s : State) → Inside s.tables → Shows (Stays Inside) (count_use env i) s
  count_use-Inside i s h = statement_lem env _ _ h λ t a e. some-case (λ t' a'. Inside t') e h

  record_use-Inside :
      (i : Invite) (s : State) → Inside s.tables → Shows (Stays Inside) (record_use env i uid) s
  record_use-Inside i s h = statement_lem env _ _ h λ t a e. row-case Inside _ e h

  -- Whoever is in when the welcome begins is in when it ends.
  welcome-Inside :
      (i : Invite) (s : State) → Inside s.tables → Shows (Sure Inside) (welcome env i uid) s
  welcome-Inside i s h =
      Sure-then env Inside inside (Sure Inside) _ _ s
        (ignore-Sure env Inside inside _ s (count_use-Inside i s h))
        λ a₁ s₁ h₁.
          Sure-then env Inside inside (Sure Inside) _ _ s₁
            (ignore-Sure env Inside inside _ s₁ (record_use-Inside i s₁ h₁))
            λ a₂ s₂ h₂.
              Sure-then env Inside inside (Sure Inside) _ _ s₂
                (assign_everyone_role-Sure env Inside inside i.guild_id uid s₂ h₂)
                λ a₃ s₃ h₃. publish_lem env _ _ _ λ es. h₃

-- What JoinGuild has found before it and what it has done.
abbrev pub Joined : Env → ℕ → Text → State → JoinResult → State → Type 0
Joined env uid code s r s' =
    (i : Invite) × IsUsable env s.tables code i
    × (is_banned s.tables.bans i.guild_id uid ≡ false)
    × (is_in s'.tables.members i.guild_id uid ≡ true)
    × (r.member_count ≡ count_members s'.tables.members i.guild_id)
    × (get_guild_sql s'.tables.db i.guild_id ≡ some r.guild)

module _ (env : Env) (up : env.fails Query.get_ban ≡ false) (uid : ℕ) (code : Text)
    (s : State) where
  module _ (i : Invite) (usable : IsUsable env s.tables code i)
      (free : env.fails Query.get_ban ≡ false → get_ban s.tables.bans i.guild_id uid ≡ none) where
    result-Joined :
        (s' : State)
        → is_in s'.tables.members i.guild_id uid ≡ true
        → Shows (OnOk (Joined env uid code s)) (build_join_result env i.guild_id) s'
    unfolding build_join_result
    result-Joined s' inside = lookup_then env _ _ _ tt λ g ge. lookup_then env _ _ _ tt λ cs ce.
        lookup_then env _ _ _ tt λ n ne. pure_lem _ (
          i,
          usable,
          get_ban-is_banned s.tables.bans i.guild_id uid (free up),
          inside,
          count n ne,
          ge,
        )
      where
        count :
            (n : ℕ)
            → some (count_members s'.tables.members i.guild_id) ≡ some n
            → n ≡ count_members s'.tables.members i.guild_id
        count n e = cc

    admit-Joined :
        Shows
          (OnOk (Joined env uid code s))
          (admit env i uid >>= λ _. build_join_result env i.guild_id)
          s
    unfolding admit
    admit-Joined = call_then _ _ (
        statement_then env _ _ _ tt λ t a e.
          with_members-case
            (λ t' a'.
              Shows
                (λ o.
                  OnOk (Joined env uid code s) (resume (λ _. build_join_result env i.guild_id) o))
                (welcome env i uid) (with_tables s t'))
            s.tables e
            λ ms d.
              sure_lem (Inside env uid i.guild_id) _ (welcome env i uid)
                (with_tables s (record s.tables { members = ms }))
                (welcome-Inside env uid i.guild_id i _ (entered ms d))
                λ a' s' h. (result-Joined s' h).holds)
      where
        entered :
            (ms : List Member)
            → add_member_row s.tables.db s.tables.members (invited env i uid) ≡ some ms
            → is_in ms i.guild_id uid ≡ true
        entered ms d =
            is_in-add s.tables.db s.tables.members ms (invited env i uid) i.guild_id uid d refl
            ∙ ground arith

    member-Joined :
        (m : Member)
        → get_member s.tables.members i.guild_id uid ≡ some m
        → Shows (OnOk (Joined env uid code s)) (build_join_result env i.guild_id) s
    member-Joined m e = result-Joined s (get_member-is_in s.tables.members i.guild_id uid m e)

  join_guild-Shows : Shows (OnOk (Joined env uid code s)) (join_guild env uid code) s
  unfolding join_guild
  join_guild-Shows =
      usable_invite_then env code _ (λ e. tt)
        λ i usable. refuse_banned_then env i.guild_id uid _ tt λ free.
          attempt_then env _ _ _ (λ e. admit-Joined i usable free)
            λ m e. call_then _ _ (pure_lem tt (member-Joined i usable free m e).holds)

-- A call of JoinGuild that succeeds, its lookup of bans not failing, was made with a live invite that
-- had neither run out nor been used up, by a user who was not banned from its guild; afterwards the
-- user is a member of that guild, and the result holds this live guild and its number of members.
pub join_guild-Joined :
    (env : Env) (uid : ℕ) (code : Text) (s s' : State) (r : JoinResult)
    → env.fails Query.get_ban ≡ false
    → ◌≡◌ {A = Outcome JoinResult} (join_guild env uid code s) (s', ok r)
    → Joined env uid code s r s'
join_guild-Joined env uid code s s' r up =
    on_ok (Joined env uid code s) (join_guild env uid code) s s' r
      (join_guild-Shows env up uid code s)
