-- ===== src/Authz/Closed.antt =====
-- Without a database the checks of internal/shared/authz/client.go say no.
use incord.Authz.Pool.{
  UuidCodec, Pool, Query, or_else, check_query, owner_or_admin_query, dm_member_query, act_on_query,
  override_query,
}
use incord.Authz.Names.{user_key, guild_key, trim_prefix, relation_to_name}
use incord.Authz.Cache.{Cache, is_empty}
use incord.Authz.Checks.{
  check, check_channel, check_resolved, resolve_channel_guild, is_owner_or_admin, is_dm_member,
  apply_channel_override, can_act_on,
}
use incord.Base.{
  ◌≡◌, refl, Bool, true, false, Option, none, some, ℕ, String, Text, codes, Bool-cases, inl, inr,
}

or_else-false :
    {A : Type 0}
    → (o : Option A) (k : A → Bool) → ((a : A) → k a ≡ false)
    → or_else false o k ≡ false
or_else-false none k h = refl
or_else-false (some a) k h = h a

module _ (codec : UuidCodec) (c : Pool) (down : (q : Query) → c.fails q ≡ true) where
  check_closed :
      (user object : Text) (relation : String) → check codec (some c) user relation object ≡ false
  unfolding check
  check_closed user object relation = or_else-false (relation_to_name relation) _ λ name.
      or_else-false (codec.parse (trim_prefix user (codes "user:"))) _ λ uid.
        or_else-false (codec.parse (trim_prefix object (codes "guild:"))) _
          λ gid. rw (down check_query)

  admin_closed : (user guild : Text) → is_owner_or_admin codec c user guild ≡ false
  unfolding is_owner_or_admin
  admin_closed user guild =
      or_else-false (codec.parse user) _
        λ uid. or_else-false (codec.parse guild) _ λ gid. rw (down owner_or_admin_query)

  dm_closed : (user channel : Text) → is_dm_member codec c user channel ≡ false
  unfolding is_dm_member
  dm_closed user channel =
      or_else-false (codec.parse user) _
        λ uid. or_else-false (codec.parse channel) _ λ ch. rw (down dm_member_query)

  act_closed : (actor target guild : Text) → can_act_on codec (some c) actor target guild ≡ false
  unfolding can_act_on
  act_closed actor target guild = or_else-false (codec.parse actor) _ λ a.
      or_else-false (codec.parse target) _
        λ t. or_else-false (codec.parse guild) _ λ g. rw (down act_on_query)

  override_closed :
      (user guild channel : Text) (relation : String)
      → apply_channel_override codec c user guild channel relation false ≡ false
  unfolding apply_channel_override
  override_closed user guild channel relation = or_else-false (relation_to_name relation) _ λ name.
      or_else-false (codec.parse user) _
        λ uid. or_else-false (codec.parse channel) _ λ ch. rw (down override_query)

  resolved_closed :
      (user channel : Text) (relation : String) (o : Option Text)
      → check_resolved codec c user channel relation o ≡ false
  unfolding check_resolved
  resolved_closed user channel relation none = refl
  resolved_closed user channel relation (some g) = elim (Bool-cases (is_empty g)) [
    | inl e ↦ rw (e, dm_closed user channel)
    | inr f ↦ rw (
      f,
      admin_closed user g,
      check_closed (user_key user) (guild_key g) relation,
      override_closed user g channel relation,
    )
  ]

-- When every query fails, a client that is there refuses every check of a guild, of a channel
-- (whatever its cache holds) and of the role hierarchy.
pub fails_closed :
    (codec : UuidCodec) (c : Pool) (cache : Cache) (now done : ℕ)
    (user object channel target : Text) (relation : String)
    → ((q : Query) → c.fails q ≡ true)
    → (check codec (some c) user relation object ≡ false)
      × ((check_channel codec (some c) cache now done user channel relation).1 ≡ false)
      × (can_act_on codec (some c) user target object ≡ false)
unfolding check_channel
fails_closed codec c cache now done user object channel target relation down = (
  check_closed codec c down user object relation,
  resolved_closed codec c down user channel relation
      (resolve_channel_guild codec c cache channel now done).1,
  act_closed codec c down user target object,
)
