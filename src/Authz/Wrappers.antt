-- ===== src/Authz/Wrappers.antt =====
-- The typed wrappers of internal/shared/authz/client.go, each a check of its relation.
use incord.Authz.Names.{user_key, guild_key}
use incord.Authz.Pool.{UuidCodec, Pool}
use incord.Authz.Cache.{Cache}
use incord.Authz.Checks.{check, check_channel}
use incord.Base.{ℕ, Bool, Option, String, Text}

module _ (codec : UuidCodec) where
  unfoldable pub can_guild_permission : Option Pool → Text → Text → String → Bool
  can_guild_permission c user_id guild_id relation =
      check codec c (user_key user_id) relation (guild_key guild_id)

  unfoldable pub can_manage_guild : Option Pool → Text → Text → Bool
  can_manage_guild c user_id guild_id =
      check codec c (user_key user_id) "can_manage_guild" (guild_key guild_id)

  unfoldable pub can_kick : Option Pool → Text → Text → Bool
  can_kick c user_id guild_id = check codec c (user_key user_id) "can_kick" (guild_key guild_id)

  unfoldable pub can_ban : Option Pool → Text → Text → Bool
  can_ban c user_id guild_id = check codec c (user_key user_id) "can_ban" (guild_key guild_id)

  unfoldable pub can_manage_roles : Option Pool → Text → Text → Bool
  can_manage_roles c user_id guild_id =
      check codec c (user_key user_id) "can_manage_roles" (guild_key guild_id)

  unfoldable pub can_manage_channels : Option Pool → Text → Text → Bool
  can_manage_channels c user_id guild_id =
      check codec c (user_key user_id) "can_manage_channels" (guild_key guild_id)

  unfoldable pub can_manage_invites : Option Pool → Text → Text → Bool
  can_manage_invites c user_id guild_id =
      check codec c (user_key user_id) "can_manage_invites" (guild_key guild_id)

  unfoldable pub can_add_reactions : Option Pool → Text → Text → Bool
  can_add_reactions c user_id guild_id =
      check codec c (user_key user_id) "can_add_reactions" (guild_key guild_id)

  unfoldable pub can_pin_messages : Option Pool → Text → Text → Bool
  can_pin_messages c user_id guild_id =
      check codec c (user_key user_id) "can_pin_messages" (guild_key guild_id)

  unfoldable pub can_attach_files : Option Pool → Text → Text → Bool
  can_attach_files c user_id guild_id =
      check codec c (user_key user_id) "can_attach_files" (guild_key guild_id)

  unfoldable pub can_mention_everyone : Option Pool → Text → Text → Bool
  can_mention_everyone c user_id guild_id =
      check codec c (user_key user_id) "can_mention_everyone" (guild_key guild_id)

  unfoldable pub can_read_message_history : Option Pool → Text → Text → Bool
  can_read_message_history c user_id guild_id =
      check codec c (user_key user_id) "can_read_message_history" (guild_key guild_id)

  unfoldable pub can_connect : Option Pool → Text → Text → Bool
  can_connect c user_id guild_id =
      check codec c (user_key user_id) "can_connect" (guild_key guild_id)

  unfoldable pub can_speak : Option Pool → Text → Text → Bool
  can_speak c user_id guild_id = check codec c (user_key user_id) "can_speak" (guild_key guild_id)

  unfoldable pub can_stream : Option Pool → Text → Text → Bool
  can_stream c user_id guild_id = check codec c (user_key user_id) "can_stream" (guild_key guild_id)

  unfoldable pub can_mute_members : Option Pool → Text → Text → Bool
  can_mute_members c user_id guild_id =
      check codec c (user_key user_id) "can_mute_members" (guild_key guild_id)

  unfoldable pub can_deafen_members : Option Pool → Text → Text → Bool
  can_deafen_members c user_id guild_id =
      check codec c (user_key user_id) "can_deafen_members" (guild_key guild_id)

  unfoldable pub can_move_members : Option Pool → Text → Text → Bool
  can_move_members c user_id guild_id =
      check codec c (user_key user_id) "can_move_members" (guild_key guild_id)

  unfoldable pub can_view_channel : Option Pool → Cache → ℕ → ℕ → Text → Text → Cache × Bool
  can_view_channel c cache now done user_id channel_id =
      check_channel codec c cache now done user_id channel_id "can_view_channels"

  unfoldable pub can_send_in_channel : Option Pool → Cache → ℕ → ℕ → Text → Text → Cache × Bool
  can_send_in_channel c cache now done user_id channel_id =
      check_channel codec c cache now done user_id channel_id "can_send_messages"

  unfoldable pub can_manage_channel : Option Pool → Cache → ℕ → ℕ → Text → Text → Cache × Bool
  can_manage_channel c cache now done user_id channel_id =
      check_channel codec c cache now done user_id channel_id "can_manage_channels"
