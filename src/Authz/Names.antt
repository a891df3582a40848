-- ===== src/Authz/Names.antt =====
-- internal/shared/authz/client.go: the names of permissions and of relations, and the prefixed keys
-- of the callers. Relations and permission names are only compared, so they are native strings; ids
-- and keys are byte texts.
use incord.Base.{
  Option, List, [], ◌∷◌, ◌++◌, String, Text, codes, none, some, str_eq, has_prefix, length, drop,
  if◌then◌else◌,
}

abbrev pub user_key : Text → Text
user_key id = codes "user:" ++ id

abbrev pub guild_key : Text → Text
guild_key id = codes "guild:" ++ id

-- strings.TrimPrefix
unfoldable pub trim_prefix : Text → Text → Text
unfolding has_prefix
trim_prefix s prefix = if has_prefix s prefix then drop (length prefix) s else s

-- PermissionRelation, name by relation.
unfoldable pub permission_relation : List (String × String)
permission_relation =
    ("VIEW_CHANNELS", "can_view_channels")
    ∷ ("SEND_MESSAGES", "can_send_messages")
    ∷ ("MANAGE_MESSAGES", "can_manage_messages")
    ∷ ("MANAGE_CHANNELS", "can_manage_channels")
    ∷ ("MANAGE_GUILD", "can_manage_guild")
    ∷ ("KICK_MEMBERS", "can_kick")
    ∷ ("BAN_MEMBERS", "can_ban")
    ∷ ("MANAGE_ROLES", "can_manage_roles")
    ∷ ("MANAGE_INVITES", "can_manage_invites")
    ∷ ("ADD_REACTIONS", "can_add_reactions")
    ∷ ("CONNECT", "can_connect")
    ∷ ("SPEAK", "can_speak")
    ∷ ("STREAM", "can_stream")
    ∷ ("MUTE_MEMBERS", "can_mute_members")
    ∷ ("DEAFEN_MEMBERS", "can_deafen_members")
    ∷ ("MENTION_EVERYONE", "can_mention_everyone")
    ∷ ("MANAGE_EMOJIS", "can_manage_emojis")
    ∷ ("MANAGE_WEBHOOKS", "can_manage_webhooks")
    ∷ ("VIEW_AUDIT_LOG", "can_view_audit_log")
    ∷ ("VIEW_GUILD_INSIGHTS", "can_view_guild_insights")
    ∷ ("MANAGE_NICKNAMES", "can_manage_nicknames")
    ∷ ("CHANGE_NICKNAME", "can_change_nickname")
    ∷ ("CREATE_GUILD_EXPRESSIONS", "can_create_guild_expressions")
    ∷ ("MODERATE_MEMBERS", "can_moderate_members")
    ∷ ("VIEW_CREATOR_MONETIZATION_ANALYTICS", "can_view_monetization")
    ∷ ("SEND_TTS_MESSAGES", "can_send_tts")
    ∷ ("EMBED_LINKS", "can_embed_links")
    ∷ ("ATTACH_FILES", "can_attach_files")
    ∷ ("READ_MESSAGE_HISTORY", "can_read_message_history")
    ∷ ("USE_EXTERNAL_EMOJIS", "can_use_external_emojis")
    ∷ ("USE_EXTERNAL_STICKERS", "can_use_external_stickers")
    ∷ ("USE_EXTERNAL_SOUNDS", "can_use_external_sounds")
    ∷ ("USE_EXTERNAL_APPS", "can_use_external_apps")
    ∷ ("PRIORITY_SPEAKER", "can_priority_speaker")
    ∷ ("MOVE_MEMBERS", "can_move_members")
    ∷ ("USE_VAD", "can_use_vad")
    ∷ ("REQUEST_TO_SPEAK", "can_request_to_speak")
    ∷ ("USE_SOUNDBOARD", "can_use_soundboard")
    ∷ ("USE_EMBEDDED_ACTIVITIES", "can_use_embedded_activities")
    ∷ ("SEND_VOICE_MESSAGES", "can_send_voice_messages")
    ∷ ("SEND_POLLS", "can_send_polls")
    ∷ ("PIN_MESSAGES", "can_pin_messages")
    ∷ ("BYPASS_SLOWMODE", "can_bypass_slowmode")
    ∷ ("CREATE_PUBLIC_THREADS", "can_create_public_threads")
    ∷ ("CREATE_PRIVATE_THREADS", "can_create_private_threads")
    ∷ ("SEND_MESSAGES_IN_THREADS", "can_send_messages_in_threads")
    ∷ ("MANAGE_THREADS", "can_manage_threads")
    ∷ ("CREATE_EVENTS", "can_create_events")
    ∷ ("MANAGE_EVENTS", "can_manage_events")
    ∷ ("ADMINISTRATOR", "admin")
    ∷ []

-- The second halves of the pairs whose first half is the key: a lookup in the map.
unfoldable pub assoc : String → List (String × String) → Option String
assoc k [] = none
assoc k ((j, v) ∷ m) = if str_eq j k then some v else assoc k m

-- The loop that builds `relationToName`: every pair, turned round.
unfoldable pub invert : List (String × String) → List (String × String)
invert [] = []
invert ((name, rel) ∷ m) = (rel, name) ∷ invert m

unfoldable pub relation_to_name : String → Option String
unfolding permission_relation assoc invert
relation_to_name rel = assoc rel (invert permission_relation)
