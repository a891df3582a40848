-- ===== src/Guilds/Assets.antt =====
-- internal/features/guild/service.go: the icon and the banner of a guild. The object store and its
-- signer are parameters, `none` where they are not set.
use incord.Authz.Tables.{Guild}
use incord.Authz.Wrappers.{can_manage_guild}
use incord.Guilds
use incord.Guilds.{Env, Call, Query, GuildError, statement, permitted, publish_guild_event, id_text}
use incord.Guilds.Rows.{GuildParams, update_guild_sql}
use incord.Guilds.Membership.{on_db}
use incord.Base.{
  ℕ, Bool, true, false, ◌||◌, Option, none, some, List, [], ◌∷◌, ◌++◌, String, Text, codes, length,
  any, ltb, text_eq, has_prefix, if◌then◌else◌,
}
use incord.Base.Action.{◌>>=◌, ◌>>◌, pure, raise, raise_if, raise_unless}

abbrev pub is_empty : Text → Bool
is_empty [] = true
is_empty (c ∷ t) = false

unfoldable pub build_invite_url : Text → Text → Text
build_invite_url base code =
    if is_empty base || is_empty code then [] else base ++ codes "/" ++ code

-- Some data written before was a full URL.
abbrev pub is_full_url : Text → Bool
is_full_url key = has_prefix key (codes "http://") || has_prefix key (codes "https://")

abbrev signed_or_empty : Option Text → Text
signed_or_empty none = []
signed_or_empty (some url) = url

abbrev signed : Option (Text → Option Text) → Text → Text
signed none key = []
signed (some sign) key = signed_or_empty (sign key)

unfoldable pub resolve_guild_asset_url : Option (Text → Option Text) → Text → Text
resolve_guild_asset_url signer key =
    if is_empty key then [] else if is_full_url key then key else signed signer key

abbrev pub max_guild_icon_size : ℕ
max_guild_icon_size = 5_242_880

abbrev pub max_guild_banner_size : ℕ
max_guild_banner_size = 10_485_760

unfoldable pub allowed_icon_content_types : List Text
allowed_icon_content_types =
    codes "image/jpeg" ∷ codes "image/png" ∷ codes "image/gif" ∷ codes "image/webp" ∷ []

abbrev pub no_params : GuildParams
no_params = record { name = none; description = none; icon_url = none; banner_url = none }

module _ (env : Env) (put : Option (Text → Text → Text → Bool))
    (signer : Option (Text → Option Text)) (drawn : Text) where
  abbrev pub object_key : Text → ℕ → Text → Text
  object_key kind gid filename =
      codes "guilds/" ++ id_text env gid ++ codes "/" ++ kind ++ drawn ++ codes "_" ++ filename

  -- `put` is given the key, the content type and the bytes.
  abbrev pub store : (Text → Text → Text → Bool) → Text → Text → Text → Call (Unit {0})
  store put key content_type bytes = raise_unless (put key content_type bytes) GuildError.failed

  abbrev pub storage : Option (Text → Text → Text → Bool) → Call (Text → Text → Text → Bool)
  storage none = raise GuildError.failed
  storage (some put) = pure put

  -- What the two uploads share.
  abbrev pub upload :
      Text → ℕ → (Text → GuildParams) → String → ℕ → ℕ → Text → Text → Text → Call (Guild × Text)
  upload kind max params extra caller gid filename content_type bytes = do
    p ← storage put
    permitted env (λ c. can_manage_guild env.codec c (id_text env caller) (id_text env gid))
    raise_if (is_empty bytes) GuildError.failed
    raise_if (ltb max (length bytes)) GuildError.failed
    raise_unless (any (text_eq content_type) allowed_icon_content_types) GuildError.failed
    let key : Text = object_key kind gid filename
    store p key content_type bytes
    g ← statement env Query.update_guild (λ t. on_db t (update_guild_sql t.db gid (params key)))
    let url : Text = resolve_guild_asset_url signer key
    publish_guild_event env gid Guilds.EventKind.update ((extra, url) ∷ [])
    pure (g, url)

  unfoldable pub upload_guild_icon : ℕ → ℕ → Text → Text → Text → Call (Guild × Text)
  unfolding resolve_guild_asset_url allowed_icon_content_types any
  upload_guild_icon =
      upload (codes "icon_") max_guild_icon_size (λ key. record no_params { icon_url = some key })
        "icon_url"

  unfoldable pub upload_guild_banner : ℕ → ℕ → Text → Text → Text → Call (Guild × Text)
  unfolding resolve_guild_asset_url allowed_icon_content_types any
  upload_guild_banner =
      upload (codes "banner_") max_guild_banner_size
        (λ key. record no_params { banner_url = some key }) "banner_url"
