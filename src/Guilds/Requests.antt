-- ===== src/Guilds/Requests.antt =====
-- internal/features/guild/service.go: the calls that change state, as requests, and a server that
-- answers them one after the other.
use incord.Guilds.{Env, State}
use incord.Guilds.Rows.{GuildParams, RoleParams}
use incord.Guilds.Membership
use incord.Guilds.Invites
use incord.Guilds.Moderation
use incord.Guilds.RoleCalls
use incord.Guilds.Assets
use incord.Base.Action.{Answer, ok, err}
use incord.Base.{ℕ, Bool, true, false, Option, List, [], ◌∷◌, Text, String}

pub data Request : Type 0 where
  create_guild : ℕ → Text → Text → Text → Request
  update_guild : ℕ → ℕ → GuildParams → Request
  delete_guild leave_guild : ℕ → ℕ → Request
  join_guild : ℕ → Text → Request
  kick_member unban_member transfer_ownership delete_role : ℕ → ℕ → ℕ → Request
  ban_member : ℕ → ℕ → ℕ → Text → Request
  create_invite : ℕ → ℕ → ℕ → ℕ → ℕ → Request
  create_role : ℕ → ℕ → Text → Text → Request
  update_role : ℕ → ℕ → RoleParams → Request
  assign_role remove_role : ℕ → ℕ → ℕ → ℕ → Request
  grant_role revoke_role : ℕ → ℕ → ℕ → String → Request
  -- The storage, its signer and the drawn part of the key come first.
  upload_guild_icon upload_guild_banner :
      Option (Text → Text → Text → Bool)
      → Option (Text → Option Text)
      → Text
      → ℕ
      → ℕ
      → Text
      → Text
      → Text
      → Request

abbrev pub is_ok : {E A : Type 0} → Answer E A → Bool
is_ok (ok a) = true
is_ok (err e) = false

abbrev reply : {E A : Type 0} → State × Answer E A → State × Bool
reply o = (o.0, is_ok o.1)

-- The state after the call, and whether it returned without error.
unfoldable pub respond : Env → Request → State → State × Bool
respond env (create_guild owner name description icon) s =
    reply (Membership.create_guild env owner name description icon s)
respond env (update_guild caller gid p) s = reply (Membership.update_guild env caller gid p s)
respond env (delete_guild caller gid) s = reply (Membership.delete_guild env caller gid s)
respond env (leave_guild uid gid) s = reply (Moderation.leave_guild env uid gid s)
respond env (join_guild uid code) s = reply (Invites.join_guild env uid code s)
respond env (kick_member caller gid target) s =
    reply (Moderation.kick_member env caller gid target s)
respond env (unban_member caller gid target) s =
    reply (Moderation.unban_member env caller gid target s)
respond env (transfer_ownership caller gid owner) s =
    reply (Moderation.transfer_ownership env caller gid owner s)
respond env (delete_role caller gid rid) s = reply (RoleCalls.delete_role env caller gid rid s)
respond env (ban_member caller gid target reason) s =
    reply (Moderation.ban_member env caller gid target reason s)
respond env (create_invite caller gid channel max_uses age) s =
    reply (Moderation.create_invite env caller gid channel max_uses age s)
respond env (create_role caller gid name color) s =
    reply (RoleCalls.create_role env caller gid name color s)
respond env (update_role caller gid p) s = reply (RoleCalls.update_role env caller gid p s)
respond env (assign_role caller gid target rid) s =
    reply (RoleCalls.assign_role env caller gid target rid s)
respond env (remove_role caller gid target rid) s =
    reply (RoleCalls.remove_role env caller gid target rid s)
respond env (grant_role caller gid rid p) s = reply (RoleCalls.grant_role env caller gid rid p s)
respond env (revoke_role caller gid rid p) s = reply (RoleCalls.revoke_role env caller gid rid p s)
respond env (upload_guild_icon put signer drawn caller gid file type bytes) s =
    reply (Assets.upload_guild_icon env put signer drawn caller gid file type bytes s)
respond env (upload_guild_banner put signer drawn caller gid file type bytes) s =
    reply (Assets.upload_guild_banner env put signer drawn caller gid file type bytes s)

unfoldable pub handle : Env → Request → State → State
unfolding respond
handle env r s = (respond env r s).0

unfoldable pub succeeds : Env → Request → State → Bool
unfolding respond
succeeds env r s = (respond env r s).1

-- The time, the faults and what is drawn differ from call to call.
abbrev pub Step : Type 0
Step = Env × Request

unfoldable pub serve : List Step → State → State
unfolding handle
serve [] s = s
serve ((env, r) ∷ rest) s = serve rest (handle env r s)
