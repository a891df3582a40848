-- ===== src/Guilds/Errors.antt =====
-- internal/features/guild/service.go: the calls that leave everything as it is when they return an
-- error.
use incord.Guilds.{State, Env}
use incord.Authz.Writes.{grant_role_permission, revoke_role_permission}
use incord.Guilds.Rules.{Outcome}
use incord.Guilds.Membership.{update_guild, delete_guild}
use incord.Guilds.Moderation.{
  leave_guild, kick_member, unban_member, create_invite, transfer_ownership,
}
use incord.Guilds.RoleCalls.{
  create_role, update_role, delete_role, assign_role, remove_role, grant_role, revoke_role,
}
use incord.Guilds.Assets.{upload_guild_icon, upload_guild_banner, no_params}
use incord.Guilds.Requests.{Request, is_ok, respond, handle, succeeds}
use incord.Base.{◌≡◌, Bool, true, false, some}
use incord.Base.Action.{ok, err}
use incord.Guilds.Atomic.{
  KeepsOnError, update_guild-Atomic, delete_guild-Atomic, leave_guild-Atomic, kick_member-Atomic,
  unban_member-Atomic, create_invite-Atomic, transfer_ownership-Atomic, create_role-Atomic,
  update_role-Atomic, delete_role-Atomic, assign_role-Atomic, remove_role-Atomic,
  change_permission-Atomic, upload-Atomic,
}

-- The calls that write once, and check before.
unfoldable pub is_atomic : Request → Bool
is_atomic (Request.create_guild a b c d) = false
is_atomic (Request.ban_member a b c d) = false
is_atomic (Request.join_guild a b) = false
is_atomic (Request.update_guild a b c) = true
is_atomic (Request.delete_guild a b) = true
is_atomic (Request.leave_guild a b) = true
is_atomic (Request.kick_member a b c) = true
is_atomic (Request.unban_member a b c) = true
is_atomic (Request.transfer_ownership a b c) = true
is_atomic (Request.delete_role a b c) = true
is_atomic (Request.create_invite a b c d e) = true
is_atomic (Request.create_role a b c d) = true
is_atomic (Request.update_role a b c) = true
is_atomic (Request.assign_role a b c d) = true
is_atomic (Request.remove_role a b c d) = true
is_atomic (Request.grant_role a b c d) = true
is_atomic (Request.revoke_role a b c d) = true
is_atomic (Request.upload_guild_icon p q x a b c d e) = true
is_atomic (Request.upload_guild_banner p q x a b c d e) = true

-- From the outcome to the reply.
kept : {A : Type 0} → (s : State) (o : Outcome A) → KeepsOnError s o → is_ok o.1 ≡ false → o.0 ≡ s
kept s (s', ok a) h e = cc
kept s (s', err x) h e = h

-- A call other than CreateGuild, BanMember and JoinGuild that returns an error has changed no row and
-- published no event.
pub handle_error :
    (env : Env) (r : Request) (s : State)
    → is_atomic r ≡ true
    → succeeds env r s ≡ false
    → handle env r s ≡ s
unfolding is_atomic succeeds handle respond grant_role revoke_role upload_guild_icon
    upload_guild_banner
handle_error env (Request.create_guild a b c d) s k h = cc
handle_error env (Request.ban_member a b c d) s k h = cc
handle_error env (Request.join_guild a b) s k h = cc
handle_error env (Request.update_guild a b c) s k h =
    kept s (update_guild env a b c s) (update_guild-Atomic env s a b c).holds h
handle_error env (Request.delete_guild a b) s k h =
    kept s (delete_guild env a b s) (delete_guild-Atomic env s a b).holds h
handle_error env (Request.leave_guild a b) s k h =
    kept s (leave_guild env a b s) (leave_guild-Atomic env s a b).holds h
handle_error env (Request.kick_member a b c) s k h =
    kept s (kick_member env a b c s) (kick_member-Atomic env s a b c).holds h
handle_error env (Request.unban_member a b c) s k h =
    kept s (unban_member env a b c s) (unban_member-Atomic env s a b c).holds h
handle_error env (Request.transfer_ownership a b c) s k h =
    kept s (transfer_ownership env a b c s) (transfer_ownership-Atomic env s a b c).holds h
handle_error env (Request.delete_role a b c) s k h =
    kept s (delete_role env a b c s) (delete_role-Atomic env s a b c).holds h
handle_error env (Request.create_invite a b c d e) s k h =
    kept s (create_invite env a b c d e s) (create_invite-Atomic env s a b c d e).holds h
handle_error env (Request.create_role a b c d) s k h =
    kept s (create_role env a b c d s) (create_role-Atomic env s a b c d).holds h
handle_error env (Request.update_role a b c) s k h =
    kept s (update_role env a b c s) (update_role-Atomic env s a b c).holds h
handle_error env (Request.assign_role a b c d) s k h =
    kept s (assign_role env a b c d s) (assign_role-Atomic env s a b c d).holds h
handle_error env (Request.remove_role a b c d) s k h =
    kept s (remove_role env a b c d s) (remove_role-Atomic env s a b c d).holds h
handle_error env (Request.grant_role a b c d) s k h =
    kept s (grant_role env a b c d s)
      (change_permission-Atomic env s a b c d (grant_role_permission env.codec)).holds h
handle_error env (Request.revoke_role a b c d) s k h =
    kept s (revoke_role env a b c d s)
      (change_permission-Atomic env s a b c d (revoke_role_permission env.codec)).holds h
handle_error env (Request.upload_guild_icon p q x a b c d e) s k h =
    kept s (upload_guild_icon env p q x a b c d e s)
      (upload-Atomic env s p q x _ _ (λ key. record no_params { icon_url = some key }) _ a b c d
        e).holds
      h
handle_error env (Request.upload_guild_banner p q x a b c d e) s k h =
    kept s (upload_guild_banner env p q x a b c d e s)
      (upload-Atomic env s p q x _ _ (λ key. record no_params { banner_url = some key }) _ a b c d
        e).holds
      h
