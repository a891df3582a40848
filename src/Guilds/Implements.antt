-- ===== src/Guilds/Implements.antt =====
-- internal/features/guild/service.go implements the abstract view of its tables.
use incord.Guilds.{Env, State}
use incord.Guilds.Changes.{Changes, same}
use incord.Guilds.Requests.{Request, respond, handle}
use incord.Guilds.Refines.{
  update_guild-Traced, delete_guild-Traced, leave_guild-Traced, kick_member-Traced,
  ban_member-Traced, unban_member-Traced, create_invite-Traced, transfer_ownership-Traced,
}
use incord.Guilds.Joining.{create_guild-Traced, join_guild-Traced}
use incord.Guilds.RoleTraces.{
  create_role-Traced, update_role-Traced, delete_role-Traced, assign_role-Traced,
  remove_role-Traced, grant_role-Traced, revoke_role-Traced, upload_guild_icon-Traced,
  upload_guild_banner-Traced,
}
use incord.Base.{ℕ, ◌≡◌, refl}

-- The ban that a request lifts.
unfoldable pub Lifts : Request → ℕ → ℕ → Type 0
Lifts (Request.create_guild a b c d) g u = ⊥
Lifts (Request.update_guild a b c) g u = ⊥
Lifts (Request.delete_guild a b) g u = ⊥
Lifts (Request.leave_guild a b) g u = ⊥
Lifts (Request.join_guild a b) g u = ⊥
Lifts (Request.kick_member a b c) g u = ⊥
Lifts (Request.unban_member caller gid target) g u = (gid ≡ g) × (target ≡ u)
Lifts (Request.transfer_ownership a b c) g u = ⊥
Lifts (Request.delete_role a b c) g u = ⊥
Lifts (Request.ban_member a b c d) g u = ⊥
Lifts (Request.create_invite a b c d e) g u = ⊥
Lifts (Request.create_role a b c d) g u = ⊥
Lifts (Request.update_role a b c) g u = ⊥
Lifts (Request.assign_role a b c d) g u = ⊥
Lifts (Request.remove_role a b c d) g u = ⊥
Lifts (Request.grant_role a b c d) g u = ⊥
Lifts (Request.revoke_role a b c d) g u = ⊥
Lifts (Request.upload_guild_icon p q x a b c d e) g u = ⊥
Lifts (Request.upload_guild_banner p q x a b c d e) g u = ⊥

-- Every call, whatever fails in it, makes a sequence of these changes to the tables.
pub handle-Changes :
    (env : Env) (r : Request) (s : State) → Changes env (Lifts r) s.tables (handle env r s).tables
unfolding handle respond Lifts
handle-Changes env (Request.create_guild a b c d) s =
    (create_guild-Traced env (Lifts (Request.create_guild a b c d)) s.tables a b c d s same).holds
handle-Changes env (Request.update_guild a b c) s =
    (update_guild-Traced env (Lifts (Request.update_guild a b c)) s.tables a b c s same).holds
handle-Changes env (Request.delete_guild a b) s =
    (delete_guild-Traced env (Lifts (Request.delete_guild a b)) s.tables a b s same).holds
handle-Changes env (Request.leave_guild a b) s =
    (leave_guild-Traced env (Lifts (Request.leave_guild a b)) s.tables a b s same).holds
handle-Changes env (Request.join_guild a b) s =
    (join_guild-Traced env (Lifts (Request.join_guild a b)) s.tables a b s same).holds
handle-Changes env (Request.kick_member a b c) s =
    (kick_member-Traced env (Lifts (Request.kick_member a b c)) s.tables a b c s same).holds
handle-Changes env (Request.unban_member a b c) s =
    (unban_member-Traced env (Lifts (Request.unban_member a b c)) s.tables a b c s (refl, refl)
      same).holds
handle-Changes env (Request.transfer_ownership a b c) s =
    (transfer_ownership-Traced env (Lifts (Request.transfer_ownership a b c)) s.tables a b c s
      same).holds
handle-Changes env (Request.delete_role a b c) s =
    (delete_role-Traced env (Lifts (Request.delete_role a b c)) s.tables a b c s same).holds
handle-Changes env (Request.ban_member a b c d) s =
    (ban_member-Traced env (Lifts (Request.ban_member a b c d)) s.tables a b c d s same).holds
handle-Changes env (Request.create_invite a b c d e) s =
    (create_invite-Traced env (Lifts (Request.create_invite a b c d e)) s.tables a b c d e s
      same).holds
handle-Changes env (Request.create_role a b c d) s =
    (create_role-Traced env (Lifts (Request.create_role a b c d)) s.tables a b c d s same).holds
handle-Changes env (Request.update_role a b c) s =
    (update_role-Traced env (Lifts (Request.update_role a b c)) s.tables a b c s same).holds
handle-Changes env (Request.assign_role a b c d) s =
    (assign_role-Traced env (Lifts (Request.assign_role a b c d)) s.tables a b c d s same).holds
handle-Changes env (Request.remove_role a b c d) s =
    (remove_role-Traced env (Lifts (Request.remove_role a b c d)) s.tables a b c d s same).holds
handle-Changes env (Request.grant_role a b c d) s =
    (grant_role-Traced env (Lifts (Request.grant_role a b c d)) s.tables a b c d s same).holds
handle-Changes env (Request.revoke_role a b c d) s =
    (revoke_role-Traced env (Lifts (Request.revoke_role a b c d)) s.tables a b c d s same).holds
handle-Changes env (Request.upload_guild_icon p q x a b c d e) s =
    (upload_guild_icon-Traced env (Lifts (Request.upload_guild_icon p q x a b c d e)) s.tables p q x
      a b c d e s same).holds
handle-Changes env (Request.upload_guild_banner p q x a b c d e) s =
    (upload_guild_banner-Traced env (Lifts (Request.upload_guild_banner p q x a b c d e)) s.tables p
      q x a b c d e s same).holds
