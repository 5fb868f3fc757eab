-- ===== src/Routes/Admin.antt =====
-- routers/admin.py: the handlers of /v1/admin, behind `_require_admin`; `list_invites` of
-- services/invite_service.py. The database's order of rows by age is a parameter.
pub mod Callers
pub mod Invitations
use agntspark_gateway.Prelude.{
  ℕ, String, Bool, false, Option, none, List, [], ◌∷◌, map, length, ◌==◌, nat_eq,
}
use agntspark_gateway.Prelude.Characters.{strip, is_space}
use agntspark_gateway.Exec.{
  checked, Exec, Result, ok, pure, lift, gets, reads, and_then, ◌>>=◌, ◌>>◌,
}
use agntspark_gateway.Models.{Agent, Database, Invite, Text, User}
use agntspark_gateway.Roles.{admin, role_to_str}
use agntspark_gateway.Quota.{owned, role_enum}
use agntspark_gateway.Schemas.Bodies.{invite_valid}
use agntspark_gateway.Settings.{GatewaySettings}
use agntspark_gateway.World.{World, Platform}
use agntspark_gateway.Access.{Decode, Principal, require_role}
use agntspark_gateway.Admin.{AdminUserUpdate, known_plan, update_user}
use agntspark_gateway.Invites.{InviteStatus, invite_status, create_invite, revoke_invite}

pub record InviteOut : Type 0 where
  pub id : ℕ
  pub code_prefix : Text
  pub note : Text
  pub max_uses : ℕ
  pub use_count : ℕ
  pub status : InviteStatus
  pub expires_at : Option ℕ
  pub created_at : ℕ

pub record InviteCreateRequest : Type 0 where
  pub note : Text
  pub max_uses : ℕ
  pub expires_in_days : Option ℕ

pub record AdminUserOut : Type 0 where
  pub id : ℕ
  pub email : String
  pub name : String
  pub role : String
  pub plan : String
  pub is_active : Bool
  pub agents : ℕ
  pub created_at : ℕ

-- `_invite_out`
unfoldable pub invite_out : ℕ → Invite → InviteOut
unfolding invite_status
invite_out now i = record {
  id = i.id;
  code_prefix = i.code_prefix;
  note = i.note;
  max_uses = i.max_uses;
  use_count = i.use_count;
  status = invite_status now i;
  expires_at = i.expires_at;
  created_at = i.created_at;
}

-- `_agent_count`
abbrev pub agent_count : Database → ℕ → ℕ
agent_count db user_id = length (owned user_id db.agents)

module _ {R : Type 0} (p : Platform R) (cfg : GatewaySettings) (decode : Decode) (now : ℕ) where
  -- `_user_out`
  unfoldable pub admin_user_out : User → ℕ → Result AdminUserOut
  unfolding role_enum role_to_str
  admin_user_out u agents = and_then (role_enum p.roles u) λ r. and_then (role_to_str r) λ role.
      ok (record {
        id = u.id;
        email = u.email;
        name = u.name;
        role = role;
        plan = u.plan;
        is_active = u.is_active;
        agents = agents;
        created_at = u.created_at;
      })

  -- `[_user_out(user, agents) for user, agents in rows]`
  unfoldable pub users_out : Database → List User → Result (List AdminUserOut)
  unfolding admin_user_out owned
  users_out db [] = ok []
  users_out db (u ∷ users) =
      and_then (admin_user_out u (agent_count db u.id))
        λ shown. and_then (users_out db users) λ rest. ok (shown ∷ rest)

  -- `_require_admin`
  unfoldable pub require_admin : Option Text → Exec (World R) Principal
  require_admin creds = reads (λ w. require_role p cfg decode now admin false w.db creds)

  -- `create_invite`
  unfoldable pub create_invite_route :
      Option Text → InviteCreateRequest → ℕ → Text → Exec (World R) (InviteOut × Text)
  unfolding require_admin invite_out strip
  create_invite_route creds body id token = do
    principal ← require_admin creds
    checked (invite_valid body.note body.max_uses body.expires_in_days) (do
      made ←
          create_invite p principal.user_id (strip is_space body.note) body.max_uses
            body.expires_in_days id token now
      pure (invite_out now made.0, made.1))

  -- `list_invites`
  unfoldable pub list_invites :
      (List Invite → List Invite) → Option Text → Exec (World R) (List InviteOut)
  unfolding require_admin invite_out
  list_invites order creds = do
    require_admin creds
    gets (λ w. map (invite_out now) (order w.db.invites))

  -- `revoke_invite`
  unfoldable pub revoke_invite_route : Option Text → ℕ → Exec (World R) (Unit {0})
  unfolding require_admin
  revoke_invite_route creds invite_id = do require_admin creds; revoke_invite invite_id now

  -- `list_users`
  unfoldable pub list_users :
      (List User → List User) → Option Text → Exec (World R) (List AdminUserOut)
  unfolding require_admin users_out
  list_users order creds = do require_admin creds; reads (λ w. users_out w.db (order w.db.users))

  -- `update_user`
  unfoldable pub update_user_route : Option Text → ℕ → AdminUserUpdate → Exec (World R) AdminUserOut
  unfolding require_admin admin_user_out
  update_user_route creds user_id body = do
    principal ← require_admin creds
    checked (known_plan body) (do
      changed ← update_user p principal.user_id user_id body
      lift (admin_user_out changed.0 changed.1))
