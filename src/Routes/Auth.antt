-- ===== src/Routes/Auth.antt =====
-- routers/auth.py: registration, login and the own account. The state is Redis's own beside the
-- gateway's; what a request brings from outside is a record.
pub mod Session
use agntspark_gateway.Prelude.{ℕ, String, Bool, Option, none, some, find, ◌==◌, nat_eq}
use agntspark_gateway.Errors.{authentication}
use agntspark_gateway.Exec.{
  Exec, Result, checked, ok, err, pure, lift, gets, reads, or_raise, and_then, ◌>>=◌, ◌>>◌,
}
use agntspark_gateway.Models.{User, Text}
use agntspark_gateway.Roles.{role_to_str}
use agntspark_gateway.Quota.{role_enum}
use agntspark_gateway.Schemas.Bodies.{register_valid, login_valid}
use agntspark_gateway.Settings.{GatewaySettings, RegistrationMode}
use agntspark_gateway.World.{World, Platform}
use agntspark_gateway.Accounts.{RegisterRequest, register_user, authenticate_user}
use agntspark_gateway.Access.{Decode, Principal, get_current_principal}
use agntspark_gateway.RateLimit.{Redis, enforce, login_key}
use agntspark_gateway.Jwt.{JwtLibrary, create_access_token}

pub record UserOut : Type 0 where
  pub id : ℕ
  pub name : String
  pub email : String
  pub role : String
  pub plan : String

pub record TokenResponse : Type 0 where
  pub access_token : Text
  pub token_type : String
  pub expires_in : ℕ
  pub user : UserOut

-- what a request to log in brings: the client's address, the time, and the id of a token
pub record Visit : Type 0 where
  pub host : Option String
  pub now : ℕ
  pub jti : String

-- the account of a principal
abbrev pub account : {R : Type 0} → ℕ → World R → Result User
account user_id w = or_raise (find (λ u. u.id == user_id) w.db.users) authentication

module _ {R : Type 0} (p : Platform R) where
  -- `_user_out`
  unfoldable pub user_out : User → Result UserOut
  unfolding role_enum role_to_str
  user_out u = and_then (role_enum p.roles u) λ r.
      and_then (role_to_str r) λ role.
        ok (record { id = u.id; name = u.name; email = u.email; role = role; plan = u.plan })

  -- `_token_response`
  unfoldable pub token_response : JwtLibrary → GatewaySettings → Visit → User → Result TokenResponse
  unfolding create_access_token user_out
  token_response lib cfg visit u =
      let made = create_access_token lib cfg visit.now visit.jti u in
      and_then (user_out u) λ shown.
        ok (record {
          access_token = made.0;
          token_type = "bearer";
          expires_in = made.1;
          user = shown;
        })

  -- `me`
  unfoldable pub me : GatewaySettings → Decode → ℕ → Option Text → Exec (World R) UserOut
  unfolding get_current_principal user_out
  me cfg decode now creds = do
    principal ← reads (λ w. get_current_principal p cfg decode now w.db creds)
    user ← reads (account principal.user_id)
    lift (user_out user)

  module _ {S : Type 0} (redis : Redis S) (redis_url : Bool) (lib : JwtLibrary)
      (cfg : GatewaySettings) (is_email : String → Bool) where
    abbrev on_redis : {A : Type 0} → Exec S A → Exec (S × World R) A
    on_redis m (s, w) = let out = m s in (out.0, (out.1, w))

    abbrev on_world : {A : Type 0} → Exec (World R) A → Exec (S × World R) A
    on_world m (s, w) = let out = m w in (out.0, (s, out.1))

    -- `Depends(enforce_login_rate_limit)`
    unfoldable pub enforce_login_rate_limit : Visit → Exec (S × World R) (Unit {0})
    unfolding enforce
    enforce_login_rate_limit visit = on_redis (enforce redis cfg redis_url (login_key visit.host))

    -- `register`
    unfoldable pub register : Visit → RegisterRequest → Exec (S × World R) TokenResponse
    unfolding enforce_login_rate_limit register_user token_response
    register visit body = do
      enforce_login_rate_limit visit
      checked (register_valid is_email body.email body.password body.name body.invite_code) (do
        user ← on_world (register_user p cfg.registration_mode body)
        lift (token_response lib cfg visit user))

    -- `login`
    unfoldable pub login : Visit → String → String → Exec (S × World R) TokenResponse
    unfolding enforce_login_rate_limit authenticate_user token_response
    login visit email password = do
      enforce_login_rate_limit visit
      checked (login_valid is_email email password) (do
        user ← on_world (reads (λ w. authenticate_user p w.db email password))
        lift (token_response lib cfg visit user))

-- `registration`
abbrev pub registration : GatewaySettings → RegistrationMode
registration cfg = cfg.registration_mode
