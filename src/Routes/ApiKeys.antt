-- ===== src/Routes/ApiKeys.antt =====
-- routers/api_keys.py, and `list_api_keys` of services/api_key_service.py. The database's order of
-- rows by age is a parameter.
use agntspark_gateway.Prelude.{
  ℕ, String, true, Option, List, map, select, is_none, ◌++◌, ◌==◌, ◌&&◌, nat_eq,
}
use agntspark_gateway.Prelude.Characters.{codes}
use agntspark_gateway.Exec.{checked, Exec, pure, gets, reads, ◌>>=◌}
use agntspark_gateway.Models.{ApiKey, Text}
use agntspark_gateway.Roles.{operator}
use agntspark_gateway.Schemas.Bodies.{api_key_valid}
use agntspark_gateway.Settings.{GatewaySettings}
use agntspark_gateway.World.{World, Platform}
use agntspark_gateway.Access.{
  Decode, get_current_principal, require_role, create_api_key, revoke_api_key,
}
use agntspark_gateway.Routes.Auth.{account}

pub record ApiKeyOut : Type 0 where
  pub id : ℕ
  pub label : String
  pub key_preview : Text
  pub created_at : ℕ
  pub last_used_at : Option ℕ
  pub scopes : List String

-- `_key_out`
unfoldable pub key_out : ApiKey → ApiKeyOut
key_out key = record {
  id = key.id;
  label = key.label;
  key_preview = key.key_prefix ++ codes "...";
  created_at = key.created_at;
  last_used_at = key.last_used_at;
  scopes = key.scopes;
}

-- `list_api_keys`
unfoldable pub list_api_keys : (List ApiKey → List ApiKey) → ℕ → List ApiKey → List ApiKey
list_api_keys order user_id rows =
    order (select (λ k. k.user_id == user_id && is_none k.revoked_at) rows)

module _ {R : Type 0} (p : Platform R) (cfg : GatewaySettings) (decode : Decode) (now : ℕ) where
  -- `create_key`: a session of a developer, and no API key
  unfoldable pub create_key :
      Option Text → String → List String → ℕ → Text → Exec (World R) (ApiKeyOut × Text)
  unfolding key_out
  create_key creds label scopes id raw_key = do
    principal ← reads (λ w. require_role p cfg decode now operator true w.db creds)
    checked (api_key_valid label) (do
      user ← reads (account principal.user_id)
      made ← create_api_key p user label scopes id raw_key now
      pure (key_out made.0, made.1))

  -- `list_keys`
  unfoldable pub list_keys :
      (List ApiKey → List ApiKey) → Option Text → Exec (World R) (List ApiKeyOut)
  unfolding key_out list_api_keys
  list_keys order creds = do
    principal ← reads (λ w. get_current_principal p cfg decode now w.db creds)
    gets (λ w. map key_out (list_api_keys order principal.user_id w.db.api_keys))

  -- `delete_key`
  unfoldable pub delete_key : Option Text → ℕ → Exec (World R) (Unit {0})
  delete_key creds key_id = do
    principal ← reads (λ w. get_current_principal p cfg decode now w.db creds)
    revoke_api_key principal.user_id key_id now
