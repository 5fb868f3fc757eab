-- ===== src/Access.antt =====
-- security/dependencies.py, services/api_key_service.py and security/api_keys.py: who a bearer token
-- stands for, and what it may do. PyJWT is a parameter: the subject of a token that verifies.
pub mod Tokens
pub mod Keys
use agntspark_gateway.Prelude.{
  ℕ, String, Bool, true, false, not, Option, none, some, List, [], ◌∷◌, ◌++◌, any, find,
  modify_where, take, leb, ltb, is_none, if◌then◌else◌, ◌==◌, ◌&&◌, ◌||◌, string_eq, nat_eq,
}
use agntspark_gateway.Prelude.Characters.{starts_with}
use agntspark_gateway.Errors.{Error, authentication, authorisation, api_key_not_found, unhandled}
use agntspark_gateway.Exec.{
  Exec, Result, ok, err, pure, reads, modify, or_raise, refuse_if, and_then, ◌>>=◌, ◌>>◌,
}
use agntspark_gateway.Models.{Text, Database, User, ApiKey}
use agntspark_gateway.Roles.{Role}
use agntspark_gateway.Quota.{role_enum}
use agntspark_gateway.Settings.{GatewaySettings}
use agntspark_gateway.World.{World, Platform, commit, on_api_keys}

pub data AuthMethod : Type 0 where
  jwt api_key : AuthMethod

pub record Principal : Type 0 where
  pub user_id : ℕ
  pub email : String
  pub role : Role
  pub auth_method : AuthMethod
  pub api_key_id : Option ℕ

-- `decode_access_token` and the reading of `sub`: none where PyJWT raises, and inside it none where
-- the payload has no subject that is an id
abbrev pub Decode : Type 0
Decode = Text → Option (Option ℕ)

-- `ApiKey.is_active`
unfoldable pub is_active_key : ℕ → ApiKey → Bool
is_active_key now k =
    if not (is_none k.revoked_at)
    then false
    else elim k.expires_at [ none ↦ true | some at ↦ ltb now at ]

-- the prefix that tells an API key from a session's token
abbrev pub is_api_key : GatewaySettings → Text → Bool
is_api_key cfg token = starts_with token (cfg.api_key_prefix ++ b'_' ∷ [])

abbrev pub active_user : Option User → Result User
active_user none = err authentication
active_user (some u) = if u.is_active then ok u else err authentication

-- `db.get(User, ...)`, which has to be there and active
abbrev pub get_active : Database → ℕ → Result User
get_active db user_id = active_user (find (λ u. u.id == user_id) db.users)

abbrev pub active_key : ℕ → Option ApiKey → Result ApiKey
active_key now none = err authentication
active_key now (some k) = if is_active_key now k then ok k else err authentication

abbrev pub subject : Option (Option ℕ) → Result ℕ
subject none = err authentication
subject (some none) = err authentication
subject (some (some user_id)) = ok user_id

abbrev pub credentials : Option Text → Result Text
credentials none = err authentication
credentials (some []) = err authentication
credentials (some (c ∷ token)) = ok (c ∷ token)

module _ {R : Type 0} (p : Platform R) (cfg : GatewaySettings) (decode : Decode) (now : ℕ) where
  abbrev pub principal_of : AuthMethod → Option ℕ → User → Result Principal
  principal_of method key_id u = and_then (role_enum p.roles u) λ role. ok (record {
    user_id = u.id;
    email = u.email;
    role = role;
    auth_method = method;
    api_key_id = key_id;
  })

  -- `_authenticate_api_key`
  unfoldable pub authenticate_api_key : Database → Text → Result Principal
  unfolding is_active_key role_enum
  authenticate_api_key db token =
      and_then (active_key now (find (λ k. k.key_hash == p.hashes.sha256 token) db.api_keys))
        λ k. and_then (get_active db k.user_id) λ u. principal_of api_key (some k.id) u

  -- `_authenticate_jwt`
  unfoldable pub authenticate_jwt : Database → Text → Result Principal
  unfolding role_enum
  authenticate_jwt db token =
      and_then (subject (decode token))
        λ user_id. and_then (get_active db user_id) λ u. principal_of jwt none u

  -- `get_current_principal`
  unfoldable pub get_current_principal : Database → Option Text → Result Principal
  unfolding authenticate_api_key authenticate_jwt starts_with
  get_current_principal db creds = and_then (credentials creds) λ token.
      if is_api_key cfg token then authenticate_api_key db token else authenticate_jwt db token

  -- `require_jwt_principal`
  unfoldable pub require_jwt_principal : Database → Option Text → Result Principal
  unfolding authenticate_jwt starts_with
  require_jwt_principal db creds =
      and_then (credentials creds)
        λ token. if is_api_key cfg token then err authentication else authenticate_jwt db token

  -- `require_role`
  unfoldable pub require_role : Role → Bool → Database → Option Text → Result Principal
  unfolding get_current_principal require_jwt_principal
  require_role minimum jwt_only db creds =
      and_then (if jwt_only then require_jwt_principal db creds else get_current_principal db creds)
        λ who. if p.roles.can who.role minimum then ok who else err (authorisation who.user_id)

module _ {R : Type 0} (p : Platform R) where
  -- `create_api_key` with `mint_api_key`: the raw key comes from agntspark_core, an argument
  unfoldable pub create_api_key :
      User → String → List String → ℕ → Text → ℕ → Exec (World R) (ApiKey × Text)
  unfolding role_enum
  create_api_key user label scopes id raw_key now =
      let key : ApiKey = record {
        id = id;
        user_id = user.id;
        label = label;
        key_prefix = take 12 raw_key;
        key_hash = p.hashes.sha256 raw_key;
        scopes = scopes;
        created_at = now;
        last_used_at = none;
        revoked_at = none;
        expires_at = none;
      } in
      do
        reads (λ w. role_enum p.roles user)
        reads (λ w.
            refuse_if (any (λ k. k.id == id || k.key_hash == key.key_hash) w.db.api_keys) unhandled)
        modify (on_api_keys (λ rows. rows ++ key ∷ []))
        commit
        pure (key, raw_key)

unfoldable pub revocable : ℕ → ℕ → Option ApiKey → Result ApiKey
unfolding is_active_key
revocable now key_id none = err (api_key_not_found key_id)
revocable now key_id (some k) = if is_active_key now k then ok k else err (api_key_not_found key_id)

module _ {R : Type 0} where
  -- `revoke_api_key`
  unfoldable pub revoke_api_key : ℕ → ℕ → ℕ → Exec (World R) (Unit {0})
  unfolding revocable
  revoke_api_key user_id key_id now = do
    key ← reads (λ w.
        revocable now key_id (find (λ k. k.id == key_id && k.user_id == user_id) w.db.api_keys))
    modify
        (on_api_keys (modify_where (λ k. k.id == key.id) (λ k. record k { revoked_at = some now })))
    commit
