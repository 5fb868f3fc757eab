-- ===== src/Routes/Auth/Session.antt =====
-- What a login is good for.
use native.Mathlib.Nat.{div-mul-le_self}
use agntspark_gateway.Prelude.{
  Bool-cases, inl, inr, ℕ, ◌+◌, ◌*◌, ◌/◌, ◌≤◌, ◌<◌, ◌≡◌, refl, sym, ap, String, Bool, false, none,
  some, [], ◌∷◌, arith, inl, inr, ◌==◌, nat_eq,
}
use agntspark_gateway.Prelude.Characters.{starts_with}
use agntspark_gateway.Exec.{Result, ok, err, Result-cases}
use agntspark_gateway.Models.{Database, User, Text}
use agntspark_gateway.Schemas.Bodies.{login_valid}
use agntspark_gateway.Settings.{GatewaySettings}
use agntspark_gateway.World.{World, Platform}
use agntspark_gateway.Accounts.{authenticate_user}
use agntspark_gateway.Access.{
  Decode, jwt, is_api_key, credentials, get_active, principal_of, get_current_principal,
  authenticate_jwt,
}
use agntspark_gateway.RateLimit.{Redis, enforce, login_key}
use agntspark_gateway.Jwt.{
  micro, JwtLibrary, IsJwt, Claims, issuer, create_access_token, decode_access_token,
}
use agntspark_gateway.Routes.Auth.{
  TokenResponse, Visit, user_out, token_response, enforce_login_rate_limit, login,
}

-- an API key's prefix does not begin like a token
pub record IsApart (cfg : GatewaySettings) : Type 0 where
  pub first : ℕ
  pub rest : Text
  pub prefix : cfg.api_key_prefix ≡ first ∷ rest
  pub differs : (b'e' == first) ≡ false

is_api_key_lem :
    (cfg : GatewaySettings) (token rest : Text)
    → IsApart cfg
    → token ≡ b'e' ∷ rest
    → is_api_key cfg token ≡ false
unfolding starts_with
is_api_key_lem cfg token rest apart e = rw (e, apart.prefix, apart.differs) refl

module _ {R : Type 0} (p : Platform R) (cfg : GatewaySettings) (decode : Decode) (now : ℕ) where
  -- a token that verifies stands for its active account
  current_principal :
      (db : Database) (token rest : Text) (u : User)
      → IsApart cfg
      → token ≡ b'e' ∷ rest
      → decode token ≡ some (some u.id)
      → get_active db u.id ≡ ok u
      → get_current_principal p cfg decode now db (some token)
        ≡ principal_of p cfg decode now jwt none u
  unfolding get_current_principal authenticate_jwt
  current_principal db token rest u apart e verified here =
      let plain = is_api_key_lem cfg token rest apart e in
      let sent : credentials (some token) ≡ ok token = rw e refl in
      rw (sent, plain, verified, here) refl

abbrev access_of : Result TokenResponse → Text
access_of (ok t) = t.access_token
access_of (err x) = []

module _ {R : Type 0} (p : Platform R) (lib : JwtLibrary) (law : IsJwt lib)
    (cfg : GatewaySettings) where
  abbrev claims_of : Visit → User → Claims
  claims_of visit u = record {
    sub = some u.id;
    email = u.email;
    role = u.role;
    iss = issuer;
    iat = visit.now / micro;
    exp = visit.now / micro + cfg.jwt_expire_minutes * 60;
    jti = visit.jti;
  }

  decoded :
      (visit : Visit) (u : User) (later : ℕ)
      → visit.now ≤ later
      → later < (visit.now / micro + cfg.jwt_expire_minutes * 60) * micro
      → decode_access_token lib cfg later (lib.encode (claims_of visit u) cfg.jwt_secret)
        ≡ some (some u.id)
  unfolding decode_access_token
  decoded visit u later from until =
      let issued = div-mul-le_self visit.now micro in
      law.decode-encode later cfg.jwt_secret (claims_of visit u) (omega (arith, issued, from)) until

  session_token :
      (visit : Visit) (u : User) (later : ℕ) (db : Database)
      → IsApart cfg
      → visit.now ≤ later
      → later < (visit.now / micro + cfg.jwt_expire_minutes * 60) * micro
      → get_active db u.id ≡ ok u
      → get_current_principal p cfg
          (decode_access_token lib cfg later)
          later
          db
          (some (create_access_token lib cfg visit.now visit.jti u).0)
        ≡ principal_of p cfg (decode_access_token lib cfg later) later jwt none u
  unfolding create_access_token
  session_token visit u later db apart from until here =
      let token = lib.encode (claims_of visit u) cfg.jwt_secret in
      let (rest, e) = law.header cfg.jwt_secret (claims_of visit u) in
      current_principal p cfg (decode_access_token lib cfg later) later db token rest u apart e
        (decoded visit u later from until) here

  token_response-token :
      (visit : Visit) (u : User) (t : TokenResponse)
      → token_response p lib cfg visit u ≡ ok t
      → t.access_token ≡ (create_access_token lib cfg visit.now visit.jti u).0
  unfolding token_response
  token_response-token visit u t done = elim (Result-cases (user_out p u)) [
    | inl (shown, e) ↦ sym (ap access_of (rw e at done))
    | inr (x, e) ↦ cc (rw e at done)
  ]

  module _ {S : Type 0} (redis : Redis S) (redis_url : Bool) (is_email : String → Bool) where
    login-token_response :
        (visit : Visit) (email password : String) (s : S) (w : World R) (u : User)
        (t : TokenResponse) (after : S × World R)
        → authenticate_user p w.db email password ≡ ok u
        → login p redis redis_url lib cfg is_email visit email password (s, w) ≡ (ok t, after)
        → token_response p lib cfg visit u ≡ ok t
    unfolding login enforce_login_rate_limit
    login-token_response visit email password s w u t after same done =
        elim (Result-cases (enforce redis cfg redis_url (login_key visit.host) s).0) [
          | inl (x, e) ↦ elim (Bool-cases (login_valid is_email email password)) [
            | inl fits ↦ ap (λ o. o.0) (rw (e, fits, same) at done)
            | inr unfit ↦ cc (rw (e, unfit) at done)
          ]
          | inr (x, e) ↦ cc (rw e at done)
        ]

    pub login-principal :
        (visit : Visit) (email password : String) (s s' : S) (w w' : World R) (t : TokenResponse)
        (u : User) (later : ℕ) (db : Database)
        → IsApart cfg
        → login p redis redis_url lib cfg is_email visit email password (s, w) ≡ (ok t, (s', w'))
        → authenticate_user p w.db email password ≡ ok u
        → visit.now ≤ later
        → later < (visit.now / micro + cfg.jwt_expire_minutes * 60) * micro
        → get_active db u.id ≡ ok u
        → get_current_principal p cfg
            (decode_access_token lib cfg later)
            later
            db
            (some t.access_token)
          ≡ principal_of p cfg (decode_access_token lib cfg later) later jwt none u
    login-principal visit email password s s' w w' t u later db apart done same from until here =
        let token = create_access_token lib cfg visit.now visit.jti u in
        let made =
          token_response-token visit u t
            (login-token_response visit email password s w u t (s', w') same done) in
        rw made (session_token visit u later db apart from until here)
