-- ===== src/Jwt.antt =====
-- security/jwt.py: the tokens of sessions. PyJWT is a parameter; a token's times are whole seconds.
use agntspark_gateway.Prelude.{ℕ, ◌+◌, ◌*◌, ◌/◌, ◌≤◌, ◌<◌, ◌≡◌, String, Option, some, ◌∷◌}
use agntspark_gateway.Models.{Text, User}
use agntspark_gateway.Settings.{GatewaySettings}
use agntspark_gateway.Access.{Decode}

-- `ISSUER`
abbrev pub issuer : String
issuer = "agntspark-gateway"

abbrev pub micro : ℕ
micro = 1_000_000

-- the payload; `sub` is `none` where it is missing or no id
pub record Claims : Type 0 where
  pub sub : Option ℕ
  pub email : String
  pub role : ℕ
  pub iss : String
  pub iat : ℕ
  pub exp : ℕ
  pub jti : String

-- PyJWT: `encode` with a secret, and what the code reads of `decode` at a time with a secret and an
-- issuer: the subject of the payload, where `none` is a `PyJWTError`
pub record JwtLibrary : Type 0 where
  pub encode : Claims → Text → Text
  pub decode : ℕ → Text → String → Text → Option (Option ℕ)

-- What PyJWT documents: a token verifies with its secret and issuer from its issue until it expires,
-- and it begins with the base64 of `{"`.
pub record IsJwt (lib : JwtLibrary) : Type 0 where
  pub decode-encode :
      (now : ℕ) (secret : Text) (c : Claims)
      → c.iat * micro ≤ now
      → now < c.exp * micro
      → lib.decode now secret c.iss (lib.encode c secret) ≡ some c.sub
  pub header : (secret : Text) (c : Claims) → (rest : Text) × (lib.encode c secret ≡ b'e' ∷ rest)

-- `create_access_token` for an account: the token, and the seconds until it expires
unfoldable pub create_access_token : JwtLibrary → GatewaySettings → ℕ → String → User → Text × ℕ
create_access_token lib cfg now jti user =
    let expires_in = cfg.jwt_expire_minutes * 60 in
    let claims : Claims = record {
      sub = some user.id;
      email = user.email;
      role = user.role;
      iss = issuer;
      iat = now / micro;
      exp = now / micro + expires_in;
      jti = jti;
    } in
    (lib.encode claims cfg.jwt_secret, expires_in)

-- `decode_access_token`, and the subject that `_authenticate_jwt` reads
unfoldable pub decode_access_token : JwtLibrary → GatewaySettings → ℕ → Decode
decode_access_token lib cfg now token = lib.decode now cfg.jwt_secret issuer token
