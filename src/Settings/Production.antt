-- ===== src/Settings/Production.antt =====
-- When config.py lets a production gateway start.
use agntspark_gateway.Prelude.{
  ◌≤◌, String, ◌≡◌, ◌≢◌, ◌↔◌, Bool, true, false, [], ◌++◌, length, arith, not, is_set, ◌==◌, ◌&&◌,
  string_eq, text_eq, Bool-cases, inl, inr, refl, sym, ==_iff,
}
use agntspark_gateway.Prelude.Characters.{codes}
use agntspark_gateway.Settings.{
  GatewaySettings, Problem, weak_jwt_secret, built_in_encryption_key, no_webhook_secret,
  default_encryption_key, jwt_secret_weak, encryption_key_weak, problem_if,
  production_config_problems,
}

-- no secret is a public default, the JWT secret is long enough, and Stripe's webhooks are signed
pub record IsSafe (cfg : GatewaySettings) : Type 0 where
  pub jwt_secret :
      (cfg.jwt_secret ≢ codes "dev-secret-change-me")
      × (cfg.jwt_secret ≢ codes "change-me-in-production")
  pub jwt_secret_long : 32 ≤ length cfg.jwt_secret
  pub encryption_key :
      (cfg.secret_encryption_key ≢ default_encryption_key)
      × (cfg.secret_encryption_key ≢ "change-me-in-production")
  pub webhooks : is_set cfg.stripe_secret_key ≡ true → is_set cfg.stripe_webhook_secret ≡ true

jwt_secret_iff :
    (cfg : GatewaySettings)
    → (jwt_secret_weak cfg ≡ false) ↔ (
        (cfg.jwt_secret ≢ codes "dev-secret-change-me")
        × (cfg.jwt_secret ≢ codes "change-me-in-production")
        × (32 ≤ length cfg.jwt_secret))
jwt_secret_iff cfg = ground arith

encryption_key_iff :
    (cfg : GatewaySettings)
    → (encryption_key_weak cfg ≡ false) ↔ (
        (cfg.secret_encryption_key ≢ default_encryption_key)
        × (cfg.secret_encryption_key ≢ "change-me-in-production"))
encryption_key_iff cfg = ground arith

problems-nil :
    (a b c : Bool) (x y z : Problem)
    → (problem_if a x ++ problem_if b y ++ problem_if c z ≡ [])
      ↔ ((a ≡ false) × (b ≡ false) × (c ≡ false))
problems-nil a b c x y z = ground arith

differs : (s t : String) → (s == t) ≡ false → s ≢ t
differs s t h e = ground arith

webhooks_iff : (a b : Bool) → (a && not b ≡ false) ↔ (a ≡ true → b ≡ true)
webhooks_iff true true = (λ h e. refl, λ h. refl)
webhooks_iff true false = (λ h e. sym h, λ h. sym (h refl))
webhooks_iff false b = (λ h e. cc e, λ h. refl)

IsSafe-iff :
    (cfg : GatewaySettings)
    → (problem_if (jwt_secret_weak cfg) weak_jwt_secret
          ++ problem_if (encryption_key_weak cfg) built_in_encryption_key
          ++ problem_if
              (is_set cfg.stripe_secret_key && not (is_set cfg.stripe_webhook_secret))
              no_webhook_secret
        ≡ [])
      ↔ IsSafe cfg
IsSafe-iff cfg =
    let stripe = is_set cfg.stripe_secret_key && not (is_set cfg.stripe_webhook_secret) in
    let all =
      problems-nil (jwt_secret_weak cfg) (encryption_key_weak cfg) stripe weak_jwt_secret
        built_in_encryption_key no_webhook_secret in
    let signed = webhooks_iff (is_set cfg.stripe_secret_key) (is_set cfg.stripe_webhook_secret) in
    (
      λ h.
          let (a, b, c) = all.0 h in
          let (d, e, f) = (jwt_secret_iff cfg).0 a in
          record {
            jwt_secret = (d, e);
            jwt_secret_long = f;
            encryption_key = (encryption_key_iff cfg).0 b;
            webhooks = signed.0 c;
          },
      λ s. all.1 (
        (jwt_secret_iff cfg).1 (s.jwt_secret.0, s.jwt_secret.1, s.jwt_secret_long),
        (encryption_key_iff cfg).1 s.encryption_key,
        signed.1 s.webhooks,
      ),
    )

-- In production the settings have no problem exactly if they are safe; elsewhere they never have one.
pub production_config_problems_iff :
    (cfg : GatewaySettings)
    → (production_config_problems cfg ≡ []) ↔ (cfg.environment ≡ "production" → IsSafe cfg)
unfolding production_config_problems
production_config_problems_iff cfg = elim (Bool-cases (cfg.environment == "production")) [
  | inr elsewhere ↦
      rw elsewhere (λ h e. elim (differs cfg.environment "production" elsewhere e) [ ], λ h. refl)
  | inl production ↦ rw production (
    λ h e. (IsSafe-iff cfg).0 h,
    λ h. (IsSafe-iff cfg).1 (h ((==_iff cfg.environment "production").0 production)),
  )
]
