-- ===== src/Settings.antt =====
-- config.py: the settings that the modelled code reads, and `production_config_problems`. Fields
-- that only configure libraries are left out.
pub mod Production
use agntspark_gateway.Prelude.{
  ℕ, String, Bool, Option, List, [], ◌∷◌, ◌++◌, length, ltb, if◌then◌else◌, ◌==◌, ◌&&◌, ◌||◌, not,
  string_eq, text_eq, is_set,
}
use agntspark_gateway.Prelude.Characters.{codes}
use agntspark_gateway.Models.{Text}

pub data RegistrationMode : Type 0 where
  open_registration invite_only closed : RegistrationMode

pub record GatewaySettings : Type 0 where
  pub jwt_secret : Text
  pub jwt_expire_minutes : ℕ
  pub api_key_prefix : Text
  pub registration_mode : RegistrationMode
  pub stripe_secret_key : Option String
  pub stripe_webhook_secret : Option String
  pub stripe_price_pro : Option String
  pub environment : String
  pub public_base_url : Text
  pub sentry_dsn : Option String
  pub agent_base_domain : Option Text
  pub ingress_internal_token : Option Text
  pub ingress_default_rpm_per_ip : ℕ
  pub scheduler_interval_seconds : ℕ
  pub login_rate_limit_max_attempts : ℕ
  pub login_rate_limit_window_seconds : ℕ
  pub secret_encryption_key : String

abbrev pub default_encryption_key : String
default_encryption_key = "Jyw3CWB_wTCDeOw8q_dNNJin6tfrQLnltmnRf0UB2T0="

-- the messages of `production_config_problems`
pub data Problem : Type 0 where
  weak_jwt_secret built_in_encryption_key no_webhook_secret : Problem

abbrev pub problem_if : Bool → Problem → List Problem
problem_if b p = if b then p ∷ [] else []

abbrev pub jwt_secret_weak : GatewaySettings → Bool
jwt_secret_weak cfg =
    cfg.jwt_secret == codes "dev-secret-change-me"
    || cfg.jwt_secret == codes "change-me-in-production"
    || ltb (length cfg.jwt_secret) 32

abbrev pub encryption_key_weak : GatewaySettings → Bool
encryption_key_weak cfg =
    cfg.secret_encryption_key == default_encryption_key
    || cfg.secret_encryption_key == "change-me-in-production"

unfoldable pub production_config_problems : GatewaySettings → List Problem
production_config_problems cfg =
    if not (cfg.environment == "production")
    then []
    else (problem_if (jwt_secret_weak cfg) weak_jwt_secret
        ++ problem_if (encryption_key_weak cfg) built_in_encryption_key
        ++ problem_if (is_set cfg.stripe_secret_key && not (is_set cfg.stripe_webhook_secret))
            no_webhook_secret)
