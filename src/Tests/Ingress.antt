-- ===== src/Tests/Ingress.antt =====
-- A request to one agent, sent on to its container.
use agntspark_gateway.Prelude.{◌≡◌, refl, some, none, [], ℕ_discrete, nat_eq, option_eq, string_eq}
use agntspark_gateway.Limiter.{hit}
use agntspark_gateway.Quota.{is_exempt}
use agntspark_gateway.Plans.{limits_for}
use agntspark_gateway.Prelude.Characters.{codes}
use agntspark_gateway.Exec.{ok}
use agntspark_gateway.Settings.{GatewaySettings, open_registration}
use agntspark_gateway.World.{World}
use agntspark_gateway.Ingress.{Headers, Surroundings, forward, route}
use agntspark_gateway.Ingress.Route.{IsAdmitted, route-IsAdmitted}
use agntspark_gateway.Tests.{Fleet, platform, replica, ascii, world}

abbrev pub settings : GatewaySettings
settings = record {
  jwt_secret = codes "0123456789abcdef0123456789abcdef";
  jwt_expire_minutes = 60;
  api_key_prefix = codes "agnt_";
  registration_mode = open_registration;
  stripe_secret_key = none;
  stripe_webhook_secret = none;
  stripe_price_pro = none;
  environment = "development";
  public_base_url = codes "http://localhost:5173";
  sentry_dsn = none;
  agent_base_domain = some (codes "run.io");
  ingress_internal_token = some (codes "edge");
  ingress_default_rpm_per_ip = 60;
  scheduler_interval_seconds = 15;
  login_rate_limit_max_attempts = 5;
  login_rate_limit_window_seconds = 60;
  secret_encryption_key = "key";
}

abbrev pub surroundings : Surroundings
surroundings = record {
  lower_table = ascii;
  client_now = 5;
  agent_now = 5;
  count_now = 5;
  draw = 7;
}

abbrev pub headers : Headers
headers = record {
  host = codes "bot-abc123.run.io";
  internal_token = codes "edge";
  client_ip = "192.0.2.1";
  authorization = [];
}

abbrev sent : World Fleet
sent = (route platform settings surroundings headers world).1

forwarded : route platform settings surroundings headers world ≡ (ok (forward replica 8080), sent)
unfolding route ℕ_discrete nat_eq hit option_eq is_exempt limits_for string_eq
forwarded = refl

route-IsAdmitted_example :
    IsAdmitted platform settings surroundings headers world (forward replica 8080) sent
route-IsAdmitted_example =
    route-IsAdmitted platform settings surroundings headers world sent (forward replica 8080)
      forwarded refl
