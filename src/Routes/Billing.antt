-- ===== src/Routes/Billing.antt =====
-- routers/billing.py: the plan's status, the pages of Stripe, and Stripe's webhook. Whether a payload's
-- signature verifies, and what is in its JSON, are parameters.
use agntspark_gateway.Prelude.{
  ℕ, String, Bool, true, not, Option, none, some, is_none, is_set, if◌then◌else◌, ◌&&◌, ◌==◌,
  string_eq,
}
use agntspark_gateway.Errors.{billing_not_configured, invalid_webhook}
use agntspark_gateway.Exec.{Exec, err, pure, lift, reads, refuse_if, ◌>>=◌, ◌>>◌}
use agntspark_gateway.Models.{Text, User}
use agntspark_gateway.Roles.{operator}
use agntspark_gateway.Settings.{GatewaySettings}
use agntspark_gateway.World.{World, Platform}
use agntspark_gateway.Access.{Decode, get_current_principal, require_role}
use agntspark_gateway.Billing.{EventType, EventObject, handle_event}
use agntspark_gateway.Billing.Redirects.{StripeClient, checkout_url, portal_url}
use agntspark_gateway.Routes.Auth.{account}

pub record BillingStatus : Type 0 where
  pub enabled : Bool
  pub plan : String
  pub subscription_status : Option String
  pub has_billing_account : Bool

-- a payload as the code reads it, and the type and object of its event
pub record Payload : Type 0 where
  pub text : Text
  pub type : EventType
  pub object : EventObject

unfoldable pub billing_enabled : GatewaySettings → Bool
billing_enabled cfg = is_set cfg.stripe_secret_key && is_set cfg.stripe_price_pro

module _ {R : Type 0} (p : Platform R) (cfg : GatewaySettings) (decode : Decode) (now : ℕ) where
  -- `get_stripe_client`
  unfoldable pub get_stripe_client : Exec (World R) (Unit {0})
  unfolding billing_enabled
  get_stripe_client = lift (refuse_if (not (billing_enabled cfg)) billing_not_configured)

  -- `billing_status`
  unfoldable pub billing_status : Option Text → Exec (World R) BillingStatus
  unfolding billing_enabled
  billing_status creds = do
    principal ← reads (λ w. get_current_principal p cfg decode now w.db creds)
    user ← reads (account principal.user_id)
    pure (record {
      enabled = billing_enabled cfg;
      plan = user.plan;
      subscription_status = user.subscription_status;
      has_billing_account = not (is_none user.stripe_customer_id);
    })

  -- `_require_billing_session`, then the client, then the account
  unfoldable pub billing_user : Option Text → Exec (World R) User
  unfolding get_stripe_client
  billing_user creds = do
    principal ← reads (λ w. require_role p cfg decode now operator true w.db creds)
    get_stripe_client
    reads (account principal.user_id)

  -- `checkout`
  unfoldable pub checkout : StripeClient → Option Text → Exec (World R) String
  unfolding billing_user
  checkout client creds = do user ← billing_user creds; checkout_url client cfg user

  -- `portal`
  unfoldable pub portal : StripeClient → Option Text → Exec (World R) String
  unfolding billing_user
  portal client creds = do user ← billing_user creds; portal_url client cfg user

  -- `webhook`: `construct_event` by the payload, its signature and the secret
  unfoldable pub webhook :
      (String → Option ℕ)
      → (Text → String → String → Bool)
      → (String → Option EventObject)
      → Payload
      → String
      → Exec (World R) (Unit {0})
  unfolding billing_enabled handle_event
  webhook uuid verifies retrieve payload signature = elim cfg.stripe_webhook_secret [
    | none ↦ lift (err billing_not_configured)
    | some secret ↦ (do
      lift (refuse_if (secret == "") billing_not_configured)
      lift (refuse_if (not (verifies payload.text signature secret)) invalid_webhook)
      handle_event uuid (if billing_enabled cfg then some retrieve else none) payload.type
          payload.object)
  ]
