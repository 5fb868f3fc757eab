-- ===== src/Billing/Redirects.antt =====
-- services/billing_service.py: the pages of Stripe that an account is sent to. Stripe's client is a
-- parameter: a customer's id, and the URLs of the pages; `none` is an exception of its own.
pub mod Customers
use agntspark_gateway.Prelude.{
  ℕ, String, Bool, Option, none, some, List, [], ◌∷◌, ◌++◌, is_set, if◌then◌else◌, ◌==◌, nat_eq,
}
use agntspark_gateway.Prelude.Characters.{codes, rstrip}
use agntspark_gateway.Errors.{Error, billing_conflict, unhandled}
use agntspark_gateway.Exec.{Exec, pure, raise, lift, or_raise, refuse_if, ◌>>=◌, ◌>>◌}
use agntspark_gateway.Models.{User, Text}
use agntspark_gateway.Settings.{GatewaySettings}
use agntspark_gateway.World.{World}
use agntspark_gateway.Billing.{is_paid, save_user}

-- the arguments of `checkout.sessions.create` that depend on the account or the settings
pub record CheckoutSession : Type 0 where
  pub customer : String
  pub client_reference_id : ℕ
  pub price : Option String
  pub success_url : Text
  pub cancel_url : Text

pub record StripeClient : Type 0 where
  pub create_customer : User → Option String
  pub create_checkout : CheckoutSession → Option String
  pub create_portal : String → Text → Option String

-- `_console_url`
unfoldable pub console_url : GatewaySettings → Text → Text
unfolding rstrip
console_url cfg path = rstrip (λ c. c == b'/') cfg.public_base_url ++ path

-- the text of a value that is set
abbrev pub text_of : Option String → String
text_of none = ""
text_of (some s) = s

module _ {R : Type 0} (client : StripeClient) where
  -- a new customer, which the account's row keeps
  unfoldable pub new_customer : User → Exec (World R) String
  new_customer user = do
    id ← lift (or_raise (client.create_customer user) unhandled)
    save_user (record user { stripe_customer_id = some id })
    pure id

  -- `_ensure_customer`
  unfoldable pub ensure_customer : User → Exec (World R) String
  unfolding new_customer
  ensure_customer user =
      if is_set user.stripe_customer_id
      then pure (text_of user.stripe_customer_id)
      else new_customer user

  -- `checkout_url`
  unfoldable pub checkout_url : GatewaySettings → User → Exec (World R) String
  unfolding is_paid ensure_customer console_url
  checkout_url cfg user = do
    lift (refuse_if (is_paid user.subscription_status) (billing_conflict "ALREADY_SUBSCRIBED"))
    customer_id ← ensure_customer user
    lift (
        or_raise
          (client.create_checkout (record {
            customer = customer_id;
            client_reference_id = user.id;
            price = cfg.stripe_price_pro;
            success_url = console_url cfg (codes "/settings?billing=success");
            cancel_url = console_url cfg (codes "/settings?billing=cancelled");
          }))
          unhandled)

  -- `portal_url`
  unfoldable pub portal_url : GatewaySettings → User → Exec (World R) String
  unfolding console_url
  portal_url cfg user =
      if is_set user.stripe_customer_id
      then lift (
          or_raise
            (client.create_portal (text_of user.stripe_customer_id)
              (console_url cfg (codes "/settings?billing=portal")))
            unhandled)
      else raise (billing_conflict "NO_BILLING_ACCOUNT")
