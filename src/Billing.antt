-- ===== src/Billing.antt =====
-- services/billing_service.py: how Stripe's events change an account's plan. `client` is Stripe's
-- answer to `subscriptions.retrieve` (none is a Stripe error), where billing is enabled; `uuid`
-- reads an id from a text.
pub mod Plan
pub mod Redirects
use agntspark_gateway.Prelude.{
  ℕ, String, Bool, true, false, not, Option, none, some, List, [], ◌∷◌, find, any, modify_where,
  contains, is_none, is_set, if◌then◌else◌, ◌==◌, ◌&&◌, ◌||◌, string_eq, nat_eq, option_eq,
}
use agntspark_gateway.Errors.{Error, unhandled}
use agntspark_gateway.Exec.{
  Exec, Result, ok, err, pure, raise, reads, lift, modify, or_raise, refuse_if, ◌>>=◌, ◌>>◌,
}
use agntspark_gateway.Models.{Database, User}
use agntspark_gateway.World.{World, commit, on_users}

-- `PAID_PLAN` and `PAID_STATUSES`
abbrev pub paid_plan : String
paid_plan = "pro"

abbrev pub paid_statuses : List String
paid_statuses = "active" ∷ "trialing" ∷ "past_due" ∷ []

unfoldable pub is_paid : Option String → Bool
unfolding string_eq
is_paid none = false
is_paid (some status) = contains paid_statuses status

-- `plan_for_status`
unfoldable pub plan_for_status : Option String → String
unfolding is_paid
plan_for_status status = if is_paid status then paid_plan else "free"

pub data EventType : Type 0 where
  checkout_completed subscription_created subscription_updated subscription_deleted : EventType
  other_event : EventType

-- what the code reads of `event["data"]["object"]`; a key may be missing
pub record EventObject : Type 0 where
  pub id : Option String
  pub client_reference_id : Option String
  pub customer : Option String
  pub subscription : Option String
  pub mode : Option String
  pub payment_status : Option String
  pub status : Option String
  pub metadata_user_id : Option String

-- `a or b`
abbrev pub or_set : Option String → Option String → Option String
or_set a b = if is_set a then a else b

abbrev pub by_customer : List User → Option String → Option User
by_customer users customer_id =
    if is_set customer_id then find (λ u. u.stripe_customer_id == customer_id) users else none

abbrev pub or_customer : Option User → Option User → Option User
or_customer none other = other
or_customer (some u) other = some u

-- `uuid.UUID(user_id)` of a text that is set
abbrev pub parse_id : (String → Option ℕ) → Option String → Option ℕ
parse_id uuid none = none
parse_id uuid (some s) = if s == "" then none else uuid s

abbrev pub by_id : List User → Option ℕ → Option User
by_id users none = none
by_id users (some id) = find (λ u. u.id == id) users

-- `_find_user`
unfoldable pub find_user :
    (String → Option ℕ) → List User → Option String → Option String → Option User
find_user uuid users user_id customer_id =
    or_customer (by_id users (parse_id uuid user_id)) (by_customer users customer_id)

-- another account has the customer: the column is unique
abbrev pub clashes : User → User → Bool
clashes user u =
    not (u.id == user.id)
    && not (is_none u.stripe_customer_id)
    && u.stripe_customer_id == user.stripe_customer_id

-- `payment_status in ("paid", "no_payment_required")`
abbrev pub is_settled : Option String → Bool
is_settled none = false
is_settled (some s) = s == "paid" || s == "no_payment_required"

-- the account after a completed checkout
abbrev pub checked_out : EventObject → User → User
checked_out obj user =
    let linked = record user {
      stripe_customer_id = or_set obj.customer user.stripe_customer_id;
      stripe_subscription_id = or_set obj.subscription user.stripe_subscription_id;
    } in
    if is_settled obj.payment_status
    then record linked { subscription_status = some "active"; plan = paid_plan }
    else linked

-- the account after a subscription's event
abbrev pub synced : EventObject → Option String → User → User
synced obj status user = record user {
  stripe_customer_id = or_set obj.customer user.stripe_customer_id;
  stripe_subscription_id = obj.id;
  subscription_status = status;
  plan = plan_for_status status;
}

-- an old subscription ends or lapses
abbrev pub is_stale : EventObject → Option String → User → Bool
is_stale obj status user =
    is_set user.stripe_subscription_id
    && not (obj.id == user.stripe_subscription_id)
    && not (is_paid status)

abbrev pub status_of : EventType → EventObject → Option String
status_of subscription_deleted obj = some "canceled"
status_of _ obj = obj.status

abbrev pub retrieved : Option EventObject → Result EventObject
retrieved o = or_raise o unhandled

-- `_current_subscription`
unfoldable pub current_subscription :
    Option (String → Option EventObject) → EventObject → Result EventObject
current_subscription none obj = ok obj
current_subscription (some retrieve) obj = elim obj.id [
  | none ↦ ok obj
  | some id ↦ if id == "" then ok obj else retrieved (retrieve id)
]

module _ {R : Type 0} where
  -- the commit of one account
  abbrev pub save_user : User → Exec (World R) (Unit {0})
  save_user user = do
    reads (λ w. refuse_if (any (clashes user) w.db.users) unhandled)
    modify (on_users (modify_where (λ u. u.id == user.id) (λ _. user)))
    commit

  abbrev pub check_out : EventObject → Option User → Exec (World R) (Unit {0})
  check_out obj none = pure tt
  check_out obj (some user) =
      if obj.mode == some "subscription" then save_user (checked_out obj user) else pure tt

  abbrev pub sync : EventObject → Option String → Option User → Exec (World R) (Unit {0})
  sync obj status none = pure tt
  sync obj status (some user) =
      if is_stale obj status user then pure tt else save_user (synced obj status user)

  module _ (uuid : String → Option ℕ) where
    unfoldable pub handle_checkout : EventObject → Exec (World R) (Unit {0})
    unfolding find_user
    handle_checkout obj = do
      user ← reads (λ w. ok (find_user uuid w.db.users obj.client_reference_id obj.customer))
      check_out obj user

    unfoldable pub handle_subscription : EventType → EventObject → Exec (World R) (Unit {0})
    unfolding find_user plan_for_status is_paid
    handle_subscription type obj = do
      user ← reads (λ w. ok (find_user uuid w.db.users obj.metadata_user_id obj.customer))
      sync obj (status_of type obj) user

    -- `handle_event`
    unfoldable pub handle_event :
        Option (String → Option EventObject) → EventType → EventObject → Exec (World R) (Unit {0})
    unfolding handle_checkout handle_subscription current_subscription
    handle_event client checkout_completed obj = handle_checkout obj
    handle_event client subscription_deleted obj = handle_subscription subscription_deleted obj
    handle_event client subscription_created obj = do
      now ← lift (current_subscription client obj)
      handle_subscription subscription_created now
    handle_event client subscription_updated obj = do
      now ← lift (current_subscription client obj)
      handle_subscription subscription_updated now
    handle_event client other_event obj = pure tt
