-- ===== src/Billing/Redirects/Customers.antt =====
-- An account has one customer at Stripe.
use agntspark_gateway.Prelude.{
  String, ◌≡◌, refl, sym, ap, ◌∙◌, subst, true, false, Option, none, some, List, any, find,
  find-modify, modified, modify_where, is_set, arith, ◌==◌, ==_refl, string_eq, nat_eq, Bool-cases,
  Option-cases, inl, inr, option_eq,
}
use agntspark_gateway.Exec.{ok, ok_eq}
use agntspark_gateway.Models.{User}
use agntspark_gateway.World.{World}
use agntspark_gateway.Billing.{clashes}
use agntspark_gateway.Billing.Redirects.{StripeClient, text_of, ensure_customer, new_customer}

set_text : (o : Option String) → is_set o ≡ true → o ≡ some (text_of o)
set_text none h = cc
set_text (some s) h = refl

unempty : (s : String) → is_set (some s) ≡ true → (s == "") ≡ false
unempty s h = ground arith

-- the row of an account with its customer
abbrev pub linked : String → User → User
linked id user = record user { stripe_customer_id = some id }

-- the row is found with its new customer
found_linked :
    (id : String) (user : User) (users : List User)
    → find (λ u. u.id == user.id) users ≡ some user
    → find (λ u. u.id == user.id) (modify_where (λ u. u.id == user.id) (λ _. linked id user) users)
      ≡ some (linked id user)
found_linked id user users there =
    find-modify (λ u. u.id == user.id) (λ u. u.id == user.id) (λ _. linked id user) users
      (λ x. ground arith)
    ∙ ap (modified (λ u. u.id == user.id) (λ _. linked id user)) there
    ∙ ground (arith, ==_refl user.id)

module _ {R : Type 0} (client : StripeClient) where
  -- the account's row keeps the customer that was made for it, and the next request uses that one,
  -- whatever Stripe would answer
  pub record HasCustomer (user : User) (id : String) (w : World R) : Type 0 where
    pub row : User
    pub found : find (λ u. u.id == user.id) w.db.users ≡ some row
    pub customer : row.stripe_customer_id ≡ some id
    pub again : (other : StripeClient) → ensure_customer other row w ≡ (ok id, w)

  stored_customer :
      (user : User) (id : String) (w : World R)
      → user.stripe_customer_id ≡ some id
      → (id == "") ≡ false
      → (other : StripeClient) → ensure_customer other user w ≡ (ok id, w)
  unfolding ensure_customer
  stored_customer user id w e set other =
      let there : is_set user.stripe_customer_id ≡ true = rw e (rw set refl) in
      let text : text_of user.stripe_customer_id ≡ id = rw e refl in rw (there, text) refl

  is_new :
      (user : User) (w : World R)
      → is_set user.stripe_customer_id ≡ false
      → ensure_customer client user w ≡ new_customer client user w
  unfolding ensure_customer
  is_new user w unset = rw unset refl

  has_customer :
      (user row : User) (id : String) (w : World R)
      → find (λ u. u.id == user.id) w.db.users ≡ some row
      → row.stripe_customer_id ≡ some id
      → (id == "") ≡ false
      → HasCustomer user id w
  has_customer user row id w found kept named = record {
    row = row;
    found = found;
    customer = kept;
    again = stored_customer row id w kept named;
  }

  -- the account has a customer already
  kept_customer :
      (user : User) (id : String) (w w' : World R)
      → find (λ u. u.id == user.id) w.db.users ≡ some user
      → is_set user.stripe_customer_id ≡ true
      → ensure_customer client user w ≡ (ok id, w')
      → HasCustomer user id w'
  unfolding ensure_customer
  kept_customer user id w w' there set done =
      let same : (ok (text_of user.stripe_customer_id), w) ≡ (ok id, w') = rw set at done in
      let text = ok_eq (text_of user.stripe_customer_id) id (ap (λ o. o.0) same) in
      let kept : user.stripe_customer_id ≡ some id =
        set_text user.stripe_customer_id set ∙ ap some text in
      subst (HasCustomer user id) (ap (λ o. o.1) same) (
        has_customer user user id w there kept (unempty id (subst (λ o. is_set o ≡ true) kept set)))

  -- the users after a new customer is kept
  abbrev linked_users : String → User → World R → List User
  linked_users new user w = modify_where (λ u. u.id == user.id) (λ _. linked new user) w.db.users

  new_customer-users :
      (user : User) (id : String) (w w' : World R)
      → new_customer client user w ≡ (ok id, w')
      → (client.create_customer user ≡ some id) × (w'.db.users ≡ linked_users id user w)
  unfolding new_customer
  new_customer-users user id w w' done = elim (Option-cases (client.create_customer user)) [
    | inl failed ↦ cc (rw failed at done)
    | inr (new, made) ↦ elim (Bool-cases (any (clashes (linked new user)) w.db.users)) [
      | inl taken ↦ cc (rw taken at (rw made at done))
      | inr free ↦
          let same = rw free at (rw made at done) in
          let text = ok_eq new id (ap (λ o. o.0) same) in
          (
            made ∙ ap some text,
            sym (ap (λ o. o.1.db.users) same) ∙ ap (λ t. linked_users t user w) text,
          )
    ]
  ]

  pub ensure_customer-HasCustomer :
      (user : User) (id : String) (w w' : World R)
      → find (λ u. u.id == user.id) w.db.users ≡ some user
      → ((u : User) (new : String) → client.create_customer u ≡ some new → (new == "") ≡ false)
      → ensure_customer client user w ≡ (ok id, w')
      → HasCustomer user id w'
  ensure_customer-HasCustomer user id w w' there named done =
      elim (Bool-cases (is_set user.stripe_customer_id)) [
        | inl set ↦ kept_customer user id w w' there set done
        | inr unset ↦
            let (made, users) =
              new_customer-users user id w w' (sym (is_new user w unset) ∙ done) in
            has_customer user (linked id user) id w'
              (ap (find (λ u. u.id == user.id)) users ∙ found_linked id user w.db.users there) refl
              (named user id made)
      ]
