-- ===== src/Billing/Plan.antt =====
-- The plan of an account follows the status of its subscription.
use agntspark_gateway.Prelude.{
  ℕ, String, ◌≡◌, inl, inr, refl, subst, ◌∙◌, Bool, true, false, Option, none, some, List, [], ◌∷◌,
  find, any, modify_where, cond, All, ◌==◌, string_eq, nat_eq, option_eq, Option-cases, Bool-cases,
  is_set,
}
use agntspark_gateway.Exec.{Result-cases}
use agntspark_gateway.Models.{User}
use agntspark_gateway.World.{World}
use agntspark_gateway.Billing.{
  paid_plan, is_paid, plan_for_status, EventType, checkout_completed, subscription_created,
  subscription_updated, subscription_deleted, other_event, EventObject, find_user, clashes,
  is_settled, checked_out, synced, is_stale, status_of, current_subscription, save_user,
  handle_checkout, handle_subscription, handle_event, or_customer, by_id, by_customer, parse_id,
}

abbrev pub PlanFollows : User → Type 0
PlanFollows u = u.plan ≡ plan_for_status u.subscription_status

All-find :
    (P : User → Type 0) (q : User → Bool) (rows : List User) (u : User)
    → All P rows
    → find q rows ≡ some u
    → P u
All-find P q [] u a h = cc
All-find P q (x ∷ rows) u a h = elim (Bool-cases (q x)) [
  | inl hit ↦ subst P (some_eq x u (rw hit at h)) a.0
  | inr miss ↦ All-find P q rows u a.1 (rw miss at h)
]
  where
    some_eq : (x u : User) → some x ≡ some u → x ≡ u
    some_eq x u e = cc

All-weaken :
    (P Q : User → Type 0) → ((u : User) → P u → Q u) → (rows : List User) → All P rows → All Q rows
All-weaken P Q f [] a = tt
All-weaken P Q f (x ∷ rows) a = (f x a.0, All-weaken P Q f rows a.1)

All-modify :
    (Q : User → Type 0) (q : User → Bool) (v : User) (rows : List User)
    → All Q rows
    → Q v
    → All Q (modify_where q (λ _. v) rows)
All-modify Q q v [] a h = tt
All-modify Q q v (x ∷ rows) a h = (one (q x), All-modify Q q v rows a.1 h)
  where
    one : (b : Bool) → Q (cond b v x)
    one true = h
    one false = a.0

module _ (uuid : String → Option ℕ) (P : User → Type 0) where
  -- the account that an event finds
  found-P :
      (users : List User) (user_id customer_id : Option String) (u : User)
      → All P users
      → find_user uuid users user_id customer_id ≡ some u
      → P u
  unfolding find_user
  found-P users user_id customer_id u a h = first (by_id users (parse_id uuid user_id)) refl h
    where
      by_customer-P : by_customer users customer_id ≡ some u → P u
      by_customer-P e = elim (Bool-cases (is_set customer_id)) [
        | inl there ↦
            All-find P (λ x. x.stripe_customer_id == customer_id) users u a (rw there at e)
        | inr absent ↦ cc (rw absent at e)
      ]

      by_id-P : (id : Option ℕ) → by_id users id ≡ some u → P u
      by_id-P none e = cc
      by_id-P (some id) e = All-find P (λ x. x.id == id) users u a e

      first :
          (o : Option User)
          → by_id users (parse_id uuid user_id) ≡ o
          → or_customer o (by_customer users customer_id) ≡ some u
          → P u
      first none e k = by_customer-P k
      first (some v) e k = by_id-P (parse_id uuid user_id) (e ∙ k)

-- What an event preserves: `P` of every account before, `Q` of every account after.
module _ {R : Type 0} (uuid : String → Option ℕ) (P Q : User → Type 0)
    (weaken : (u : User) → P u → Q u) where
  save_user-All :
      (v : User) (w : World R) → All P w.db.users → Q v → All Q (save_user v w).1.db.users
  save_user-All v w a h = elim (Bool-cases (any (clashes v) w.db.users)) [
    | inl taken ↦ rw taken (All-weaken P Q weaken w.db.users a)
    | inr free ↦
        rw free
          (All-modify Q (λ u. u.id == v.id) v w.db.users (All-weaken P Q weaken w.db.users a) h)
  ]

  module _ (obj : EventObject) (w : World R) (all : All P w.db.users) where
    checkout-All :
        ((u : User) → P u → Q (checked_out obj u)) → All Q (handle_checkout uuid obj w).1.db.users
    unfolding handle_checkout
    checkout-All step =
        elim (Option-cases (find_user uuid w.db.users obj.client_reference_id obj.customer)) [
          | inl absent ↦ rw absent (All-weaken P Q weaken w.db.users all)
          | inr (u, found) ↦
              let mine =
                found-P uuid P w.db.users obj.client_reference_id obj.customer u all found in
              elim (Bool-cases (obj.mode == some "subscription")) [
                | inl yes_mode ↦
                    rw found (rw yes_mode (save_user-All (checked_out obj u) w all (step u mine)))
                | inr no_mode ↦ rw found (rw no_mode (All-weaken P Q weaken w.db.users all))
              ]
        ]

    subscription-All :
        (type : EventType)
        → ((u : User)
            → P u
            → is_stale obj (status_of type obj) u ≡ false
            → Q (synced obj (status_of type obj) u))
        → All Q (handle_subscription uuid type obj w).1.db.users
    unfolding handle_subscription
    subscription-All type step =
        elim (Option-cases (find_user uuid w.db.users obj.metadata_user_id obj.customer)) [
          | inl absent ↦ rw absent (All-weaken P Q weaken w.db.users all)
          | inr (u, found) ↦
              let mine = found-P uuid P w.db.users obj.metadata_user_id obj.customer u all found in
              elim (Bool-cases (is_stale obj (status_of type obj) u)) [
                | inl stale ↦ rw found (rw stale (All-weaken P Q weaken w.db.users all))
                | inr live ↦ rw found (
                    rw live
                      (save_user-All (synced obj (status_of type obj) u) w all (step u mine live)))
              ]
        ]

checked_out-PlanFollows :
    (obj : EventObject) (u : User) → PlanFollows u → PlanFollows (checked_out obj u)
unfolding plan_for_status is_paid string_eq
checked_out-PlanFollows obj u h = elim (Bool-cases (is_settled obj.payment_status)) [
  | inl settled ↦ rw settled refl
  | inr unpaid ↦ rw unpaid h
]

-- an account on the paid plan by subscription `s`
abbrev pub IsPaidBy : ℕ → String → User → Type 0
IsPaidBy id s u = u.id ≡ id → (u.plan ≡ paid_plan) × (u.stripe_subscription_id ≡ some s)

abbrev pub IsOnPaidPlan : ℕ → User → Type 0
IsOnPaidPlan id u = u.id ≡ id → u.plan ≡ paid_plan

synced-paid :
    (id : ℕ) (s : String) (obj : EventObject) (status : Option String) (u : User)
    → (s == "") ≡ false
    → (obj.id == some s) ≡ false
    → IsPaidBy id s u
    → is_stale obj status u ≡ false
    → IsOnPaidPlan id (synced obj status u)
unfolding plan_for_status
synced-paid id s obj status u set other paid live = λ mine.
    let sub = (paid mine).1 in
    elim (Bool-cases (is_paid status)) [
      | inl good ↦ rw good refl
      | inr lapsed ↦ cc (rw (sub, other, set, lapsed) at live)
    ]

module _ {R : Type 0} (uuid : String → Option ℕ) where
  subscription-PlanFollows :
      (type : EventType) (obj : EventObject) (w : World R)
      → All PlanFollows w.db.users
      → All PlanFollows (handle_subscription uuid type obj w).1.db.users
  subscription-PlanFollows type obj w all =
      subscription-All uuid PlanFollows PlanFollows (λ u h. h) obj w all type (λ u h live. refl)

  pub handle_event-PlanFollows :
      (client : Option (String → Option EventObject)) (type : EventType) (obj : EventObject)
      (w : World R)
      → All PlanFollows w.db.users
      → All PlanFollows (handle_event uuid client type obj w).1.db.users
  unfolding handle_event
  handle_event-PlanFollows client checkout_completed obj w all =
      checkout-All uuid PlanFollows PlanFollows (λ u h. h) obj w all (checked_out-PlanFollows obj)
  handle_event-PlanFollows client subscription_deleted obj w all =
      subscription-PlanFollows subscription_deleted obj w all
  handle_event-PlanFollows client subscription_created obj w all =
      elim (Result-cases (current_subscription client obj)) [
        | inr (e, failed) ↦ rw failed all
        | inl (now, got) ↦ rw got (subscription-PlanFollows subscription_created now w all)
      ]
  handle_event-PlanFollows client subscription_updated obj w all =
      elim (Result-cases (current_subscription client obj)) [
        | inr (e, failed) ↦ rw failed all
        | inl (now, got) ↦ rw got (subscription-PlanFollows subscription_updated now w all)
      ]
  handle_event-PlanFollows client other_event obj w all = all

  -- No event of another subscription takes away the plan that an account pays for: an old one that
  -- ends or lapses, however late, leaves the account on the paid plan.
  pub handle_subscription-IsOnPaidPlan :
      (id : ℕ) (s : String) (type : EventType) (obj : EventObject) (w : World R)
      → (s == "") ≡ false
      → (obj.id == some s) ≡ false
      → All (IsPaidBy id s) w.db.users
      → All (IsOnPaidPlan id) (handle_subscription uuid type obj w).1.db.users
  handle_subscription-IsOnPaidPlan id s type obj w set other all =
      subscription-All uuid (IsPaidBy id s) (IsOnPaidPlan id) (λ u h. λ mine. (h mine).0) obj w all
        type (λ u h live. synced-paid id s obj (status_of type obj) u set other h live)
