-- ===== src/Tests/Services.antt =====
-- The ledger of requests over a failing flush and a restart, the ids of requests, Stripe's customers.
use agntspark_gateway.Prelude.{
  ℕ, ◌+◌, ◌*◌, ◌≤◌, ◌<◌, ◌≡◌, refl, true, false, some, none, List, [], ◌∷◌, find, subst, ◌==◌,
  nat_eq, ℕ_discrete, string_eq, string_dec, text_eq, arith,
}
use mathlib.Core.Option.{some-injective}
use agntspark_gateway.Prelude.Characters.{codes}
use agntspark_gateway.Exec.{ok}
use agntspark_gateway.Models.{User}
use agntspark_gateway.Metering.{Key}
use agntspark_gateway.Metering.Flush.{counting}
use agntspark_gateway.Metering.Ledger.{
  Ledger, MeterStep, counted, flushed, promised, Stands, in_rows, in_pending, booked_all, run,
  run-Stands,
}
use agntspark_gateway.Metering.Calendar.{Month, days_in, is_leap, day_length, month_start}
use agntspark_gateway.Metering.Calendar.Months.{IsFirst, month_start-Starts}
use agntspark_gateway.Application.{shutdown, cancelled_flush}
use agntspark_gateway.Application.Shutdown.{shutdown-Stands, shutdown-cancelled}
use agntspark_gateway.Observability.{
  Scope, Message, response_start, response_body, call_app, is_valid_request_id,
}
use agntspark_gateway.Observability.Tagging.{IsTraced, call_app-IsTraced}
use agntspark_gateway.Billing.Redirects.{StripeClient, ensure_customer}
use agntspark_gateway.Billing.Redirects.Customers.{HasCustomer, ensure_customer-HasCustomer}
use agntspark_gateway.Tests.{platform, ann, world}

abbrev asked : Key
asked = ("agt_1", 1, 0)

abbrev steps : List MeterStep
steps = counted asked ∷ flushed (some 1) (asked ∷ []) ∷ flushed none [] ∷ []

abbrev nothing : Ledger
nothing agent hour = 0

world-Stands : Stands world.stored.users nothing world
world-Stands = record { accounts = refl; known = tt; counts = λ agent hour. omega arith }

run-Stands_example : Stands world.stored.users (promised steps nothing) (run steps world)
unfolding nat_eq ℕ_discrete
run-Stands_example =
    run-Stands steps world.stored.users nothing world ((refl, tt), ((refl, tt), (tt, tt)))
      world-Stands

shutdown-Stands_example :
    ((shutdown platform none world).pending ≡ [])
    × ((agent : _) (hour : ℕ)
        → in_rows (shutdown platform none world).stored.usage_hours agent hour ≡ nothing agent hour)
shutdown-Stands_example = shutdown-Stands platform world.stored.users nothing world world-Stands

shutdown-cancelled_example :
    in_rows
        (shutdown platform none
          (cancelled_flush platform (counting (asked ∷ [])) world)).stored.usage_hours
        "agt_1"
        0
      + in_pending world.pending "agt_1" 0
    ≡ booked_all (asked ∷ []) nothing "agt_1" 0
unfolding nat_eq ℕ_discrete
shutdown-cancelled_example =
    shutdown-cancelled platform world.stored.users nothing world (asked ∷ []) "agt_1" 0 world-Stands
      (refl, tt)

abbrev scope : Scope
scope = record {
  is_http = true;
  method = "GET";
  path = "/v1/agents";
  headers = (codes "x-request-id", codes "req-1") ∷ [];
}

abbrev answer : List Message
answer =
    response_start 200 ((codes "x-request-id", codes "other") ∷ [])
    ∷ response_body (codes "{}")
    ∷ []

fresh_valid : is_valid_request_id (codes "abc") ≡ true
unfolding is_valid_request_id nat_eq ℕ_discrete text_eq
fresh_valid = refl

call_app-IsTraced_example :
    IsTraced (codes "abc") scope answer (call_app (codes "abc") scope answer)
call_app-IsTraced_example = call_app-IsTraced (codes "abc") scope answer fresh_valid refl

abbrev stripe : StripeClient
stripe = record {
  create_customer = λ u. some "cus_1";
  create_checkout = λ session. some "https://checkout";
  create_portal = λ customer url. some "https://portal";
}

ann_found : find (λ u. u.id == ann.id) world.db.users ≡ some ann
unfolding nat_eq ℕ_discrete
ann_found = refl

stripe_named : (u : User) (new : _) → stripe.create_customer u ≡ some new → (new == "") ≡ false
unfolding string_eq string_dec
stripe_named u new e = subst (λ t. (t == "") ≡ false) (some-injective "cus_1" new e) refl

with_customer :
    ensure_customer stripe ann world ≡ (ok "cus_1", (ensure_customer stripe ann world).1)
unfolding ensure_customer nat_eq ℕ_discrete
with_customer = refl

ensure_customer-HasCustomer_example :
    HasCustomer stripe ann "cus_1" (ensure_customer stripe ann world).1
ensure_customer-HasCustomer_example =
    ensure_customer-HasCustomer stripe ann "cus_1" world _ ann_found stripe_named with_customer

-- the evening of 29 February 2024
abbrev leap_day : ℕ
leap_day = 1_709_236_800_000_000

leap_month : month_start leap_day ≡ 1_706_745_600_000_000
unfolding month_start is_leap nat_eq ℕ_discrete
leap_month = refl

month_start-Starts_example :
    (m : Month) × IsFirst m
    × (month_start leap_day ≡ m.first * day_length)
    × (month_start leap_day ≤ leap_day)
    × (leap_day < (m.first + days_in m.year m.month) * day_length)
month_start-Starts_example = month_start-Starts leap_day
