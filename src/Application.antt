-- ===== src/Application.antt =====
-- main.py, with `startup_reconcile` of runtime.py and the probes of routers/health.py: when the
-- gateway starts, and what it does at its start and its end.
pub mod Shutdown
use agntspark_gateway.Prelude.{ℕ, Bool, Option, none, some, List, [], ◌∷◌, is_set, if◌then◌else◌}
use agntspark_gateway.Settings.{GatewaySettings, Problem, production_config_problems}
use agntspark_gateway.Limiter.{Limiter}
use agntspark_gateway.External.{Outcome}
use agntspark_gateway.Metering.{take_batch, flush_requests}
use agntspark_gateway.World.{World, Platform, request, rollback}

-- `init_error_reporting`: whether errors are reported
unfoldable pub init_error_reporting : GatewaySettings → Bool
init_error_reporting cfg = is_set cfg.sentry_dsn

-- `create_app`: the RuntimeError with its problems, or an application
pub data Start : Type 0 where
  refused : List Problem → Start
  started : Bool → Start

abbrev start_unless : List Problem → Bool → Start
start_unless [] reporting = started reporting
start_unless (problem ∷ problems) reporting = refused (problem ∷ problems)

unfoldable pub create_app : GatewaySettings → Start
unfolding production_config_problems init_error_reporting
create_app cfg = start_unless (production_config_problems cfg) (init_error_reporting cfg)

-- `readyz`, by whether the database answers
unfoldable pub readyz : Bool → ℕ
readyz reachable = if reachable then 200 else 503

module _ {R : Type 0} (p : Platform R) where
  -- `startup_reconcile`: an exception is logged
  unfoldable pub startup_reconcile : World R → World R
  startup_reconcile w = record w { runtime = (p.engine.reconcile w.runtime).1 }

  -- the end of `lifespan`: a last flush in a session of its own, whose exception is logged; no request
  -- is counted any more
  unfoldable pub shutdown : Option ℕ → World R → World R
  unfolding flush_requests
  shutdown budget w = (request (flush_requests budget (λ v. v)) w).1

  -- The cancellation of the scheduler's task while its flush waits for the database: a CancelledError
  -- is no `Exception`, so nothing is put back, and the session is closed.
  unfoldable pub cancelled_flush : (World R → World R) → World R → World R
  unfolding take_batch
  cancelled_flush meanwhile w = rollback (meanwhile (take_batch w).1)

  -- `lifespan` around what the process serves; its memory is empty when it starts
  unfoldable pub lifespan : Limiter → Limiter → (World R → World R) → Option ℕ → World R → World R
  unfolding startup_reconcile shutdown
  lifespan per_client per_agent serving budget w =
      let fresh = record w { pending = []; per_client = per_client; per_agent = per_agent } in
      shutdown budget (serving (startup_reconcile fresh))
