-- ===== src/Application/Shutdown.antt =====
-- A restart loses no request that was counted.
use agntspark_gateway.Prelude.{
  ℕ, ◌+◌, ◌≡◌, refl, String, true, none, List, [], All, arith, sym, ◌∙◌,
}
use agntspark_gateway.Models.{User}
use agntspark_gateway.World.{World, Platform, rollback}
use agntspark_gateway.Metering.{has_user, take_batch, flush_requests, Key}
use agntspark_gateway.Metering.Flush.{counting}
use agntspark_gateway.Metering.Ledger.{
  Ledger, flushed, Stands, ledger, in_rows, in_pending, booked_all, booked_all-count_all,
  IsKnown-count_all, step, step-Stands, write_out-pending,
}
use agntspark_gateway.Application.{shutdown, cancelled_flush}

-- where nothing waits the rows are the ledger
all_in_rows :
    {R : Type 0} (agent : String) (hour : ℕ) (w : World R)
    → w.pending ≡ []
    → ledger w agent hour ≡ in_rows w.stored.usage_hours agent hour
all_in_rows agent hour w e = rw e (omega arith)

module _ {R : Type 0} (p : Platform R) (users : List User) (l : Ledger) (w : World R) where
  -- When the process ends and the database works, every count is in the table: from a state that stands
  -- for a ledger, the committed rows alone are what it promises, for each agent and hour, and nothing
  -- waits.
  pub shutdown-Stands :
      Stands users l w
      → ((shutdown p none w).pending ≡ [])
        × ((agent : String) (hour : ℕ)
            → in_rows (shutdown p none w).stored.usage_hours agent hour ≡ l agent hour)
  unfolding shutdown flush_requests take_batch
  shutdown-Stands h =
      let done = step-Stands (flushed none []) users l w tt h in
      let left = write_out-pending w.pending (record (rollback w) { pending = [] }) in
      (
        left,
        λ agent hour.
            sym (all_in_rows agent hour (step (flushed none []) w) left) ∙ done.counts agent hour,
      )

module _ {R : Type 0} (p : Platform R) (users : List User) (l : Ledger) (w : World R) where
  -- When the scheduler's task is cancelled while its flush waits for the database, the batch that it
  -- holds is lost: after the last flush the committed rows lack exactly what was pending before, of what
  -- the ledger and the requests counted meanwhile come to.
  pub shutdown-cancelled :
      (ks : List Key) (agent : String) (hour : ℕ)
      → Stands users l w
      → All (λ k. has_user users k.1 ≡ true) ks
      → let v = shutdown p none (cancelled_flush p (counting ks) w) in
        in_rows v.stored.usage_hours agent hour + in_pending w.pending agent hour
        ≡ booked_all ks l agent hour
  unfolding cancelled_flush take_batch
  shutdown-cancelled ks agent hour h known =
      let u = cancelled_flush p (counting ks) w in
      let after = shutdown-Stands p users (ledger u) u (record {
        accounts = h.accounts;
        known = IsKnown-count_all users ks [] known tt;
        counts = λ a t. refl;
      }) in
      omega (arith, after.1 agent hour, booked_all-count_all agent hour ks l, h.counts agent hour)
