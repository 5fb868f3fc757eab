-- ===== src/Metering.antt =====
-- services/metering_service.py: usage per agent and hour, and the requests counted in memory. An
-- instant is in microseconds; a flush is cut where it first waits for the database, since requests
-- are counted while it waits. `budget` is the number of statements that succeed before the database
-- raises (`none`: it never does).
pub mod Buckets
pub mod Calendar
pub mod Flush
pub mod Ledger
use agntspark_gateway.Prelude.{
  ℕ, zero, suc, ◌+◌, ◌-◌, ◌*◌, ◌/◌, ◌%◌, String, Bool, true, false, Option, none, some, List, [],
  ◌∷◌, ltb, leb, any, select, sum_of, if◌then◌else◌, ◌==◌, ◌&&◌, ◌||◌, lookup, insert, string_eq,
  nat_eq, Eq, string_dec, ℕ_discrete,
}
use agntspark_gateway.Errors.{unhandled}
use agntspark_gateway.Exec.{Exec, Result, ok, err}
use agntspark_gateway.Models.{Agent, UsageHour, User}
use agntspark_gateway.World.{World, Pending, commit, rollback, on_usage_hours}

-- (agent_id, user_id, hour_start)
abbrev pub Key : Type 0
Key = String × ℕ × ℕ

key_discrete : Discrete Key
key_discrete = hlevel (ℕ_discrete, string_dec)

instance unfoldable pub key_eq : Eq Key
unfolding key_discrete
key_eq = record { dec = key_discrete }

abbrev pub hour : ℕ
hour = 3_600_000_000

-- `_hour_start`
unfoldable pub hour_start_of : ℕ → ℕ
hour_start_of at = at - at % hour

abbrev pub is_bucket : UsageHour → UsageHour → Bool
is_bucket d h = h.agent_id == d.agent_id && h.hour_start == d.hour_start

abbrev pub add_usage : UsageHour → UsageHour → UsageHour
add_usage h d = record h {
  replica_seconds = h.replica_seconds + d.replica_seconds;
  vcpu_seconds = h.vcpu_seconds + d.vcpu_seconds;
  memory_mb_seconds = h.memory_mb_seconds + d.memory_mb_seconds;
  requests = h.requests + d.requests;
}

-- `insert ... on_conflict_do_update` on the unique (agent_id, hour_start). The columns that a
-- statement does not set are 0 in the new row and stay as they are in an old one.
unfoldable pub upsert : UsageHour → List UsageHour → List UsageHour
upsert d [] = d ∷ []
upsert d (h ∷ rest) =
    let after = upsert d rest in if is_bucket d h then add_usage h d ∷ rest else h ∷ after

-- what `record` adds; a vCPU amount is in millionths, a time in microseconds
unfoldable pub reserved : Agent → ℕ → ℕ → ℕ → UsageHour
unfolding hour_start_of
reserved agent replicas seconds at = record {
  user_id = agent.user_id;
  agent_id = agent.id;
  hour_start = hour_start_of at;
  replica_seconds = replicas * seconds;
  vcpu_seconds = replicas * agent.cpu * seconds;
  memory_mb_seconds = replicas * agent.memory_mb * seconds;
  requests = 0;
}

unfoldable pub requests_row : Key → ℕ → UsageHour
requests_row (agent_id, user_id, hour_start) count = record {
  user_id = user_id;
  agent_id = agent_id;
  hour_start = hour_start;
  replica_seconds = 0;
  vcpu_seconds = 0;
  memory_mb_seconds = 0;
  requests = count;
}

unfoldable pub count_of : Key → Pending → ℕ
count_of k pending = elim (lookup k pending) [ none ↦ 0 | some n ↦ n ]

-- `_pending_requests[k] += n`
unfoldable pub add_count : Key → ℕ → Pending → Pending
unfolding count_of
add_count k n pending = insert k (count_of k pending + n) pending

-- `_pending_requests.update(batch)`: a `Counter` adds
unfoldable pub restore : Pending → Pending → Pending
unfolding add_count
restore [] pending = pending
restore ((k, n) ∷ batch) pending = restore batch (add_count k n pending)

abbrev pub has_user : List User → ℕ → Bool
has_user users id = any (λ u. u.id == id) users

-- one statement of the database, if it does not raise
abbrev pub spend : Option ℕ → Option (Option ℕ)
spend none = some none
spend (some zero) = none
spend (some (suc n)) = some (some n)

-- The loop over the batch: the count written, the rows, and the statements left; `none` is a raise.
unfoldable pub write_batch :
    List User → Pending → Option ℕ → ℕ → List UsageHour → Option (ℕ × List UsageHour × Option ℕ)
unfolding upsert requests_row
write_batch users [] budget written rows = some (written, rows, budget)
write_batch users ((k, n) ∷ batch) budget written rows = elim (has_user users k.1) [
  | false ↦ write_batch users batch budget written rows
  | true ↦ elim (spend budget) [
    | none ↦ none
    | some budget' ↦ write_batch users batch budget' (written + n) (upsert (requests_row k n) rows)
  ]
]

module _ {R : Type 0} where
  -- `record`
  unfoldable pub record_usage : Agent → ℕ → ℕ → ℕ → World R → World R
  unfolding upsert reserved
  record_usage agent replicas seconds at w =
      if leb replicas 0 || leb seconds 0
      then w
      else on_usage_hours (upsert (reserved agent replicas seconds at)) w

  -- `count_request`
  unfoldable pub count_request : Agent → ℕ → World R → World R
  unfolding add_count hour_start_of
  count_request agent at w = record w {
    pending = add_count (agent.id, agent.user_id, hour_start_of at) 1 w.pending;
  }

  -- `pending_requests`
  unfoldable pub pending_requests : World R → ℕ
  pending_requests w = sum_of (λ e. e.1) w.pending

  -- `discard_pending_requests`
  unfoldable pub discard_pending_requests : World R → World R
  discard_pending_requests w = record w { pending = [] }

  -- `flush_requests` up to its first wait: the batch is taken and the counter emptied
  unfoldable pub take_batch : World R → Pending × World R
  take_batch w = (w.pending, record w { pending = [] })

  abbrev pub give_back : Pending → World R → World R
  give_back batch w = let back = rollback w in record back { pending = restore batch w.pending }

  -- the `try` of `flush_requests`, on what is left of the budget after the loop
  abbrev pub close_batch :
      Pending → Option (ℕ × List UsageHour × Option ℕ) → World R → Result ℕ × World R
  close_batch batch none w = (err unhandled, give_back batch w)
  close_batch batch (some (written, rows, budget)) w = elim (spend budget) [
    | none ↦ (err unhandled, give_back batch w)
    | some _ ↦ (ok written, (commit (on_usage_hours (λ _. rows) w)).1)
  ]

  -- `flush_requests` from its first wait on
  unfoldable pub write_out : Option ℕ → Pending → World R → Result ℕ × World R
  unfolding write_batch restore
  write_out budget [] w = (ok 0, w)
  write_out budget (e ∷ batch) w = elim (spend budget) [
    | none ↦ (err unhandled, give_back (e ∷ batch) w)
    | some left ↦
        close_batch (e ∷ batch) (write_batch w.db.users (e ∷ batch) left 0 w.db.usage_hours) w
  ]

  -- `flush_requests`, with what the process counts while it waits
  unfoldable pub flush_requests : Option ℕ → (World R → World R) → World R → Result ℕ × World R
  unfolding take_batch write_out
  flush_requests budget meanwhile w =
      let (batch, taken) = take_batch w in write_out budget batch (meanwhile taken)

-- `round(n / d)`, to even at a half
unfoldable pub round_div : ℕ → ℕ → ℕ
round_div n d =
    let q = n / d in
    if ltb (2 * (n % d)) d then q else if ltb d (2 * (n % d)) then q + 1 else q + q % 2

-- Hours are in ten-thousandths, as `round(…, 4)` leaves them.
pub record PeriodTotals : Type 0 where
  pub start : ℕ
  pub replica_hours : ℕ
  pub vcpu_hours : ℕ
  pub memory_gb_hours : ℕ
  pub requests : ℕ

-- the rows of `period_totals`
unfoldable pub in_period : ℕ → ℕ → Option ℕ → UsageHour → Bool
in_period user_id start none h = h.user_id == user_id && leb start h.hour_start
in_period user_id start (some end) h =
    h.user_id == user_id && leb start h.hour_start && ltb h.hour_start end

unfoldable pub period_totals : List UsageHour → ℕ → ℕ → Option ℕ → PeriodTotals
unfolding in_period round_div
period_totals rows user_id start end =
    let chosen = select (in_period user_id start end) rows in
    record {
      start = start;
      replica_hours = round_div (sum_of (λ h. h.replica_seconds) chosen) 360_000;
      vcpu_hours = round_div (sum_of (λ h. h.vcpu_seconds) chosen) 360_000_000_000;
      memory_gb_hours = round_div (sum_of (λ h. h.memory_mb_seconds) chosen) 368_640_000;
      requests = sum_of (λ h. h.requests) chosen;
    }
