-- ===== src/Metering/Ledger.antt =====
-- services/metering_service.py against what it promises: a ledger that counts the requests of each
-- agent and hour. The ledger forgets which of them are in the table and which wait in memory, in
-- what order, and for which flush.
use agntspark_gateway.Prelude.{
  ℕ, zero, suc, ◌+◌, ◌≡◌, refl, sym, subst, String, Bool, true, Option, none, some, List, [], ◌∷◌,
  arith, sum_of, All, if◌then◌else◌, ◌==◌, ◌&&◌, insert, Bool-cases, Option-cases, inl, inr,
  string_eq, nat_eq,
}
use agntspark_gateway.Models.{UsageHour, User}
use agntspark_gateway.World.{World, Pending, rollback}
use agntspark_gateway.Metering.{
  Key, key_eq, give_back, close_batch, is_bucket, upsert, requests_row, count_of, add_count,
  restore, has_user, spend, write_batch, write_out, take_batch, flush_requests,
}
use agntspark_gateway.Metering.Flush.{count_all, counting}

-- What the metering promises: the requests of an agent in an hour.
abbrev pub Ledger : Type 0
Ledger = String → ℕ → ℕ

abbrev pub is_in : String → ℕ → Key → Bool
is_in agent hour k = k.0 == agent && k.2 == hour

-- one request more in the key's place
abbrev pub booked_one : Key → Ledger → Ledger
booked_one k l agent hour = l agent hour + (if is_in agent hour k then 1 else 0)

abbrev pub booked_all : List Key → Ledger → Ledger
booked_all [] l = l
booked_all (k ∷ ks) l = booked_all ks (booked_one k l)

-- what is in the table, and what waits
abbrev pub in_rows : List UsageHour → Ledger
in_rows rows agent hour =
    sum_of (λ h. if h.agent_id == agent && h.hour_start == hour then h.requests else 0) rows

abbrev pub in_pending : Pending → Ledger
in_pending pending agent hour = sum_of (λ e. if is_in agent hour e.0 then e.1 else 0) pending

-- What happens to the counts: a request is counted, or the counts are flushed while others arrive.
pub data MeterStep : Type 0 where
  counted : Key → MeterStep
  flushed : Option ℕ → List Key → MeterStep

-- the counts as the process and the table hold them, each as the ledger sees it
abbrev pub arrivals : MeterStep → List Key
arrivals (counted k) = k ∷ []
arrivals (flushed budget ks) = ks

abbrev pub promised : List MeterStep → Ledger → Ledger
promised [] l = l
promised (s ∷ steps) l = promised steps (booked_all (arrivals s) l)

same_bucket :
    (d h : UsageHour)
    → is_bucket d h ≡ true
    → (h.agent_id ≡ d.agent_id) × (h.hour_start ≡ d.hour_start)
same_bucket d h e = ground (arith, e)

module _ (agent : String) (hour : ℕ) where
  in_pending-insert :
      (j : Key) (n : ℕ) (p : Pending)
      → in_pending (insert j (count_of j p + n) p) agent hour
        ≡ in_pending p agent hour + (if is_in agent hour j then n else 0)
  unfolding count_of
  in_pending-insert j n [] = ground arith
  in_pending-insert j n (e ∷ p) = ground (arith, in_pending-insert j n p)

  in_pending-add_count :
      (j : Key) (n : ℕ) (p : Pending)
      → in_pending (add_count j n p) agent hour
        ≡ in_pending p agent hour + (if is_in agent hour j then n else 0)
  unfolding add_count
  in_pending-add_count j n p = in_pending-insert j n p

  in_pending-restore :
      (batch p : Pending)
      → in_pending (restore batch p) agent hour
        ≡ in_pending p agent hour + in_pending batch agent hour
  unfolding restore
  in_pending-restore [] p = omega arith
  in_pending-restore ((j, n) ∷ batch) p =
      omega (arith, in_pending-restore batch (add_count j n p), in_pending-add_count j n p)

  -- both sides of a conversation about the same sum
  booked_all-add :
      (ks : List Key) (l m : Ledger) (c : ℕ)
      → l agent hour ≡ m agent hour + c
      → booked_all ks l agent hour ≡ booked_all ks m agent hour + c
  booked_all-add [] l m c e = e
  booked_all-add (k ∷ ks) l m c e =
      booked_all-add ks (booked_one k l) (booked_one k m) c (omega (arith, e))

  in_pending-count_all :
      (ks : List Key) (p : Pending) (l : Ledger)
      → in_pending p agent hour ≡ l agent hour
      → in_pending (count_all ks p) agent hour ≡ booked_all ks l agent hour
  in_pending-count_all [] p l e = e
  in_pending-count_all (k ∷ ks) p l e =
      in_pending-count_all ks (add_count k 1 p) (booked_one k l)
        (omega (arith, in_pending-add_count k 1 p, e))

  -- what came meanwhile, on top of any ledger
  pub booked_all-count_all :
      (ks : List Key) (l : Ledger)
      → booked_all ks l agent hour ≡ in_pending (count_all ks []) agent hour + l agent hour
  booked_all-count_all ks l = omega (
    arith,
    booked_all-add ks l (λ _ _. 0) (l agent hour) (omega arith),
    in_pending-count_all ks [] (λ _ _. 0) refl,
  )

  in_rows-upsert :
      (d : UsageHour) (rows : List UsageHour)
      → in_rows (upsert d rows) agent hour
        ≡ in_rows rows agent hour
          + (if d.agent_id == agent && d.hour_start == hour then d.requests else 0)
  unfolding upsert
  in_rows-upsert d [] = omega arith
  in_rows-upsert d (h ∷ rows) = ground (arith, in_rows-upsert d rows, same_bucket d h)

  in_rows-write_batch :
      (users : List User) (batch : Pending) (budget : Option ℕ) (acc : ℕ) (rows : List UsageHour)
      {n : ℕ} {rows' : List UsageHour} {left : Option ℕ}
      → All (λ e. has_user users e.0.1 ≡ true) batch
      → write_batch users batch budget acc rows ≡ some (n, rows', left)
      → in_rows rows' agent hour ≡ in_rows rows agent hour + in_pending batch agent hour
  unfolding write_batch requests_row
  in_rows-write_batch users [] budget acc rows known h = ground arith
  in_rows-write_batch users ((k, n) ∷ batch) budget acc rows known h =
      elim (Option-cases (spend budget)) [
        | inl broke ↦ cc (known.0, broke, h)
        | inr (budget', paid) ↦
            let row = requests_row k n in
            let ih =
              in_rows-write_batch users batch budget' (acc + n) (upsert row rows) known.1
                (rw (known.0, paid, write_batch) at h) in
            omega (arith, ih, in_rows-upsert row rows)
      ]

-- a database that works writes every batch
write_batch-none :
    (users : List User) (batch : Pending) (acc : ℕ) (rows : List UsageHour)
    → (n : ℕ) × (rows' : List UsageHour) × (write_batch users batch none acc rows
        ≡ some (n, rows', none))
unfolding write_batch
write_batch-none users [] acc rows = (acc, rows, refl)
write_batch-none users ((k, n) ∷ batch) acc rows = elim (Bool-cases (has_user users k.1)) [
  | inr gone ↦
      let (m, rows', e) = write_batch-none users batch acc rows in
      (m, rows', rw (gone, write_batch) e)
  | inl here ↦
      let (m, rows', e) = write_batch-none users batch (acc + n) (upsert (requests_row k n) rows) in
      (m, rows', rw (here, write_batch) e)
]

-- every count that waits is of an account in the table, and accounts are never deleted
abbrev pub IsKnown : List User → Pending → Type 0
IsKnown users pending = All (λ e. has_user users e.0.1 ≡ true) pending

IsKnown-add_count :
    (users : List User) (k : Key) (n : ℕ) (p : Pending)
    → has_user users k.1 ≡ true
    → IsKnown users p
    → IsKnown users (add_count k n p)
unfolding add_count
IsKnown-add_count users k n p known h = added (count_of k p + n) p h
  where
    added : (m : ℕ) (q : Pending) → IsKnown users q → IsKnown users (insert k m q)
    added m [] h' = (known, tt)
    added m (e ∷ q) h' = ground (arith, added m q, h', known)

pub IsKnown-count_all :
    (users : List User) (ks : List Key) (p : Pending)
    → All (λ k. has_user users k.1 ≡ true) ks
    → IsKnown users p
    → IsKnown users (count_all ks p)
IsKnown-count_all users [] p known h = h
IsKnown-count_all users (k ∷ ks) p known h =
    IsKnown-count_all users ks (add_count k 1 p) known.1 (IsKnown-add_count users k 1 p known.0 h)

IsKnown-restore :
    (users : List User) (batch p : Pending)
    → IsKnown users batch
    → IsKnown users p
    → IsKnown users (restore batch p)
unfolding restore
IsKnown-restore users [] p known h = h
IsKnown-restore users ((k, n) ∷ batch) p known h =
    IsKnown-restore users batch (add_count k n p) known.1 (IsKnown-add_count users k n p known.0 h)

module _ {R : Type 0} where
  -- the ledger of a state: what is committed, and what waits
  abbrev pub ledger : World R → Ledger
  ledger w agent hour = in_rows w.stored.usage_hours agent hour + in_pending w.pending agent hour

  -- a flush runs in a session of its own
  abbrev pub step : MeterStep → World R → World R
  step (counted k) w = counting (k ∷ []) w
  step (flushed budget ks) w = (flush_requests budget (counting ks) (rollback w)).1

  abbrev pub run : List MeterStep → World R → World R
  run [] w = w
  run (s ∷ steps) w = run steps (step s w)

  -- what relates a state to the ledger that it stands for
  pub record Stands (users : List User) (l : Ledger) (w : World R) : Type 0 where
    pub accounts : w.stored.users ≡ users
    pub known : IsKnown users w.pending
    pub counts : (agent : String) (hour : ℕ) → ledger w agent hour ≡ l agent hour

  module _ (w : World R) (l : Ledger) (ks : List Key) (batch : Pending)
      (fresh : All (λ k. has_user w.stored.users k.1 ≡ true) ks)
      (known : IsKnown w.stored.users batch)
      (sum : (agent : String) (hour : ℕ)
        → in_rows w.stored.usage_hours agent hour + in_pending batch agent hour
          ≡ l agent hour) where
    -- the state when the flush comes to the database
    abbrev at_flush : World R
    at_flush = record w { db = w.stored; pending = count_all ks [] }

    waiting : IsKnown w.stored.users (count_all ks [])
    waiting = IsKnown-count_all w.stored.users ks [] fresh tt

    back-Stands : Stands w.stored.users (booked_all ks l) (give_back batch at_flush)
    back-Stands = record {
      accounts = refl;
      known = IsKnown-restore w.stored.users batch (count_all ks []) known waiting;
      counts = λ agent hour. omega (
        arith,
        in_pending-restore agent hour batch (count_all ks []),
        booked_all-count_all agent hour ks l,
        sum agent hour,
      );
    }

    written-Stands :
        (budget : Option ℕ) (n : ℕ) (rows : List UsageHour) (left : Option ℕ)
        → write_batch w.stored.users batch budget 0 w.stored.usage_hours ≡ some (n, rows, left)
        → Stands w.stored.users (booked_all ks l) (record at_flush {
          db = record w.stored { usage_hours = rows };
          stored = record w.stored { usage_hours = rows };
        })
    written-Stands budget n rows left e = record {
      accounts = refl;
      known = waiting;
      counts = λ agent hour. omega (
        arith,
        in_rows-write_batch agent hour w.stored.users batch budget 0 w.stored.usage_hours known e,
        booked_all-count_all agent hour ks l,
        sum agent hour,
      );
    }

    closed-Stands :
        (budget : Option ℕ) (r : Option (ℕ × List UsageHour × Option ℕ))
        → write_batch w.stored.users batch budget 0 w.stored.usage_hours ≡ r
        → Stands w.stored.users (booked_all ks l) (close_batch batch r at_flush).1
    closed-Stands budget none e = back-Stands
    closed-Stands budget (some (n, rows, some zero)) e = back-Stands
    closed-Stands budget (some (n, rows, none)) e = written-Stands budget n rows none e
    closed-Stands budget (some (n, rows, some (suc left))) e =
        written-Stands budget n rows (some (suc left)) e

  write_out-Stands :
      (w : World R) (l : Ledger) (ks : List Key) (batch : Pending)
      → All (λ k. has_user w.stored.users k.1 ≡ true) ks
      → IsKnown w.stored.users batch
      → ((agent : String) (hour : ℕ)
          → in_rows w.stored.usage_hours agent hour + in_pending batch agent hour ≡ l agent hour)
      → (budget : Option ℕ)
      → Stands w.stored.users
          (booked_all ks l)
          (write_out budget batch (record w { db = w.stored; pending = count_all ks [] })).1
  unfolding write_out
  write_out-Stands w l ks [] fresh known sum budget = record {
    accounts = refl;
    known = IsKnown-count_all w.stored.users ks [] fresh tt;
    counts = λ agent hour. omega (arith, booked_all-count_all agent hour ks l, sum agent hour);
  }
  write_out-Stands w l ks (e ∷ batch) fresh known sum none =
      closed-Stands w l ks (e ∷ batch) fresh known sum none _ refl
  write_out-Stands w l ks (e ∷ batch) fresh known sum (some zero) =
      back-Stands w l ks (e ∷ batch) fresh known sum
  write_out-Stands w l ks (e ∷ batch) fresh known sum (some (suc n)) =
      closed-Stands w l ks (e ∷ batch) fresh known sum (some n) _ refl

  pub step-Stands :
      (s : MeterStep) (users : List User) (l : Ledger) (w : World R)
      → All (λ k. has_user users k.1 ≡ true) (arrivals s)
      → Stands users l w
      → Stands users (booked_all (arrivals s) l) (step s w)
  unfolding flush_requests take_batch
  step-Stands (counted k) users l w fresh h = record {
    accounts = h.accounts;
    known = IsKnown-add_count users k 1 w.pending fresh.0 h.known;
    counts = λ agent hour.
        omega (arith, in_pending-add_count agent hour k 1 w.pending, h.counts agent hour);
  }
  step-Stands (flushed budget ks) users l w fresh h =
      let back = sym h.accounts in
      subst (λ us. Stands us (booked_all ks l) (step (flushed budget ks) w)) h.accounts
        (write_out-Stands w l ks w.pending
          (subst (λ us. All (λ k. has_user us k.1 ≡ true) ks) back fresh)
          (subst (λ us. IsKnown us w.pending) back h.known) h.counts budget)

  -- with a database that works a flush leaves just what came meanwhile
  pub write_out-pending :
      (batch : Pending) (w : World R) → (write_out none batch w).1.pending ≡ w.pending
  unfolding write_out
  write_out-pending [] w = refl
  write_out-pending (e ∷ batch) w =
      let (n, rows, e') = write_batch-none w.db.users (e ∷ batch) 0 w.db.usage_hours in rw e' refl

  -- Metering refines the ledger: whatever requests are counted and whenever the counts are flushed,
  -- with the database failing at any statement and requests arriving while a flush waits, what is
  -- committed for an agent and an hour plus what waits in memory is what the ledger promises. (The
  -- requests are of accounts in the table, and no account is ever deleted.)
  pub run-Stands :
      (steps : List MeterStep) (users : List User) (l : Ledger) (w : World R)
      → All (λ s. All (λ k. has_user users k.1 ≡ true) (arrivals s)) steps
      → Stands users l w
      → Stands users (promised steps l) (run steps w)
  run-Stands [] users l w fresh h = h
  run-Stands (s ∷ steps) users l w fresh h =
      run-Stands steps users (booked_all (arrivals s) l) (step s w) fresh.1
        (step-Stands s users l w fresh.0 h)
