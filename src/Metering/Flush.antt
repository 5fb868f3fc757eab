-- ===== src/Metering/Flush.antt =====
-- No request is lost or counted twice by `flush_requests`, whatever the database does and whatever
-- the process counts meanwhile.
use agntspark_gateway.Prelude.{
  ℕ, zero, suc, ◌+◌, ◌≡◌, refl, Option, none, some, List, [], ◌∷◌, arith, sum_of, if◌then◌else◌,
  ◌==◌, insert, Bool-cases, Option-cases, inl, inr,
}
use agntspark_gateway.Exec.{Result, ok, err}
use agntspark_gateway.Models.{UsageHour, User}
use agntspark_gateway.World.{World, Pending}
use agntspark_gateway.Metering.{
  Key, key_eq, give_back, close_batch, upsert, requests_row, count_of, add_count, restore, has_user,
  spend, write_batch, write_out, flush_requests,
}

-- how often a key is counted
abbrev pub tally : Key → Pending → ℕ
tally k = sum_of (λ e. if e.0 == k then e.1 else 0)

tally-insert :
    (k j : Key) (n : ℕ) (p : Pending)
    → tally k (insert j (count_of j p + n) p) ≡ tally k p + (if j == k then n else 0)
unfolding count_of
tally-insert k j n [] = ground arith
tally-insert k j n (e ∷ p) = ground (arith, tally-insert k j n p)

tally-add_count :
    (k j : Key) (n : ℕ) (p : Pending)
    → tally k (add_count j n p) ≡ tally k p + (if j == k then n else 0)
unfolding add_count
tally-add_count k j n p = tally-insert k j n p

tally-restore :
    (k : Key) (batch p : Pending) → tally k (restore batch p) ≡ tally k p + tally k batch
unfolding restore
tally-restore k [] p = omega arith
tally-restore k ((j, n) ∷ batch) p =
    omega (arith, tally-restore k batch (add_count j n p), tally-add_count k j n p)

abbrev pub total_requests : List UsageHour → ℕ
total_requests = sum_of (λ h. h.requests)

-- the counts of a batch whose user still has an account
abbrev pub billable : List User → Pending → ℕ
billable users [] = 0
billable users ((k, n) ∷ batch) = (if has_user users k.1 then n else 0) + billable users batch

requests-upsert :
    (d : UsageHour) (rows : List UsageHour)
    → total_requests (upsert d rows) ≡ total_requests rows + d.requests
unfolding upsert
requests-upsert d [] = omega arith
requests-upsert d (h ∷ rows) = ground (arith, requests-upsert d rows)

write_batch-some :
    (users : List User) (batch : Pending) (budget : Option ℕ) (acc : ℕ) (rows : List UsageHour)
    {n : ℕ} {rows' : List UsageHour} {left : Option ℕ}
    → write_batch users batch budget acc rows ≡ some (n, rows', left)
    → (n ≡ acc + billable users batch)
      × (total_requests rows' ≡ total_requests rows + billable users batch)
unfolding write_batch requests_row
write_batch-some users [] budget acc rows h = ground arith
write_batch-some users ((k, n) ∷ batch) budget acc rows h = elim (Bool-cases (has_user users k.1)) [
  | inr gone ↦
      let ih = write_batch-some users batch budget acc rows (rw (gone, write_batch) at h) in
      ground (arith, ih)
  | inl known ↦ elim (Option-cases (spend budget)) [
    | inl broke ↦ cc (known, broke, h)
    | inr (budget', paid) ↦
        let row = requests_row k n in
        let ih =
          write_batch-some users batch budget' (acc + n) (upsert row rows)
            (rw (known, paid, write_batch) at h) in
        ground (arith, ih, requests-upsert row rows)
  ]
]

-- the requests that the process counts, one after the other
abbrev pub count_all : List Key → Pending → Pending
count_all [] p = p
count_all (k ∷ ks) p = count_all ks (add_count k 1 p)

module _ {R : Type 0} where
  abbrev pub counting : List Key → World R → World R
  counting ks w = record w { pending = count_all ks w.pending }

  -- the batch is written: its billable counts are in the rows, and nothing else is pending
  pub record Written (batch : Pending) (before : World R) (n : ℕ) (after : World R) : Type 0 where
    pub count : n ≡ billable before.db.users batch
    pub rows : total_requests after.db.usage_hours ≡ total_requests before.db.usage_hours + n
    pub pending : after.pending ≡ before.pending

  -- the batch is given back: no row has changed
  pub record GivenBack (batch : Pending) (before after : World R) : Type 0 where
    pub rows : after.db ≡ before.stored
    pub committed : after.stored ≡ before.stored
    pub pending : (k : Key) → tally k after.pending ≡ tally k before.pending + tally k batch

  abbrev pub Flushed : Pending → World R → Result ℕ × World R → Type 0
  Flushed batch before (ok n, after) = Written batch before n after
  Flushed batch before (err e, after) = GivenBack batch before after

  given_back : (batch : Pending) (w : World R) → GivenBack batch w (give_back batch w)
  given_back batch w = record {
    rows = refl;
    committed = refl;
    pending = λ k. tally-restore k batch w.pending;
  }

  closed :
      (batch : Pending) (w : World R) (budget : Option ℕ)
      (r : Option (ℕ × List UsageHour × Option ℕ))
      → write_batch w.db.users batch budget 0 w.db.usage_hours ≡ r
      → Flushed batch w (close_batch batch r w)
  closed batch w budget none e = given_back batch w
  closed batch w budget (some (n, rows, none)) e =
      let done = write_batch-some w.db.users batch budget 0 w.db.usage_hours e in
      record { count = omega (arith, done.0); rows = omega (arith, done.0, done.1); pending = refl }
  closed batch w budget (some (n, rows, some zero)) e = given_back batch w
  closed batch w budget (some (n, rows, some (suc left))) e =
      let done = write_batch-some w.db.users batch budget 0 w.db.usage_hours e in
      record { count = omega (arith, done.0); rows = omega (arith, done.0, done.1); pending = refl }

  write_out-Flushed :
      (budget : Option ℕ) (batch : Pending) (w : World R)
      → Flushed batch w (write_out budget batch w)
  unfolding write_out
  write_out-Flushed budget [] w = record { count = refl; rows = omega arith; pending = refl }
  write_out-Flushed none (e ∷ batch) w = closed (e ∷ batch) w none _ refl
  write_out-Flushed (some zero) (e ∷ batch) w = given_back (e ∷ batch) w
  write_out-Flushed (some (suc n)) (e ∷ batch) w = closed (e ∷ batch) w (some n) _ refl

  pub flush_requests-Flushed :
      (budget : Option ℕ) (ks : List Key) (w : World R)
      → Flushed w.pending
          (record w { pending = count_all ks [] })
          (flush_requests budget (counting ks) w)
  unfolding flush_requests
  flush_requests-Flushed budget ks w =
      write_out-Flushed budget w.pending (record w { pending = count_all ks [] })
