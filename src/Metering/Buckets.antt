-- ===== src/Metering/Buckets.antt =====
-- The usage table of metering_service: one row for an agent's hour, which accumulates.
use agntspark_gateway.Prelude.{
  ℕ, zero, suc, ◌+◌, ◌*◌, String, ◌≡◌, refl, true, false, List, [], ◌∷◌, arith, sum_of, All, leb,
  Bool-cases, inl, inr, if◌then◌else◌, ◌==◌, ◌&&◌, ◌||◌, string_eq, nat_eq,
}
use agntspark_gateway.Models.{Agent, UsageHour}
use agntspark_gateway.World.{World}
use agntspark_gateway.Metering.{is_bucket, add_usage, upsert, reserved, hour_start_of, record_usage}

-- the unique constraint on (agent_id, hour_start)
abbrev pub HasUniqueBuckets : List UsageHour → Type 0
HasUniqueBuckets [] = Unit
HasUniqueBuckets (h ∷ rows) = All (λ d. is_bucket h d ≡ false) rows × HasUniqueBuckets rows

-- what an agent's hour holds of a measure
abbrev pub held : (UsageHour → ℕ) → String → ℕ → List UsageHour → ℕ
held f agent_id start =
    sum_of (λ h. if h.agent_id == agent_id && h.hour_start == start then f h else 0)

-- the measures that `add_usage` adds
abbrev IsAdditive : (UsageHour → ℕ) → Type 0
IsAdditive f = (h d : UsageHour) → f (add_usage h d) ≡ f h + f d

held-upsert :
    (f : UsageHour → ℕ)
    → IsAdditive f
    → (agent_id : String) (start : ℕ) (d : UsageHour) (rows : List UsageHour)
    → held f agent_id start (upsert d rows)
      ≡ held f agent_id start rows
        + (if d.agent_id == agent_id && d.hour_start == start then f d else 0)
unfolding upsert
held-upsert f add agent_id start d [] = ground arith
held-upsert f add agent_id start d (h ∷ rows) =
    ground (arith, held-upsert f add agent_id start d rows, add h d)

All-upsert :
    (h d : UsageHour) (rows : List UsageHour)
    → is_bucket h d ≡ false
    → All (λ x. is_bucket h x ≡ false) rows
    → All (λ x. is_bucket h x ≡ false) (upsert d rows)
unfolding upsert
All-upsert h d [] n a = (n, tt)
All-upsert h d (x ∷ rows) n a = ground (arith, All-upsert h d rows n a.1)

pub upsert-HasUniqueBuckets :
    (d : UsageHour) (rows : List UsageHour)
    → HasUniqueBuckets rows
    → HasUniqueBuckets (upsert d rows)
unfolding upsert
upsert-HasUniqueBuckets d [] u = (tt, tt)
upsert-HasUniqueBuckets d (h ∷ rows) u =
    ground (arith, upsert-HasUniqueBuckets d rows u.1, All-upsert h d rows)

idle_products :
    (agent : Agent) (replicas seconds : ℕ)
    → (leb replicas 0 || leb seconds 0) ≡ true
    → (replicas * seconds ≡ 0)
      × (replicas * agent.cpu * seconds ≡ 0)
      × (replicas * agent.memory_mb * seconds ≡ 0)
idle_products agent zero seconds h = (omega arith, omega arith, omega arith)
idle_products agent (suc n) zero h = (omega arith, omega arith, omega arith)
idle_products agent (suc n) (suc s) h = absurd (ground arith)

abbrev pub Metered : Agent → ℕ → ℕ → ℕ → List UsageHour → List UsageHour → Type 0
Metered agent replicas seconds at before rows =
    HasUniqueBuckets rows
    × ((agent_id : String) (start : ℕ)
        → let here = agent.id == agent_id && hour_start_of at == start in
          (held (λ h. h.replica_seconds) agent_id start rows
            ≡ held (λ h. h.replica_seconds) agent_id start before
              + (if here then replicas * seconds else 0))
          × (held (λ h. h.vcpu_seconds) agent_id start rows
              ≡ held (λ h. h.vcpu_seconds) agent_id start before
                + (if here then replicas * agent.cpu * seconds else 0))
          × (held (λ h. h.memory_mb_seconds) agent_id start rows
              ≡ held (λ h. h.memory_mb_seconds) agent_id start before
                + (if here then replicas * agent.memory_mb * seconds else 0))
          × (held (λ h. h.requests) agent_id start rows
              ≡ held (λ h. h.requests) agent_id start before))

metered :
    {R : Type 0} (agent : Agent) (replicas seconds at : ℕ) (w : World R)
    → HasUniqueBuckets w.db.usage_hours
    → Metered agent replicas seconds at w.db.usage_hours
        (upsert (reserved agent replicas seconds at) w.db.usage_hours)
unfolding reserved
metered agent replicas seconds at w u =
    let d = reserved agent replicas seconds at in
    (
      upsert-HasUniqueBuckets d w.db.usage_hours u,
      λ agent_id start. (
        held-upsert (λ h. h.replica_seconds) (λ h e. refl) agent_id start d w.db.usage_hours,
        held-upsert (λ h. h.vcpu_seconds) (λ h e. refl) agent_id start d w.db.usage_hours,
        held-upsert (λ h. h.memory_mb_seconds) (λ h e. refl) agent_id start d w.db.usage_hours,
        ground
            (arith, held-upsert (λ h. h.requests) (λ h e. refl) agent_id start d w.db.usage_hours),
      ),
    )

-- Metering an agent adds replicas × seconds, weighted by its vCPU and its memory, to the row of its
-- hour and to no other, and leaves the counted requests; an agent's hour keeps one row.
pub record_usage-held :
    {R : Type 0} (agent : Agent) (replicas seconds at : ℕ) (w : World R)
    → HasUniqueBuckets w.db.usage_hours
    → Metered agent replicas seconds at w.db.usage_hours
        (record_usage agent replicas seconds at w).db.usage_hours
unfolding record_usage
record_usage-held agent replicas seconds at w u =
    elim (Bool-cases (leb replicas 0 || leb seconds 0)) [
      | inl idle ↦
          let (a, b, c) = idle_products agent replicas seconds idle in
          rw (idle, record_usage) (u, λ agent_id start. ground (arith, a, b, c))
      | inr busy ↦ rw (busy, record_usage) (metered agent replicas seconds at w u)
    ]
