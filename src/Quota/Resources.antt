-- ===== src/Quota/Resources.antt =====
-- quota_service.ensure_resources: what it lets through, and what it refuses.
use agntspark_gateway.Prelude.{
  ℕ, ◌+◌, ◌*◌, ◌≤◌, String, ◌≡◌, ◌↔◌, ◌⊎◌, true, false, Option, none, some, List, arith, ◌==◌, find,
  sum_of, nat_eq, string_eq,
}
use agntspark_gateway.Errors.{Resource, quota_exceeded}
use agntspark_gateway.Exec.{Result, ok, err}
use agntspark_gateway.Models.{Database, User, Agent, write}
use agntspark_gateway.Plans.{PlanLimits, limits_for}
use agntspark_gateway.Roles.{RoleTable}
use agntspark_gateway.Quota.{
  Usage, Shape, active, current_usage, round3, check, fits, ensure_resources, user_row, is_exempt,
  has_headroom_for_replica,
}
use agntspark_gateway.Quota.Sums.{
  HasUniqueIds, IsCharged, sum-active-write, round3-whole, round3-add, round3_bounds,
}

-- The shape, beside what is in use, keeps every limit of the plan.
pub record Fits (limits : PlanLimits) (usage : Usage) (shape : Shape) : Type 0 where
  pub replica_cpu : shape.cpu ≤ limits.max_replica_cpu
  pub replica_memory : shape.memory_mb ≤ limits.max_replica_memory_mb
  pub all_replicas : usage.replicas + shape.replicas ≤ limits.max_replicas
  pub all_vcpu : round3 (usage.vcpu + round3 (shape.replicas * shape.cpu)) ≤ limits.max_vcpu
  pub all_memory : usage.memory_mb + shape.replicas * shape.memory_mb ≤ limits.max_memory_mb

check_iff :
    (plan : String) (r : Resource) (current requested limit : ℕ)
    → (check plan r current requested limit ≡ ok tt) ↔ (round3 (current + requested) ≤ limit)
unfolding check
check_iff plan r current requested limit = ground arith

pub fits_iff :
    (plan : String) (limits : PlanLimits) (usage : Usage) (shape : Shape)
    → (fits plan limits usage shape ≡ ok tt) ↔ Fits limits usage shape
unfolding fits check
fits_iff plan limits usage shape = (
  λ h. ground (
    arith,
    round3-whole usage.replicas shape.replicas,
    round3-whole usage.memory_mb (shape.replicas * shape.memory_mb),
  ),
  λ h. ground (
    arith,
    round3-whole usage.replicas shape.replicas,
    round3-whole usage.memory_mb (shape.replicas * shape.memory_mb),
  ),
)

-- who the limits apply to
pub record IsHeldTo (roles : RoleTable) (db : Database) (user_id : ℕ) (user : User) : Type 0 where
  pub found : user_row db user_id ≡ ok user
  pub not_exempt : is_exempt roles user ≡ ok false

pub ensure_resources_iff :
    (roles : RoleTable) (db : Database) (user_id : ℕ) (agent_id : Option String) (shape : Shape)
    (user : User)
    → IsHeldTo roles db user_id user
    → (ensure_resources roles db user_id agent_id shape ≡ ok tt)
      ↔ Fits (limits_for user.plan) (current_usage db user_id agent_id) shape
unfolding ensure_resources
ensure_resources_iff roles db user_id agent_id shape user h =
    rw (h.found, h.not_exempt)
      (fits_iff user.plan (limits_for user.plan) (current_usage db user_id agent_id) shape)

-- a refusal is a quota error that names the account's plan
abbrev pub IsQuotaError : String → Result (Unit {0}) → Type 0
IsQuotaError plan (ok _) = Unit
IsQuotaError plan (err (quota_exceeded _ p _ _ _)) = p ≡ plan
IsQuotaError plan (err _) = ⊥

fits_refusal :
    (plan : String) (limits : PlanLimits) (usage : Usage) (shape : Shape)
    → IsQuotaError plan (fits plan limits usage shape)
unfolding fits check
fits_refusal plan limits usage shape = ground arith

ensure_resources_refusal :
    (roles : RoleTable) (db : Database) (user_id : ℕ) (agent_id : Option String) (shape : Shape)
    (user : User)
    → IsHeldTo roles db user_id user
    → IsQuotaError user.plan (ensure_resources roles db user_id agent_id shape)
unfolding ensure_resources
ensure_resources_refusal roles db user_id agent_id shape user h =
    rw (h.found, h.not_exempt)
      (fits_refusal user.plan (limits_for user.plan) (current_usage db user_id agent_id) shape)

abbrev pub total : (Agent → ℕ) → ℕ → List Agent → ℕ
total f user_id rows = sum_of f (active user_id none rows)

-- What the account's running agents reserve is within the plan; the exact vCPU may be above by a
-- thousandth, since the code compares rounded amounts.
pub record IsWithin (limits : PlanLimits) (user_id : ℕ) (rows : List Agent) : Type 0 where
  pub replicas : total (λ a. a.replicas) user_id rows ≤ limits.max_replicas
  pub vcpu : total (λ a. a.replicas * a.cpu) user_id rows ≤ limits.max_vcpu + 1000
  pub memory : total (λ a. a.replicas * a.memory_mb) user_id rows ≤ limits.max_memory_mb

abbrev pub shape_of : Agent → Shape
shape_of a = record { replicas = a.replicas; cpu = a.cpu; memory_mb = a.memory_mb }

vcpu_within :
    (held asked limit : ℕ)
    → round3 (round3 held + round3 asked) ≤ limit
    → held + asked ≤ limit + 1000
vcpu_within held asked limit h =
    omega (arith, round3-add held asked, round3_bounds held, round3_bounds asked)

module _ (roles : RoleTable) (db : Database) (user : User) (b old : Agent)
    (held : IsHeldTo roles db b.user_id user) (unique : HasUniqueIds db.agents)
    (found : find (λ a. a.id == b.id) db.agents ≡ some old) (charged : IsCharged b.user_id b) where
  -- Where the check lets an agent's shape through, the account stays within its plan once the agent
  -- is recorded as running with that shape: what it held before is not counted twice.
  pub ensure_resources-write :
      ensure_resources roles db b.user_id (some b.id) (shape_of b) ≡ ok tt
      → IsWithin (limits_for user.plan) b.user_id (write b db.agents)
  unfolding current_usage
  ensure_resources-write h =
      let fit = (ensure_resources_iff roles db b.user_id (some b.id) (shape_of b) user held).0 h in
      let written =
        λ (f : Agent → ℕ). sum-active-write b.user_id f b db.agents old unique found charged in
      record {
        replicas = rw (written (λ a. a.replicas)) fit.all_replicas;
        vcpu = rw (written (λ a. a.replicas * a.cpu)) (
            vcpu_within (sum_of (λ a. a.replicas * a.cpu) (active b.user_id (some b.id) db.agents))
              (b.replicas * b.cpu) (limits_for user.plan).max_vcpu fit.all_vcpu);
        memory = rw (written (λ a. a.replicas * a.memory_mb)) fit.all_memory;
      }

-- The auto-scaler may add a replica to an agent of an account that is held to its plan exactly if
-- the agent with one more replica keeps the limits; the test itself never raises.
pub has_headroom_iff :
    (roles : RoleTable) (db : Database) (a : Agent) (user : User)
    → IsHeldTo roles db a.user_id user
    → ((has_headroom_for_replica roles db a ≡ ok true)
        ↔ Fits
            (limits_for user.plan)
            (current_usage db a.user_id (some a.id))
            (record { replicas = a.replicas + 1; cpu = a.cpu; memory_mb = a.memory_mb }))
      × ((has_headroom_for_replica roles db a ≡ ok true)
          ⊎ (has_headroom_for_replica roles db a ≡ ok false))
unfolding has_headroom_for_replica
has_headroom_iff roles db a user held = ground (
  arith,
  ensure_resources_iff roles db a.user_id (some a.id)
      (record { replicas = a.replicas + 1; cpu = a.cpu; memory_mb = a.memory_mb }) user held,
  ensure_resources_refusal roles db a.user_id (some a.id)
      (record { replicas = a.replicas + 1; cpu = a.cpu; memory_mb = a.memory_mb }) user held,
)
