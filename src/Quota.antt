-- ===== src/Quota.antt =====
-- services/quota_service.py. What the code compares as floats is in millionths: `micro` makes a
-- whole number one, and `round3` is `round(x, 3)`, to even at a half. The float's own rounding
-- error is not modelled.
pub mod Sums
pub mod Resources
pub mod Account
use agntspark_gateway.Prelude.{
  ℕ, ◌+◌, ◌*◌, ◌/◌, ◌%◌, String, Bool, true, false, Option, none, some, List, [], ◌∷◌, ltb,
  if◌then◌else◌, ◌==◌, ◌&&◌, ◌||◌, not, find, select, sum_of, length, nat_eq, string_eq,
}
use agntspark_gateway.Errors.{
  Error, Resource, agents, replicas, vcpu, memory_mb, cpu_per_replica, memory_mb_per_replica,
  authentication, quota_exceeded, unhandled,
}
use agntspark_gateway.Exec.{Result, ok, err, or_raise, and_then, refuse_if}
use agntspark_gateway.Models.{
  Database, User, Agent, AgentStatus, running, scaling, starting, status_eq,
}
use agntspark_gateway.Plans.{PlanLimits, limits_for}
use agntspark_gateway.Roles.{RoleTable, Role, admin}

abbrev pub whole : ℕ → ℕ
whole n = n * 1_000_000

unfoldable pub round3 : ℕ → ℕ
round3 x =
    let down = x / 1000 in
    if ltb (x % 1000) 500
    then down * 1000
    else if ltb 500 (x % 1000)
    then (down + 1) * 1000
    else (down + down % 2) * 1000

-- `ACTIVE_STATUSES`
unfoldable pub is_active_status : AgentStatus → Bool
is_active_status running = true
is_active_status scaling = true
is_active_status starting = true
is_active_status _ = false

pub record Usage : Type 0 where
  pub agents : ℕ
  pub replicas : ℕ
  pub vcpu : ℕ
  pub memory_mb : ℕ

unfoldable pub user_row : Database → ℕ → Result User
user_row db user_id = or_raise (find (λ u. u.id == user_id) db.users) authentication

-- `Role(self.role)`
unfoldable pub role_enum : RoleTable → User → Result Role
role_enum roles user = or_raise (roles.of_value user.role) unhandled

unfoldable pub is_exempt : RoleTable → User → Result Bool
unfolding role_enum
is_exempt roles user = and_then (role_enum roles user) (λ r. ok (roles.can r admin))

-- `Agent.id != exclude_agent_id`, a condition only where an id is given
abbrev pub is_other : Option String → Agent → Bool
is_other none a = true
is_other (some id) a = not (a.id == id)

unfoldable pub owned : ℕ → List Agent → List Agent
owned user_id = select (λ a. a.user_id == user_id)

unfoldable pub active : ℕ → Option String → List Agent → List Agent
unfolding is_active_status
active user_id exclude =
    select (λ a. a.user_id == user_id && is_active_status a.status && is_other exclude a)

unfoldable pub current_usage : Database → ℕ → Option String → Usage
unfolding owned active round3
current_usage db user_id exclude =
    let holding = active user_id exclude db.agents in
    record {
      agents = length (owned user_id db.agents);
      replicas = sum_of (λ a. a.replicas) holding;
      vcpu = round3 (sum_of (λ a. a.replicas * a.cpu) holding);
      memory_mb = sum_of (λ a. a.replicas * a.memory_mb) holding;
    }

-- one round of the loop over `checks`
unfoldable pub check : String → Resource → ℕ → ℕ → ℕ → Result (Unit {0})
unfolding round3
check plan resource current requested limit =
    refuse_if (ltb limit (round3 (current + requested)))
      (quota_exceeded resource plan limit (some current) requested)

unfoldable pub usage_report : Database → ℕ → Result (User × PlanLimits × Usage)
unfolding user_row current_usage limits_for
usage_report db user_id =
    and_then (user_row db user_id)
      (λ user. ok (user, limits_for user.plan, current_usage db user_id none))

unfoldable pub ensure_can_create_agent : RoleTable → Database → ℕ → Result (Unit {0})
unfolding user_row is_exempt current_usage limits_for
ensure_can_create_agent roles db user_id = and_then (user_row db user_id) λ user.
    and_then (is_exempt roles user) λ exempt.
      if exempt
      then ok tt
      else (let limits = limits_for user.plan in
          let usage = current_usage db user_id none in
          refuse_if (ltb limits.max_agents (usage.agents + 1)) (
            quota_exceeded agents user.plan (whole limits.max_agents) (some (whole usage.agents))
              (whole 1)))

-- The shape that a deployment asks for.
pub record Shape : Type 0 where
  pub replicas : ℕ
  pub cpu : ℕ
  pub memory_mb : ℕ

-- the tests after the exemption: per replica, then in total
unfoldable pub fits : String → PlanLimits → Usage → Shape → Result (Unit {0})
unfolding check
fits plan limits usage shape =
    and_then
      (refuse_if (ltb limits.max_replica_cpu shape.cpu)
        (quota_exceeded cpu_per_replica plan limits.max_replica_cpu none shape.cpu))
      λ _.
        and_then
          (refuse_if (ltb limits.max_replica_memory_mb shape.memory_mb) (
            quota_exceeded memory_mb_per_replica plan (whole limits.max_replica_memory_mb) none
              (whole shape.memory_mb)))
          λ _.
            and_then
              (check plan replicas (whole usage.replicas) (whole shape.replicas)
                (whole limits.max_replicas))
              λ _.
                and_then
                  (check plan vcpu usage.vcpu (round3 (shape.replicas * shape.cpu)) limits.max_vcpu)
                  λ _.
                    check plan memory_mb (whole usage.memory_mb)
                      (whole (shape.replicas * shape.memory_mb)) (whole limits.max_memory_mb)

unfoldable pub ensure_resources :
    RoleTable → Database → ℕ → Option String → Shape → Result (Unit {0})
unfolding user_row is_exempt current_usage limits_for fits
ensure_resources roles db user_id agent_id shape = and_then (user_row db user_id) λ user.
    and_then (is_exempt roles user) λ exempt.
      if exempt
      then ok tt
      else fits user.plan (limits_for user.plan) (current_usage db user_id agent_id) shape

-- Only `QuotaExceededError` is caught.
unfoldable pub has_headroom_for_replica : RoleTable → Database → Agent → Result Bool
unfolding ensure_resources
has_headroom_for_replica roles db a =
    elim (ensure_resources roles db a.user_id (some a.id)
      (record { replicas = a.replicas + 1; cpu = a.cpu; memory_mb = a.memory_mb })) [
        | ok _ ↦ ok true
        | err (quota_exceeded _ _ _ _ _) ↦ ok false
        | err e ↦ err e
      ]
