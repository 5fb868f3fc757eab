-- ===== src/Plans.antt =====
-- plans.py. vCPU amounts are in millionths; `PLANS` keeps its order.
use agntspark_gateway.Prelude.{ℕ, String, Option, none, some, List, [], ◌∷◌, lookup, string_eq}

pub record PlanLimits : Type 0 where
  pub max_agents : ℕ
  pub max_replicas : ℕ
  pub max_vcpu : ℕ
  pub max_memory_mb : ℕ
  pub max_replica_cpu : ℕ
  pub max_replica_memory_mb : ℕ
  pub max_agent_rpm : ℕ

abbrev pub free_limits : PlanLimits
free_limits = record {
  max_agents = 3;
  max_replicas = 3;
  max_vcpu = 3_000_000;
  max_memory_mb = 1536;
  max_replica_cpu = 1_000_000;
  max_replica_memory_mb = 1024;
  max_agent_rpm = 300;
}

abbrev pub pro_limits : PlanLimits
pro_limits = record {
  max_agents = 20;
  max_replicas = 20;
  max_vcpu = 16_000_000;
  max_memory_mb = 8192;
  max_replica_cpu = 2_000_000;
  max_replica_memory_mb = 4096;
  max_agent_rpm = 3000;
}

abbrev pub plans : List (String × PlanLimits)
plans = ("free", free_limits) ∷ ("pro", pro_limits) ∷ []

abbrev or_default : Option PlanLimits → PlanLimits
or_default none = free_limits
or_default (some limits) = limits

unfoldable pub limits_for : String → PlanLimits
limits_for plan = or_default (lookup plan plans)
