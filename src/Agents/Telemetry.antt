-- ===== src/Agents/Telemetry.antt =====
-- services/agent_service.py: `get_logs` and `get_metrics`, which read the container runtime. Shares
-- of a processor and amounts of memory come in millionths, a percent leaves in hundredths; floats
-- are exact here.
pub mod Bounds
use agntspark_gateway.Prelude.{
  ℕ, ◌-◌, ◌*◌, ◌/◌, String, Bool, false, Option, none, some, List, [], ◌∷◌, length, select, drop,
  map, sum_of, min, if◌then◌else◌, ◌==◌, ◌||◌, nat_eq, text_eq,
}
use agntspark_gateway.Prelude.Characters.{codes, lower, upper, has_text}
use agntspark_gateway.Errors.{unhandled}
use agntspark_gateway.Exec.{Exec, pure, raise, ◌>>=◌}
use agntspark_gateway.External.{
  Container, Health, LogEntry, Outcome, returned, raised, container_not_found, scaling_error,
  other_fault,
}
use agntspark_gateway.Models.{Agent, Text}
use agntspark_gateway.Metering.{round_div}
use agntspark_gateway.World.{World, Platform, call}
use agntspark_gateway.Agents.{get_owned}

pub record AgentLog : Type 0 where
  pub agent_id : String
  pub replica_id : String
  pub timestamp : ℕ
  pub level : Text
  pub message : Text
  pub source : Text

-- Python's two case mappings, outside ASCII
pub record Cases : Type 0 where
  pub lower_table : ℕ → Text
  pub upper_table : ℕ → Text

unfoldable pub agent_log : String → LogEntry → AgentLog
agent_log agent_id e = record {
  agent_id = agent_id;
  replica_id = e.replica_id;
  timestamp = e.timestamp;
  level = codes "INFO";
  message = e.message;
  source = codes "stdout";
}

-- the test of the filter by level
unfoldable pub is_at_level : Cases → Text → AgentLog → Bool
unfolding lower upper has_text
is_at_level cases level line =
    has_text (lower cases.lower_table level) (lower cases.lower_table line.message)
    || upper cases.upper_table level == line.level

-- `if level:` and the filter
abbrev pub filtered : Cases → Option Text → List AgentLog → List AgentLog
filtered cases none logs = logs
filtered cases (some []) logs = logs
filtered cases (some (c ∷ level)) logs = select (is_at_level cases (c ∷ level)) logs

-- `logs[-limit:]`, which is all of them for 0
abbrev pub last_of {ℓ} : {A : Type ℓ} → ℕ → List A → List A
last_of limit xs = if limit == 0 then xs else drop (length xs - limit) xs

-- the figures of `Metrics` that are not always 0
pub record Metrics : Type 0 where
  pub agent_id : String
  pub timestamp : ℕ
  pub cpu_percent : ℕ
  pub memory_mb : ℕ
  pub memory_percent : ℕ
  pub replicas : ℕ

abbrev pub or_zero : Option ℕ → ℕ
or_zero none = 0
or_zero (some n) = n

abbrev pub containers_of : Health → List Container
containers_of h = elim h.containers [ none ↦ [] | some cs ↦ cs ]

-- `min(100.0, x / y * 100.0)`, rounded to hundredths, or 0 where there is no `y`
unfoldable pub percent : ℕ → ℕ → ℕ
unfolding round_div
percent x y = if y == 0 then 0 else round_div (min (x * 10_000) (10_000 * y)) y

unfoldable pub metrics_of : Agent → Health → ℕ → Metrics
unfolding percent round_div
metrics_of agent health now =
    let containers = containers_of health in
    let n : ℕ = if length containers == 0 then 1 else length containers in
    let memory = sum_of (λ c. or_zero c.memory_mb) containers in
    record {
      agent_id = agent.id;
      timestamp = now;
      cpu_percent = round_div (sum_of (λ c. or_zero c.cpu_percent) containers) (n * 10_000);
      memory_mb = memory / (n * 1_000_000);
      memory_percent = percent memory (n * (agent.memory_mb * 1_000_000));
      replicas = length containers;
    }

module _ {R : Type 0} (p : Platform R) where
  -- `get_logs` once the runtime has answered
  unfoldable pub read_logs :
      Cases → Option Text → ℕ → Agent → Outcome (List LogEntry) → Exec (World R) (List AgentLog)
  unfolding agent_log is_at_level
  read_logs cases level limit agent (raised (container_not_found _)) = pure []
  read_logs cases level limit agent (raised (scaling_error _)) = raise unhandled
  read_logs cases level limit agent (raised (other_fault _)) = raise unhandled
  read_logs cases level limit agent (returned entries) =
      pure (last_of limit (filtered cases level (map (agent_log agent.id) entries)))

  -- `get_logs`
  unfoldable pub get_logs :
      Cases → ℕ → String → Option Text → Option String → ℕ → Exec (World R) (List AgentLog)
  unfolding get_owned read_logs
  get_logs cases user_id agent_id level replica_id limit = do
    agent ← get_owned p user_id agent_id
    outcome ← call (p.engine.get_logs agent.id replica_id limit)
    read_logs cases level limit agent outcome

  unfoldable pub read_metrics : Agent → ℕ → Outcome Health → Exec (World R) Metrics
  unfolding metrics_of
  read_metrics agent now (raised _) = raise unhandled
  read_metrics agent now (returned health) = pure (metrics_of agent health now)

  -- `get_metrics`
  unfoldable pub get_metrics : ℕ → String → ℕ → Exec (World R) Metrics
  unfolding get_owned read_metrics
  get_metrics user_id agent_id now = do
    agent ← get_owned p user_id agent_id
    outcome ← call (p.engine.health_check agent.id)
    read_metrics agent now outcome
