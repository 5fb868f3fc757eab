-- ===== src/Scheduler.antt =====
-- scheduler.py: one tick. The seconds since the last tick (in microseconds) and the time come as
-- arguments; no request runs during a tick but the counting that `flush_requests` names.
pub mod Statuses
pub mod Rows
use agntspark_gateway.Prelude.{
  ℕ, zero, suc, ◌-◌, ◌*◌, String, Bool, true, false, not, Option, none, some, List, [], ◌∷◌, length,
  select, modify_where, leb, ltb, min, if◌then◌else◌, ◌==◌, ◌&&◌, ◌||◌, string_eq, nat_eq,
}
use agntspark_gateway.Exec.{Exec, Result, ok, err, pure, reads, modify, ◌>>=◌, ◌>>◌}
use agntspark_gateway.External.{Container, Health, Outcome, returned, raised}
use agntspark_gateway.Models.{Agent, AgentStatus, status_eq, running, scaling, stopped, crashed}
use agntspark_gateway.Settings.{GatewaySettings}
use agntspark_gateway.Quota.{is_active_status, has_headroom_for_replica}
use agntspark_gateway.Metering.{record_usage, flush_requests}
use agntspark_gateway.World.{World, Platform, commit, call, request, on_agents}

-- `len(health.get("containers", []))`, and the other two keys with their defaults
abbrev pub live_replicas : Health → ℕ
live_replicas h = elim h.containers [ none ↦ 0 | some cs ↦ length cs ]

abbrev pub is_healthy : Health → Bool
is_healthy h = elim h.healthy [ none ↦ false | some b ↦ b ]

abbrev pub failures : Health → ℕ
failures h = elim h.consecutive_failures [ none ↦ 0 | some n ↦ n ]

-- the status that a health check gives
unfoldable pub new_status : Health → AgentStatus → AgentStatus
unfolding status_eq
new_status h status =
    if live_replicas h == 0
    then stopped
    else if not (is_healthy h) && leb 3 (failures h)
    then crashed
    else if not (status == scaling)
    then running
    else status

-- the agent as the health check shows it
abbrev pub observed : Health → Agent → Agent
observed h agent = record agent { replicas = live_replicas h; status = new_status h agent.status }

-- only the two attributes are assigned
abbrev pub assign : ℕ → AgentStatus → Agent → Agent
assign replicas status x = record x { replicas = replicas; status = status }

module _ {R : Type 0} (p : Platform R) (seconds now : ℕ) where
  abbrev pub write_observed : Health → Agent → Exec (World R) (Unit {0})
  write_observed h agent =
      if live_replicas h == agent.replicas && new_status h agent.status == agent.status
      then pure tt
      else (do
        modify (
            on_agents (
              modify_where (λ x. x.id == agent.id)
                (assign (live_replicas h) (new_status h agent.status))))
        commit)

  -- metering of what runs
  abbrev pub meter : ℕ → Agent → Exec (World R) (Unit {0})
  meter live agent =
      if (agent.status == running || agent.status == scaling) && ltb 0 live
      then (do modify (record_usage agent live seconds now); commit)
      else pure tt

  -- auto-scaling, which never takes an account past its plan
  abbrev pub scale_if : Bool → Agent → Exec (World R) (Unit {0})
  scale_if false agent = pure tt
  scale_if true agent = do call (p.engine.auto_scale agent.id); pure tt

  abbrev pub consider_scaling : ℕ → Agent → Exec (World R) (Unit {0})
  consider_scaling live agent =
      if agent.auto_scale && agent.status == running && ltb 0 live
      then (do
        headroom ← reads (λ w. has_headroom_for_replica p.roles w.db agent)
        scale_if headroom agent)
      else pure tt

  -- the loop's body after a health check that returned
  unfoldable pub tick_health : Agent → Outcome Health → Exec (World R) (Unit {0})
  unfolding new_status has_headroom_for_replica record_usage status_eq
  tick_health agent (raised _) = pure tt
  tick_health agent (returned h) = do
    write_observed h agent
    meter (live_replicas h) (observed h agent)
    consider_scaling (live_replicas h) (observed h agent)

  -- the loop's body
  unfoldable pub tick_agent : Agent → Exec (World R) (Unit {0})
  unfolding tick_health
  tick_agent agent = do health ← call (p.engine.health_check agent.id); tick_health agent health

  unfoldable pub tick_agents : List Agent → Exec (World R) (Unit {0})
  unfolding tick_agent
  tick_agents [] = pure tt
  tick_agents (agent ∷ agents) = do tick_agent agent; tick_agents agents

  -- `_tick`, in a session of its own: an exception of the flush is logged, and the counts stay pending
  unfoldable pub tick : Option ℕ → (World R → World R) → Exec (World R) (Unit {0})
  unfolding tick_agents flush_requests is_active_status
  tick budget meanwhile = request λ w.
      let flushed = (flush_requests budget meanwhile w).1 in
      tick_agents (select (λ a. is_active_status a.status) flushed.db.agents) flushed

-- the seconds that a tick meters: the settings' interval at first, then the time since the last
-- tick, three intervals at most
unfoldable pub elapsed : ℕ → Option ℕ → ℕ → ℕ
elapsed interval none started = interval
elapsed interval (some last) started = min (started - last) (3 * interval)
