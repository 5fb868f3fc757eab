-- ===== src/Scheduler/Statuses.antt =====
-- The statuses of an agent as a state machine of the scheduler's ticks.
use agntspark_gateway.Prelude.{
  ◌≡◌, ◌⊎◌, inl, inr, refl, true, not, leb, ◌==◌, ◌&&◌, string_eq, nat_eq, Bool-cases,
}
use agntspark_gateway.External.{Health}
use agntspark_gateway.Models.{AgentStatus, status_eq, scaling, stopped, crashed}
use agntspark_gateway.Quota.{is_active_status}
use agntspark_gateway.Scheduler.{live_replicas, is_healthy, failures, new_status}

-- The statuses that ticks lead an agent through while it is active, whatever they observe.
pub data Reaches (s : AgentStatus) : AgentStatus → Type 0 where
  here : Reaches s s
  after :
      {t : AgentStatus} (h : Health)
      → Reaches s t
      → is_active_status t ≡ true
      → Reaches s (new_status h t)

-- what a scaling agent can come to be
abbrev pub IsScalingOrDown : AgentStatus → Type 0
IsScalingOrDown t = (t ≡ scaling) ⊎ ((t ≡ stopped) ⊎ (t ≡ crashed))

one_tick :
    (h : Health) (t : AgentStatus)
    → is_active_status t ≡ true
    → IsScalingOrDown t
    → IsScalingOrDown (new_status h t)
unfolding new_status status_eq is_active_status
one_tick h t on (inr (inl e)) = cc (rw e at on)
one_tick h t on (inr (inr e)) = cc (rw e at on)
one_tick h t on (inl e) = elim (Bool-cases (live_replicas h == 0)) [
  | inl none_live ↦ rw (e, none_live) (inr (inl refl))
  | inr some_live ↦ elim (Bool-cases (not (is_healthy h) && leb 3 (failures h))) [
    | inl down ↦ rw (e, some_live) (rw down (inr (inr refl)))
    | inr up ↦ rw (e, some_live) (rw up (inl refl))
  ]
]

-- An agent that is marked as scaling is never marked as running again by the scheduler, however long
-- it stays healthy: ticks leave it scaling, or find it stopped or crashed.
pub scaling-Reaches : (t : AgentStatus) → Reaches scaling t → IsScalingOrDown t
scaling-Reaches t here = inl refl
scaling-Reaches t (after {t = s} h r on) = one_tick h s on (scaling-Reaches s r)
