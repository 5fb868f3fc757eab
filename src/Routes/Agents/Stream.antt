-- ===== src/Routes/Agents/Stream.antt =====
-- routers/agents.py: the two event streams. A stream is run on the states in which it polls, one for
-- each round until the client goes.
pub mod Lines
use agntspark_gateway.Prelude.{
  ℕ, String, Bool, Option, none, some, List, [], ◌∷◌, ◌++◌, map, contains, if◌then◌else◌, Eq,
  string_dec, ℕ_discrete,
}
use agntspark_gateway.Exec.{Exec, Result, ok, err, pure, ◌>>=◌, ◌>>◌}
use agntspark_gateway.Models.{Text}
use agntspark_gateway.Settings.{GatewaySettings}
use agntspark_gateway.World.{World, Platform}
use agntspark_gateway.Access.{Decode}
use agntspark_gateway.Agents.{get_agent}
use agntspark_gateway.Agents.Telemetry.{AgentLog, Cases, Metrics, get_logs, get_metrics}
use agntspark_gateway.Routes.Agents.{caller}

-- what tells a line from another: `(entry.replica_id, entry.timestamp.isoformat())`
abbrev pub LineKey : Type 0
LineKey = String × ℕ

line_key_discrete : Discrete LineKey
line_key_discrete = hlevel (ℕ_discrete, string_dec)

instance unfoldable pub line_key_eq : Eq LineKey
unfolding line_key_discrete
line_key_eq = record { dec = line_key_discrete }

abbrev pub line_key : AgentLog → LineKey
line_key line = (line.replica_id, line.timestamp)

pub data Event : Type 0 where
  log_line : AgentLog → Event
  metric : Metrics → Event
  heartbeat : Event

-- the loop over the lines of one poll: the events, and the set `seen` after it
unfoldable pub send_new : List AgentLog → List LineKey → List Event × List LineKey
unfolding line_key_eq
send_new [] seen = ([], seen)
send_new (line ∷ lines) seen =
    let skipped = send_new lines seen in
    let sent = send_new lines (line_key line ∷ seen) in
    if contains seen (line_key line) then skipped else (log_line line ∷ sent.0, sent.1)

-- what a poll gives: nothing where it raises
abbrev pub polled : Result (List AgentLog) → List AgentLog
polled (ok lines) = lines
polled (err e) = []

-- one round of `_generator` after another
unfoldable pub log_events : List (Result (List AgentLog)) → List LineKey → List Event
unfolding send_new
log_events [] seen = []
log_events (poll ∷ polls) seen =
    let (events, seen') = send_new (polled poll) seen in
    events ++ heartbeat ∷ log_events polls seen'

unfoldable pub metric_event : Result Metrics → Event
metric_event (ok metrics) = metric metrics
metric_event (err e) = heartbeat

module _ {R : Type 0} (p : Platform R) (cfg : GatewaySettings) (decode : Decode) (now : ℕ) where
  open_caller : Option Text → String → Exec (World R) ℕ
  unfolding caller
  open_caller creds agent_id = do
    principal ← caller p cfg decode now creds
    get_agent p principal.user_id agent_id
    pure principal.user_id

  -- `stream_logs`
  unfoldable pub stream_logs :
      Cases → Option Text → String → Option Text → List (World R) → Exec (World R) (List Event)
  unfolding open_caller log_events get_logs
  stream_logs cases creds agent_id level rounds = do
    user_id ← open_caller creds agent_id
    pure (log_events (map (λ w. (get_logs p cases user_id agent_id level none 200 w).0) rounds) [])

  -- `stream_metrics`; a poll is made at the time of its round
  unfoldable pub stream_metrics :
      Option Text → String → List (ℕ × World R) → Exec (World R) (List Event)
  unfolding open_caller metric_event get_metrics
  stream_metrics creds agent_id rounds = do
    user_id ← open_caller creds agent_id
    pure (map (λ r. metric_event (get_metrics p user_id agent_id r.0 r.1).0) rounds)
