-- ===== src/World.antt =====
-- The state that a request handler works on: db.py's session (what it sees, and what is committed),
-- the container runtime's own state `R`, and what the gateway process keeps in memory.
use agntspark_gateway.Prelude.{ℕ, String, List}
use agntspark_gateway.Models.{Database, User, Agent, ApiKey, AgentAccessKey, Invite, UsageHour}
use agntspark_gateway.Limiter.{Limiter}
use agntspark_gateway.Roles.{RoleTable}
use agntspark_gateway.External.{AgentRuntime, Cipher, Hashes, Outcome}
use agntspark_gateway.Exec.{Exec, ok}

-- `metering_service._pending_requests`: (agent_id, user_id, hour_start) to the count.
abbrev pub Pending : Type 0
Pending = List ((String × ℕ × ℕ) × ℕ)

pub record World (R : Type 0) : Type 0 where
  pub db : Database
  pub stored : Database
  pub runtime : R
  pub pending : Pending
  pub per_client : Limiter
  pub per_agent : Limiter

-- What the gateway runs on.
pub record Platform (R : Type 0) : Type 0 where
  pub roles : RoleTable
  pub engine : AgentRuntime R
  pub cipher : Cipher
  pub hashes : Hashes

module _ {R : Type 0} where
  -- a call of the runtime, in a thread of its own
  abbrev pub call : {A : Type 0} → (R → Outcome A × R) → Exec (World R) (Outcome A)
  call f w = let (o, r) = f w.runtime in (ok o, record w { runtime = r })

  -- `await db.commit()`
  abbrev pub commit : Exec (World R) (Unit {0})
  commit w = (ok tt, record w { stored = w.db })

  -- `await db.rollback()`, and the end of a session that is closed without a commit
  abbrev pub rollback : World R → World R
  rollback w = record w { db = w.stored }

  -- A request: a session that sees the committed rows, the handler, and the session's end.
  abbrev pub request : {A : Type 0} → Exec (World R) A → Exec (World R) A
  request m w = let (r, w') = m (rollback w) in (r, rollback w')

  abbrev pub on_users : (List User → List User) → World R → World R
  on_users f w = record w { db = record w.db { users = f w.db.users } }

  abbrev pub on_agents : (List Agent → List Agent) → World R → World R
  on_agents f w = record w { db = record w.db { agents = f w.db.agents } }

  abbrev pub on_api_keys : (List ApiKey → List ApiKey) → World R → World R
  on_api_keys f w = record w { db = record w.db { api_keys = f w.db.api_keys } }

  abbrev pub on_access_keys : (List AgentAccessKey → List AgentAccessKey) → World R → World R
  on_access_keys f w = record w { db = record w.db { access_keys = f w.db.access_keys } }

  abbrev pub on_invites : (List Invite → List Invite) → World R → World R
  on_invites f w = record w { db = record w.db { invites = f w.db.invites } }

  abbrev pub on_usage_hours : (List UsageHour → List UsageHour) → World R → World R
  on_usage_hours f w = record w { db = record w.db { usage_hours = f w.db.usage_hours } }
