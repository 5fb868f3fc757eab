-- ===== src/Routes/Agents.antt =====
-- routers/agents.py: the handlers of /v1/agents. What they draw (ids, tokens, the time) comes as
-- arguments.
pub mod Callers
pub mod FirstKey
pub mod Stream
use agntspark_gateway.Prelude.{
  ℕ, ◌*◌, String, Bool, Option, none, some, List, [], ◌∷◌, ◌++◌, map, length, ltb,
}
use agntspark_gateway.Prelude.Characters.{codes}
use agntspark_gateway.Exec.{Exec, checked, pure, lift, gets, reads, ◌>>=◌, ◌>>◌}
use agntspark_gateway.External.{ScaleDirection}
use agntspark_gateway.Models.{
  Agent, AgentAccess, AgentStatus, AgentAccessKey, everyone, private, Text,
}
use agntspark_gateway.Roles.{operator}
use agntspark_gateway.Schemas.{AgentConfigIn, AgentUpdate, DeployConfig}
use agntspark_gateway.Schemas.Bodies.{
  optional_deploy_valid, agent_config_valid, agent_update_valid, access_key_valid, scale_valid,
}
use agntspark_gateway.Settings.{GatewaySettings}
use agntspark_gateway.World.{World, Platform}
use agntspark_gateway.Access.{Decode, Principal, get_current_principal, require_role}
use agntspark_gateway.AccessKeys.{create_access_key, list_access_keys, delete_access_key}
use agntspark_gateway.Agents.{
  Fresh, get_agent, create_agent, update_agent, deploy_agent, delete_agent, scale_agent,
}
use agntspark_gateway.Agents.Responses.{
  AgentResponse, Order, to_agent_response, responses, list_agents,
}
use agntspark_gateway.Agents.Telemetry.{AgentLog, Cases, Metrics, get_logs, get_metrics}

-- the row's id and the token of a new access key
pub record NewKey : Type 0 where
  pub id : ℕ
  pub token : Text

pub record AgentListResponse : Type 0 where
  pub agents : List AgentResponse
  pub total : ℕ
  pub page : ℕ
  pub page_size : ℕ
  pub has_next : Bool

pub record AccessKeyOut : Type 0 where
  pub id : ℕ
  pub label : String
  pub key_preview : Text
  pub created_at : ℕ

pub record AccessKeyCreateResponse : Type 0 where
  pub shown : AccessKeyOut
  pub key : Text

pub record ScaleResponse : Type 0 where
  pub agent_id : String
  pub previous_replicas : ℕ
  pub current_replicas : ℕ
  pub direction : ScaleDirection
  pub status : AgentStatus

pub record LogListResponse : Type 0 where
  pub logs : List AgentLog
  pub total : ℕ
  pub has_next : Bool
  pub next_cursor : Option String

-- `_access_key_out`
unfoldable pub access_key_out : AgentAccessKey → AccessKeyOut
access_key_out key = record {
  id = key.id;
  label = key.label;
  key_preview = key.key_prefix ++ codes "...";
  created_at = key.created_at;
}

-- the label of an access key whose body may be left out
abbrev pub label_of : Option String → String
label_of none = "default"
label_of (some label) = label

module _ {R : Type 0} (p : Platform R) (cfg : GatewaySettings) (decode : Decode) (now : ℕ) where
  -- `Depends(get_current_principal)`
  unfoldable pub caller : Option Text → Exec (World R) Principal
  caller creds = reads (λ w. get_current_principal p cfg decode now w.db creds)

  -- `require_developer`
  unfoldable pub require_developer : Option Text → Exec (World R) Principal
  require_developer creds =
      reads (λ w. require_role p cfg decode now operator Bool.false w.db creds)

  abbrev pub shown : Agent → Exec (World R) AgentResponse
  shown agent = lift (to_agent_response cfg.agent_base_domain agent)

  -- the first access key of a new agent, which only a private one gets
  unfoldable pub with_first_key :
      AgentAccess → NewKey → Agent → AgentResponse → Exec (World R) AgentResponse
  with_first_key everyone new agent response = pure response
  with_first_key private new agent response = do
    made ← create_access_key p agent "default" new.id new.token now
    pure (record response { access_key = some made.1 })

  -- `create_agent`
  unfoldable pub create_agent_route :
      Option Text → Fresh → NewKey → AgentConfigIn → Exec (World R) AgentResponse
  unfolding require_developer with_first_key
  create_agent_route creds fresh new body = do
    principal ← require_developer creds
    checked (agent_config_valid body) (do
      agent ← create_agent p fresh principal.user_id body
      response ← shown agent
      with_first_key agent.access new agent response)

  -- `list_agents`
  unfoldable pub list_agents_route :
      Order → Option Text → Option String → Option String → ℕ → ℕ → Exec (World R) AgentListResponse
  unfolding caller list_agents responses
  list_agents_route order creds status tag page page_size = do
    principal ← caller creds
    found ← gets (λ w. list_agents order principal.user_id status tag page page_size w.db.agents)
    agents ← lift (responses cfg.agent_base_domain found.0)
    pure (record {
      agents = agents;
      total = found.1;
      page = page;
      page_size = page_size;
      has_next = ltb (page * page_size) found.1;
    })

  -- `get_agent`
  unfoldable pub get_agent_route : Option Text → String → Exec (World R) AgentResponse
  unfolding caller
  get_agent_route creds agent_id = do
    principal ← caller creds
    agent ← get_agent p principal.user_id agent_id
    shown agent

  -- `update_agent`
  unfoldable pub update_agent_route :
      Option Text → String → AgentUpdate → Exec (World R) AgentResponse
  unfolding require_developer
  update_agent_route creds agent_id body = do
    principal ← require_developer creds
    checked (agent_update_valid body)
        (do agent ← update_agent p principal.user_id agent_id body; shown agent)

  -- `list_access_keys`
  unfoldable pub list_access_keys_route : Option Text → String → Exec (World R) (List AccessKeyOut)
  unfolding caller access_key_out list_access_keys
  list_access_keys_route creds agent_id = do
    principal ← caller creds
    agent ← get_agent p principal.user_id agent_id
    gets (λ w. map access_key_out (list_access_keys w.db agent.id))

  -- `create_access_key`
  unfoldable pub create_access_key_route :
      Option Text → String → Option String → NewKey → Exec (World R) AccessKeyCreateResponse
  unfolding require_developer access_key_out
  create_access_key_route creds agent_id label new = do
    principal ← require_developer creds
    checked (access_key_valid label) (do
      agent ← get_agent p principal.user_id agent_id
      made ← create_access_key p agent (label_of label) new.id new.token now
      pure (record { shown = access_key_out made.0; key = made.1 }))

  -- `delete_access_key`
  unfoldable pub delete_access_key_route : Option Text → String → ℕ → Exec (World R) (Unit {0})
  unfolding require_developer
  delete_access_key_route creds agent_id key_id = do
    principal ← require_developer creds
    agent ← get_agent p principal.user_id agent_id
    delete_access_key agent.id key_id

  -- `delete_agent`
  unfoldable pub delete_agent_route : Option Text → String → Exec (World R) (Unit {0})
  unfolding require_developer
  delete_agent_route creds agent_id = do
    principal ← require_developer creds
    delete_agent p principal.user_id agent_id

  -- `deploy_agent`
  unfoldable pub deploy_agent_route :
      Option Text → ℕ → String → Option DeployConfig → Exec (World R) AgentResponse
  unfolding require_developer
  deploy_agent_route creds nonce agent_id body = do
    principal ← require_developer creds
    checked (optional_deploy_valid body)
        (do agent ← deploy_agent p nonce principal.user_id agent_id body; shown agent)

  -- `scale_agent`
  unfoldable pub scale_agent_route :
      Option Text → String → ScaleDirection → ℕ → Exec (World R) ScaleResponse
  unfolding require_developer
  scale_agent_route creds agent_id direction count = do
    principal ← require_developer creds
    checked (scale_valid count) (do
      scaled ← scale_agent p principal.user_id agent_id direction count
      pure (record {
        agent_id = scaled.0.id;
        previous_replicas = scaled.1;
        current_replicas = scaled.0.replicas;
        direction = direction;
        status = scaled.0.status;
      }))

  -- `get_logs`
  unfoldable pub get_logs_route :
      Cases
      → Option Text
      → String
      → Option Text
      → Option String
      → ℕ
      → Exec (World R) LogListResponse
  unfolding caller get_logs
  get_logs_route cases creds agent_id level replica_id limit = do
    principal ← caller creds
    logs ← get_logs p cases principal.user_id agent_id level replica_id limit
    pure (record { logs = logs; total = length logs; has_next = Bool.false; next_cursor = none })

  -- `get_metrics`
  unfoldable pub get_metrics_route : Option Text → String → Exec (World R) Metrics
  unfolding caller
  get_metrics_route creds agent_id = do
    principal ← caller creds
    get_metrics p principal.user_id agent_id now
