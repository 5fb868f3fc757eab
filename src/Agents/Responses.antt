-- ===== src/Agents/Responses.antt =====
-- services/agent_service.py: what the API shows of an agent (`to_agent_response`), and the pages of
-- `list_agents`. The database's ORDER BY is a parameter: it leaves open how rows of one instant
-- stand. `updated_at`, which the database keeps, is left out.
pub mod Pages
pub mod Shown
use agntspark_gateway.Prelude.{
  ℕ, ◌-◌, ◌*◌, ◌≤◌, ◌≡◌, String, Bool, not, Option, none, some, List, [], ◌∷◌, length, select, take,
  drop, contains, ltb, is_none, is_set, if◌then◌else◌, ◌==◌, ◌&&◌, ◌||◌, string_eq, nat_eq,
}
use agntspark_gateway.Exec.{Result, ok, err, and_then}
use agntspark_gateway.Models.{
  Agent, AgentAccess, AgentStatus, status_eq, Text, pending, building, starting, running, scaling,
  stopping, stopped, failed, crashed,
}
use agntspark_gateway.Schemas.{DeployConfig}
use agntspark_gateway.AgentConfig.{deploy_config_from_agent}
use agntspark_gateway.Slug.{public_url}

-- the values of `AgentStatus`, which is what the column holds
unfoldable pub status_value : AgentStatus → String
status_value pending = "pending"
status_value building = "building"
status_value starting = "starting"
status_value running = "running"
status_value scaling = "scaling"
status_value stopping = "stopping"
status_value stopped = "stopped"
status_value failed = "failed"
status_value crashed = "crashed"

pub record AgentResponse : Type 0 where
  pub id : String
  pub name : Text
  pub runtime : String
  pub framework : String
  pub model : String
  pub status : AgentStatus
  pub created_at : ℕ
  pub url : Option Text
  pub deploy : Option DeployConfig
  pub tags : List String
  pub metadata : List (String × String)
  pub error : Option String
  pub version : ℕ
  pub replicas : ℕ
  pub access : AgentAccess
  pub rate_limit_rpm : Option ℕ
  pub access_key : Option Text

unfoldable pub has_deploy_config : Agent → Bool
unfolding status_eq
has_deploy_config agent =
    not (agent.status == pending) || not (is_none agent.image) || not (is_none agent.build_path)

abbrev pub response_with : Option Text → Agent → Option DeployConfig → AgentResponse
response_with base agent deploy = record {
  id = agent.id;
  name = agent.name;
  runtime = agent.runtime;
  framework = agent.framework;
  model = agent.model;
  status = agent.status;
  created_at = agent.created_at;
  url = public_url base agent.slug;
  deploy = deploy;
  tags = agent.tags;
  metadata = agent.metadata;
  error = agent.error;
  version = agent.version;
  replicas = agent.replicas;
  access = agent.access;
  rate_limit_rpm = agent.rate_limit_rpm;
  access_key = none;
}

-- `to_agent_response`, with the base domain of the settings
unfoldable pub to_agent_response : Option Text → Agent → Result AgentResponse
unfolding has_deploy_config deploy_config_from_agent
to_agent_response base agent =
    if has_deploy_config agent
    then and_then (deploy_config_from_agent agent) (λ d. ok (response_with base agent (some d)))
    else ok (response_with base agent none)

-- `[to_agent_response(a) for a in agents]`
unfoldable pub responses : Option Text → List Agent → Result (List AgentResponse)
unfolding to_agent_response
responses base [] = ok []
responses base (a ∷ agents) =
    and_then (to_agent_response base a) λ r. and_then (responses base agents) λ rest. ok (r ∷ rest)

-- `.order_by(Agent.created_at.desc())`
abbrev pub Order : Type 0
Order = List Agent → List Agent

-- each row is not older than the next
abbrev pub IsDescending : List Agent → Type 0
IsDescending [] = Unit
IsDescending (a ∷ []) = Unit
IsDescending (a ∷ b ∷ rows) = (b.created_at ≤ a.created_at) × IsDescending (b ∷ rows)

-- the rows are the same, in a descending order
pub record IsOrder (order : Order) : Type 0 where
  pub same :
      (p : Agent → Bool) (rows : List Agent)
      → length (select p (order rows)) ≡ length (select p rows)
  pub descending : (rows : List Agent) → IsDescending (order rows)

abbrev asked_status : Option String → Agent → Bool
asked_status none a = Bool.true
asked_status (some s) a = if s == "" then Bool.true else status_value a.status == s

abbrev asked_tag : Option String → Agent → Bool
asked_tag none a = Bool.true
asked_tag (some t) a = if t == "" then Bool.true else contains a.tags t

-- the conditions of `list_agents`
unfoldable pub is_listed : ℕ → Option String → Option String → Agent → Bool
unfolding status_value
is_listed user_id status tag a = a.user_id == user_id && asked_status status a && asked_tag tag a

-- `list_agents`: the page, and the number of all agents that meet the conditions
unfoldable pub list_agents :
    Order → ℕ → Option String → Option String → ℕ → ℕ → List Agent → List Agent × ℕ
unfolding is_listed
list_agents order user_id status tag page page_size rows =
    let meeting = select (is_listed user_id status tag) rows in
    (take page_size (drop ((page - 1) * page_size) (order meeting)), length meeting)
