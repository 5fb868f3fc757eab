-- ===== src/Agents.antt =====
-- services/agent_service.py: an agent's life in the database and in the container runtime. Random
-- ids, draws and nonces, and the time, come as arguments. A function that the source writes as one
-- is cut where it commits.
pub mod Ownership
mod Rows
pub mod Requests
pub mod Deploy
pub mod Running
pub mod Failures
pub mod Responses
pub mod Telemetry
use agntspark_gateway.Prelude.{
  ℕ, suc, ◌+◌, String, Bool, true, false, not, Option, none, some, List, [], ◌∷◌, ◌++◌, length,
  find, any, delete_where, ◌==◌, ◌&&◌, ◌||◌, if◌then◌else◌, string_eq, nat_eq, text_eq, is_none,
  is_set,
}
use agntspark_gateway.Errors.{
  Error, agent_not_found, build_not_supported, deployment_failed, unhandled,
}
use agntspark_gateway.Exec.{
  Exec, Result, ok, err, pure, raise, lift, gets, reads, modify, or_raise, and_then, refuse_if,
  ◌>>=◌, ◌>>◌,
}
use agntspark_gateway.External.{
  AgentRuntime, Cipher, Container, Fault, scaling_error, container_not_found, other_fault, Outcome,
  returned, raised, ScaleDirection, up, down,
}
use agntspark_gateway.Models.{
  Agent, AgentAccess, AgentStatus, Text, pending, starting, running, failed, scaling, write,
}
use agntspark_gateway.Schemas.{AgentConfigIn, AgentUpdate, DeployConfig}
use agntspark_gateway.AgentConfig.{
  apply_deploy_config, with_provider_key, env_for_container, to_core_config,
}
use agntspark_gateway.Quota.{Shape, ensure_resources, ensure_can_create_agent}
use agntspark_gateway.Slug.{new_slug}
use agntspark_gateway.World.{World, Platform, commit, call, on_agents, on_access_keys}

-- `str(exc)`
abbrev pub message : Fault → String
message (scaling_error s) = s
message (container_not_found s) = s
message (other_fault s) = s

-- `str` of `SecretDecryptionError`, from security/secrets.py
abbrev pub decryption_fault : Fault
decryption_fault =
    other_fault "Failed to decrypt a stored secret — the encryption key may have changed."

-- What a new agent is given from outside: `secrets`, the clock, Unicode's lower case.
pub record Fresh : Type 0 where
  pub agent_id : String
  pub draws : ℕ → ℕ
  pub nonce : ℕ
  pub key_nonce : ℕ
  pub now : ℕ
  pub lower_table : ℕ → Text

-- `Agent(...)` with the column defaults
unfoldable pub blank_agent : Fresh → ℕ → AgentConfigIn → Agent
blank_agent fresh user_id body = record {
  id = fresh.agent_id;
  user_id = user_id;
  slug = new_slug fresh.lower_table body.name fresh.draws;
  name = body.name;
  runtime = body.runtime;
  framework = body.framework;
  model = body.model;
  system_prompt = body.system_prompt;
  tags = body.tags;
  metadata = body.metadata;
  status = pending;
  error = none;
  version = 1;
  access = body.access;
  rate_limit_rpm = none;
  replicas = 0;
  cpu = 1_000_000;
  memory_mb = 512;
  gpu = 0;
  gpu_type = none;
  disk_gb = 10;
  ephemeral_storage_gb = 5;
  env = [];
  image = none;
  build_path = none;
  command = none;
  args = [];
  health_check_path = none;
  auto_scale = false;
  min_replicas = 1;
  max_replicas = 10;
  port = 8080;
  created_at = fresh.now;
}

abbrev pub shape_of_config : DeployConfig → Shape
shape_of_config d = record {
  replicas = d.replicas;
  cpu = d.resources.cpu;
  memory_mb = d.resources.memory_mb;
}

-- the shape that a deployment asks for: the one sent, or the agent's own
abbrev pub asked_shape : Option DeployConfig → Agent → Shape
asked_shape none agent = record {
  replicas = agent.replicas;
  cpu = agent.cpu;
  memory_mb = agent.memory_mb;
}
asked_shape (some d) agent = shape_of_config d

-- the primary key and the unique slug
unfoldable pub is_taken : Agent → List Agent → Bool
is_taken a = any (λ b. b.id == a.id || b.slug == a.slug)

module _ {R : Type 0} (p : Platform R) where
  -- `_get_owned`
  unfoldable pub get_owned : ℕ → String → Exec (World R) Agent
  get_owned user_id agent_id = reads λ w.
      or_raise (find (λ a. a.id == agent_id && a.user_id == user_id) w.db.agents)
        (agent_not_found agent_id)

  abbrev pub get_agent : ℕ → String → Exec (World R) Agent
  get_agent = get_owned

  -- the attributes of the agent are assigned, and the session commits
  abbrev pub save : Agent → Exec (World R) Agent
  save agent = do modify (on_agents (write agent)); commit; pure agent

  -- `db.add` and the commit, which fails on a key that is taken
  unfoldable pub insert_agent : Agent → Exec (World R) Agent
  unfolding is_taken
  insert_agent agent = do
    reads (λ w. refuse_if (is_taken agent w.db.agents) unhandled)
    modify (on_agents (λ rows. rows ++ agent ∷ []))
    commit
    pure agent

  -- `update_agent`
  unfoldable pub update_agent : ℕ → String → AgentUpdate → Exec (World R) Agent
  unfolding get_owned
  update_agent user_id agent_id body = do
    agent ← get_owned user_id agent_id
    save (record agent {
      access = elim body.access [ none ↦ agent.access | some a ↦ a ];
      rate_limit_rpm = elim body.rate_limit_rpm [ none ↦ agent.rate_limit_rpm | some r ↦ r ];
    })

  -- `deploy_agent` between the quota check and the start
  unfoldable pub configure : ℕ → Option DeployConfig → Agent → Exec (World R) Agent
  configure nonce none agent = pure agent
  configure nonce (some deploy) agent = save (apply_deploy_config p.cipher nonce deploy agent)

  -- the `try` of `deploy_agent`: decryption fails inside it too
  unfoldable pub start_containers : Agent → Exec (World R) (Outcome (List Container))
  start_containers agent = elim (env_for_container p.cipher agent.env) [
    | err e ↦ pure (raised decryption_fault)
    | ok env ↦ call (
        p.engine.deploy
          (to_core_config p.engine.for_model agent.id agent.name agent.model agent.system_prompt
            agent.cpu agent.memory_mb)
          agent.replicas env agent.image)
  ]

  -- the rest of `deploy_agent`
  unfoldable pub finish_deploy : Agent → Outcome (List Container) → Exec (World R) Agent
  finish_deploy agent (raised fault) = do
    save (record agent { status = failed; error = some (message fault) })
    raise (deployment_failed agent.id (message fault))
  finish_deploy agent (returned containers) = save (record agent {
    status = running;
    replicas = length containers;
    error = none;
    version = agent.version + 1;
  })

  unfoldable pub start : Agent → Exec (World R) Agent
  unfolding start_containers finish_deploy
  start agent = do outcome ← start_containers agent; finish_deploy agent outcome

  -- from the refusal of a build on
  unfoldable pub launch : Agent → Exec (World R) Agent
  unfolding start
  launch agent = do
    lift (refuse_if (is_none agent.image && not (is_none agent.build_path)) build_not_supported)
    started ← save (record agent { status = starting })
    start started

  -- `deploy_agent`
  unfoldable pub deploy_agent : ℕ → ℕ → String → Option DeployConfig → Exec (World R) Agent
  unfolding get_owned configure launch
  deploy_agent nonce user_id agent_id deploy = do
    agent ← get_owned user_id agent_id
    reads (λ w. ensure_resources p.roles w.db user_id (some agent.id) (asked_shape deploy agent))
    configured ← configure nonce deploy agent
    launch configured

  -- the settings and the model key of a new agent
  unfoldable pub prepared : Fresh → ℕ → AgentConfigIn → Result Agent
  unfolding blank_agent
  prepared fresh user_id body =
      let blank = blank_agent fresh user_id body in
      let configured : Agent = elim body.deploy [
        | none ↦ blank
        | some d ↦ apply_deploy_config p.cipher fresh.nonce d blank
      ] in
      elim body.api_key [
        | none ↦ ok configured
        | some key ↦
            if key == ""
            then ok configured
            else and_then
                (with_provider_key p.cipher p.engine.for_model fresh.key_nonce body.model key
                  configured.env)
                (λ env. ok (record configured { env = env }))
      ]

  -- `create_agent` up to the insertion
  unfoldable pub new_agent : Fresh → ℕ → AgentConfigIn → Exec (World R) Agent
  unfolding prepared insert_agent
  new_agent fresh user_id body = do
    reads (λ w. ensure_can_create_agent p.roles w.db user_id)
    reads (λ w. elim body.deploy [
      | none ↦ ok tt
      | some d ↦ ensure_resources p.roles w.db user_id none (shape_of_config d)
    ])
    agent ← lift (prepared fresh user_id body)
    insert_agent agent

  -- the last step of `create_agent`
  abbrev pub deploy_new : Fresh → ℕ → Option DeployConfig → Agent → Exec (World R) Agent
  deploy_new fresh user_id none agent = pure agent
  deploy_new fresh user_id (some _) agent = deploy_agent fresh.nonce user_id agent.id none

  -- `create_agent`
  unfoldable pub create_agent : Fresh → ℕ → AgentConfigIn → Exec (World R) Agent
  unfolding new_agent
  create_agent fresh user_id body = do
    agent ← new_agent fresh user_id body
    deploy_new fresh user_id body.deploy agent

  unfoldable pub finish_delete : Agent → Outcome (List String) → Exec (World R) (Unit {0})
  finish_delete agent (raised _) = raise unhandled
  finish_delete agent (returned _) = do
    modify (on_agents (delete_where (λ a. a.id == agent.id)))
    modify (on_access_keys (delete_where (λ k. k.agent_id == agent.id)))
    commit

  -- `delete_agent`; the rows of its access keys go with it (ON DELETE CASCADE)
  unfoldable pub delete_agent : ℕ → String → Exec (World R) (Unit {0})
  unfolding get_owned finish_delete
  delete_agent user_id agent_id = do
    agent ← get_owned user_id agent_id
    outcome ← call (p.engine.remove agent.id)
    finish_delete agent outcome

  -- `scale_agent` after the runtime's call: only two classes of its exceptions are caught
  unfoldable pub finish_scale : Agent → Outcome (Unit {0}) → Exec (World R) Agent
  finish_scale agent (raised (other_fault _)) = raise unhandled
  finish_scale agent (raised fault) = do
    save (record agent { status = failed; error = some (message fault) })
    raise (deployment_failed agent.id (message fault))
  finish_scale agent (returned _) = do
    live ← gets (λ w. length (p.engine.get_containers agent.id w.runtime))
    save (record agent { replicas = if live == 0 then agent.replicas else live; status = running })

  abbrev pub check_scale : ℕ → Agent → ScaleDirection → ℕ → World R → Result (Unit {0})
  check_scale user_id agent down count w = ok tt
  check_scale user_id agent up count w =
      ensure_resources p.roles w.db user_id (some agent.id)
        (record { replicas = agent.replicas + count; cpu = agent.cpu; memory_mb = agent.memory_mb })

  -- `scale_agent` once the agent is marked, with the replicas before
  unfoldable pub scale_marked : ScaleDirection → ℕ → ℕ → Agent → Exec (World R) (Agent × ℕ)
  unfolding finish_scale
  scale_marked direction count previous agent = do
    outcome ← call (p.engine.scale agent.id direction count)
    scaled ← finish_scale agent outcome
    pure (scaled, previous)

  -- `scale_agent`: the agent, and the replicas before
  unfoldable pub scale_agent : ℕ → String → ScaleDirection → ℕ → Exec (World R) (Agent × ℕ)
  unfolding get_owned scale_marked
  scale_agent user_id agent_id direction count = do
    agent ← get_owned user_id agent_id
    reads (check_scale user_id agent direction count)
    marked ← save (record agent { status = scaling })
    scale_marked direction count agent.replicas marked
