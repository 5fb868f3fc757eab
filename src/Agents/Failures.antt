-- ===== src/Agents/Failures.antt =====
-- Requests on agents that raise, and what they leave behind.
use agntspark_gateway.Prelude.{
  ℕ, String, ◌≡◌, refl, false, Option, none, some, find, ◌==◌, ◌&&◌, string_eq, nat_eq, is_none,
}
use agntspark_gateway.Errors.{Error, agent_not_found, build_not_supported, deployment_failed}
use agntspark_gateway.Exec.{ok, err}
use agntspark_gateway.External.{Fault, raised, ScaleDirection}
use agntspark_gateway.Models.{Agent, failed}
use agntspark_gateway.Quota.{ensure_resources}
use agntspark_gateway.Schemas.{DeployConfig, AgentUpdate}
use agntspark_gateway.AgentConfig.{apply_deploy_config}
use agntspark_gateway.World.{World, Platform}
use agntspark_gateway.Agents.{
  asked_shape, message, save, configure, launch, start, start_containers, finish_deploy,
  deploy_agent, update_agent, scale_agent, delete_agent,
}

module _ {R : Type 0} (p : Platform R) (user_id : ℕ) (id : String) (w : World R) where
  -- An agent that is not the caller's, or not there, is not found by any request, and the request
  -- changes nothing: not the database, and not the runtime.
  pub not_found_changes_nothing :
      (nonce count : ℕ) (d : Option DeployConfig) (body : AgentUpdate) (direction : ScaleDirection)
      → find (λ a. a.id == id && a.user_id == user_id) w.db.agents ≡ none
      → (deploy_agent p nonce user_id id d w ≡ (err (agent_not_found id), w))
        × (update_agent p user_id id body w ≡ (err (agent_not_found id), w))
        × (scale_agent p user_id id direction count w ≡ (err (agent_not_found id), w))
        × (delete_agent p user_id id w ≡ (err (agent_not_found id), w))
  unfolding deploy_agent update_agent scale_agent delete_agent
  not_found_changes_nothing nonce count d body direction absent =
      (rw absent refl, rw absent refl, rw absent refl, rw absent refl)

  module _ (a : Agent)
      (found : find (λ x. x.id == id && x.user_id == user_id) w.db.agents ≡ some a) where
    -- A deployment that the quota refuses changes nothing either, and the caller sees the error.
    pub deploy_agent-refused :
        (nonce : ℕ) (d : Option DeployConfig) {e : Error}
        → ensure_resources p.roles w.db user_id (some a.id) (asked_shape d a) ≡ err e
        → deploy_agent p nonce user_id id d w ≡ (err e, w)
    unfolding deploy_agent
    deploy_agent-refused nonce d refused = rw found (rw refused refl)

    pub deploy_agent-build :
        (nonce : ℕ) (d : DeployConfig)
        → ensure_resources p.roles w.db user_id (some a.id) (asked_shape (some d) a) ≡ ok tt
        → d.image ≡ none
        → is_none d.build_path ≡ false
        → let configured = apply_deploy_config p.cipher nonce d a in
          (deploy_agent p nonce user_id id (some d) w
            ≡ (err build_not_supported, (save p configured w).1))
          × (configured.status ≡ a.status)
          × (configured.cpu ≡ d.resources.cpu)
          × (configured.replicas ≡ d.replicas)
    unfolding deploy_agent configure launch apply_deploy_config
    deploy_agent-build nonce d passed image build =
        (rw found (rw passed (rw (image, build) refl)), refl, refl, refl)

  -- A start that the runtime refuses is recorded: the agent is `failed` with the runtime's message,
  -- which the caller sees too.
  pub start-failed :
      (b : Agent) (f : Fault) (r : R)
      → start_containers p b w ≡ (ok (raised f), record w { runtime = r })
      → start p b w ≡ (
        err (deployment_failed b.id (message f)),
        (save p
            (record b { status = failed; error = some (message f) })
            (record w { runtime = r })).1,
      )
  unfolding start finish_deploy
  start-failed b f r e = rw e refl
