-- ===== src/Agents/Running.antt =====
-- What a successful deployment leaves behind.
use agntspark_gateway.Prelude.{
  ℕ, ◌+◌, String, ◌≡◌, refl, sym, ap, ◌∙◌, not, Option, none, some, List, find, length, ◌==◌, ◌&&◌,
  string_eq, nat_eq, is_none, Option-cases, Bool-cases, inl, inr,
}
use agntspark_gateway.Exec.{Result, ok, err, continue, ◌>>=◌}
use agntspark_gateway.External.{Container, CoreConfig, Outcome, returned, raised}
use agntspark_gateway.Models.{Agent, write, starting, running}
use agntspark_gateway.Quota.{ensure_resources}
use agntspark_gateway.Schemas.{DeployConfig}
use agntspark_gateway.AgentConfig.{env_for_container, to_core_config}
use agntspark_gateway.World.{World, Platform}
use agntspark_gateway.Agents.{
  decryption_fault, asked_shape, save, configure, start_containers, finish_deploy, start, launch,
  deploy_agent,
}
use agntspark_gateway.Agents.Deploy.{write-write, configured, configure-lem}

module _ {R : Type 0} (p : Platform R) where
  -- what a deployment of `b` makes of it
  abbrev pub deployed : Agent → List Container → Agent
  deployed b containers = record b {
    status = running;
    replicas = length containers;
    error = none;
    version = b.version + 1;
  }

  -- an action that returned `a`, which is `b` running, with its row committed
  pub record IsRunning (b a : Agent) (before : List Agent) (after : World R) : Type 0 where
    pub containers : List Container
    pub running_agent : a ≡ deployed b containers
    pub rows : after.db.agents ≡ write a before
    pub committed : after.stored ≡ after.db

  finish_deploy-ok :
      (b a : Agent) (o : Outcome (List Container)) (w : World R)
      → (finish_deploy p b o w).0 ≡ ok a
      → IsRunning b a w.db.agents (finish_deploy p b o w).1
  unfolding finish_deploy
  finish_deploy-ok b a (raised f) w h = cc
  finish_deploy-ok b a (returned cs) w h =
      let e : deployed b cs ≡ a = cc in
      record {
        containers = cs;
        running_agent = sym e;
        rows = ap (λ x. write x w.db.agents) e;
        committed = refl;
      }

  called :
      (b : Agent) (w : World R)
      → (o : Outcome (List Container)) × (r : R) × (start_containers p b w
          ≡ (ok o, record w { runtime = r }))
  unfolding start_containers
  called b w = go (env_for_container p.cipher b.env) refl
    where
      config : CoreConfig
      config =
          to_core_config p.engine.for_model b.id b.name b.model b.system_prompt b.cpu b.memory_mb

      go :
          (e : Result (List (String × String)))
          → env_for_container p.cipher b.env ≡ e
          → (o : Outcome (List Container)) × (r : R) × (start_containers p b w
              ≡ (ok o, record w { runtime = r }))
      go (err x) same = (raised decryption_fault, w.runtime, rw (same, start_containers) refl)
      go (ok env) same = (
        (p.engine.deploy config b.replicas env b.image w.runtime).0,
        (p.engine.deploy config b.replicas env b.image w.runtime).1,
        rw (same, start_containers) refl,
      )

  start-ok :
      (b a : Agent) (w : World R)
      → (start p b w).0 ≡ ok a
      → IsRunning b a w.db.agents (start p b w).1
  unfolding start
  start-ok b a w h =
      let (o, r, e) = called b w in
      let h' : (finish_deploy p b o (record w { runtime = r })).0 ≡ ok a = rw e at h in
      rw e (finish_deploy-ok b a o (record w { runtime = r }) h')

  launch-ok :
      (b a : Agent) (w : World R)
      → (launch p b w).0 ≡ ok a
      → IsRunning b a w.db.agents (launch p b w).1
  unfolding launch
  launch-ok b a w h = elim (Bool-cases (is_none b.image && not (is_none b.build_path))) [
    | inl build ↦ cc (build, h)
    | inr image ↦
        let b' : Agent = record b { status = starting } in
        let h' : (start p b' (save p b' w).1).0 ≡ ok a = rw image at h in
        let done = start-ok b' a (save p b' w).1 h' in
        rw image (record {
          containers = done.containers;
          running_agent = done.running_agent;
          rows = done.rows ∙ write-write a b' w.db.agents (ap (λ x. x.id) done.running_agent);
          committed = done.committed;
        })
  ]

  configured-ok :
      (nonce : ℕ) (d : Option DeployConfig) (b a : Agent) (w : World R)
      → ((configure p nonce d b >>= launch p) w).0 ≡ ok a
      → IsRunning
          (configured p.cipher nonce d b)
          a
          w.db.agents
          ((configure p nonce d b >>= launch p) w).1
  configured-ok nonce d b a w h =
      let c = configured p.cipher nonce d b in
      elim (configure-lem p nonce d b w) [
        | inl plain ↦ rw plain (launch-ok c a w (rw plain at h))
        | inr saved ↦
            let done = launch-ok c a (save p c w).1 (rw saved at h) in
            rw saved (record {
              containers = done.containers;
              running_agent = done.running_agent;
              rows = done.rows ∙ write-write a c w.db.agents (ap (λ x. x.id) done.running_agent);
              committed = done.committed;
            })
      ]

  checked-ok :
      (nonce : ℕ) (d : Option DeployConfig) (b a : Agent) (w : World R) (r : Result (Unit {0}))
      → (continue r (λ _. configure p nonce d b >>= launch p) w).0 ≡ ok a
      → (r ≡ ok tt)
        × IsRunning
            (configured p.cipher nonce d b)
            a
            w.db.agents
            (continue r (λ _. configure p nonce d b >>= launch p) w).1
  checked-ok nonce d b a w (err e) h = cc
  checked-ok nonce d b a w (ok u) h = (refl, configured-ok nonce d b a w h)

  pub deploy_agent-ok :
      (nonce user_id : ℕ) (id : String) (d : Option DeployConfig) (w : World R) (a : Agent)
      → (deploy_agent p nonce user_id id d w).0 ≡ ok a
      → (b : Agent) × (find (λ x. x.id == id && x.user_id == user_id) w.db.agents ≡ some b)
        × (ensure_resources p.roles w.db user_id (some b.id) (asked_shape d b) ≡ ok tt)
        × IsRunning
            (configured p.cipher nonce d b)
            a
            w.db.agents
            (deploy_agent p nonce user_id id d w).1
  unfolding deploy_agent
  deploy_agent-ok nonce user_id id d w a h =
      elim (Option-cases (find (λ x. x.id == id && x.user_id == user_id) w.db.agents)) [
        | inl absent ↦ cc (absent, h)
        | inr (b, e) ↦
            let r = ensure_resources p.roles w.db user_id (some b.id) (asked_shape d b) in
            let done = checked-ok nonce d b a w r (rw e at h) in (b, e, done.0, rw e done.1)
      ]
