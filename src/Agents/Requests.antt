-- ===== src/Agents/Requests.antt =====
-- The requests on agents that a user can make, and that each of them spares the others' agents.
use agntspark_gateway.Prelude.{
  ℕ, String, ◌≡◌, refl, ◌∙◌, Option, none, some, List, arith, find, ◌==◌, ◌&&◌, string_eq, nat_eq,
  text_eq, if◌then◌else◌, subst, Option-cases, Bool-cases, inl, inr, length,
}
use agntspark_gateway.Errors.{unhandled, deployment_failed}
use agntspark_gateway.Exec.{Exec, Result, ok, err, reads, raise, ◌>>=◌, continue}
use agntspark_gateway.Exec.Keeps.{Keeps, Keeps-bind, Keeps-pure, Keeps-reads, Keeps-raise}
use agntspark_gateway.External.{
  scaling_error, container_not_found, other_fault, Outcome, returned, raised, ScaleDirection,
}
use agntspark_gateway.Models.{Agent, scaling, running, failed}
use agntspark_gateway.Quota.{ensure_resources, ensure_can_create_agent}
use agntspark_gateway.Quota.Sums.{HasUniqueIds}
use agntspark_gateway.Schemas.{DeployConfig, AgentUpdate, AgentConfigIn}
use agntspark_gateway.AgentConfig.{apply_deploy_config}
use agntspark_gateway.World.{World, Platform, call}
use agntspark_gateway.Agents.{
  Fresh, get_owned, deploy_agent, update_agent, finish_scale, check_scale, scale_agent,
  scale_marked, finish_delete, delete_agent, insert_agent, is_taken, new_agent, create_agent,
  prepared, asked_shape, shape_of_config, deploy_new,
}
use agntspark_gateway.Agents.Rows.{
  others-delete, IsOwn-delete, HasUniqueIds-delete, others-add, HasUniqueIds-add,
}
use agntspark_gateway.Agents.Ownership.{
  others, IsApart, IsOwn-found, save-IsApart, save-then-IsApart, call-IsApart,
  configure-launch-IsApart,
}

-- A request on the user's agents.
pub data Request : Type 0 where
  create : Fresh → AgentConfigIn → Request
  deploy : ℕ → String → Option DeployConfig → Request
  update : String → AgentUpdate → Request
  scale : String → ScaleDirection → ℕ → Request
  delete : String → Request

-- ids stay unique, and the agents of the others stay as they are
pub record Spares (user_id : ℕ) (before now : List Agent) : Type 0 where
  pub unique : HasUniqueIds now
  pub apart : others user_id now ≡ others user_id before

module _ {R : Type 0} (p : Platform R) (user_id : ℕ) where
  unfoldable pub perform : Request → World R → World R
  perform (create fresh body) w = (create_agent p fresh user_id body w).1
  perform (deploy nonce id d) w = (deploy_agent p nonce user_id id d w).1
  perform (update id body) w = (update_agent p user_id id body w).1
  perform (scale id direction count) w = (scale_agent p user_id id direction count w).1
  perform (delete id) w = (delete_agent p user_id id w).1

  get_owned-Spares :
      {A : Type 0} (id : String) (f : Agent → Exec (World R) A) (w : World R)
      → HasUniqueIds w.db.agents
      → ((a : Agent)
          → a.id ≡ id
          → a.user_id ≡ user_id
          → Keeps (λ v. IsApart user_id id w.db.agents v.db.agents) (f a))
      → Spares user_id w.db.agents ((get_owned p user_id id >>= f) w).1.db.agents
  unfolding get_owned
  get_owned-Spares id f w unique keeps =
      elim (Option-cases (find (λ a. a.id == id && a.user_id == user_id) w.db.agents)) [
        | inl absent ↦ rw absent (record { unique = unique; apart = refl })
        | inr (a, e) ↦
            let (here, mine, own) = IsOwn-found user_id id w.db.agents a unique e in
            let done =
              (keeps a here mine).after w (record { unique = unique; own = own; apart = refl }) in
            rw e (record { unique = done.unique; apart = done.apart })
      ]

  finish_scale-Apart :
      (id : String) (before : List Agent) (b : Agent) (o : Outcome (Unit {0}))
      → b.id ≡ id
      → b.user_id ≡ user_id
      → Keeps (λ v. IsApart user_id id before v.db.agents) (finish_scale p b o)
  unfolding finish_scale
  finish_scale-Apart id before b (raised (other_fault s)) e mine = Keeps-raise unhandled
  finish_scale-Apart id before b (raised (scaling_error s)) e mine =
      save-then-IsApart p user_id id before (record b { status = failed; error = some s })
        (λ _. raise (deployment_failed b.id s)) e mine (Keeps-raise (deployment_failed b.id s))
  finish_scale-Apart id before b (raised (container_not_found s)) e mine =
      save-then-IsApart p user_id id before (record b { status = failed; error = some s })
        (λ _. raise (deployment_failed b.id s)) e mine (Keeps-raise (deployment_failed b.id s))
  finish_scale-Apart id before b (returned u) e mine = record {
    after = λ w h.
        let live = length (p.engine.get_containers b.id w.runtime) in
        (save-IsApart p user_id id before
            (record b { replicas = if live == 0 then b.replicas else live; status = running }) e
            mine).after
          w h;
  }

  scale_marked-Apart :
      (id : String) (before : List Agent) (direction : ScaleDirection) (count previous : ℕ)
      (b : Agent)
      → b.id ≡ id
      → b.user_id ≡ user_id
      → Keeps
          (λ v. IsApart user_id id before v.db.agents)
          (scale_marked p direction count previous b)
  unfolding scale_marked
  scale_marked-Apart id before direction count previous b e mine =
      Keeps-bind (call (p.engine.scale b.id direction count)) _
        (call-IsApart p user_id id before (p.engine.scale b.id direction count))
        λ o.
          Keeps-bind (finish_scale p b o) _ (finish_scale-Apart id before b o e mine)
            (λ scaled. Keeps-pure (scaled, previous))

  deploy-Spares :
      (nonce : ℕ) (id : String) (d : Option DeployConfig) (w : World R)
      → HasUniqueIds w.db.agents
      → Spares user_id w.db.agents (deploy_agent p nonce user_id id d w).1.db.agents
  unfolding deploy_agent
  deploy-Spares nonce id d w unique = get_owned-Spares id _ w unique λ a e mine.
      Keeps-bind (reads (λ v. ensure_resources p.roles v.db user_id (some a.id) (asked_shape d a)))
        _ (Keeps-reads _) (λ _. configure-launch-IsApart p user_id id w.db.agents nonce d a e mine)

  scale-Spares :
      (id : String) (direction : ScaleDirection) (count : ℕ) (w : World R)
      → HasUniqueIds w.db.agents
      → Spares user_id w.db.agents (scale_agent p user_id id direction count w).1.db.agents
  unfolding scale_agent
  scale-Spares id direction count w unique = get_owned-Spares id _ w unique λ a e mine.
      Keeps-bind (reads (check_scale p user_id a direction count)) _ (Keeps-reads _) λ _.
        save-then-IsApart p user_id id w.db.agents (record a { status = scaling })
          (scale_marked p direction count a.replicas) e mine
          (scale_marked-Apart id w.db.agents direction count a.replicas
            (record a { status = scaling }) e mine)

  update-Spares :
      (id : String) (body : AgentUpdate) (w : World R)
      → HasUniqueIds w.db.agents
      → Spares user_id w.db.agents (update_agent p user_id id body w).1.db.agents
  unfolding update_agent
  update-Spares id body w unique =
      get_owned-Spares id _ w unique λ a e mine. save-IsApart p user_id id w.db.agents _ e mine

  finish_delete-Apart :
      (before : List Agent) (b : Agent) (o : Outcome (List String))
      → Keeps (λ v. IsApart user_id b.id before v.db.agents) (finish_delete p b o)
  unfolding finish_delete
  finish_delete-Apart before b (raised f) = Keeps-raise unhandled
  finish_delete-Apart before b (returned names) = record {
    after = λ w h. record {
      unique = HasUniqueIds-delete user_id b.id w.db.agents h.unique;
      own = IsOwn-delete user_id b.id w.db.agents h.own;
      apart = others-delete user_id b.id w.db.agents h.own ∙ h.apart;
    };
  }

  delete-Spares :
      (id : String) (w : World R)
      → HasUniqueIds w.db.agents
      → Spares user_id w.db.agents (delete_agent p user_id id w).1.db.agents
  unfolding delete_agent
  delete-Spares id w unique = get_owned-Spares id _ w unique λ a e mine.
      subst
        (λ i.
          Keeps (λ v. IsApart user_id i w.db.agents v.db.agents)
            (call (p.engine.remove a.id) >>= finish_delete p a))
        e
        (Keeps-bind (call (p.engine.remove a.id)) (finish_delete p a)
          (call-IsApart p user_id a.id w.db.agents (p.engine.remove a.id))
          (finish_delete-Apart w.db.agents a))

  -- the agent that `create_agent` inserts is the caller's
  prepared-user :
      (fresh : Fresh) (body : AgentConfigIn) (a : Agent)
      → prepared p fresh user_id body ≡ ok a
      → a.user_id ≡ user_id
  unfolding prepared apply_deploy_config
  prepared-user fresh body a h = ground arith

  insert-Spares :
      (a : Agent) (w : World R)
      → a.user_id ≡ user_id
      → HasUniqueIds w.db.agents
      → Spares user_id w.db.agents (insert_agent p a w).1.db.agents
  unfolding insert_agent
  insert-Spares a w mine unique = elim (Bool-cases (is_taken a w.db.agents)) [
    | inl taken ↦ rw taken (record { unique = unique; apart = refl })
    | inr free ↦ rw free (record {
      unique = HasUniqueIds-add w.db.agents a unique free;
      apart = others-add user_id w.db.agents a mine;
    })
  ]

  -- after a read that may raise
  continue-Spares :
      {A B : Type 0} (before : List Agent) (r : Result A) (g : A → Exec (World R) B) (w : World R)
      → Spares user_id before w.db.agents
      → ((a : A) → r ≡ ok a → Spares user_id before (g a w).1.db.agents)
      → Spares user_id before (continue r g w).1.db.agents
  continue-Spares before (ok a) g w h k = k a refl
  continue-Spares before (err e) g w h k = h

  new_agent-Spares :
      (fresh : Fresh) (body : AgentConfigIn) (w : World R)
      → HasUniqueIds w.db.agents
      → Spares user_id w.db.agents (new_agent p fresh user_id body w).1.db.agents
  unfolding new_agent
  new_agent-Spares fresh body w unique =
      let same : Spares user_id w.db.agents w.db.agents = record {
        unique = unique;
        apart = refl;
      } in
      continue-Spares w.db.agents (ensure_can_create_agent p.roles w.db user_id) _ w same λ _ _.
        continue-Spares w.db.agents
          (elim body.deploy [
            | none ↦ ok tt
            | some d ↦ ensure_resources p.roles w.db user_id none (shape_of_config d)
          ])
          _ w same
          λ _ _.
            continue-Spares w.db.agents (prepared p fresh user_id body) (insert_agent p) w same
              (λ a e. insert-Spares a w (prepared-user fresh body a e) unique)

  Spares-trans : (a b c : List Agent) → Spares user_id a b → Spares user_id b c → Spares user_id a c
  Spares-trans a b c h k = record { unique = k.unique; apart = k.apart ∙ h.apart }

  create-Spares :
      (fresh : Fresh) (body : AgentConfigIn) (w : World R)
      → HasUniqueIds w.db.agents
      → Spares user_id w.db.agents (create_agent p fresh user_id body w).1.db.agents
  unfolding create_agent
  create-Spares fresh body w unique =
      let made = new_agent p fresh user_id body w in
      let first = new_agent-Spares fresh body w unique in
      continue-Spares w.db.agents made.0 (deploy_new p fresh user_id body.deploy) made.1 first
        (λ a _. deployed body.deploy a made.1 first)
    where
      deployed :
          (d : Option DeployConfig) (a : Agent) (v : World R)
          → Spares user_id w.db.agents v.db.agents
          → Spares user_id w.db.agents (deploy_new p fresh user_id d a v).1.db.agents
      deployed none a v h = h
      deployed (some d) a v h =
          Spares-trans w.db.agents v.db.agents
            (deploy_agent p fresh.nonce user_id a.id none v).1.db.agents h
            (deploy-Spares fresh.nonce a.id none v h.unique)

  -- Whatever a user's request on agents does, and however it ends, no two agents come to share an
  -- id, and the agents of every other user stay exactly as they were.
  pub perform-Spares :
      (r : Request) (w : World R)
      → HasUniqueIds w.db.agents
      → Spares user_id w.db.agents (perform r w).db.agents
  unfolding perform
  perform-Spares (create fresh body) w u = create-Spares fresh body w u
  perform-Spares (deploy nonce id d) w u = deploy-Spares nonce id d w u
  perform-Spares (update id body) w u = update-Spares id body w u
  perform-Spares (scale id direction count) w u = scale-Spares id direction count w u
  perform-Spares (delete id) w u = delete-Spares id w u
