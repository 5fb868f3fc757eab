-- ===== src/Agents/Deploy.antt =====
-- A deployment keeps the account within its plan, and what a successful one leaves behind.
use agntspark_gateway.Prelude.{
  ℕ, ◌+◌, ◌*◌, ◌≤◌, String, ◌≡◌, ◌⊎◌, refl, subst, ap, ◌∙◌, true, false, not, Option, none, some,
  List, [], ◌∷◌, arith, find, length, ◌==◌, ◌&&◌, string_eq, nat_eq, is_none, Option-cases,
  Bool-cases, inl, inr,
}
use native.Mathlib.Nat.{le_trans}
use agntspark_gateway.Roles.{RoleTable}
use agntspark_gateway.Exec.{Result, ok, err, continue, ◌>>=◌}
use agntspark_gateway.External.{
  Cipher, Container, CoreConfig, Outcome, returned, raised, StartsReplicas,
}
use agntspark_gateway.Models.{Database, User, Agent, write, starting, running, failed}
use agntspark_gateway.Plans.{limits_for}
use agntspark_gateway.Quota.{Shape, active, is_active_status, ensure_resources}
use agntspark_gateway.Quota.Sums.{HasUniqueIds}
use agntspark_gateway.Quota.Resources.{IsHeldTo, IsWithin, shape_of, total, ensure_resources-write}
use agntspark_gateway.Schemas.{DeployConfig}
use agntspark_gateway.AgentConfig.{apply_deploy_config, env_for_container, to_core_config}
use agntspark_gateway.World.{World, Platform}
use agntspark_gateway.Agents.{
  decryption_fault, asked_shape, save, configure, start_containers, finish_deploy, start, launch,
  deploy_agent, message,
}
use agntspark_gateway.Agents.Ownership.{IsOwn-found}

pub write-write :
    (b c : Agent) (rows : List Agent) → b.id ≡ c.id → write b (write c rows) ≡ write b rows
write-write b c [] e = refl
write-write b c (a ∷ rows) e = ground (arith, write-write b c rows e)

pub find-weaken :
    (id : String) (user_id : ℕ) (rows : List Agent) (a : Agent)
    → find (λ x. x.id == id && x.user_id == user_id) rows ≡ some a
    → (old : Agent) × (find (λ x. x.id == id) rows ≡ some old)
find-weaken id user_id [] a e = cc
find-weaken id user_id (x ∷ rows) a e = elim (string_eq.dec x.id id) [
  | yes p ↦ (x, ground arith)
  | no n ↦
      let rest = find-weaken id user_id rows a (ground arith) in (rest.0, ground (arith, rest.1))
]

total-write_inactive :
    (user_id : ℕ) (f : Agent → ℕ) (b : Agent) (rows : List Agent)
    → is_active_status b.status ≡ false
    → total f user_id (write b rows) ≤ total f user_id rows
unfolding active
total-write_inactive user_id f b [] h = omega arith
total-write_inactive user_id f b (a ∷ rows) h =
    ground (arith, total-write_inactive user_id f b rows h)

-- writing an agent that is idle, or that runs with a shape that the check let through
write-IsWithin :
    (p_roles : RoleTable) (db : Database) (user : User) (b old : Agent) (asked : Shape)
    → IsHeldTo p_roles db b.user_id user
    → HasUniqueIds db.agents
    → find (λ a. a.id == b.id) db.agents ≡ some old
    → ensure_resources p_roles db b.user_id (some b.id) asked ≡ ok tt
    → (is_active_status b.status ≡ true → shape_of b ≡ asked)
    → IsWithin (limits_for user.plan) b.user_id db.agents
    → IsWithin (limits_for user.plan) b.user_id (write b db.agents)
write-IsWithin roles db user b old asked held unique found fits shape within =
    elim (Bool-cases (is_active_status b.status)) [
      | inl on ↦
          ensure_resources-write roles db user b old held unique found (refl, on)
            (rw (shape on) fits)
      | inr off ↦
          let le = λ (f : Agent → ℕ). total-write_inactive b.user_id f b db.agents off in
          record {
            replicas = le_trans (le (λ a. a.replicas)) within.replicas;
            vcpu = le_trans (le (λ a. a.replicas * a.cpu)) within.vcpu;
            memory = le_trans (le (λ a. a.replicas * a.memory_mb)) within.memory;
          }
    ]

-- the agent as it is configured
pub configured : Cipher → ℕ → Option DeployConfig → Agent → Agent
configured cipher nonce none a = a
configured cipher nonce (some d) a = apply_deploy_config cipher nonce d a

module _ {R : Type 0} (p : Platform R) where
  pub configured-lem :
      (nonce : ℕ) (d : Option DeployConfig) (a : Agent)
      → ((configured p.cipher nonce d a).id ≡ a.id)
        × ((configured p.cipher nonce d a).user_id ≡ a.user_id)
        × ((configured p.cipher nonce d a).status ≡ a.status)
        × (shape_of (configured p.cipher nonce d a) ≡ asked_shape d a)
  unfolding configured apply_deploy_config
  configured-lem nonce none a = (refl, refl, refl, refl)
  configured-lem nonce (some d) a = (refl, refl, refl, refl)

  -- `configure` writes the configured agent and nothing else
  pub configure-lem :
      (nonce : ℕ) (d : Option DeployConfig) (a : Agent) (w : World R)
      → (configure p nonce d a w ≡ (ok (configured p.cipher nonce d a), w))
        ⊎ (configure p nonce d a w ≡ save p (configured p.cipher nonce d a) w)
  unfolding configure configured
  configure-lem nonce none a w = inl refl
  configure-lem nonce (some d) a w = inr refl

-- The agent's row is all that has changed, and it is committed; if the agent holds resources, they
-- are those of `b`.
record Wrote {R : Type 0} (b : Agent) (before : List Agent) (after : World R) : Type 0 where
  pub final : Agent
  id : final.id ≡ b.id
  user : final.user_id ≡ b.user_id
  rows : after.db.agents ≡ write final before
  committed : after.stored ≡ after.db
  shape : is_active_status final.status ≡ true → shape_of final ≡ shape_of b

module _ {R : Type 0} (p : Platform R) (starts : StartsReplicas p.engine) where
  finish_deploy-Wrote :
      (b : Agent) (o : Outcome (List Container)) (w : World R)
      → ((cs : List Container) → o ≡ returned cs → length cs ≡ b.replicas)
      → Wrote b w.db.agents (finish_deploy p b o w).1
  unfolding finish_deploy
  finish_deploy-Wrote b (raised f) w count = record {
    final = record b { status = failed; error = some (message f) };
    id = refl;
    user = refl;
    rows = refl;
    committed = refl;
    shape = λ h. cc;
  }
  finish_deploy-Wrote b (returned cs) w count = record {
    final = record b {
      status = running;
      replicas = length cs;
      error = none;
      version = b.version + 1;
    };
    id = refl;
    user = refl;
    rows = refl;
    committed = refl;
    shape = λ h.
        ap (λ n. record { replicas = n; cpu = b.cpu; memory_mb = b.memory_mb }) (count cs refl);
  }

  -- what `start_containers` returns: it changes nothing but the runtime
  started :
      (b : Agent) (w : World R)
      → (o : Outcome (List Container)) × (r : R) × (start_containers p b w
          ≡ (ok o, record w { runtime = r }))
        × ((cs : List Container) → o ≡ returned cs → length cs ≡ b.replicas)
  unfolding start_containers
  started b w = go (env_for_container p.cipher b.env) refl
    where
      config : CoreConfig
      config =
          to_core_config p.engine.for_model b.id b.name b.model b.system_prompt b.cpu b.memory_mb

      never : (cs : List Container) → raised decryption_fault ≡ returned cs → length cs ≡ b.replicas
      never cs h = cc

      go :
          (e : Result (List (String × String)))
          → env_for_container p.cipher b.env ≡ e
          → (o : Outcome (List Container)) × (r : R) × (start_containers p b w
              ≡ (ok o, record w { runtime = r }))
            × ((cs : List Container) → o ≡ returned cs → length cs ≡ b.replicas)
      go (err x) same =
          (raised decryption_fault, w.runtime, rw (same, start_containers) refl, never)
      go (ok env) same = (
        (p.engine.deploy config b.replicas env b.image w.runtime).0,
        (p.engine.deploy config b.replicas env b.image w.runtime).1,
        rw (same, start_containers) refl,
        starts.count config b.replicas env b.image w.runtime,
      )

  start-Wrote : (b : Agent) (w : World R) → Wrote b w.db.agents (start p b w).1
  unfolding start
  start-Wrote b w =
      let (o, r, e, count) = started b w in
      rw e (finish_deploy-Wrote b o (record w { runtime = r }) count)

  launch-Wrote :
      (b : Agent) (w : World R) → ((launch p b w).1 ≡ w) ⊎ Wrote b w.db.agents (launch p b w).1
  unfolding launch
  launch-Wrote b w = elim (Bool-cases (is_none b.image && not (is_none b.build_path))) [
    | inl build ↦ rw build (inl refl)
    | inr image ↦
        let b' : Agent = record b { status = starting } in
        let h = start-Wrote b' (save p b' w).1 in
        rw image (
          inr (record {
            final = h.final;
            id = h.id;
            user = h.user;
            rows = h.rows ∙ write-write h.final b' w.db.agents h.id;
            committed = h.committed;
            shape = h.shape;
          }))
  ]

module _ (roles : RoleTable) (db : Database) (user : User) (old : Agent) (asked : Shape)
    (unique : HasUniqueIds db.agents) where
  abbrev Settles : Agent → ℕ → String → Type 0
  Settles b user_id id =
      IsHeldTo roles db user_id user
      → find (λ a. a.id == id) db.agents ≡ some old
      → ensure_resources roles db user_id (some id) asked ≡ ok tt
      → IsWithin (limits_for user.plan) user_id db.agents
      → IsWithin (limits_for user.plan) user_id (write b db.agents)

  settles :
      (b : Agent) (user_id : ℕ) (id : String)
      → b.id ≡ id
      → b.user_id ≡ user_id
      → (is_active_status b.status ≡ true → shape_of b ≡ asked)
      → Settles b user_id id
  settles b user_id id e mine shape =
      subst (λ u. Settles b u id) mine
        (subst (λ i. Settles b b.user_id i) e
          (λ held found fits within.
            write-IsWithin roles db user b old asked held unique found fits shape within))

module _ {R : Type 0} (p : Platform R) (starts : StartsReplicas p.engine) (nonce user_id : ℕ)
    (id : String) (d : Option DeployConfig) (w : World R) (user : User)
    (held : IsHeldTo p.roles w.db user_id user) (unique : HasUniqueIds w.db.agents)
    (within : IsWithin (limits_for user.plan) user_id w.db.agents) where
  launched-IsWithin :
      (a old : Agent)
      → a.id ≡ id
      → a.user_id ≡ user_id
      → find (λ x. x.id == id) w.db.agents ≡ some old
      → ensure_resources p.roles w.db user_id (some id) (asked_shape d a) ≡ ok tt
      → IsWithin (limits_for user.plan) user_id ((configure p nonce d a >>= launch p) w).1.db.agents
  launched-IsWithin a old e mine found fits =
      let c = configured p.cipher nonce d a in
      let (cid, cuser, cstatus, cshape) = configured-lem p nonce d a in
      let settle =
        λ (b : Agent) (i : b.id ≡ c.id) (u : b.user_id ≡ c.user_id)
            (s : is_active_status b.status ≡ true → shape_of b ≡ shape_of c).
          settles p.roles w.db user old (asked_shape d a) unique b user_id id (i ∙ cid ∙ e)
            (u ∙ cuser ∙ mine) (λ on. s on ∙ cshape) held found fits within in
      elim (configure-lem p nonce d a w) [
        | inl plain ↦ elim (launch-Wrote p starts c w) [
          | inl same ↦ rw plain (rw same within)
          | inr h ↦ rw plain (rw h.rows (settle h.final h.id h.user h.shape))
        ]
        | inr saved ↦ elim (launch-Wrote p starts c (save p c w).1) [
          | inl same ↦ rw saved (rw same (settle c refl refl (λ on. refl)))
          | inr h ↦ rw saved (
              rw (h.rows ∙ write-write h.final c w.db.agents h.id)
                (settle h.final h.id h.user h.shape))
        ]
      ]

  checked-IsWithin :
      (a old : Agent) (r : Result (Unit {0}))
      → a.id ≡ id
      → a.user_id ≡ user_id
      → find (λ x. x.id == id) w.db.agents ≡ some old
      → ensure_resources p.roles w.db user_id (some id) (asked_shape d a) ≡ r
      → IsWithin
          (limits_for user.plan)
          user_id
          (continue r (λ _. configure p nonce d a >>= launch p) w).1.db.agents
  checked-IsWithin a old (err x) e mine found fits = within
  checked-IsWithin a old (ok u) e mine found fits = launched-IsWithin a old e mine found fits

  -- Whatever a deployment's outcome, refused, failed or running, an account that is held to its
  -- plan and was within it is within it afterwards, if the runtime starts no more and no fewer
  -- replicas than it is asked for.
  pub deploy_agent-IsWithin :
      IsWithin (limits_for user.plan) user_id (deploy_agent p nonce user_id id d w).1.db.agents
  unfolding deploy_agent
  deploy_agent-IsWithin =
      elim (Option-cases (find (λ x. x.id == id && x.user_id == user_id) w.db.agents)) [
        | inl absent ↦ rw absent within
        | inr (a, e) ↦
            let (here, mine, own) = IsOwn-found user_id id w.db.agents a unique e in
            let (old, found) = find-weaken id user_id w.db.agents a e in
            rw e (
              checked-IsWithin a old
                (ensure_resources p.roles w.db user_id (some a.id) (asked_shape d a)) here mine
                found (rw here refl))
      ]
