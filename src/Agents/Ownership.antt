-- ===== src/Agents/Ownership.antt =====
-- A user's requests leave every other user's agents alone.
use agntspark_gateway.Prelude.{
  ℕ, String, ◌≡◌, ◌≢◌, refl, sym, ◌∙◌, not, cond, Option, none, some, List, [], ◌∷◌, arith, find,
  select, All, ◌==◌, ◌&&◌, string_eq, nat_eq, text_eq, is_none, subst,
}
use agntspark_gateway.Exec.{Exec, Result, ok, err, raise, pure, ◌>>=◌}
use agntspark_gateway.Exec.Keeps.{Keeps, Keeps-bind, Keeps-pure, Keeps-raise, Keeps-guard}
use agntspark_gateway.External.{Cipher, Container, Outcome, returned, raised}
use agntspark_gateway.Schemas.{DeployConfig}
use agntspark_gateway.AgentConfig.{apply_deploy_config, env_for_container, to_core_config}
use agntspark_gateway.Errors.{deployment_failed, build_not_supported}
use agntspark_gateway.Models.{Agent, write, starting, failed}
use agntspark_gateway.Quota.Sums.{HasUniqueIds}
use agntspark_gateway.World.{World, Platform, call}
use agntspark_gateway.Agents.{
  decryption_fault, save, message, launch, start, start_containers, finish_deploy, configure,
}

-- the agents that are not the user's
abbrev pub others : ℕ → List Agent → List Agent
others user_id = select (λ a. not (a.user_id == user_id))

-- every row with this id is the user's
abbrev pub IsOwn : ℕ → String → List Agent → Type 0
IsOwn user_id id = All (λ a. a.id ≡ id → a.user_id ≡ user_id)

module _ (user_id : ℕ) (b : Agent) (mine : b.user_id ≡ user_id) where
  pub others-write :
      (rows : List Agent)
      → IsOwn user_id b.id rows
      → others user_id (write b rows) ≡ others user_id rows
  others-write [] h = refl
  others-write (a ∷ rows) h = ground (arith, others-write rows h.1, h.0)

  IsOwn-write : (rows : List Agent) → IsOwn user_id b.id rows → IsOwn user_id b.id (write b rows)
  IsOwn-write [] h = tt
  IsOwn-write (a ∷ rows) h = elim (string_eq.dec a.id b.id) [
    | yes e ↦ ground (arith, IsOwn-write rows h.1)
    | no n ↦ ground (arith, IsOwn-write rows h.1, h.0)
  ]

All-ne-write :
    (id : String) (b : Agent) (rows : List Agent)
    → All (λ x. x.id ≢ id) rows
    → All (λ x. x.id ≢ id) (write b rows)
All-ne-write id b [] h = tt
All-ne-write id b (a ∷ rows) h = ground (arith, All-ne-write id b rows h.1)

id-write : (b a : Agent) → (cond (a.id == b.id) b a).id ≡ a.id
id-write b a = ground arith

IsOwn-absent :
    (user_id : ℕ) (id : String) (rows : List Agent)
    → All (λ x. x.id ≢ id) rows
    → IsOwn user_id id rows
IsOwn-absent user_id id [] h = tt
IsOwn-absent user_id id (x ∷ rows) h = (λ e. absurd (h.0 e), IsOwn-absent user_id id rows h.1)

not_found :
    (user_id : ℕ) (id : String) (rows : List Agent)
    → All (λ x. x.id ≢ id) rows
    → (a : Agent) → find (λ x. x.id == id && x.user_id == user_id) rows ≢ some a
not_found user_id id [] h a e = cc
not_found user_id id (x ∷ rows) h a e = ground (arith, not_found user_id id rows h.1 a)

pub HasUniqueIds-write :
    (b : Agent) (rows : List Agent) → HasUniqueIds rows → HasUniqueIds (write b rows)
HasUniqueIds-write b [] u = tt
HasUniqueIds-write b (a ∷ rows) u = (
  subst (λ i. All (λ x. x.id ≢ i) (write b rows)) (sym (id-write b a))
      (All-ne-write a.id b rows u.0),
  HasUniqueIds-write b rows u.1,
)

pub IsOwn-found :
    (user_id : ℕ) (id : String) (rows : List Agent) (a : Agent)
    → HasUniqueIds rows
    → find (λ x. x.id == id && x.user_id == user_id) rows ≡ some a
    → (a.id ≡ id) × (a.user_id ≡ user_id) × IsOwn user_id id rows
IsOwn-found user_id id [] a u e = cc
IsOwn-found user_id id (x ∷ rows) a u e = elim (string_eq.dec x.id id) [
  | yes p ↦ elim (nat_eq.dec x.user_id user_id) [
    | yes q ↦
        ground (arith, IsOwn-absent user_id id rows (subst (λ i. All (λ y. y.id ≢ i) rows) p u.0))
    | no n ↦
        absurd
          (not_found user_id id rows (subst (λ i. All (λ y. y.id ≢ i) rows) p u.0) a (ground arith))
  ]
  | no n ↦ ground (arith, IsOwn-found user_id id rows a u.1)
]

applied-id :
    (cipher : Cipher) (nonce : ℕ) (d : DeployConfig) (b : Agent)
    → (apply_deploy_config cipher nonce d b).id ≡ b.id
unfolding apply_deploy_config
applied-id cipher nonce d b = refl

applied-user :
    (cipher : Cipher) (nonce : ℕ) (d : DeployConfig) (b : Agent)
    → (apply_deploy_config cipher nonce d b).user_id ≡ b.user_id
unfolding apply_deploy_config
applied-user cipher nonce d b = refl

-- What a request of the user has left as it was, and what a write of its agent needs.
pub record IsApart (user_id : ℕ) (id : String) (before : List Agent) (now : List Agent)
    : Type 0 where
  pub unique : HasUniqueIds now
  pub own : IsOwn user_id id now
  pub apart : others user_id now ≡ others user_id before

module _ {R : Type 0} (p : Platform R) (user_id : ℕ) (id : String) (before : List Agent) where
  abbrev pub Apart : World R → Type 0
  Apart w = IsApart user_id id before w.db.agents

  pub save-IsApart : (b : Agent) → b.id ≡ id → b.user_id ≡ user_id → Keeps Apart (save p b)
  save-IsApart b e mine = record {
    after = λ w h.
        let own : IsOwn user_id b.id w.db.agents =
          subst (λ i. IsOwn user_id i w.db.agents) (sym e) h.own in
        record {
          unique = HasUniqueIds-write b w.db.agents h.unique;
          own =
              subst (λ i. IsOwn user_id i (write b w.db.agents)) e
                (IsOwn-write user_id b mine w.db.agents own);
          apart = others-write user_id b mine w.db.agents own ∙ h.apart;
        };
  }

  pub save-then-IsApart :
      {A : Type 0} (b : Agent) (f : Agent → Exec (World R) A)
      → b.id ≡ id
      → b.user_id ≡ user_id
      → Keeps Apart (f b)
      → Keeps Apart (save p b >>= f)
  save-then-IsApart b f e mine kf = record {
    after = λ w h. kf.after (save p b w).1 ((save-IsApart b e mine).after w h);
  }

  pub call-IsApart : {A : Type 0} (f : R → Outcome A × R) → Keeps Apart (call f)
  call-IsApart f = record { after = λ w h. h }

  start_containers-IsApart : (b : Agent) → Keeps Apart (start_containers p b)
  unfolding start_containers
  start_containers-IsApart b =
      elim (env_for_container p.cipher b.env) as (λ r. Keeps Apart (started r)) [
        | ok env ↦ call-IsApart (run env)
        | err e ↦ Keeps-pure failure
      ]
    where
      run : List (String × String) → R → Outcome (List Container) × R
      run env =
          p.engine.deploy
            (to_core_config p.engine.for_model b.id b.name b.model b.system_prompt b.cpu
              b.memory_mb)
            b.replicas env b.image

      failure : Outcome (List Container)
      failure = raised decryption_fault

      started : Result (List (String × String)) → Exec (World R) (Outcome (List Container))
      started r = elim r [ err e ↦ pure failure | ok env ↦ call (run env) ]

  finish_deploy-IsApart :
      (b : Agent) (o : Outcome (List Container))
      → b.id ≡ id
      → b.user_id ≡ user_id
      → Keeps Apart (finish_deploy p b o)
  unfolding finish_deploy
  finish_deploy-IsApart b (raised f) e mine =
      save-then-IsApart (record b { status = failed; error = some (message f) })
        (λ _. raise (deployment_failed b.id (message f))) e mine (Keeps-raise _)
  finish_deploy-IsApart b (returned cs) e mine = save-IsApart _ e mine

  start-IsApart : (b : Agent) → b.id ≡ id → b.user_id ≡ user_id → Keeps Apart (start p b)
  unfolding start
  start-IsApart b e mine =
      Keeps-bind (start_containers p b) (finish_deploy p b) (start_containers-IsApart b)
        (λ o. finish_deploy-IsApart b o e mine)

  launch-IsApart : (b : Agent) → b.id ≡ id → b.user_id ≡ user_id → Keeps Apart (launch p b)
  unfolding launch
  launch-IsApart b e mine =
      Keeps-guard (is_none b.image && not (is_none b.build_path)) build_not_supported _ (
        save-then-IsApart (record b { status = starting }) (start p) e mine
          (start-IsApart (record b { status = starting }) e mine))

  pub configure-launch-IsApart :
      (nonce : ℕ) (deploy : Option DeployConfig) (b : Agent)
      → b.id ≡ id
      → b.user_id ≡ user_id
      → Keeps Apart (configure p nonce deploy b >>= launch p)
  unfolding configure
  configure-launch-IsApart nonce none b e mine = launch-IsApart b e mine
  configure-launch-IsApart nonce (some d) b e mine =
      save-then-IsApart (apply_deploy_config p.cipher nonce d b) (launch p)
        (applied-id p.cipher nonce d b ∙ e) (applied-user p.cipher nonce d b ∙ mine)
        (launch-IsApart _ (applied-id p.cipher nonce d b ∙ e)
          (applied-user p.cipher nonce d b ∙ mine))
