-- ===== src/Agents/Responses/Shown.antt =====
-- What a response shows of a deployment, and the agents that no response can show.
use agntspark_gateway.Prelude.{
  ℕ, suc, ◌≡◌, refl, sym, ap, subst, String, Bool, true, false, Option, none, some, List, [], ◌∷◌,
  ◌++◌, length, select, leb, arith, Bool-cases, inl, inr, ◌⊎◌, if◌then◌else◌, string_eq, nat_eq,
  ◌≢◌,
}
use agntspark_gateway.Prelude.Characters.{codes}
use agntspark_gateway.Errors.{unhandled}
use agntspark_gateway.Exec.{ok, err}
use agntspark_gateway.External.{Cipher, Health}
use agntspark_gateway.Models.{Agent, EnvEntry, Text, pending, status_eq}
use agntspark_gateway.Schemas.{EnvVar, DeployConfig, env_var_valid, env_valid, deploy_valid}
use agntspark_gateway.AgentConfig.{
  env_to_storage, env_from_storage_masked, apply_deploy_config, kept_entries, deploy_fields,
  deploy_config_from_agent,
}
use agntspark_gateway.Scheduler.{live_replicas, new_status, observed}
use agntspark_gateway.Agents.Responses.{
  AgentResponse, has_deploy_config, response_with, to_agent_response, responses,
}

-- an environment as a response shows it
unfoldable pub hidden : List EnvVar → List EnvVar
hidden [] = []
hidden (e ∷ env) = record e { value = if e.secret then "***" else e.value } ∷ hidden env

masked-to_storage :
    (cipher : Cipher) (n : ℕ) (env : List EnvVar) (old : List EnvEntry)
    → env_from_storage_masked (env_to_storage cipher n env ++ old)
      ≡ hidden env ++ env_from_storage_masked old
unfolding env_from_storage_masked env_to_storage hidden
masked-to_storage cipher n [] old = refl
masked-to_storage cipher n (e ∷ env) old = ground (arith, masked-to_storage cipher (suc n) env old)

hidden_fits :
    (secret : Bool) (v : String)
    → leb (length (codes v)) 4096 ≡ true
    → leb (length (codes (if secret then "***" else v))) 4096 ≡ true
hidden_fits true v h = refl
hidden_fits false v h = h

valid-hidden : (env : List EnvVar) → env_valid env ≡ true → env_valid (hidden env) ≡ true
unfolding env_valid env_var_valid hidden
valid-hidden [] h = refl
valid-hidden (e ∷ env) h = ground (arith, valid-hidden env, hidden_fits e.secret e.value)

valid-append :
    (env env' : List EnvVar)
    → env_valid env ≡ true
    → env_valid env' ≡ true
    → env_valid (env ++ env') ≡ true
unfolding env_valid
valid-append [] env' h h' = h'
valid-append (e ∷ env) env' h h' = ground (arith, valid-append env env')

valid-select :
    (p : EnvEntry → Bool) (old : List EnvEntry)
    → env_valid (env_from_storage_masked old) ≡ true
    → env_valid (env_from_storage_masked (select p old)) ≡ true
unfolding env_valid env_from_storage_masked
valid-select p [] h = refl
valid-select p (e ∷ old) h = ground (arith, valid-select p old)

env_of_valid : (d : DeployConfig) → deploy_valid d ≡ true → env_valid d.env ≡ true
unfolding deploy_valid
env_of_valid d valid = ground arith

with_env :
    (d : DeployConfig) (env : List EnvVar)
    → deploy_valid d ≡ true
    → env_valid env ≡ true
    → deploy_valid (record d { env = env }) ≡ true
unfolding deploy_valid
with_env d env valid env_ok = ground (arith, valid, env_ok)

response_ok :
    (base : Option Text) (b : Agent) (d : DeployConfig)
    → has_deploy_config b ≡ true
    → deploy_fields b ≡ d
    → deploy_valid d ≡ true
    → to_agent_response base b ≡ ok (response_with base b (some d))
unfolding to_agent_response deploy_config_from_agent
response_ok base b d configured fields valid =
    let fits : deploy_valid (deploy_fields b) ≡ true =
      subst (λ x. deploy_valid x ≡ true) (sym fields) valid in
    rw configured (rw fits (rw fields refl))

no_replicas :
    (base : Option Text) (b : Agent)
    → has_deploy_config b ≡ true
    → b.replicas ≡ 0
    → to_agent_response base b ≡ err unhandled
unfolding to_agent_response deploy_config_from_agent deploy_fields deploy_valid
no_replicas base b configured none_left = rw configured (rw none_left refl)

has_deploy_config_lem : (a : Agent) → a.status ≢ pending → has_deploy_config a ≡ true
unfolding has_deploy_config status_eq
has_deploy_config_lem a n = ground arith

pub to_agent_response-apply :
    (base : Option Text) (cipher : Cipher) (n : ℕ) (d : DeployConfig) (a : Agent)
    → deploy_valid d ≡ true
    → env_valid (env_from_storage_masked a.env) ≡ true
    → a.status ≢ pending
    → let b = apply_deploy_config cipher n d a in
      let kept = kept_entries (env_to_storage cipher n d.env) a.env in
      to_agent_response base b
      ≡ ok (
          response_with base b
            (some (record d { env = hidden d.env ++ env_from_storage_masked kept })))
unfolding deploy_fields kept_entries apply_deploy_config
to_agent_response-apply base cipher n d a valid old shown =
    let new_env = env_to_storage cipher n d.env in
    let kept = kept_entries new_env a.env in
    let shows : env_from_storage_masked (new_env ++ kept)
        ≡ hidden d.env ++ env_from_storage_masked kept =
      masked-to_storage cipher n d.env kept in
    let env_ok : env_valid (hidden d.env ++ env_from_storage_masked kept) ≡ true =
      valid-append (hidden d.env) (env_from_storage_masked kept)
        (valid-hidden d.env (env_of_valid d valid)) (valid-select _ a.env old) in
    let fields : deploy_fields (apply_deploy_config cipher n d a)
        ≡ record d { env = hidden d.env ++ env_from_storage_masked kept } =
      ap (λ e. record d { env = e }) shows in
    let configured : has_deploy_config (apply_deploy_config cipher n d a) ≡ true =
      has_deploy_config_lem (apply_deploy_config cipher n d a) shown in
    response_ok base (apply_deploy_config cipher n d a) _ configured fields
      (with_env d _ valid env_ok)

to_agent_response_raises :
    (base : Option Text) (x : Agent)
    → ((r : AgentResponse) × (to_agent_response base x ≡ ok r))
      ⊎ (to_agent_response base x ≡ err unhandled)
unfolding to_agent_response deploy_config_from_agent
to_agent_response_raises base x = elim (Bool-cases (has_deploy_config x)) [
  | inl deployed ↦ elim (Bool-cases (deploy_valid (deploy_fields x))) [
    | inl valid ↦ inl (response_with base x (some (deploy_fields x)), rw deployed (rw valid refl))
    | inr invalid ↦ inr (rw deployed (rw invalid refl))
  ]
  | inr bare ↦ inl (response_with base x none, rw bare refl)
]

-- a list raises what one of its agents raises
responses_raise :
    (base : Option Text) (x : Agent) (xs ys : List Agent)
    → to_agent_response base x ≡ err unhandled
    → responses base (xs ++ x ∷ ys) ≡ err unhandled
unfolding responses
responses_raise base x [] ys raises = rw raises refl
responses_raise base x (a ∷ xs) ys raises = elim (to_agent_response_raises base a) [
  | inl (r, e) ↦ rw e (rw (responses_raise base x xs ys raises) refl)
  | inr e ↦ rw e refl
]

module _ (base : Option Text) (a : Agent) (h : Health) where
  stopped_now : live_replicas h ≡ 0 → new_status h a.status ≢ pending
  unfolding new_status status_eq
  stopped_now gone = ground arith

  unshown : live_replicas h ≡ 0 → to_agent_response base (observed h a) ≡ err unhandled
  unshown gone =
      no_replicas base (observed h a) (has_deploy_config_lem (observed h a) (stopped_now gone)) gone

  pub to_agent_response-stopped :
      live_replicas h ≡ 0
      → (xs ys : List Agent)
      → (to_agent_response base (observed h a) ≡ err unhandled)
        × (responses base (xs ++ observed h a ∷ ys) ≡ err unhandled)
  to_agent_response-stopped gone xs ys =
      (unshown gone, responses_raise base (observed h a) xs ys (unshown gone))
