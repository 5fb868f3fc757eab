-- ===== src/AgentConfig.antt =====
-- services/agent_service.py: the environment of an agent and its deployment settings, and
-- `_to_core_config` of runtime.py.
pub mod Env
use agntspark_gateway.Prelude.{
  ℕ, suc, String, Bool, true, false, not, Option, none, some, List, [], ◌∷◌, ◌++◌, map, select,
  contains, insert, ◌==◌, ◌&&◌, if◌then◌else◌, string_eq, is_set,
}
use agntspark_gateway.Errors.{Error, unhandled, secret_decryption}
use agntspark_gateway.Exec.{Result, ok, err, or_raise, and_then}
use agntspark_gateway.External.{
  Cipher, CoreConfig, Provider, openai, anthropic, google, other_provider,
}
use agntspark_gateway.Models.{Agent, EnvEntry, Text}
use agntspark_gateway.Schemas.{EnvVar, DeployConfig, deploy_valid}

-- `_PROVIDER_KEY_ENV`
abbrev pub provider_keys : List String
provider_keys = "OPENAI_API_KEY" ∷ "ANTHROPIC_API_KEY" ∷ "GOOGLE_API_KEY" ∷ []

-- `_PROVIDER_KEY_ENV[provider]`
unfoldable pub provider_key : Provider → Option String
provider_key openai = some "OPENAI_API_KEY"
provider_key anthropic = some "ANTHROPIC_API_KEY"
provider_key google = some "GOOGLE_API_KEY"
provider_key (other_provider _) = none

-- the keys of stored entries
abbrev pub keys : List EnvEntry → List String
keys [] = []
keys (e ∷ env) = e.key ∷ keys env

-- the entries of the stored environment that a redeploy keeps
unfoldable pub kept_entries : List EnvEntry → List EnvEntry → List EnvEntry
kept_entries new_env old =
    select (λ e. contains provider_keys e.key && not (contains (keys new_env) e.key)) old

module _ (cipher : Cipher) where
  -- `_env_to_storage`; each encryption takes a nonce of its own
  unfoldable pub env_to_storage : ℕ → List EnvVar → List EnvEntry
  env_to_storage nonce [] = []
  env_to_storage nonce (e ∷ env) =
      record {
        key = e.key;
        value = if e.secret then cipher.encrypt nonce e.value else e.value;
        secret = e.secret;
      }
      ∷ env_to_storage (suc nonce) env

  -- `decrypt_secret` of security/secrets.py
  unfoldable pub decrypt_secret : String → Result String
  decrypt_secret v = or_raise (cipher.decrypt v) secret_decryption

  -- one round of the loop of `_env_for_container`
  abbrev pub put_plain : EnvEntry → List (String × String) → Result (List (String × String))
  put_plain e plain =
      and_then (if e.secret then decrypt_secret e.value else ok e.value)
        λ value. ok (insert e.key value plain)

  env_loop : List EnvEntry → List (String × String) → Result (List (String × String))
  unfolding decrypt_secret
  env_loop [] plain = ok plain
  env_loop (e ∷ stored) plain = and_then (put_plain e plain) (env_loop stored)

  -- `_env_for_container`
  unfoldable pub env_for_container : List EnvEntry → Result (List (String × String))
  unfolding env_loop
  env_for_container stored = env_loop stored []

  -- `_apply_deploy_config`
  unfoldable pub apply_deploy_config : ℕ → DeployConfig → Agent → Agent
  unfolding env_to_storage kept_entries
  apply_deploy_config nonce deploy agent =
      let new_env = env_to_storage nonce deploy.env in
      record agent {
        replicas = deploy.replicas;
        cpu = deploy.resources.cpu;
        memory_mb = deploy.resources.memory_mb;
        gpu = deploy.resources.gpu;
        gpu_type = deploy.resources.gpu_type;
        disk_gb = deploy.resources.disk_gb;
        ephemeral_storage_gb = deploy.resources.ephemeral_storage_gb;
        env = new_env ++ kept_entries new_env agent.env;
        image = deploy.image;
        build_path = deploy.build_path;
        command = deploy.command;
        args = deploy.args;
        health_check_path = deploy.health_check_path;
        auto_scale = deploy.auto_scale;
        min_replicas = deploy.min_replicas;
        max_replicas = deploy.max_replicas;
        port = deploy.port;
      }

  -- `_with_provider_key`; a provider with no key name is a KeyError
  unfoldable pub with_provider_key :
      (String → Provider) → ℕ → String → String → List EnvEntry → Result (List EnvEntry)
  unfolding provider_key
  with_provider_key for_model nonce model api_key env =
      and_then (or_raise (provider_key (for_model model)) unhandled) λ key_name. ok (
        select (λ e. not (e.key == key_name)) env
        ++ record { key = key_name; value = cipher.encrypt nonce api_key; secret = true } ∷ [])

-- `_env_from_storage_masked`
unfoldable pub env_from_storage_masked : List EnvEntry → List EnvVar
env_from_storage_masked =
    map λ e. record { key = e.key; value = if e.secret then "***" else e.value; secret = e.secret }

-- the arguments of `DeployConfig(...)` in `_deploy_config_from_agent`
unfoldable pub deploy_fields : Agent → DeployConfig
unfolding env_from_storage_masked
deploy_fields agent = record {
  replicas = agent.replicas;
  resources = record {
    cpu = agent.cpu;
    memory_mb = agent.memory_mb;
    gpu = agent.gpu;
    gpu_type = agent.gpu_type;
    disk_gb = agent.disk_gb;
    ephemeral_storage_gb = agent.ephemeral_storage_gb;
  };
  env = env_from_storage_masked agent.env;
  image = agent.image;
  build_path = agent.build_path;
  command = agent.command;
  args = agent.args;
  health_check_path = agent.health_check_path;
  auto_scale = agent.auto_scale;
  min_replicas = agent.min_replicas;
  max_replicas = agent.max_replicas;
  port = agent.port;
}

-- `_deploy_config_from_agent`: a value out of range is a ValidationError
unfoldable pub deploy_config_from_agent : Agent → Result DeployConfig
unfolding deploy_fields deploy_valid
deploy_config_from_agent agent =
    let d = deploy_fields agent in if deploy_valid d then ok d else err unhandled

abbrev or_default : Option String → String
or_default none = ""
or_default (some s) = s

-- `_to_core_config` of runtime.py, with both amounts given
unfoldable pub to_core_config :
    (String → Provider) → String → Text → String → Option String → ℕ → ℕ → CoreConfig
to_core_config for_model agent_id name model system_prompt cpu memory_mb =
    let model' : String = if model == "" then "gpt-4o" else model in
    record {
      name = name;
      agent_id = agent_id;
      system_prompt = or_default system_prompt;
      provider = for_model model';
      model = model';
      cpu = cpu;
      memory_mb = memory_mb;
    }
