-- ===== src/Schemas.antt =====
-- schemas/agents.py: request bodies, and the ranges that their validation admits. `runtime` keeps
-- its text. A field that the caller did not send is told from an explicit null where the code asks.
pub mod Bodies
use agntspark_gateway.Prelude.{ℕ, String, Bool, true, Option, List, [], ◌∷◌, leb, ◌&&◌, length}
use agntspark_gateway.Prelude.Characters.{codes}
use agntspark_gateway.Models.{Text, AgentAccess}

pub record ResourceLimits : Type 0 where
  pub cpu : ℕ
  pub memory_mb : ℕ
  pub gpu : ℕ
  pub gpu_type : Option String
  pub disk_gb : ℕ
  pub ephemeral_storage_gb : ℕ

pub record EnvVar : Type 0 where
  pub key : String
  pub value : String
  pub secret : Bool

pub record DeployConfig : Type 0 where
  pub replicas : ℕ
  pub resources : ResourceLimits
  pub env : List EnvVar
  pub image : Option String
  pub build_path : Option String
  pub command : Option String
  pub args : List String
  pub health_check_path : Option String
  pub auto_scale : Bool
  pub min_replicas : ℕ
  pub max_replicas : ℕ
  pub port : ℕ

pub record AgentConfigIn : Type 0 where
  pub name : Text
  pub runtime : String
  pub framework : String
  pub model : String
  pub api_key : Option String
  pub system_prompt : Option String
  pub deploy : Option DeployConfig
  pub access : AgentAccess
  pub tags : List String
  pub metadata : List (String × String)

-- `rate_limit_rpm` is `none` where the field is not in `model_fields_set`.
pub record AgentUpdate : Type 0 where
  pub access : Option AgentAccess
  pub rate_limit_rpm : Option (Option ℕ)

abbrev in_range : ℕ → ℕ → ℕ → Bool
in_range lo hi x = leb lo x && leb x hi

unfoldable pub resources_valid : ResourceLimits → Bool
resources_valid r =
    in_range 100_000 64_000_000 r.cpu
    && in_range 128 65536 r.memory_mb
    && in_range 0 8 r.gpu
    && in_range 1 1000 r.disk_gb
    && in_range 1 500 r.ephemeral_storage_gb

-- the lengths of an `EnvVar`
unfoldable pub env_var_valid : EnvVar → Bool
env_var_valid e = in_range 1 256 (length (codes e.key)) && leb (length (codes e.value)) 4096

unfoldable pub env_valid : List EnvVar → Bool
unfolding env_var_valid
env_valid [] = true
env_valid (e ∷ env) = env_var_valid e && env_valid env

-- the ranges of `DeployConfig`, and `_max_ge_min`
unfoldable pub deploy_valid : DeployConfig → Bool
unfolding resources_valid env_valid
deploy_valid d =
    in_range 1 100 d.replicas
    && resources_valid d.resources
    && env_valid d.env
    && in_range 1 100 d.min_replicas
    && in_range 1 100 d.max_replicas
    && leb d.min_replicas d.max_replicas
    && in_range 1 65535 d.port
