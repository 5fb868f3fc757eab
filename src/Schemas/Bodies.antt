-- ===== src/Schemas/Bodies.antt =====
-- schemas/: what pydantic asks of the body of a request. Whether a text is an email address is a
-- parameter.
use agntspark_gateway.Prelude.{
  ℕ, String, Bool, true, Option, none, some, List, [], ◌∷◌, leb, ◌&&◌, length,
}
use agntspark_gateway.Prelude.Characters.{codes}
use agntspark_gateway.Models.{Text}
use agntspark_gateway.Schemas.{AgentConfigIn, AgentUpdate, DeployConfig, deploy_valid}

-- `Field(min_length=..., max_length=...)` and `Field(ge=..., le=...)`
abbrev within : ℕ → ℕ → ℕ → Bool
within lo hi n = leb lo n && leb n hi

abbrev size : String → ℕ
size s = length (codes s)

abbrev when_given {ℓ} : {A : Type ℓ} → (A → Bool) → Option A → Bool
when_given test none = true
when_given test (some a) = test a

-- `AgentConfigIn._validate_tags`
unfoldable pub tags_valid : List String → Bool
tags_valid [] = true
tags_valid (tag ∷ tags) = leb (size tag) 64 && tags_valid tags

-- `DeployConfig | None`
abbrev pub optional_deploy_valid : Option DeployConfig → Bool
optional_deploy_valid = when_given deploy_valid

unfoldable pub agent_config_valid : AgentConfigIn → Bool
unfolding tags_valid
agent_config_valid body =
    within 1 128 (length body.name)
    && when_given (λ prompt. leb (size prompt) 32_000) body.system_prompt
    && optional_deploy_valid body.deploy
    && tags_valid body.tags

-- `AgentUpdate`, whose `rate_limit_rpm` may be null
unfoldable pub agent_update_valid : AgentUpdate → Bool
agent_update_valid body = when_given (when_given (within 1 100_000)) body.rate_limit_rpm

-- `AccessKeyCreate | None`
unfoldable pub access_key_valid : Option String → Bool
access_key_valid = when_given (λ label. within 1 128 (size label))

-- `ScaleRequest`: its count
unfoldable pub scale_valid : ℕ → Bool
scale_valid count = within 1 50 count

-- `ApiKeyCreateRequest`
unfoldable pub api_key_valid : String → Bool
api_key_valid label = within 1 128 (size label)

-- `InviteCreateRequest`
unfoldable pub invite_valid : Text → ℕ → Option ℕ → Bool
invite_valid note max_uses expires_in_days =
    leb (length note) 255 && within 1 1000 max_uses && when_given (within 1 365) expires_in_days

-- `RegisterRequest`
unfoldable pub register_valid : (String → Bool) → String → String → String → Option Text → Bool
register_valid is_email email password name invite_code =
    is_email email
    && within 8 72 (size password)
    && within 1 255 (size name)
    && when_given (λ code. leb (length code) 128) invite_code

-- `LoginRequest`
unfoldable pub login_valid : (String → Bool) → String → String → Bool
login_valid is_email email password = is_email email && within 1 72 (size password)
