-- ===== src/External.antt =====
-- What the gateway calls and does not implement: the container runtime of agntspark_core, the
-- Fernet cipher, hashes, and the model providers of agntspark_core. Each is a record of functions;
-- what the code relies on is stated beside it, as a hypothesis of the theorems that use it.
use agntspark_gateway.Prelude.{ℕ, String, ◌≡◌, Bool, true, Option, some, List, length}
use agntspark_gateway.Models.{Text}

-- `str(exc)` of an exception that the runtime raised, by the classes that the gateway tells apart
pub data Fault : Type 0 where
  scaling_error container_not_found other_fault : String → Fault

pub data Outcome (A : Type 0) : Type 0 where
  returned : A → Outcome A
  raised : Fault → Outcome A

-- A container of a health check: percents and megabytes are in millionths, and a key may be missing.
pub record Container : Type 0 where
  pub ip_address : Text
  pub cpu_percent : Option ℕ
  pub memory_mb : Option ℕ

pub record LogEntry : Type 0 where
  pub replica_id : String
  pub timestamp : ℕ
  pub message : Text

-- The dict of `health_check`; a key may be missing.
pub record Health : Type 0 where
  pub containers : Option (List Container)
  pub healthy : Option Bool
  pub consecutive_failures : Option ℕ

-- agntspark_core.config.LLMProvider, with the members that the gateway names
pub data Provider : Type 0 where
  openai anthropic google : Provider
  other_provider : String → Provider

-- The `AgentConfig` that runtime.py builds; amounts stand for their texts.
pub record CoreConfig : Type 0 where
  pub name : Text
  pub agent_id : String
  pub system_prompt : String
  pub provider : Provider
  pub model : String
  pub cpu : ℕ
  pub memory_mb : ℕ

pub data ScaleDirection : Type 0 where
  up down : ScaleDirection

-- agntspark_core.runtime.AgentRuntime over its own state
pub record AgentRuntime (R : Type 0) : Type 0 where
  pub deploy :
      CoreConfig → ℕ → List (String × String) → Option String → R → Outcome (List Container) × R
  pub remove : String → R → Outcome (List String) × R
  pub health_check : String → R → Outcome Health × R
  pub scale : String → ScaleDirection → ℕ → R → Outcome (Unit {0}) × R
  pub auto_scale : String → R → Outcome (Unit {0}) × R
  pub get_containers : String → R → List Container
  pub get_logs : String → Option String → ℕ → R → Outcome (List LogEntry) × R
  pub reconcile : R → Outcome ℕ × R
  -- `LLMProvider.for_model`
  pub for_model : String → Provider

-- `deploy` starts as many replicas as it is asked for.
pub record StartsReplicas {R : Type 0} (rt : AgentRuntime R) : Type 0 where
  pub count :
      (config : CoreConfig) (replicas : ℕ) (env : List (String × String)) (image : Option String)
      (r : R) (containers : List Container)
      → (rt.deploy config replicas env image r).0 ≡ returned containers
      → length containers ≡ replicas

-- cryptography.fernet: an encryption takes a nonce; a token that does not decrypt is `none`.
pub record Cipher : Type 0 where
  pub encrypt : ℕ → String → String
  pub decrypt : String → Option String

pub record IsCipher (c : Cipher) : Type 0 where
  pub decrypt-encrypt : (nonce : ℕ) (v : String) → c.decrypt (c.encrypt nonce v) ≡ some v

-- `hashlib.sha256(...).hexdigest()`, and bcrypt with its salt
pub record Hashes : Type 0 where
  pub sha256 : Text → String
  pub hash_password : ℕ → String → String
  pub verify_password : String → String → Bool

-- A password verifies against its own hash.
pub record IsHashes (h : Hashes) : Type 0 where
  pub verify_password-hash_password :
      (salt : ℕ) (password : String)
      → h.verify_password password (h.hash_password salt password) ≡ true
