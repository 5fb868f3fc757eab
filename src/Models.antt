-- ===== src/Models.antt =====
-- models/: the rows of the tables, and the database that holds them. Ids of users, keys and
-- invites (UUIDs) and instants (in microseconds) are numbers; an amount of vCPU is in millionths.
-- `updated_at`, which the database keeps, and columns that no code reads are left out.
use agntspark_gateway.Prelude.{ℕ, String, Bool, Option, List, [], Eq, modify_where, ◌==◌, string_eq}

abbrev pub Text : Type 0
Text = List ℕ

pub data AgentStatus : Type 0 where
  pending building starting running scaling stopping stopped failed crashed : AgentStatus

pub data AgentAccess : Type 0 where
  everyone private : AgentAccess

status_discrete : Discrete AgentStatus
status_discrete = hlevel

instance unfoldable pub status_eq : Eq AgentStatus
unfolding status_discrete
status_eq = record { dec = status_discrete }

-- models/user.py
pub record User : Type 0 where
  pub id : ℕ
  pub email : String
  pub password_hash : String
  pub name : String
  pub role : ℕ
  pub plan : String
  pub stripe_customer_id : Option String
  pub stripe_subscription_id : Option String
  pub subscription_status : Option String
  pub is_active : Bool
  pub created_at : ℕ

-- an entry of `Agent.env`; a secret's value is its ciphertext
pub record EnvEntry : Type 0 where
  pub key : String
  pub value : String
  pub secret : Bool

-- models/agent.py
pub record Agent : Type 0 where
  pub id : String
  pub user_id : ℕ
  pub slug : Text
  pub name : Text
  pub runtime : String
  pub framework : String
  pub model : String
  pub system_prompt : Option String
  pub tags : List String
  pub metadata : List (String × String)
  pub status : AgentStatus
  pub error : Option String
  pub version : ℕ
  pub access : AgentAccess
  pub rate_limit_rpm : Option ℕ
  pub replicas : ℕ
  pub cpu : ℕ
  pub memory_mb : ℕ
  pub gpu : ℕ
  pub gpu_type : Option String
  pub disk_gb : ℕ
  pub ephemeral_storage_gb : ℕ
  pub env : List EnvEntry
  pub image : Option String
  pub build_path : Option String
  pub command : Option String
  pub args : List String
  pub health_check_path : Option String
  pub auto_scale : Bool
  pub min_replicas : ℕ
  pub max_replicas : ℕ
  pub port : ℕ
  pub created_at : ℕ

-- the row with this agent's id becomes this agent
abbrev pub write : Agent → List Agent → List Agent
write b = modify_where (λ a. a.id == b.id) (λ _. b)

-- models/api_key.py
pub record ApiKey : Type 0 where
  pub id : ℕ
  pub user_id : ℕ
  pub label : String
  pub key_prefix : Text
  pub key_hash : String
  pub scopes : List String
  pub created_at : ℕ
  pub last_used_at : Option ℕ
  pub revoked_at : Option ℕ
  pub expires_at : Option ℕ

-- models/agent_access_key.py
pub record AgentAccessKey : Type 0 where
  pub id : ℕ
  pub agent_id : String
  pub label : String
  pub key_prefix : Text
  pub key_hash : String
  pub created_at : ℕ

-- models/invite.py
pub record Invite : Type 0 where
  pub id : ℕ
  pub code_hash : String
  pub code_prefix : Text
  pub note : Text
  pub created_by : Option ℕ
  pub max_uses : ℕ
  pub use_count : ℕ
  pub expires_at : Option ℕ
  pub revoked_at : Option ℕ
  pub created_at : ℕ

-- models/usage_hour.py: seconds are counted in microseconds
pub record UsageHour : Type 0 where
  pub user_id : ℕ
  pub agent_id : String
  pub hour_start : ℕ
  pub replica_seconds : ℕ
  pub vcpu_seconds : ℕ
  pub memory_mb_seconds : ℕ
  pub requests : ℕ

pub record Database : Type 0 where
  pub users : List User
  pub agents : List Agent
  pub api_keys : List ApiKey
  pub access_keys : List AgentAccessKey
  pub invites : List Invite
  pub usage_hours : List UsageHour

abbrev pub empty_database : Database
empty_database = record {
  users = [];
  agents = [];
  api_keys = [];
  access_keys = [];
  invites = [];
  usage_hours = [];
}
