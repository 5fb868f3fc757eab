-- ===== src/Tests.antt =====
-- Small instances that the tests share: a runtime that counts replicas, a cipher, a role table, and
-- a database with one account and one agent.
mod Ingress
mod Quota
mod Agents
mod Limits
mod Accounts
mod Operations
mod Routes
mod Pages
mod Services
mod Sessions
use agntspark_gateway.Prelude.{
  ℕ, zero, suc, String, Bool, true, false, Option, none, some, List, [], ◌∷◌, refl, insert, lookup,
  length, ◌==◌, if◌then◌else◌, string_eq, nat_eq, text_eq, ◌≡◌, ap, subst,
}
use agntspark_gateway.Prelude.Characters.{codes}
use agntspark_gateway.Models.{
  Text, User, Agent, AgentStatus, everyone, running, Database, AgentAccessKey, empty_database,
}
use agntspark_gateway.External.{
  AgentRuntime, Cipher, IsCipher, Hashes, Container, Outcome, returned, StartsReplicas, openai,
  Provider,
}
use agntspark_gateway.Roles.{Role, viewer, operator, admin, RoleTable, role_eq}
use agntspark_gateway.Limiter.{new_limiter}
use agntspark_gateway.World.{World, Platform}

abbrev pub Fleet : Type 0
Fleet = List (String × ℕ)

abbrev pub replica : Container
replica = record {
  ip_address = codes "10.0.0.1";
  cpu_percent = some 12_500_000;
  memory_mb = some 200_000_000;
}

abbrev pub copies : ℕ → List Container
copies zero = []
copies (suc n) = replica ∷ copies n

abbrev pub live : String → Fleet → List Container
live id fleet = elim (lookup id fleet) [ none ↦ [] | some n ↦ copies n ]

abbrev pub engine : AgentRuntime Fleet
engine = record {
  deploy = λ config replicas env image fleet.
      (returned (copies replicas), insert config.agent_id replicas fleet);
  remove = λ id fleet. (returned [], insert id 0 fleet);
  health_check = λ id fleet. (
    returned (record {
      containers = some (live id fleet);
      healthy = some true;
      consecutive_failures = none;
    }),
    fleet,
  );
  scale = λ id direction count fleet. (returned tt, fleet);
  auto_scale = λ id fleet. (returned tt, fleet);
  get_containers = λ id fleet. live id fleet;
  get_logs = λ id replica_id tail fleet. (returned [], fleet);
  reconcile = λ fleet. (returned (length fleet), fleet);
  for_model = λ model. openai;
}

length-copies : (n : ℕ) → length (copies n) ≡ n
length-copies zero = refl
length-copies (suc n) = ap suc (length-copies n)

pub returned_eq : {A : Type 0} (x y : A) → returned x ≡ returned y → x ≡ y
returned_eq x y e = cc

pub engine-StartsReplicas : StartsReplicas engine
engine-StartsReplicas = record {
  count = λ config n env image r cs e.
      subst (λ x. length x ≡ n) (returned_eq (copies n) cs e) (length-copies n);
}

abbrev pub cipher : Cipher
cipher = record { encrypt = λ nonce v. v; decrypt = λ v. some v }

pub cipher-IsCipher : IsCipher cipher
cipher-IsCipher = record { decrypt-encrypt = λ nonce v. refl }

abbrev pub hashes : Hashes
hashes = record {
  sha256 = λ t. if t == codes "agk_one" then "digest one" else "digest";
  hash_password = λ salt password. password;
  verify_password = λ password hash. password == hash;
}

abbrev value_of : Role → ℕ
value_of viewer = 10
value_of operator = 20
value_of admin = 30

abbrev role_of : ℕ → Option Role
role_of n =
    if n == 10
    then some viewer
    else if n == 20
    then some operator
    else if n == 30
    then some admin
    else none

abbrev may : Role → Role → Bool
may admin r = true
may operator admin = false
may operator r = true
may viewer viewer = true
may viewer r = false

abbrev pub roles : RoleTable
roles = record { value = value_of; of_value = role_of; can = may }

abbrev pub platform : Platform Fleet
platform = record { roles = roles; engine = engine; cipher = cipher; hashes = hashes }

abbrev pub ann : User
ann = record {
  id = 1;
  email = "ann@example.com";
  password_hash = "secret password";
  name = "Ann";
  role = 20;
  plan = "free";
  stripe_customer_id = none;
  stripe_subscription_id = none;
  subscription_status = none;
  is_active = true;
  created_at = 0;
}

abbrev pub bot : Agent
bot = record {
  id = "agt_1";
  user_id = 1;
  slug = codes "bot-abc123";
  name = codes "Bot";
  runtime = "python";
  framework = "none";
  model = "gpt-4o";
  system_prompt = none;
  tags = [];
  metadata = [];
  status = running;
  error = none;
  version = 1;
  access = everyone;
  rate_limit_rpm = none;
  replicas = 1;
  cpu = 500_000;
  memory_mb = 256;
  gpu = 0;
  gpu_type = none;
  disk_gb = 10;
  ephemeral_storage_gb = 5;
  env = [];
  image = none;
  build_path = none;
  command = none;
  args = [];
  health_check_path = none;
  auto_scale = false;
  min_replicas = 1;
  max_replicas = 10;
  port = 8080;
  created_at = 0;
}

abbrev pub one_agent : Database
one_agent = record empty_database { users = ann ∷ []; agents = bot ∷ [] }

abbrev pub world : World Fleet
world = record {
  db = one_agent;
  stored = one_agent;
  runtime = ("agt_1", 1) ∷ [];
  pending = [];
  per_client = new_limiter 60;
  per_agent = new_limiter 60;
}

abbrev pub ascii : ℕ → Text
ascii c = c ∷ []
