-- ===== src/Tests/Agents.antt =====
-- Requests on one account's agents, run on a runtime that counts replicas.
use agntspark_gateway.Prelude.{
  ◌≡◌, refl, some, none, false, [], find, ◌==◌, ◌&&◌, string_eq, string_dec, nat_eq, ℕ_discrete,
  arith,
}
use agntspark_gateway.Errors.{build_not_supported, quota_exceeded, replicas}
use agntspark_gateway.Exec.{ok, err}
use agntspark_gateway.External.{raised, other_fault}
use agntspark_gateway.Models.{Agent, running}
use agntspark_gateway.Plans.{limits_for}
use agntspark_gateway.Quota.{whole, active, ensure_resources, is_active_status}
use agntspark_gateway.Quota.Resources.{IsWithin}
use agntspark_gateway.Schemas.{DeployConfig}
use agntspark_gateway.AgentConfig.{env_for_container, apply_deploy_config}
use agntspark_gateway.World.{Platform}
use agntspark_gateway.Agents.{asked_shape, deploy_agent, start_containers, save}
use agntspark_gateway.Agents.Deploy.{deploy_agent-IsWithin, configured}
use agntspark_gateway.Agents.Running.{deploy_agent-ok, IsRunning, deployed}
use agntspark_gateway.Agents.Failures.{deploy_agent-build}
use agntspark_gateway.Tests.{
  Fleet, platform, engine, engine-StartsReplicas, roles, cipher, ann, bot, world, copies,
}
use agntspark_gateway.Tests.Quota.{ann-IsHeldTo}

world-IsWithin : IsWithin (limits_for ann.plan) 1 world.db.agents
unfolding active is_active_status limits_for nat_eq ℕ_discrete string_eq
world-IsWithin = record { replicas = omega arith; vcpu = omega arith; memory = omega arith }

deploy_agent-IsWithin_example :
    IsWithin (limits_for ann.plan) 1 (deploy_agent platform 0 1 "agt_1" none world).1.db.agents
deploy_agent-IsWithin_example =
    deploy_agent-IsWithin platform engine-StartsReplicas 0 1 "agt_1" none world ann ann-IsHeldTo
      (tt, tt) world-IsWithin

abbrev redeployed_bot : Agent
redeployed_bot = deployed platform bot (copies 1)

redeployed : (deploy_agent platform 0 1 "agt_1" none world).0 ≡ ok redeployed_bot
unfolding deploy_agent ensure_resources env_for_container start_containers nat_eq ℕ_discrete
    string_eq string_dec
redeployed = refl

deploy_agent-ok_example :
    (b : Agent) × (find (λ x. x.id == "agt_1" && x.user_id == 1) world.db.agents ≡ some b)
    × (ensure_resources roles world.db 1 (some b.id) (asked_shape none b) ≡ ok tt)
    × IsRunning platform
        (configured cipher 0 none b)
        redeployed_bot
        world.db.agents
        (deploy_agent platform 0 1 "agt_1" none world).1
deploy_agent-ok_example = deploy_agent-ok platform 0 1 "agt_1" none world redeployed_bot redeployed

abbrev pub huge : DeployConfig
huge = record {
  replicas = 4;
  resources = record {
    cpu = 500_000;
    memory_mb = 256;
    gpu = 0;
    gpu_type = none;
    disk_gb = 10;
    ephemeral_storage_gb = 5;
  };
  env = [];
  image = none;
  build_path = none;
  command = none;
  args = [];
  health_check_path = none;
  auto_scale = false;
  min_replicas = 1;
  max_replicas = 10;
  port = 8080;
}

bot_found : find (λ x. x.id == "agt_1" && x.user_id == 1) world.db.agents ≡ some bot
unfolding nat_eq ℕ_discrete string_eq string_dec
bot_found = refl

huge_refused :
    ensure_resources roles world.db 1 (some "agt_1") (asked_shape (some huge) bot)
    ≡ err (quota_exceeded replicas "free" (whole 3) (some (whole 0)) (whole 4))
unfolding ensure_resources nat_eq ℕ_discrete string_eq string_dec
huge_refused = refl

abbrev build : DeployConfig
build = record huge { replicas = 2; build_path = some "./bot" }

build_fits : ensure_resources roles world.db 1 (some "agt_1") (asked_shape (some build) bot) ≡ ok tt
unfolding ensure_resources nat_eq ℕ_discrete string_eq string_dec
build_fits = refl

deploy_agent-build_example :
    let b = apply_deploy_config cipher 0 build bot in
    (deploy_agent platform 0 1 "agt_1" (some build) world
      ≡ (err build_not_supported, (save platform b world).1))
    × (b.status ≡ running)
    × (b.cpu ≡ 500_000)
    × (b.replicas ≡ 2)
deploy_agent-build_example =
    deploy_agent-build platform 1 "agt_1" world bot bot_found 0 build build_fits refl refl

-- a runtime that starts nothing
abbrev broken : Platform Fleet
broken = record platform {
  engine = record engine {
    deploy = λ config n env image fleet. (raised (other_fault "no host"), fleet);
  };
}

broken_start : start_containers broken bot world ≡ (ok (raised (other_fault "no host")), world)
unfolding start_containers env_for_container
broken_start = refl
