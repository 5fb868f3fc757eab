-- ===== src/Tests/Routes.antt =====
-- The handlers of routers/agents.py, run on one account's agent.
use agntspark_gateway.Prelude.{
  ◌≡◌, refl, true, false, some, none, [], ◌∷◌, ◌++◌, string_dec, ℕ_discrete, string_eq, nat_eq,
  text_eq,
}
use agntspark_gateway.Prelude.Characters.{codes}
use agntspark_gateway.Errors.{unhandled, authentication}
use agntspark_gateway.Exec.{ok, err}
use agntspark_gateway.External.{Health}
use agntspark_gateway.Models.{Agent, private}
use agntspark_gateway.Roles.{operator, role_eq}
use agntspark_gateway.Schemas.{AgentConfigIn, deploy_valid, env_valid}
use agntspark_gateway.AgentConfig.{
  apply_deploy_config, env_to_storage, kept_entries, env_from_storage_masked,
}
use agntspark_gateway.AccessKeys.{create_access_key}
use agntspark_gateway.World.{World}
use agntspark_gateway.Quota.{ensure_can_create_agent}
use agntspark_gateway.Access.{Principal, Decode, jwt, require_role}
use agntspark_gateway.Agents.{Fresh, blank_agent, create_agent}
use agntspark_gateway.Agents.Requests.{Spares}
use agntspark_gateway.Agents.Responses.{AgentResponse, response_with, to_agent_response, responses}
use agntspark_gateway.Agents.Responses.Shown.{
  hidden, to_agent_response-apply, to_agent_response-stopped,
}
use agntspark_gateway.Agents.Telemetry.{Cases, get_metrics}
use agntspark_gateway.Agents.Telemetry.Bounds.{IsMetrics, get_metrics-IsMetrics}
use agntspark_gateway.Scheduler.{observed}
use agntspark_gateway.Routes.Agents.{NewKey, create_agent_route}
use agntspark_gateway.Routes.Agents.Callers.{serve, remove_agent, serve-refused, serve-Spares}
use agntspark_gateway.Routes.Agents.FirstKey.{IsReachable, create_agent_route-IsReachable}
use agntspark_gateway.Tests.{Fleet, platform, cipher, bot, world, ascii}
use agntspark_gateway.Tests.Agents.{huge}
use agntspark_gateway.Tests.Ingress.{settings}

-- a session's token verifies, and names account 1
abbrev decode : Decode
decode token = some (some 1)

abbrev ann_logged_in : Principal
ann_logged_in = record {
  user_id = 1;
  email = "ann@example.com";
  role = operator;
  auth_method = jwt;
  api_key_id = none;
}

let_in :
    require_role platform settings decode 7 operator false world.db (some (codes "ey"))
    ≡ ok ann_logged_in
unfolding require_role nat_eq ℕ_discrete
let_in = refl

serve-Spares_example :
    Spares 1 world.db.agents
      (serve platform settings decode 7 (some (codes "ey")) (remove_agent "agt_1") world).db.agents
serve-Spares_example =
    serve-Spares platform settings decode 7 (some (codes "ey")) ann_logged_in (remove_agent "agt_1")
      world let_in (tt, tt)

turned_away :
    require_role platform settings decode 7 operator false world.db none ≡ err authentication
unfolding require_role
turned_away = refl

serve-refused_example : serve platform settings decode 7 none (remove_agent "agt_1") world ≡ world
serve-refused_example =
    serve-refused platform settings decode 7 none authentication (remove_agent "agt_1") world
      turned_away

abbrev stopped_health : Health
stopped_health = record { containers = some []; healthy = some false; consecutive_failures = none }

to_agent_response-stopped_example :
    (to_agent_response none (observed stopped_health bot) ≡ err unhandled)
    × (responses none (bot ∷ observed stopped_health bot ∷ []) ≡ err unhandled)
to_agent_response-stopped_example =
    to_agent_response-stopped none bot stopped_health refl (bot ∷ []) []

huge_valid : deploy_valid huge ≡ true
unfolding deploy_valid
huge_valid = refl

bot_env_valid : env_valid (env_from_storage_masked bot.env) ≡ true
unfolding env_valid env_from_storage_masked
bot_env_valid = refl

to_agent_response-apply_example :
    let b = apply_deploy_config cipher 0 huge bot in
    let kept = kept_entries (env_to_storage cipher 0 huge.env) bot.env in
    to_agent_response none b
    ≡ ok (
        response_with none b
          (some (record huge { env = hidden huge.env ++ env_from_storage_masked kept })))
to_agent_response-apply_example =
    to_agent_response-apply none cipher 0 huge bot huge_valid bot_env_valid (λ e. cc)

abbrev cases : Cases
cases = record { lower_table = ascii; upper_table = ascii }

get_metrics-IsMetrics_example :
    IsMetrics platform 1 "agt_1" world (get_metrics platform 1 "agt_1" 7 world)
get_metrics-IsMetrics_example = get_metrics-IsMetrics platform 1 "agt_1" world 7

abbrev config : AgentConfigIn
config = record {
  name = codes "Bot";
  runtime = "python3.12";
  framework = "custom";
  model = "gpt-4o";
  api_key = none;
  system_prompt = none;
  deploy = none;
  access = private;
  tags = [];
  metadata = [];
}

abbrev fresh : Fresh
fresh = record {
  agent_id = "agt_2";
  draws = λ i. i;
  nonce = 0;
  key_nonce = 1;
  now = 7;
  lower_table = ascii;
}

abbrev new_key : NewKey
new_key = record { id = 1; token = codes "one" }

-- ann may have a second agent
abbrev roomy : World Fleet
roomy = record world {
  db = record world.db { agents = [] };
  stored = record world.stored { agents = [] };
}

abbrev made : Agent
made = blank_agent fresh 1 config

abbrev made_response : AgentResponse
made_response = record (response_with settings.agent_base_domain made none) {
  access_key = some (codes "agk_one");
}

created :
    create_agent_route platform settings decode 7 (some (codes "ey")) fresh new_key config roomy ≡ (
      ok made_response,
      (create_agent_route platform settings decode 7
          (some (codes "ey"))
          fresh
          new_key
          config
          roomy).1,
    )
unfolding agntspark_gateway.Schemas.Bodies.agent_config_valid create_agent_route create_agent nat_eq
    ℕ_discrete string_eq string_dec text_eq require_role to_agent_response create_access_key
    ensure_can_create_agent
created = refl

create_agent_route-IsReachable_example :
    IsReachable platform settings decode 7 made_response
      (create_agent_route platform settings decode 7
        (some (codes "ey"))
        fresh
        new_key
        config
        roomy).1
create_agent_route-IsReachable_example =
    create_agent_route-IsReachable platform settings decode 7 (some (codes "ey")) fresh new_key
      config roomy _ made_response created
