-- ===== src/Tests/Operations.antt =====
-- Administration, billing, the scheduler and routing, run at small instances.
use agntspark_gateway.Prelude.{
  ℕ, String, ◌≡◌, refl, true, false, Option, none, some, [], ◌∷◌, find, select, All, string_dec,
  ◌==◌, string_eq, nat_eq, text_eq, option_eq,
}
use agntspark_gateway.Prelude.Characters.{codes}
use agntspark_gateway.External.{Health}
use agntspark_gateway.Models.{User, Agent, scaling}
use agntspark_gateway.Quota.{is_active_status}
use agntspark_gateway.World.{World}
use agntspark_gateway.Settings.{GatewaySettings}
use agntspark_gateway.Admin.{AdminUserUpdate}
use agntspark_gateway.Billing.{
  EventObject, handle_event, handle_subscription, subscription_deleted, plan_for_status,
}
use agntspark_gateway.Billing.Plan.{
  PlanFollows, IsOnPaidPlan, handle_event-PlanFollows, handle_subscription-IsOnPaidPlan,
}
use agntspark_gateway.Scheduler.{assign, tick_agents, new_status}
use agntspark_gateway.Scheduler.Statuses.{here, after, IsScalingOrDown, scaling-Reaches}
use agntspark_gateway.Scheduler.Rows.{tick_agents-rows}
use agntspark_gateway.Ingress.{route}
use agntspark_gateway.Ingress.Refusals.{Rests, route-Rests}
use agntspark_gateway.Tests.{Fleet, replica, platform, ann, bot, world}
use agntspark_gateway.Tests.Ingress.{settings, surroundings, headers}

abbrev root : User
root = record ann { role = 30 }

abbrev demotion : AdminUserUpdate
demotion = record { role = some "viewer"; plan = none; is_active = some false }

abbrev uuid : String → Option ℕ
uuid s = some 1

abbrev ended : EventObject
ended = record {
  id = some "sub_old";
  client_reference_id = none;
  customer = none;
  subscription = none;
  mode = none;
  payment_status = none;
  status = none;
  metadata_user_id = some "1";
}

handle_event-PlanFollows_example :
    All PlanFollows (handle_event uuid none subscription_deleted ended world).1.db.users
unfolding plan_for_status
handle_event-PlanFollows_example =
    handle_event-PlanFollows uuid none subscription_deleted ended world (refl, tt)

abbrev paying : World Fleet
paying = record world {
  db = record world.db {
    users =
        record ann {
          plan = "pro";
          stripe_subscription_id = some "sub_new";
          subscription_status = some "active";
        }
        ∷ [];
  };
}

handle_subscription-IsOnPaidPlan_example :
    All (IsOnPaidPlan 1) (handle_subscription uuid subscription_deleted ended paying).1.db.users
unfolding string_eq string_dec option_eq
handle_subscription-IsOnPaidPlan_example =
    handle_subscription-IsOnPaidPlan uuid 1 "sub_new" subscription_deleted ended paying refl refl
      ((λ _. (refl, refl)), tt)

abbrev well : Health
well = record {
  containers = some (replica ∷ []);
  healthy = some true;
  consecutive_failures = some 0;
}

scaling-Reaches_example : IsScalingOrDown (new_status well scaling)
unfolding is_active_status
scaling-Reaches_example = scaling-Reaches (new_status well scaling) (after well here refl)

tick_agents-rows_example :
    (b : Agent) × (find
        (λ x. x.id == "agt_1")
        (tick_agents platform 15 7
          (select (λ x. is_active_status x.status) world.db.agents)
          world).1.db.agents
      ≡ some b)
    × (b ≡ assign b.replicas b.status bot)
    × (is_active_status bot.status ≡ false → b ≡ bot)
unfolding string_eq string_dec
tick_agents-rows_example = tick_agents-rows platform 15 7 world "agt_1" bot (tt, tt) refl

route-Rests_example :
    Rests platform settings surroundings world
      (route platform settings surroundings (record headers { host = codes "x.org" }) world)
route-Rests_example =
    route-Rests platform settings surroundings (record headers { host = codes "x.org" }) world

abbrev in_production : GatewaySettings
in_production = record settings { environment = "production" }
