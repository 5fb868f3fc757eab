-- ===== src/Tests/Quota.antt =====
-- Runs of the quota checks on an account of the free plan.
use agntspark_gateway.Prelude.{
  ◌≡◌, ◌↔◌, refl, some, arith, nat_eq, string_eq, ℕ_discrete, find, ◌==◌, string_dec,
}
use agntspark_gateway.Exec.{ok}
use agntspark_gateway.Plans.{limits_for}
use agntspark_gateway.Quota.{Shape, current_usage, ensure_resources, user_row, is_exempt}
use agntspark_gateway.Quota.Resources.{Fits, IsHeldTo, shape_of, ensure_resources_iff}
use agntspark_gateway.Tests.{roles, ann, bot, one_agent}

abbrev pub two_replicas : Shape
two_replicas = record { replicas = 2; cpu = 500_000; memory_mb = 256 }

pub ann-IsHeldTo : IsHeldTo roles one_agent 1 ann
unfolding user_row is_exempt nat_eq ℕ_discrete
ann-IsHeldTo = record { found = refl; not_exempt = refl }

ensure_resources_iff_example :
    (ensure_resources roles one_agent 1 (some "agt_1") two_replicas ≡ ok tt)
    ↔ Fits (limits_for "free") (current_usage one_agent 1 (some "agt_1")) two_replicas
ensure_resources_iff_example =
    ensure_resources_iff roles one_agent 1 (some "agt_1") two_replicas ann ann-IsHeldTo

bot_found : find (λ a. a.id == "agt_1") one_agent.agents ≡ some bot
bot_found = ground arith

bot_fits : ensure_resources roles one_agent 1 (some "agt_1") (shape_of bot) ≡ ok tt
unfolding ensure_resources nat_eq ℕ_discrete string_eq string_dec
bot_fits = refl
