-- ===== src/Routes/Account.antt =====
-- routers/account.py: the report of an account's plan and usage.
use agntspark_gateway.Prelude.{ℕ, String, Bool, Option, none}
use agntspark_gateway.Exec.{Exec, pure, gets, reads, ◌>>=◌}
use agntspark_gateway.Models.{Text}
use agntspark_gateway.Plans.{PlanLimits}
use agntspark_gateway.Quota.{Usage, usage_report, is_exempt}
use agntspark_gateway.Metering.{PeriodTotals, period_totals}
use agntspark_gateway.Metering.Calendar.{month_start}
use agntspark_gateway.Settings.{GatewaySettings}
use agntspark_gateway.World.{World, Platform}
use agntspark_gateway.Access.{Decode, get_current_principal}

pub record AccountUsage : Type 0 where
  pub plan : String
  pub exempt : Bool
  pub limits : PlanLimits
  pub usage : Usage
  pub period : PeriodTotals

module _ {R : Type 0} (p : Platform R) (cfg : GatewaySettings) (decode : Decode) (now : ℕ) where
  -- `usage`
  unfoldable pub usage : Option Text → Exec (World R) AccountUsage
  unfolding get_current_principal usage_report is_exempt period_totals month_start
  usage creds = do
    principal ← reads (λ w. get_current_principal p cfg decode now w.db creds)
    report ← reads (λ w. usage_report w.db principal.user_id)
    period ← gets (λ w. period_totals w.db.usage_hours principal.user_id (month_start now) none)
    exempt ← reads (λ w. is_exempt p.roles report.0)
    pure (record {
      plan = report.0.plan;
      exempt = exempt;
      limits = report.1;
      usage = report.2;
      period = period;
    })
