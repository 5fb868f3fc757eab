-- ===== src/Quota/Account.antt =====
-- quota_service.ensure_can_create_agent: how many agents an account may have.
use agntspark_gateway.Prelude.{
  ℕ, ◌+◌, ◌≤◌, ◌≡◌, ◌↔◌, refl, List, [], ◌∷◌, ◌++◌, arith, length, nat_eq,
}
use agntspark_gateway.Exec.{ok}
use agntspark_gateway.Models.{Database, User, Agent}
use agntspark_gateway.Plans.{limits_for}
use agntspark_gateway.Roles.{RoleTable}
use agntspark_gateway.Quota.{owned, current_usage, ensure_can_create_agent}
use agntspark_gateway.Quota.Resources.{IsHeldTo}

owned-add :
    (user_id : ℕ) (rows : List Agent) (a : Agent)
    → a.user_id ≡ user_id
    → length (owned user_id (rows ++ a ∷ [])) ≡ length (owned user_id rows) + 1
unfolding owned
owned-add user_id [] a h = ground arith
owned-add user_id (b ∷ rows) a h = ground (arith, owned-add user_id rows a h)

-- An account that is held to its plan may create an agent exactly if its agents, the new one
-- counted, number at most `max_agents`.
pub ensure_can_create_iff :
    (roles : RoleTable) (db : Database) (user : User) (a : Agent)
    → IsHeldTo roles db a.user_id user
    → (ensure_can_create_agent roles db a.user_id ≡ ok tt)
      ↔ (length (owned a.user_id (db.agents ++ a ∷ [])) ≤ (limits_for user.plan).max_agents)
unfolding ensure_can_create_agent current_usage
ensure_can_create_iff roles db user a h =
    rw (h.found, h.not_exempt) (ground (arith, owned-add a.user_id db.agents a refl))
