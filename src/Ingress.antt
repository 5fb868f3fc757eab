-- ===== src/Ingress.antt =====
-- routers/ingress.py: `tls_ask` and `route`, which the edge calls for every request to an agent.
-- Hostnames are parsed in Slug. The instants at which each limiter and the counter read the clock,
-- and the random draw, come as arguments.
mod Sends
pub mod Route
pub mod Refusals
use agntspark_gateway.Prelude.{
  ℕ, zero, suc, ◌%◌, String, ◌<>◌, Bool, true, false, not, Option, none, some, List, [], ◌∷◌, find,
  select, length, any, leb, if◌then◌else◌, ◌==◌, ◌&&◌, ◌||◌, nat_eq, string_eq, text_eq,
}
use agntspark_gateway.Errors.{unhandled}
use agntspark_gateway.Exec.{Exec, Result, ok, err, pure, reads, and_then, ◌>>=◌}
use agntspark_gateway.External.{Container}
use agntspark_gateway.Models.{Text, Database, User, Agent, AgentAccess, private, everyone}
use agntspark_gateway.Settings.{GatewaySettings}
use agntspark_gateway.Limiter.{Limiter, hit}
use agntspark_gateway.Plans.{limits_for}
use agntspark_gateway.Quota.{is_exempt}
use agntspark_gateway.Metering.{count_request}
use agntspark_gateway.AccessKeys.{is_valid_access_key}
use agntspark_gateway.Slug.{slug_from_host, bearer_token}
use agntspark_gateway.World.{World, Platform}

-- The status, `Retry-After`, and `X-Agnt-Upstream` as an address and a port.
pub record Response : Type 0 where
  pub status : ℕ
  pub retry_after : Option ℕ
  pub upstream : Option (Text × ℕ)

abbrev pub plain : ℕ → Response
plain status = record { status = status; retry_after = none; upstream = none }

-- `_too_many_requests`
abbrev pub too_many_requests : ℕ → Response
too_many_requests retry_after = record {
  status = 429;
  retry_after = some retry_after;
  upstream = none;
}

abbrev pub forward : Container → ℕ → Response
forward target port = record {
  status = 204;
  retry_after = none;
  upstream = some (target.ip_address, port);
}

pub record Headers : Type 0 where
  pub host : Text
  pub internal_token : Text
  pub client_ip : String
  pub authorization : Text

pub record Surroundings : Type 0 where
  pub lower_table : ℕ → Text
  pub client_now : ℕ
  pub agent_now : ℕ
  pub count_now : ℕ
  pub draw : ℕ

-- `x or default` of a number
abbrev pub or_number : Option ℕ → ℕ → ℕ
or_number none d = d
or_number (some zero) d = d
or_number (some (suc n)) d = suc n

abbrev pub client_key : Agent → String → String
client_key agent ip = agent.id <> "|" <> (if ip == "" then "unknown" else ip)

-- `secrets.choice(upstreams)`
unfoldable pub choose : ℕ → Container → List Container → Container
choose n c [] = c
choose zero c (d ∷ rest) = c
choose (suc n) c (d ∷ rest) = choose n d rest

abbrev pub is_private : AgentAccess → Bool
is_private private = true
is_private everyone = false

-- `hmac.compare_digest`, which raises a TypeError on a text outside ASCII
abbrev pub compare_digest : Text → Text → Result Bool
compare_digest a b =
    if any (λ c. leb 128 c) a || any (λ c. leb 128 c) b then err unhandled else ok (a == b)

-- the token is configured and the caller has it
abbrev pub is_edge : Option Text → Text → Result Bool
is_edge none token = ok false
is_edge (some []) token = ok false
is_edge (some (c ∷ expected)) token = compare_digest token (c ∷ expected)

-- the agent of a slug
abbrev pub agent_of : Database → Option Text → Option Agent
agent_of db none = none
agent_of db (some slug) = find (λ a. a.slug == slug) db.agents

abbrev pub with_owner : Database → Option Agent → Option (Agent × User)
with_owner db none = none
with_owner db (some a) = elim (find (λ u. u.id == a.user_id) db.users) [
  | none ↦ none
  | some u ↦ some (a, u)
]

-- `_agent_for_host`
unfoldable pub agent_for_host : (ℕ → Text) → GatewaySettings → Database → Text → Option Agent
unfolding slug_from_host
agent_for_host table cfg db host = agent_of db (slug_from_host table cfg.agent_base_domain host)

-- `_agent_and_owner`
unfoldable pub agent_and_owner :
    (ℕ → Text) → GatewaySettings → Database → Text → Option (Agent × User)
unfolding agent_for_host
agent_and_owner table cfg db host = with_owner db (agent_for_host table cfg db host)

-- `tls_ask`
unfoldable pub tls_ask : (ℕ → Text) → GatewaySettings → Database → Text → Response
unfolding agent_for_host
tls_ask table cfg db domain = elim (agent_for_host table cfg db domain) [
  | none ↦ plain 404
  | some _ ↦ plain 200
]

module _ {R : Type 0} (p : Platform R) (cfg : GatewaySettings) (env : Surroundings) where
  abbrev pub hit_client : String → ℕ → Exec (World R) (Option ℕ)
  hit_client key limit w =
      let (r, l) = hit key limit env.client_now w.per_client in (ok r, record w { per_client = l })

  abbrev pub hit_agent : String → ℕ → Exec (World R) (Option ℕ)
  hit_agent key limit w =
      let (r, l) = hit key limit env.agent_now w.per_agent in (ok r, record w { per_agent = l })

  -- the choice of a replica, and the count
  unfoldable pub dispatch : Agent → Exec (World R) Response
  unfolding choose count_request
  dispatch agent w =
      elim (select (λ c. not (c.ip_address == [])) (p.engine.get_containers agent.id w.runtime)) [
        | [] ↦ (ok (plain 503), w)
        | c ∷ rest ↦ (
          ok (forward (choose (env.draw % length (c ∷ rest)) c rest) agent.port),
          count_request agent env.count_now w,
        )
      ]

  -- the ceiling of the owner's plan, which admins do not have
  unfoldable pub within_plan : Agent → User → Exec (World R) Response
  unfolding dispatch
  within_plan agent owner = do
    exempt ← reads (λ _. is_exempt p.roles owner)
    if exempt then dispatch agent else do
      retry_after ← hit_agent agent.id (limits_for owner.plan).max_agent_rpm
      elim retry_after [ none ↦ dispatch agent | some r ↦ pure (too_many_requests r) ]

  -- the key of a private agent
  unfoldable pub with_key : Headers → Agent → User → Exec (World R) Response
  unfolding within_plan is_valid_access_key bearer_token
  with_key h agent owner w =
      if is_private agent.access
        && not (is_valid_access_key p w.db agent.id (bearer_token env.lower_table h.authorization))
      then (ok (plain 401), w)
      else within_plan agent owner w

  -- the allowance of one caller
  unfoldable pub per_caller : Headers → Agent → User → Exec (World R) Response
  unfolding with_key
  per_caller h agent owner = do
    retry_after ←
        hit_client (client_key agent h.client_ip)
          (or_number agent.rate_limit_rpm cfg.ingress_default_rpm_per_ip)
    elim retry_after [ none ↦ with_key h agent owner | some r ↦ pure (too_many_requests r) ]

  -- `route` once the caller is known to be the edge
  unfoldable pub routed : Headers → Exec (World R) Response
  unfolding per_caller agent_and_owner
  routed h w = elim (agent_and_owner env.lower_table cfg w.db h.host) [
    | none ↦ (ok (plain 404), w)
    | some (agent, owner) ↦ per_caller h agent owner w
  ]

  -- `route`
  unfoldable pub route : Headers → Exec (World R) Response
  unfolding routed
  route h = do
    edge ← reads (λ _. is_edge cfg.ingress_internal_token h.internal_token)
    if edge then routed h else pure (plain 403)
