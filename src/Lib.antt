-- ===== src/Lib.antt =====
-- A model of agntspark_gateway, the HTTP gateway that runs users' agents in containers: accounts
-- and plans, the life of an agent, the edge's routing of requests to it, and metering.
--
-- A request handler is a state-passing function `Exec S A` that returns a value or raises an error
-- (Exec). The state (World) has the database as the session sees it and as it is committed, the
-- container runtime's own state, and what the process keeps in memory: the two rate limiters and
-- the counter of requests. A commit copies the first database to the second; writes before a raise
-- stay in the session and are lost with it. One request runs at a time, except that a flush of the
-- request counts names the point where the process counts on while it waits.
--
-- The parts, by file (paths below agntspark_gateway/ of the repository):
--   Errors        exceptions.py, error_handlers.py; codes and replies (Envelope)
--   Models        models/
--   Schemas       schemas/agents.py; what a body is checked for, of all of schemas/ (Bodies)
--   Settings      config.py
--   Plans, Roles  plans.py, roles.py
--   Limiter       security/ingress_limits.py
--   Quota         services/quota_service.py
--   Slug          hostnames: services/agent_service.py and routers/ingress.py
--   AgentConfig   environments and deployment settings: services/agent_service.py, runtime.py,
--                 security/secrets.py
--   Agents        services/agent_service.py: create, deploy, update, scale, delete; its children have
--                 the responses, pages of a list (Responses) and the logs and metrics (Telemetry)
--   AccessKeys    services/access_key_service.py
--   Ingress       routers/ingress.py
--   Metering      services/metering_service.py; month_start (Calendar)
--   Invites       services/invite_service.py, models/invite.py
--   Accounts      services/auth_service.py
--   Access        security/dependencies.py, services/api_key_service.py, security/api_keys.py
--   Admin         routers/admin.py: update_user
--   Billing       services/billing_service.py: the events of Stripe; the pages of Stripe (Redirects)
--   Scheduler     scheduler.py: one tick
--   Jwt           security/jwt.py
--   RateLimit     security/rate_limit.py
--   Observability observability.py: request ids and the access log
--   Application   main.py: the start and the end; runtime.py: startup_reconcile; readyz
--   Routes        routers/agents.py, auth.py, api_keys.py, admin.py, account.py, billing.py: each
--                 handler from the bearer token to the response
--   Exec/Keeps    what every run of a handler keeps; Exec/Yields what holds where it returns
--   External      what the gateway calls and does not implement
--   Tests         runs at concrete inputs
-- Functions keep their names; a function that the source writes as one is cut into stages where it
-- commits or waits, and a comment at each stage names the function.
--
-- Parameters: the container runtime of agntspark_core and the ranks of its roles, the Fernet
-- cipher, the hashes, PyJWT, Redis, Stripe's client and signatures, the order in which the
-- database lists rows, what is an email address, Unicode's lower case outside ASCII, the clock and
-- all randomness. What a theorem needs of them is a hypothesis of its own (StartsReplicas,
-- IsCipher, IsHashes, IsJwt, IsRedis), and Tests has an instance.
--
-- Numbers: identifiers of users and keys are natural numbers, instants are microseconds, and an
-- amount of vCPU is in millionths, so that `round(x, 3)` is exact; the error of binary floats is
-- not modelled. Recursion is on the data, but that the month of a day is sought on fuel: a month has
-- a day or more, so the number of the day is enough.
--
-- Not modelled: HTTP, JSON and SQL themselves, the ranges of query parameters, the parsing of a body
-- (a body is checked where FastAPI checks it, after the handler's dependencies), messages for people,
-- logging and the Prometheus page, and the wiring of the application.
pub mod Prelude
pub mod Errors
pub mod Exec
pub mod Models
pub mod Roles
pub mod Plans
pub mod Limiter
pub mod External
pub mod Schemas
pub mod AgentConfig
pub mod World
pub mod Settings
pub mod AccessKeys
pub mod Metering
pub mod Ingress
pub mod Agents
pub mod Slug
pub mod Quota
pub mod Invites
pub mod Accounts
pub mod Access
pub mod Admin
pub mod Billing
pub mod Observability
pub mod RateLimit
pub mod Application
pub mod Jwt
pub mod Routes
pub mod Scheduler
pub mod Tests
