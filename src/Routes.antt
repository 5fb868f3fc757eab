-- ===== src/Routes.antt =====
-- routers/: the HTTP handlers, from the bearer token to the response. A handler runs in a session
-- (`World.request`). Its body is checked after its dependencies; queries are taken as given.
pub mod Agents
pub mod Auth
pub mod ApiKeys
pub mod Admin
pub mod Billing
pub mod Account
