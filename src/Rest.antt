-- ===== src/Rest.antt =====
-- internal/server/rest/server.go: the REST API over the zones and their sets. A handler takes the
-- parsed body of its request, with `none` where it cannot be bound, and returns the response and the
-- state after it. The server has a DNS server to tell of changes, so that every success clears the
-- zone cache.
pub mod Records
pub mod Sync
pub mod Handlers
pub mod Outcome
pub mod Access
pub mod Certificates
pub mod Health
