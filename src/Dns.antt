-- ===== src/Dns.antt =====
-- internal/server/dns/server.go: a query from the message to the reply, with the two caches. The
-- database, the library of DNS messages, the GeoIP provider, the forwarder and the parsers of
-- addresses are parameters. Each reading of the clock is a field of `Instants`.
pub mod Lookup
pub mod Serve
pub mod Key
pub mod Zones
pub mod Replies
pub mod Repeat
pub mod Forwarded
