-- ===== src/ZoneIo.antt =====
-- internal/server/rest/zoneio: a zone to and from text.
pub mod Import
pub mod Bind
pub mod Lines
pub mod Groups
