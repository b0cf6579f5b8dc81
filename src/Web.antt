-- ===== src/Web.antt =====
-- internal/web: the web panel, behind its log-in. Its pages are HTML; here a page is the data that it
-- shows.
pub mod Request
pub mod Sessions
pub mod Pages
pub mod Form
pub mod Panel
pub mod Records
pub mod Zones
pub mod Templates
pub mod Language
pub mod Routes
pub mod Links
