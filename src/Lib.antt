-- ===== src/Lib.antt =====
-- namedot: an authoritative DNS server that chooses its answers by the place of the client, with a
-- database behind it, a REST API and a web panel to change the database.
--
-- The parts, and how they meet:
-- * A query (Dns.antt; internal/server/dns/server.go) is answered from the response cache
--   (Cache.antt; internal/cache/cache.go), else from the database: the zones come from the zone
--   cache (ZoneCache.antt; internal/server/dns/zone_cache.go), the records of the set that was found
--   are chosen by the client's address and its country, continent and network (Geo.antt;
--   selectGeoRecords in server.go), and what is not found goes to a forwarder. Dns/Lookup.antt is
--   `lookup`, Dns/Serve.antt is `clientIPFrom` and `serveDNS`. Net.antt has the addresses.
-- * A request to the REST API (Rest.antt; internal/server/rest/server.go and ipacl.go) passes the
--   list of networks and the token (Rest/Access.antt), changes the database (Rest/Handlers.antt),
--   increments the serial of the zone (Soa.antt; internal/db/soa.go) and clears the zone cache. The
--   response cache is not told. Rest/Records.antt prepares the records of a request. ZoneIo.antt has
--   the imports and the text export (internal/server/rest/zoneio).
-- * A slave (Replication.antt; internal/replication/sync.go) fetches all zones and templates from its
--   master and posts them to its own REST API (Rest/Sync.antt; syncImport in server.go). Rest/Sync/Full.antt
--   is about the import as a whole, Replication/Copy.antt about a round from fetch to database. What
--   becomes of the post on its way (`Delivery` in Replication/Laws.antt) is a parameter: it may be
--   lost, meet a server with TLS, or go without an answer.
-- * Geoip.antt (internal/geoip/geoip.go) says which database file serves an address and what a lookup
--   makes of it, Geoip/Provider.antt how the files are loaded again, and Geoip/Download.antt how they
--   are fetched; Backup.antt (internal/db/backup.go) restores zones from a file.
--   Backup/Whole.antt is about a restoration as a whole.
-- * A request to the web panel (Web.antt; internal/web) is let in by its session (Web/Sessions.antt;
--   admin.go) and goes to the handler of its route (Web/Routes.antt; Web/Routes/Served.antt has the
--   server in front of it): Web/Records.antt (records.go,
--   records_edit.go), Web/Zones.antt (zones.go), Web/Templates.antt (templates_handlers.go). A page is
--   the data that its HTML shows (Web/Panel.antt), with its forms (Web/Form.antt) and the addresses of
--   its forms and buttons (Web/Links.antt); Web/Pages.antt cuts long lists, and
--   Web/Language.antt has the texts (i18n.go). The panel changes the database without the DNS server.
-- * Rest/Certificates.antt (internal/server/rest/tls.go) keeps the certificate of the REST API, and
--   Rest/Health.antt is its health check.
-- * Command.antt (cmd/namedot/main.go, internal/db/open.go, cmd/hashpwd/main.go) is what a run does
--   with its arguments, up to where it serves. Command/Seed.antt (cmd/seed-templates/main.go) has
--   the templates that come with the program.
-- * Names.antt has the two functions that complete a name: `fqdn` of server/rest/server.go and
--   `toFQDN` of internal/web/records.go.
-- * Config.antt has the defaults and the checks of internal/config/config.go.
-- * Model.antt has the rows of internal/db/models.go.
--
-- What the program takes from elsewhere is a parameter: the database through gorm (Gorm.antt, an
-- interface over any type of contents; what a theorem needs of failures is Gorm/Atomic.antt, and
-- of rows Gorm/Store.antt, Gorm/Zones.antt, Gorm/Templates.antt and Gorm/Restores.antt), the DNS library (Miekg.antt), the forwarder (`exchange`), the GeoIP
-- provider (`geo`), the parsers of addresses and prefixes, bcrypt, the file system (`System` in
-- Config.antt, `Disk` in Geoip/Download.antt), the panel's own statements (`PanelDb` in
-- Web/Panel.antt), the flags and the database drivers (`Shell` in Command.antt). Assoc.antt has
-- Go's maps with texts for keys. Tests/Memory.antt has a database of lists and a small DNS library
-- on which the model runs. Go's own strings, numbers and lists are in Text.antt and Common.antt: a
-- string is the list of its bytes, and letter case is that of ASCII, as in names, types, codes of
-- countries and settings.
--
-- Time is a number of nanoseconds that each operation takes as an argument, one for each reading of
-- the clock. Go's map hands out its keys in any order: the order, or the entry that an eviction
-- hits, is an argument too. Each loop runs over a list. The one use of fuel is in the printing of a
-- number (Text/Decimal.antt), where the number itself is enough, since each round divides it by
-- ten. Numbers that Go keeps in 64 bits are unbounded but for ParseInt and the increment of the
-- serial, which have their bounds written out.
--
-- The page of a list, the number of pages and the TTL of a form keep the wrap of their 64 and 32 bits (`% 2 ^ 64`,
-- `% 2 ^ 32`). The texts of the panel are lists of code points, not of bytes.
--
-- Not modelled: sockets, logging, JSON and YAML parsing, the help texts, and the style of the HTML with
-- the script of dashboard.html: they are text and calls of the system.
pub mod Common
pub mod Text
pub mod Model
pub mod Assoc
pub mod Cache
pub mod ZoneCache
pub mod Net
pub mod Geo
pub mod Geoip
pub mod Names
pub mod Gorm
pub mod Miekg
pub mod Dns
pub mod Soa
pub mod Config
pub mod Backup
pub mod Rest
pub mod Replication
pub mod ZoneIo
pub mod Web
pub mod Command
pub mod Tests
