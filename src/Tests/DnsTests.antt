-- ===== src/Tests/DnsTests.antt =====
-- Queries to the DNS server over the small database.
use mathlib.Core.Path.{subst}
use namedor.Common.{
  ℕ, ◌+◌, ◌*◌, ◌≤◌, ◌≡◌, refl, sym, false, none, some, List, [], ◌∷◌, ◌++◌, arith, Option, pos, All,
  length,
}
use namedor.Text.{Text, codes, text_eq, to_lower, to_upper, has_suffix, trim_space, equal_fold}
use namedor.Text.Decimal.{format_nat, format_nat-All}
use namedor.Net.{Addr, Prefix, invalid, v4, v6, is_valid}
use namedor.Model.{Zone}
use namedor.Gorm.{ok}
use namedor.Miekg.{Question}
use namedor.Geo.{Info, select_geo_records}
use namedor.Cache
use namedor.Assoc.{fetch}
use namedor.Cache.{Cache, new}
use namedor.ZoneCache.{ZoneCache}
use namedor.ZoneCache
use namedor.Dns.Lookup.{
  find_zone, lookup, answers_in, load_zones, zone_answers, cname_answers, make_answers, answer_line,
  expand_target,
}
use namedor.Dns.Zones.{Covers, find_zone_longest, answers_in_shadowed}
use namedor.Dns.Serve.{
  Settings, Instants, Server, Message, cache_key, cache_scope, serve_dns, second, client_ip_from,
}
use namedor.Dns.Key.{NoBar, IsDigit-NoBar, cache_key_inj}
use namedor.Dns.Replies.{id-serve_dns}
use namedor.Dns.Repeat.{answers_of, IsUnanswered, answered_again, refused_again}
use namedor.Tests.Memory.{
  www_set, memory, library, addr_text, message, tables, no_templates, Tables,
}

abbrev pub zone : ℕ → Text → Zone
zone id name = record { id = id; name = name; rrsets = []; deleted = false }

abbrev pub dev_zone : Zone
dev_zone = zone 2 (codes "dev.example.com.")

abbrev pub top_zone : Zone
top_zone = zone 3 (codes "example.com.")

abbrev pub zones : List Zone
zones = dev_zone ∷ top_zone ∷ []

dev_found : find_zone library (codes "a.dev.example.com.") zones ≡ some dev_zone
unfolding find_zone has_suffix to_lower
dev_found = refl

find_zone_longest_example :
    Covers library (codes "a.dev.example.com.") dev_zone
    × All
        (λ w. Covers library (codes "a.dev.example.com.") w → length w.name ≤ length dev_zone.name)
        zones
find_zone_longest_example =
    find_zone_longest library (codes "a.dev.example.com.") zones dev_zone
      ((omega arith, tt), (tt, tt)) dev_found

abbrev pub no_prefix : Text → Option Prefix
no_prefix s = none

abbrev pub nowhere : Addr → Info
nowhere ip = record { country = []; continent = []; asn = pos 0 }

abbrev pub no_zones : ZoneCache
no_zones = record { zones = []; last_fetch = none; ttl = 60 * second }

abbrev pub no_sets : Tables
no_sets = no_templates zones []

-- The zone example.com holds a set of another name.
abbrev other_sets : Tables
other_sets = no_templates zones (record www_set { zone_id = 3 } ∷ [])

answers_in_shadowed_example :
    (answers_in library memory no_prefix nowhere other_sets
      (codes "bad" ++ codes "example.com.")
      (codes "A")
      invalid
      (ok (top_zone ∷ zone 4 (codes "com.") ∷ []), no_zones)
      none).0
    ≡ none
unfolding has_suffix to_lower to_upper text_eq
answers_in_shadowed_example =
    answers_in_shadowed library memory no_prefix nowhere other_sets (codes "bad") (codes "A")
      invalid top_zone (zone 4 (codes "com.") ∷ []) no_zones none (λ set e. cc) (λ set e. cc)

no_bar : (a : Addr) → NoBar (addr_text a)
no_bar invalid = (
  (λ e. omega arith),
  (
    (λ e. omega arith),
    (
      (λ e. omega arith),
      (
        (λ e. omega arith),
        (
          (λ e. omega arith),
          (
            (λ e. omega arith),
            (
              (λ e. omega arith),
              ((λ e. omega arith), ((λ e. omega arith), ((λ e. omega arith), tt))),
            ),
          ),
        ),
      ),
    ),
  ),
)
no_bar (v4 n) = (
  (λ e. omega arith),
  ((λ e. omega arith), ((λ e. omega arith), IsDigit-NoBar _ (format_nat-All n))),
)
no_bar (v6 n zone) = (
  (λ e. omega arith),
  ((λ e. omega arith), ((λ e. omega arith), IsDigit-NoBar _ (format_nat-All n))),
)

upper_key :
    cache_key library addr_text (codes "WWW") 1 (v4 5)
    ≡ cache_key library addr_text (codes "www") 1 (v4 5)
unfolding cache_key to_lower
upper_key = refl

cache_key_inj_example :
    (to_lower (codes "WWW") ≡ to_lower (codes "www"))
    × (◌≡◌ {A = ℕ} 1 1)
    × (cache_scope library addr_text (v4 5) ≡ cache_scope library addr_text (v4 5))
cache_key_inj_example =
    cache_key_inj library addr_text no_bar (codes "WWW") (codes "www") 1 1 (v4 5) (v4 5) upper_key

abbrev pub Packet : Type 0
Packet = Message library addr_text

-- The forwarder never answers.
abbrev silent : Text → Packet → Option Packet
silent to m = none

abbrev settings : Settings
settings = record { use_ecs = false; forwarder = [] }

abbrev pub at_time : ℕ → Instants
at_time now = record {
  cache_get = now;
  zones_get = now;
  zones_set = now + 1;
  cache_set = now + 2;
  pick = 0;
}

abbrev pub asked : ℕ → Text → Packet
asked id name = record (message (record { name = name; qtype = 1 } ∷ [])) { id = id }

abbrev pub www : Question
www = record { name = codes "www.example.com."; qtype = 1 }

abbrev other : Question
other = record { name = codes "other.example.com."; qtype = 1 }

abbrev pub server : Server library addr_text
server = record {
  cache = record { entries = []; size = 4 };
  state = record { zone_cache = no_zones; last_rule = none };
}

abbrev answer : Text
answer = codes "www.example.com. 300 A 192.0.2.1"

abbrev serve : ℕ → Tables → Packet → Server library addr_text → Packet × Server library addr_text
serve now db r s =
    serve_dns library addr_text silent memory no_prefix nowhere settings (at_time now) db none r s

id-serve_dns_example : (serve 0 tables (asked 77 (codes "www.example.com.")) server).0.id ≡ 77
id-serve_dns_example =
    id-serve_dns library addr_text silent memory no_prefix nowhere (λ r. refl) settings (at_time 0)
      tables none (asked 77 (codes "www.example.com.")) server

-- The first query is answered from the database.
answered :
    answers_of library addr_text silent memory no_prefix nowhere settings
      (at_time 0)
      tables
      none
      (asked 7 (codes "www.example.com."))
      www
      server
    ≡ some (answer ∷ [], 300)
unfolding lookup answers_in zone_answers find_zone load_zones has_suffix to_lower to_upper text_eq
    make_answers answer_line expand_target select_geo_records trim_space client_ip_from format_nat
    ZoneCache.get equal_fold is_valid
answered = refl

abbrev after_www : Server library addr_text
after_www = (serve 0 tables (asked 7 (codes "www.example.com.")) server).1

-- By then the set is gone and the zone cache has been cleared.
abbrev emptied : Server library addr_text
emptied = record after_www { state = record { zone_cache = no_zones; last_rule = none } }

pub missed :
    (Cache.get 0
      (cache_key library addr_text (to_lower (codes "www.example.com.")) 1 invalid)
      server.cache).0
    ≡ none
unfolding Cache.get fetch
missed = refl

answered_again_example :
    ((serve 0 tables (asked 7 (codes "www.example.com.")) server).0.answer ≡ answer ∷ [])
    × ((serve (100 * second) no_sets (asked 8 (codes "www.example.com.")) emptied).0
        ≡ record (serve 0 tables (asked 7 (codes "www.example.com.")) server).0 {
          id = 8;
          question = www ∷ [];
        })
unfolding client_ip_from
answered_again_example =
    answered_again library addr_text silent memory no_prefix nowhere settings (at_time 0)
      (at_time (100 * second)) tables no_sets none none (asked 7 (codes "www.example.com."))
      (asked 8 (codes "www.example.com.")) www www [] [] server emptied answer [] 300 refl refl refl
      missed answered (omega arith) (omega arith) refl

unanswered :
    answers_of library addr_text silent memory no_prefix nowhere settings
      (at_time 0)
      no_sets
      none
      (asked 7 (codes "www.example.com."))
      www
      server
    ≡ none
unfolding lookup answers_in zone_answers cname_answers find_zone load_zones has_suffix to_lower
    to_upper text_eq ZoneCache.get
unanswered = refl

abbrev refused : Server library addr_text
refused = (serve 0 no_sets (asked 7 (codes "www.example.com.")) server).1

refused_again_example :
    ((serve 0 no_sets (asked 7 (codes "www.example.com.")) server).0.rcode ≡ 3)
    × ((serve (200 * second) tables (asked 8 (codes "www.example.com.")) refused).0.rcode ≡ 3)
unfolding client_ip_from
refused_again_example =
    refused_again library addr_text silent memory no_prefix nowhere settings (at_time 0)
      (at_time (200 * second)) no_sets tables none none (asked 7 (codes "www.example.com."))
      (asked 8 (codes "www.example.com.")) www www [] [] server refused refl refl refl refl missed
      (subst (IsUnanswered library addr_text silent memory no_prefix nowhere settings)
        (sym unanswered) tt)
      (omega arith) refl
