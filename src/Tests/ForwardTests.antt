-- ===== src/Tests/ForwardTests.antt =====
-- A query that the forwarder answers with an error, twice.
use mathlib.Core.Path.{subst}
use namedor.Common.{◌*◌, ◌≡◌, refl, sym, false, Option, none, some, [], ◌∷◌, arith}
use namedor.Text.{Text, codes, text_eq, to_lower, to_upper, has_suffix}
use namedor.ZoneCache
use namedor.Dns.Lookup.{find_zone, lookup, answers_in, load_zones, zone_answers, cname_answers}
use namedor.Dns.Serve.{Settings, Server, serve_dns, second, client_ip_from}
use namedor.Dns.Repeat.{answers_of, IsUnanswered}
use namedor.Dns.Forwarded.{forwarded_again}
use namedor.Tests.Memory.{memory, library, addr_text, message, tables}
use namedor.Tests.DnsTests.{
  no_prefix, nowhere, no_sets, at_time, asked, www, server, Packet, missed,
}

-- SERVFAIL
abbrev failure : Packet
failure = record (message []) { rcode = 2 }

abbrev failing : Text → Packet → Option Packet
failing to m = some failure

abbrev forwarding : Settings
forwarding = record { use_ecs = false; forwarder = codes "192.0.2.53" }

abbrev first_reply : Packet × Server library addr_text
first_reply =
    serve_dns library addr_text failing memory no_prefix nowhere forwarding (at_time 0) no_sets none
      (asked 7 (codes "www.example.com.")) server

unanswered_here :
    answers_of library addr_text failing memory no_prefix nowhere forwarding
      (at_time 0)
      no_sets
      none
      (asked 7 (codes "www.example.com."))
      www
      server
    ≡ none
unfolding lookup answers_in zone_answers cname_answers find_zone load_zones has_suffix to_lower
    to_upper text_eq ZoneCache.get
unanswered_here = refl

forwarded_again_example :
    (first_reply.0 ≡ record failure { id = 7 })
    × ((serve_dns library addr_text failing memory no_prefix nowhere forwarding
          (at_time (200 * second))
          tables
          none
          (asked 8 (codes "www.example.com."))
          first_reply.1).0
        ≡ record failure { id = 8; question = www ∷ [] })
unfolding client_ip_from
forwarded_again_example =
    forwarded_again library addr_text failing forwarding memory no_prefix nowhere (at_time 0)
      (at_time (200 * second)) no_sets tables none none (asked 7 (codes "www.example.com."))
      (asked 8 (codes "www.example.com.")) www www [] [] server first_reply.1 failure refl refl refl
      refl refl refl missed
      (subst (IsUnanswered library addr_text failing memory no_prefix nowhere forwarding)
        (sym unanswered_here) tt)
      (omega arith) refl
