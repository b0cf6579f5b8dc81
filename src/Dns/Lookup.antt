-- ===== src/Dns/Lookup.antt =====
-- `lookup` of internal/server/dns/server.go: from the zones and the stored sets to the answers.
use namedor.Common.{ℕ, Option, none, some, List, [], ◌∷◌, ◌++◌, if◌then◌else◌, find}
use namedor.Text.{Text, codes, text_eq, to_lower, to_upper, has_suffix, trim_space, equal_fold}
use namedor.Text.Decimal.{format_nat}
use namedor.Net.{Addr, Prefix}
use namedor.Model.{Zone, RrSet, RData}
use namedor.Gorm.{Gorm, Result, ok, err}
use namedor.Miekg.{Miekg}
use namedor.Geo.{Info, Rule, select_geo_records}
use namedor.ZoneCache
use namedor.ZoneCache.{ZoneCache}

-- fmt.Sprintf("%s %d %s %s", qname, ttl, type, data)
unfoldable pub rr_line : Text → ℕ → Text → Text → Text
rr_line qname ttl type content =
    qname ++ codes " " ++ format_nat ttl ++ codes " " ++ type ++ codes " " ++ content

-- The part of the server that a lookup changes.
pub record LookupState : Type 0 where
  pub zone_cache : ZoneCache
  pub last_rule : Option Rule

-- The answers with their TTL; `none` is an error.
abbrev pub Answers : Type 0 → Type 0
Answers RR = Option (List RR × ℕ)

module _ (dns : Miekg) where
  open dns use {RR, fqdn, new_rr}

  -- The first zone of the list whose name is a suffix of the queried name.
  unfoldable pub find_zone : Text → List Zone → Option Zone
  find_zone qname zones = find (λ z. has_suffix qname (fqdn (to_lower z.name))) zones

  -- A target "@" of a CNAME means the apex of the zone.
  unfoldable pub expand_target : Zone → Text → Text
  expand_target zone content =
      if text_eq (trim_space content) (codes "@") then fqdn (to_lower zone.name) else content

  -- The loop that makes the answers; a record that does not parse is left out.
  unfoldable pub make_answers : (RData → Text) → List RData → List RR
  make_answers line [] = []
  make_answers line (r ∷ recs) =
      let rest = make_answers line recs in
      elim (new_rr (line r)) [ none ↦ rest | some rr ↦ rr ∷ rest ]

  unfoldable pub cname_line : Zone → Text → RrSet → RData → Text
  unfolding expand_target rr_line
  cname_line zone qname set r = rr_line qname set.ttl (codes "CNAME") (expand_target zone r.content)

  unfoldable pub answer_line : Zone → Text → Text → RrSet → RData → Text
  unfolding expand_target rr_line
  answer_line zone qname qtype set r =
      rr_line qname set.ttl (to_upper qtype)
        (if equal_fold qtype (codes "CNAME") then expand_target zone r.content else r.content)

  module _ (gorm : Gorm) (parse_prefix : Text → Option Prefix) (geo : Addr → Info) where
    -- The zones of the cache, or of the database, which then fill the cache.
    unfoldable pub load_zones : ℕ → ℕ → gorm.Db → ZoneCache → Result (List Zone) × ZoneCache
    load_zones now_get now_set db zc = elim (ZoneCache.get now_get zc) [
      | some zones ↦ (ok zones, zc)
      | none ↦ elim (gorm.find_zones_by_length db) [
        | err e ↦ (err e, zc)
        | ok zones ↦ (ok zones, ZoneCache.set now_set zones zc)
      ]
    ]

    -- The CNAME fallback, where the set of the queried type could not be read.
    unfoldable pub cname_answers : gorm.Db → Zone → Text → Answers RR
    unfolding make_answers
    cname_answers db zone qname =
        elim (gorm.first_rrset zone.id (to_lower qname) (codes "CNAME") db) [
          | err e ↦ none
          | ok set ↦ some (make_answers (cname_line zone qname set) set.records, set.ttl)
        ]

    unfoldable pub zone_answers :
        gorm.Db → Zone → Text → Text → Addr → Option Rule → Answers RR × Option Rule
    unfolding cname_answers make_answers
    zone_answers db zone qname qtype ip rule =
        elim (gorm.first_rrset zone.id (to_lower qname) (to_upper qtype) db) [
          | err e ↦ (cname_answers db zone qname, rule)
          | ok set ↦
              let (recs, chosen) = select_geo_records parse_prefix set.records ip (geo ip) in
              (some (make_answers (answer_line zone qname qtype set) recs, set.ttl), some chosen)
        ]

    unfoldable pub answers_in :
        gorm.Db
        → Text
        → Text
        → Addr
        → Result (List Zone) × ZoneCache
        → Option Rule
        → Answers RR × LookupState
    unfolding zone_answers find_zone
    answers_in db qname qtype ip (err e, zc) rule =
        (none, record { zone_cache = zc; last_rule = rule })
    answers_in db qname qtype ip (ok zones, zc) rule = elim (find_zone qname zones) [
      | none ↦ (none, record { zone_cache = zc; last_rule = rule })
      | some zone ↦
          let (answers, rule') = zone_answers db zone qname qtype ip rule in
          (answers, record { zone_cache = zc; last_rule = rule' })
    ]

    unfoldable pub lookup :
        ℕ → ℕ → gorm.Db → Text → ℕ → Addr → LookupState → Answers RR × LookupState
    unfolding answers_in load_zones
    lookup now_get now_set db name qtype ip s =
        answers_in db (to_lower (fqdn name)) (dns.type_text qtype) ip
          (load_zones now_get now_set db s.zone_cache) s.last_rule
