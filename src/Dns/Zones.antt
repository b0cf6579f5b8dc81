-- ===== src/Dns/Zones.antt =====
-- Which zone answers a query.
use mathlib.Core.Path.{subst}
use namedor.Common.{
  ℕ, ◌≤◌, ◌≡◌, ◌≢◌, refl, ◌↔◌, true, Option, none, some, List, [], ◌∷◌, ◌++◌, arith, All, length,
  Bool-cases, inl, inr,
}
use namedor.Text.{Text, codes, to_lower, to_upper, has_suffix}
use namedor.Text.Affix.{has_suffix-append}
use namedor.Net.{Addr, Prefix}
use namedor.Model.{Zone, RrSet}
use namedor.Gorm.{Gorm, ok, err_of_not_ok}
use namedor.Miekg.{Miekg}
use namedor.Geo.{Info, Rule}
use namedor.ZoneCache.{ZoneCache}
use namedor.Dns.Lookup.{find_zone, answers_in, zone_answers}

-- The order of the query: the longest name first.
abbrev pub LongestFirst : List Zone → Type 0
LongestFirst [] = Unit
LongestFirst (z ∷ zones) = All (λ w. length w.name ≤ length z.name) zones × LongestFirst zones

module _ (dns : Miekg) where
  -- The zone's name is a suffix of the queried name.
  abbrev pub Covers : Text → Zone → Type 0
  Covers qname z = has_suffix qname (dns.fqdn (to_lower z.name)) ≡ true

  find_zone-All :
      (qname : Text) (P : Zone → Type 0) (zones : List Zone)
      → All P zones
      → All (λ w. Covers qname w → P w) zones
  find_zone-All qname P [] h = tt
  find_zone-All qname P (w ∷ zones) (p, h) = ((λ _. p), find_zone-All qname P zones h)

  -- From zones in the order of the query, the zone that is chosen covers the name, and no zone of
  -- the list that covers the name has a longer name.
  pub find_zone_longest :
      (qname : Text) (zones : List Zone) (z : Zone)
      → LongestFirst zones
      → find_zone dns qname zones ≡ some z
      → Covers qname z × All (λ w. Covers qname w → length w.name ≤ length z.name) zones
  unfolding find_zone
  find_zone_longest qname [] z h e = cc
  find_zone_longest qname (w ∷ zones) z (longest, h) e =
      elim (Bool-cases (has_suffix qname (dns.fqdn (to_lower w.name)))) [
        | inl covers ↦
            let same : w ≡ z = ground arith in
            subst
              (λ y.
                Covers qname y
                × All (λ v. Covers qname v → length v.name ≤ length y.name) (w ∷ zones))
              same (covers, ((λ _. omega arith), find_zone-All qname _ zones longest))
        | inr other ↦
            let (covers, rest) = find_zone_longest qname zones z h (ground arith) in
            (covers, ((λ c. cc), rest))
      ]

  -- No zone is found exactly where no zone of the list covers the name.
  find_zone-eq-none_iff :
      (qname : Text) (zones : List Zone)
      → (find_zone dns qname zones ≡ none) ↔ All (λ w. ¬ Covers qname w) zones
  unfolding find_zone
  find_zone-eq-none_iff qname [] = ((λ e. tt), (λ h. refl))
  find_zone-eq-none_iff qname (w ∷ zones) =
      let (to, from) = find_zone-eq-none_iff qname zones in
      elim (Bool-cases (has_suffix qname (dns.fqdn (to_lower w.name)))) [
        | inl covers ↦ ((λ e. ground arith), (λ h. absurd (h.0 covers)))
        | inr other ↦ rw other ((λ e. ((λ c. cc), to e)), (λ h. from h.1))
      ]

  -- A name that ends in the name of the first zone is taken by that zone.
  find_zone_first :
      (front : Text) (z : Zone) (zones : List Zone)
      → find_zone dns (front ++ dns.fqdn (to_lower z.name)) (z ∷ zones) ≡ some z
  unfolding find_zone
  find_zone_first front z zones = rw (has_suffix-append front (dns.fqdn (to_lower z.name)))

  -- The zone holds no set of the name and the type.
  abbrev pub HasNone : (gorm : Gorm) → gorm.Db → ℕ → Text → Text → Type 0
  HasNone gorm db zone_id name type = (set : RrSet) → gorm.first_rrset zone_id name type db ≢ ok set

  module _ (gorm : Gorm) (parse_prefix : Text → Option Prefix) (geo : Addr → Info) where
    zone_answers_missing :
        (db : gorm.Db) (z : Zone) (qname qtype : Text) (ip : Addr) (rule : Option Rule)
        → HasNone gorm db z.id (to_lower qname) (to_upper qtype)
        → HasNone gorm db z.id (to_lower qname) (codes "CNAME")
        → (zone_answers dns gorm parse_prefix geo db z qname qtype ip rule).0 ≡ none
    unfolding zone_answers
    zone_answers_missing db z qname qtype ip rule missing no_cname =
        let (_, e) = err_of_not_ok _ missing in
        let (_, e') = err_of_not_ok _ no_cname in ground (arith, e, e')

    -- The test for a suffix does not look for the boundary of a label: a zone takes every name that
    -- ends in its own, such as badexample.com for the zone example.com. If it is the first of the
    -- list and holds neither a set of the queried name and type nor a CNAME of the name, whatever
    -- else it holds, the query is not answered from the other zones, whatever they hold.
    pub answers_in_shadowed :
        (db : gorm.Db) (front qtype : Text) (ip : Addr) (z : Zone) (zones : List Zone)
        (zc : ZoneCache) (rule : Option Rule)
        → HasNone gorm db z.id (to_lower (front ++ dns.fqdn (to_lower z.name))) (to_upper qtype)
        → HasNone gorm db z.id (to_lower (front ++ dns.fqdn (to_lower z.name))) (codes "CNAME")
        → (answers_in dns gorm parse_prefix geo db
            (front ++ dns.fqdn (to_lower z.name))
            qtype
            ip
            (ok (z ∷ zones), zc)
            rule).0
          ≡ none
    unfolding answers_in
    answers_in_shadowed db front qtype ip z zones zc rule missing no_cname =
        rw (find_zone_first front z zones, answers_in)
          (zone_answers_missing db z (front ++ dns.fqdn (to_lower z.name)) qtype ip rule missing
            no_cname)
