-- ===== src/Geo/Laws.antt =====
-- The loop of selectGeoRecords implements the selection by tiers, and what follows for a client.
use namedor.Common.{
  ◌+◌, ◌≤◌, ◌≡◌, refl, ◌∙◌, true, false, Option, List, [], ◌∷◌, ◌++◌, is_empty, append_assoc, arith,
  Bool-cases, inl, inr, All, All-filter, ◌==◌, ==_iff, ◌⊎◌, append-nil,
}
use namedor.Text.{Text}
use namedor.Net.{Addr, Prefix, is_valid}
use namedor.Model.{RData}
use namedor.Geo.{
  Info, Rule, subnet, asn, country, continent, generic, all, Buckets, no_buckets, is_generic,
  code_matches, asn_matches, subnet_matches, place, place_all, choose, generic_records,
  select_geo_records,
}
use namedor.Geo.Spec.{rank, tier, of_tier, first_tier, tiers, select_by_tier}

module _ (parse_prefix : Text → Option Prefix) (ip : Addr) (g : Info) where
  -- What the loop adds to the lists.
  abbrev added : Buckets → List RData → Buckets
  added b recs = record {
    subnet_match = b.subnet_match ++ of_tier parse_prefix ip g subnet recs;
    asn_match = b.asn_match ++ of_tier parse_prefix ip g asn recs;
    country_match = b.country_match ++ of_tier parse_prefix ip g country recs;
    continent_match = b.continent_match ++ of_tier parse_prefix ip g continent recs;
    generic_match = b.generic_match ++ of_tier parse_prefix ip g generic recs;
  }

  added-place :
      (b : Buckets) (r : RData) (recs : List RData)
      → added (place parse_prefix ip g b r) recs ≡ added b (r ∷ recs)
  unfolding place of_tier tier
  added-place b r recs = ground (
    arith,
    append_assoc b.subnet_match (r ∷ []) (of_tier parse_prefix ip g subnet recs),
    append_assoc b.asn_match (r ∷ []) (of_tier parse_prefix ip g asn recs),
    append_assoc b.country_match (r ∷ []) (of_tier parse_prefix ip g country recs),
    append_assoc b.continent_match (r ∷ []) (of_tier parse_prefix ip g continent recs),
    append_assoc b.generic_match (r ∷ []) (of_tier parse_prefix ip g generic recs),
  )

  place_all-eq-added :
      (b : Buckets) (recs : List RData) → place_all parse_prefix ip g b recs ≡ added b recs
  unfolding place_all of_tier
  place_all-eq-added b [] = simp append-nil
  place_all-eq-added b (r ∷ recs) =
      place_all-eq-added (place parse_prefix ip g b r) recs ∙ added-place b r recs

  tier-generic : (r : RData) → (rank (tier parse_prefix ip g r) == 4) ≡ is_generic r
  unfolding tier is_generic subnet_matches asn_matches code_matches
  tier-generic r = ground arith

  generic_records-eq-of_tier :
      (recs : List RData)
      → generic_records parse_prefix recs ≡ of_tier parse_prefix ip g generic recs
  unfolding generic_records of_tier
  generic_records-eq-of_tier [] = refl
  generic_records-eq-of_tier (r ∷ recs) =
      ground (arith, tier-generic r, generic_records-eq-of_tier recs)

  -- The records and the rule that selectGeoRecords returns are those of the best tier that some
  -- record meets: subnet before ASN before country before continent before no target, with all
  -- records where no tier is met; a client with no address gets the records with no target, or all.
  pub select_geo_records-eq-select_by_tier :
      (recs : List RData)
      → select_geo_records parse_prefix recs ip g ≡ select_by_tier parse_prefix ip g recs
  unfolding select_geo_records select_by_tier choose
  select_geo_records-eq-select_by_tier recs =
      ground (arith, place_all-eq-added no_buckets recs, generic_records-eq-of_tier recs)

  -- Every record of the list has at best the given tier.
  abbrev pub NoneBetter : Rule → List RData → Type 0
  NoneBetter t recs = All (λ r. rank t ≤ rank (tier parse_prefix ip g r)) recs

  abbrev pub AllOfTier : Rule → List RData → Type 0
  AllOfTier t recs = All (λ r. rank (tier parse_prefix ip g r) ≡ rank t) recs

  of_tier-AllOfTier :
      (t : Rule) (recs : List RData) → AllOfTier t (of_tier parse_prefix ip g t recs)
  unfolding of_tier
  of_tier-AllOfTier t [] = tt
  of_tier-AllOfTier t (r ∷ recs) = elim (Bool-cases (rank (tier parse_prefix ip g r) == rank t)) [
    | inl e ↦ rw e ((==_iff _ _).0 e, of_tier-AllOfTier t recs)
    | inr e ↦ rw e (of_tier-AllOfTier t recs)
  ]

  -- Where no record is of a tier, the records that have at best this tier have at best the next.
  next_tier :
      (t u : Rule) (recs : List RData)
      → rank u ≡ rank t + 1
      → is_empty (of_tier parse_prefix ip g t recs) ≡ true
      → NoneBetter t recs
      → NoneBetter u recs
  unfolding of_tier
  next_tier t u [] p e h = tt
  next_tier t u (r ∷ recs) p e (q, h) =
      elim (Bool-cases (rank (tier parse_prefix ip g r) == rank t)) [
        | inl same ↦ cc (rw same at e)
        | inr other ↦ (
          ground (arith, ==_iff (rank (tier parse_prefix ip g r)) (rank t)),
          next_tier t u recs p (rw other at e) h,
        )
      ]

  NoneBetter-subnet : (recs : List RData) → NoneBetter subnet recs
  NoneBetter-subnet [] = tt
  NoneBetter-subnet (r ∷ recs) = (omega arith, NoneBetter-subnet recs)

  -- The rule's tier is met by every record of the answer, and no record of the list meets a better
  -- one; at the rule `all` no record meets any tier, and the answer is the whole list.
  abbrev pub IsBest : List RData → List RData × Rule → Type 0
  IsBest recs (out, t) =
      NoneBetter t recs
      × ((AllOfTier t out × (is_empty out ≡ false)) ⊎ ((rank t ≡ 5) × (out ≡ recs)))

  first_tier-IsBest :
      (t u : Rule) (ts : List Rule) (recs : List RData)
      → rank u ≡ rank t + 1
      → (NoneBetter u recs → IsBest recs (first_tier parse_prefix ip g ts recs))
      → NoneBetter t recs
      → IsBest recs (first_tier parse_prefix ip g (t ∷ ts) recs)
  unfolding first_tier
  first_tier-IsBest t u ts recs p later h =
      elim (Bool-cases (is_empty (of_tier parse_prefix ip g t recs))) [
        | inl e ↦ rw e (later (next_tier t u recs p e h))
        | inr e ↦ rw e (h, inl (of_tier-AllOfTier t recs, e))
      ]

  first_tier-IsBest_nil :
      (recs : List RData) → NoneBetter all recs → IsBest recs (first_tier parse_prefix ip g [] recs)
  unfolding first_tier
  first_tier-IsBest_nil recs h = (h, inr (refl, refl))

  first_tier-IsBest_all :
      (recs : List RData)
      → IsBest recs
          (first_tier parse_prefix ip g (subnet ∷ asn ∷ country ∷ continent ∷ generic ∷ []) recs)
  first_tier-IsBest_all recs =
      first_tier-IsBest subnet asn _ recs refl
        (first_tier-IsBest asn country _ recs refl (
          first_tier-IsBest country continent _ recs refl (
            first_tier-IsBest continent generic _ recs refl
              (first_tier-IsBest generic all _ recs refl (first_tier-IsBest_nil recs)))))
        (NoneBetter-subnet recs)

  select_by_tier-IsBest :
      (recs : List RData)
      → is_valid ip ≡ true
      → is_empty recs ≡ false
      → IsBest recs (select_by_tier parse_prefix ip g recs)
  unfolding select_by_tier
  select_by_tier-IsBest recs valid some_rec = rw (some_rec, valid) (first_tier-IsBest_all recs)

  -- For a client with a valid address and a set with a record, selectGeoRecords answers with records
  -- of one tier, with at least one record, and no record of the set is of a better tier; or, if no
  -- record of the set meets any tier, with all records.
  pub select_geo_records-IsBest :
      (recs : List RData)
      → is_valid ip ≡ true
      → is_empty recs ≡ false
      → IsBest recs (select_geo_records parse_prefix recs ip g)
  select_geo_records-IsBest recs valid some_rec =
      rw (select_geo_records-eq-select_by_tier recs) (select_by_tier-IsBest recs valid some_rec)

  -- What a selection hands out for a set with a record is never empty, whatever the client.
  select_geo_records-ne-nil :
      (recs : List RData)
      → is_empty recs ≡ false
      → is_empty (select_geo_records parse_prefix recs ip g).0 ≡ false
  unfolding select_geo_records choose
  select_geo_records-ne-nil recs h = ground arith

  first_tier-All :
      (P : RData → Type 0) (ts : List Rule) (recs : List RData)
      → All P recs
      → All P (first_tier parse_prefix ip g ts recs).0
  unfolding first_tier
  first_tier-All P [] recs h = h
  first_tier-All P (t ∷ ts) recs h =
      elim (Bool-cases (is_empty (of_tier parse_prefix ip g t recs))) [
        | inl e ↦ rw e (first_tier-All P ts recs h)
        | inr e ↦ rw e (All-filter P (λ r. rank (tier parse_prefix ip g r) == rank t) recs h)
      ]

  select_by_tier-All :
      (P : RData → Type 0) (recs : List RData)
      → All P recs
      → All P (select_by_tier parse_prefix ip g recs).0
  unfolding select_by_tier
  select_by_tier-All P recs h = elim (Bool-cases (is_empty recs)) [
    | inl e ↦ rw e h
    | inr e ↦ rw e (first_tier-All P (tiers parse_prefix ip g) recs h)
  ]

  -- What holds of every record of the set holds of every record handed out.
  select_geo_records-All :
      (P : RData → Type 0) (recs : List RData)
      → All P recs
      → All P (select_geo_records parse_prefix recs ip g).0
  select_geo_records-All P recs h =
      rw (select_geo_records-eq-select_by_tier recs) (select_by_tier-All P recs h)
