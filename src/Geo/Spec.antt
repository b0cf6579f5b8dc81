-- ===== src/Geo/Spec.antt =====
-- The selection of records, stated by tiers: a record's tier is the best of the rules that it
-- meets, and the records of the best tier that is not empty are the answer.
use mathlib.Core.Option.{Option}
use namedor.Common.{ℕ, List, [], ◌∷◌, is_empty, filter, if◌then◌else◌, ◌==◌}
use namedor.Text.{Text}
use namedor.Net.{Addr, Prefix, is_valid}
use namedor.Model.{RData}
use namedor.Geo.{
  Info, Rule, nothing, subnet, asn, country, continent, generic, all, is_generic, code_matches,
  asn_matches, subnet_matches,
}

-- The priority of a rule, the best first.
abbrev pub rank : Rule → ℕ
rank subnet = 0
rank asn = 1
rank country = 2
rank continent = 3
rank generic = 4
rank all = 5
rank nothing = 6

module _ (parse_prefix : Text → Option Prefix) (ip : Addr) (g : Info) where
  unfoldable pub tier : RData → Rule
  tier r =
      if subnet_matches parse_prefix r.subnet ip
      then subnet
      else if asn_matches r.asn g.asn
      then asn
      else if code_matches r.country g.country
      then country
      else if code_matches r.continent g.continent
      then continent
      else if is_generic r
      then generic
      else all

  unfoldable pub of_tier : Rule → List RData → List RData
  of_tier t recs = filter (λ r. rank (tier r) == rank t) recs

  unfoldable pub first_tier : List Rule → List RData → List RData × Rule
  unfolding of_tier
  first_tier [] recs = (recs, all)
  first_tier (t ∷ ts) recs =
      if is_empty (of_tier t recs) then first_tier ts recs else (of_tier t recs, t)

  -- A client with no address gets the records with no target.
  abbrev pub tiers : List Rule
  tiers = if is_valid ip then subnet ∷ asn ∷ country ∷ continent ∷ generic ∷ [] else generic ∷ []

  unfoldable pub select_by_tier : List RData → List RData × Rule
  unfolding first_tier
  select_by_tier recs = if is_empty recs then (recs, nothing) else first_tier tiers recs
