-- ===== src/ZoneIo/Bind.antt =====
-- ToBind, rdataFromRR and the first loop of ImportBIND, of internal/server/rest/zoneio/bind.go.
use namedor.Common.{ℕ, Bool, false, ◌&&◌, List, [], ◌∷◌, ◌++◌, if◌then◌else◌}
use namedor.Text.{Text, codes, text_eq, to_upper, to_lower, trim_suffix}
use namedor.Text.Words.{fields, join}
use namedor.Text.Decimal.{format_nat}
use namedor.Names.{dot}
use namedor.Model.{Zone, RrSet, RData}
use namedor.Soa.{new_record}
use namedor.Rest.Records.{or_default_ttl}

-- "%s %d IN %s %s\n"
unfoldable pub bind_line : RrSet → RData → Text
bind_line rs r =
    trim_suffix rs.name dot
    ++ codes " "
    ++ format_nat rs.ttl
    ++ codes " IN "
    ++ to_upper rs.type
    ++ codes " "
    ++ r.content
    ++ 10 ∷ []

unfoldable pub bind_lines : RrSet → List RData → Text
unfolding bind_line
bind_lines rs [] = []
bind_lines rs (r ∷ records) = bind_line rs r ++ bind_lines rs records

unfoldable pub bind_sets : List RrSet → Text
unfolding bind_lines
bind_sets [] = []
bind_sets (rs ∷ sets) = bind_lines rs rs.records ++ bind_sets sets

unfoldable pub to_bind : Zone → Text
unfolding bind_sets
to_bind z = codes "$ORIGIN " ++ trim_suffix z.name dot ++ codes "." ++ 10 ∷ bind_sets z.rrsets

-- The words after the fourth.
unfoldable pub rdata_words : Text → List Text → Text
rdata_words s (name ∷ ttl ∷ class ∷ type ∷ rdata ∷ rest) = join (rdata ∷ rest)
rdata_words s _ = s

-- The data of a record, from its text.
unfoldable pub rdata_from_rr : Text → Text
unfolding rdata_words
rdata_from_rr s = rdata_words s (fields s)

-- A record as the zone parser returns it: the name in full, the TTL, the type's name and the text.
pub record Parsed : Type 0 where
  pub name : Text
  pub ttl : ℕ
  pub type : Text
  pub text : Text

abbrev pub same_key : Text → Text → RrSet → Bool
same_key name type rs = text_eq rs.name name && text_eq rs.type type

-- A record joins the set of its name and type, or begins a new one. The TTL of a set is that of its
-- first record.
unfoldable pub add_record : ℕ → ℕ → Parsed → List RrSet → List RrSet
unfolding rdata_from_rr
add_record zone_id default_ttl p [] =
    record {
      id = 0;
      zone_id = zone_id;
      name = to_lower p.name;
      type = to_upper p.type;
      ttl = or_default_ttl default_ttl p.ttl;
      records = new_record (rdata_from_rr p.text) ∷ [];
      deleted = false;
    }
    ∷ []
add_record zone_id default_ttl p (rs ∷ sets) =
    let more = add_record zone_id default_ttl p sets in
    if same_key (to_lower p.name) (to_upper p.type) rs
    then record rs { records = rs.records ++ new_record (rdata_from_rr p.text) ∷ [] } ∷ sets
    else rs ∷ more

unfoldable pub group_records : ℕ → ℕ → List Parsed → List RrSet → List RrSet
unfolding add_record
group_records zone_id default_ttl [] sets = sets
group_records zone_id default_ttl (p ∷ ps) sets =
    group_records zone_id default_ttl ps (add_record zone_id default_ttl p sets)
