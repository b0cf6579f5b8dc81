-- ===== src/Rest/Records.antt =====
-- The records of a request before they are stored: recordsNormalized, normalizePtr and the expansion
-- of "@" in CNAME data.
use namedor.Common.{
  ℕ, false, Option, none, some, List, is_empty, map, if◌then◌else◌, ltb, ◌==◌, ◌&&◌,
}
use namedor.Text.{Text, codes, text_eq, to_upper, to_lower, trim_space, equal_fold}
use namedor.Names.{fqdn, at_sign}
use namedor.Model.{Zone, RrSet, RData}

unfoldable pub normalize_ptr : Option Text → Option Text
normalize_ptr none = none
normalize_ptr (some p) = let s = trim_space p in if is_empty s then none else some (to_upper s)

unfoldable pub normalized : RData → RData
unfolding normalize_ptr
normalized x = record {
  id = 0;
  rr_set_id = 0;
  content = trim_space x.content;
  country = normalize_ptr x.country;
  continent = normalize_ptr x.continent;
  asn = x.asn;
  subnet = normalize_ptr x.subnet;
  deleted = false;
}

unfoldable pub records_normalized : List RData → List RData
unfolding normalized
records_normalized records = map normalized records

unfoldable pub expand_record : Text → RData → RData
expand_record zone r =
    if text_eq (trim_space r.content) at_sign then record r { content = fqdn at_sign zone } else r

-- The loop over the records of a CNAME set.
unfoldable pub expand_cname : Text → Text → List RData → List RData
unfolding expand_record
expand_cname type zone records =
    if equal_fold type (codes "CNAME") then map (expand_record zone) records else records

-- `set.TTL == 0 && DefaultTTL > 0`
unfoldable pub or_default_ttl : ℕ → ℕ → ℕ
or_default_ttl default_ttl ttl = if ttl == 0 && ltb 0 default_ttl then default_ttl else ttl

-- rrsetReq
pub record RrSetReq : Type 0 where
  pub name : Text
  pub type : Text
  pub ttl : ℕ
  pub records : List RData

-- The set that createRRSet stores, and the one that updateRRSet makes of a stored one.
unfoldable pub new_set : ℕ → Zone → RrSetReq → RrSet
unfolding records_normalized expand_cname or_default_ttl
new_set default_ttl z req =
    let type = to_upper req.type in
    record {
      id = 0;
      zone_id = z.id;
      name = to_lower (fqdn req.name z.name);
      type = type;
      ttl = or_default_ttl default_ttl req.ttl;
      records = expand_cname type z.name (records_normalized req.records);
      deleted = false;
    }

unfoldable pub updated_set : ℕ → Zone → RrSetReq → RrSet → RrSet
unfolding records_normalized expand_cname or_default_ttl
updated_set default_ttl z req set =
    let type = to_upper req.type in
    record set {
      name = to_lower (fqdn req.name z.name);
      type = type;
      ttl = or_default_ttl default_ttl req.ttl;
      records = expand_cname type z.name (records_normalized req.records);
    }
