-- ===== src/Tests/Memory.antt =====
-- Stand-ins for what the program does not implement, to run the model on: a database of two lists,
-- and a small library of DNS messages.
use namedor.Common.{
  map, ℕ, ◌≡◌, refl, Bool, true, false, not, ◌&&◌, Option, none, some, List, [], ◌∷◌, ◌++◌, ◌==◌,
  find, any, filter, if◌then◌else◌, is_empty,
}
use namedor.Text.{Text, codes, text_eq, has_suffix}
use namedor.Text.Decimal.{format_nat}
use namedor.Net.{Addr, invalid, v4, v6}
use namedor.Model.{Zone, RrSet, RData, TemplateRecord}
use namedor.Gorm.{Gorm, DbError, not_found, failed, Result, ok, err}
use namedor.Gorm.Atomic.{IsAtomic}
use namedor.Miekg.{Miekg, Msg, Question}

pub record Tables : Type 0 where
  pub zones : List Zone
  pub sets : List RrSet
  -- the names and descriptions of the templates below the count, and their records
  pub template_count : ℕ
  pub template_at : ℕ → Text × Text
  pub template_records : ℕ → List TemplateRecord

abbrev pub no_templates : List Zone → List RrSet → Tables
no_templates zones sets = record {
  zones = zones;
  sets = sets;
  template_count = 0;
  template_at = λ j. ([], []);
  template_records = λ j. [];
}

abbrev pub or_missing : {A : Type 0} → Option A → Result A
or_missing none = err not_found
or_missing (some a) = ok a

-- A new row, or an error where one with its key is there.
abbrev pub add_zone : Bool → Zone → Tables → Result Zone × Tables
add_zone true z t = (err failed, t)
add_zone false z t = (ok z, record t { zones = z ∷ t.zones })

abbrev pub add_set : Bool → RrSet → Tables → Result RrSet × Tables
add_set true s t = (err failed, t)
add_set false s t = (ok s, record t { sets = s ∷ t.sets })

abbrev pub commit : Tables → Result (Unit {0}) × Tables → Result (Unit {0}) × Tables
commit t (ok u, t') = (ok u, t')
commit t (err e, t') = (err e, t)

abbrev pub has_key : ℕ → Text → Text → RrSet → Bool
has_key zone_id name type s = s.zone_id == zone_id && text_eq s.name name && text_eq s.type type

abbrev pub memory : Gorm
memory = record {
  Db = Tables;
  find_zones_by_length = λ t. ok t.zones;
  find_zones = λ t. ok t.zones;
  first_zone = λ loaded id t. or_missing (find (λ z. text_eq (format_nat z.id) id) t.zones);
  first_rrset = λ zone_id name type t. or_missing (find (has_key zone_id name type) t.sets);
  first_rrset_by_id =
      λ zone_id rid t. or_missing (find (λ s. text_eq (format_nat s.id) rid) t.sets);
  find_rrsets = λ id t. ok (filter (λ s. text_eq (format_nat s.zone_id) id) t.sets);
  find_soa =
      λ zone_id t. ok (find (λ s. s.zone_id == zone_id && text_eq s.type (codes "SOA")) t.sets);
  create_zone = λ z t. add_zone (any (λ y. text_eq y.name z.name) t.zones) z t;
  create_rrset = λ s t. add_set (any (has_key s.zone_id s.name s.type) t.sets) s t;
  save_rrset = λ s t. (ok s, record t { sets = s ∷ filter (λ y. not (y.id == s.id)) t.sets });
  delete_records = λ id t. (ok tt, t);
  delete_rrsets = λ id t. (ok tt, record t { sets = filter (λ s. not (s.zone_id == id)) t.sets });
  delete_rrset = λ id rid t.
      (ok tt, record t { sets = filter (λ s. not (text_eq (format_nat s.id) rid)) t.sets });
  delete_zone = λ id t. (ok tt, record t { zones = filter (λ z. not (z.id == id)) t.zones });
  update_data = λ id content t. (ok tt, t);
  find_zones_with_records = λ t. ok t.zones;
  find_templates = λ t. ok [];
  first_zone_named = λ name t. or_missing (find (λ z. text_eq z.name name) t.zones);
  first_template_named = λ name t. err not_found;
  rrset_ids = λ id t. ok (map (λ (s : RrSet). s.id) (filter (λ s. s.zone_id == id) t.sets));
  delete_records_of = λ ids t. (ok tt, t);
  purge_records_of = λ ids t. (ok tt, t);
  purge_rrsets = λ id t. (ok tt, record t { sets = filter (λ s. not (s.zone_id == id)) t.sets });
  create_template = λ template t. (ok template, t);
  save_template = λ template t. (ok template, t);
  create_template_record = λ rec t. (ok rec, t);
  purge_template_records = λ id t. (ok tt, t);
  erase_records = λ t. (ok tt, t);
  erase_rrsets = λ t. (ok tt, record t { sets = [] });
  erase_zones = λ t. (ok tt, record t { zones = [] });
  transaction = λ body t. commit t (body t);
}

pub commit_rolled_back :
    (t : Tables) (out : Result (Unit {0}) × Tables) (e : DbError)
    → (commit t out).0 ≡ err e
    → (commit t out).1 ≡ t
commit_rolled_back t (ok u, t') e h = cc
commit_rolled_back t (err e', t') e h = refl

pub commit_ok :
    (t : Tables) (out : Result (Unit {0}) × Tables) → (commit t out).0 ≡ ok tt → commit t out ≡ out
commit_ok t (ok u, t') h = refl
commit_ok t (err e, t') h = cc

add_zone_failed :
    (b : Bool) (z : Zone) (t : Tables) (e : DbError)
    → (add_zone b z t).0 ≡ err e
    → (add_zone b z t).1 ≡ t
add_zone_failed true z t e h = refl
add_zone_failed false z t e h = cc

pub add_set_failed :
    (b : Bool) (s : RrSet) (t : Tables) (e : DbError)
    → (add_set b s t).0 ≡ err e
    → (add_set b s t).1 ≡ t
add_set_failed true s t e h = refl
add_set_failed false s t e h = cc

pub memory-IsAtomic : IsAtomic memory
memory-IsAtomic = record {
  create_zone = λ z t e. add_zone_failed (any (λ y. text_eq y.name z.name) t.zones) z t e;
  create_rrset = λ s t e. add_set_failed (any (has_key s.zone_id s.name s.type) t.sets) s t e;
  delete_rrset = λ zone_id rid t e h. cc;
  transaction = λ body t e. commit_rolled_back t (body t) e;
  transaction_ok = λ body t. commit_ok t (body t);
}

-- A resource record is its text.
abbrev pub with_dot : Text → Text
with_dot s = if has_suffix s (codes ".") then s else s ++ codes "."

abbrev pub message : List Question → Msg Text (Unit {0})
message questions = record {
  id = 0;
  question = questions;
  authoritative = false;
  rcode = 0;
  answer = [];
  edns = none;
  rest = tt;
}

abbrev pub library : Miekg
library = record {
  RR = Text;
  Rest = Unit;
  fqdn = with_dot;
  type_text = λ n. if n == 1 then codes "A" else if n == 5 then codes "CNAME" else codes "TXT";
  new_rr = λ s. if is_empty s then none else some s;
  set_reply = λ r. record (message r.question) { id = r.id };
  set_question = λ name qtype. message (record { name = name; qtype = qtype } ∷ []);
}

-- Addresses in a made-up notation without bars.
abbrev pub addr_text : Addr → Text
addr_text invalid = codes "invalid IP"
addr_text (v4 n) = codes "v4:" ++ format_nat n
addr_text (v6 n zone) = codes "v6:" ++ format_nat n

abbrev pub plain_record : Text → RData
plain_record content = record {
  id = 1;
  rr_set_id = 1;
  content = content;
  country = none;
  continent = none;
  asn = none;
  subnet = none;
  deleted = false;
}

abbrev pub example_zone : Zone
example_zone = record { id = 1; name = codes "example.com"; rrsets = []; deleted = false }

abbrev pub www_set : RrSet
www_set = record {
  id = 7;
  zone_id = 1;
  name = codes "www.example.com.";
  type = codes "A";
  ttl = 300;
  records = plain_record (codes "192.0.2.1") ∷ [];
  deleted = false;
}

abbrev pub tables : Tables
tables = no_templates (example_zone ∷ []) (www_set ∷ [])
