-- ===== src/Tests/RestTests.antt =====
-- Requests to the REST API over the small database.
use namedor.Common.{
  is_empty, arith, false, pos, ◌≡◌, ◌≢◌, refl, ap, if◌then◌else◌, Bool, true, none, some, List, [],
  ◌∷◌, ◌++◌, arith, Option, length,
}
use namedor.Text.{Text, codes, text_eq, trim_prefix, to_lower}
use namedor.Net.{Addr, Prefix, v4, contains}
use namedor.ZoneCache.{ZoneCache}
use namedor.Rest.Records.{RrSetReq}
use namedor.Rest.Handlers.{Response, RestConfig, World, post_zone, post_rrset, change, create_zone}
use namedor.Rest.Outcome.{AllOrNothing, change-AllOrNothing}
use namedor.Rest.Access.{
  AccessConfig, allowed_nets, ip_allowed, passes_acl, bearer, authenticated, guarded, MayConnect,
  HasToken, guarded_change,
}
use namedor.ZoneIo.Bind.{Parsed, group_records, rdata_from_rr}
use namedor.ZoneIo.Lines.{printed, rdata_from_rr-printed}
use namedor.Text.Words.{fields, join, IsWord}
use namedor.Text.{to_upper, is_space}
use namedor.Soa.{new_record}
use namedor.ZoneIo.Groups.{DistinctKeys, records_of, data_of, total, group_records_partition}
use namedor.Tests.Memory.{memory, memory-IsAtomic, example_zone, tables, plain_record}

abbrev rest_config : RestConfig
rest_config = record { default_ttl = 300; auto_soa_on_missing = true }

abbrev zone_cache : ZoneCache
zone_cache = record { zones = example_zone ∷ []; last_fetch = some 5; ttl = 60 }

abbrev world : World memory
world = record { db = tables; dns_server = some zone_cache }

abbrev mail : RrSetReq
mail = record {
  name = codes "mail";
  type = codes "a";
  ttl = 0;
  records = plain_record (codes "192.0.2.7") ∷ [];
}

-- The set is new.
change-AllOrNothing_example :
    AllOrNothing memory memory-IsAtomic world
      (change memory rest_config (pos 0) (post_rrset (codes "1") (some mail)) world)
change-AllOrNothing_example =
    change-AllOrNothing memory memory-IsAtomic rest_config (pos 0)
      (post_rrset (codes "1") (some mail)) world

-- The CIDR notation of one network, and the text of one address.
abbrev pub parse_cidr : Text → Option Prefix
parse_cidr s =
    if text_eq s (codes "10.0.0.0/8")
    then some (record { base = v4 0x0a000000; bits = 8 })
    else none

abbrev pub parse_ip : Text → Option Addr
parse_ip s = if text_eq s (codes "10.1.2.3") then some (v4 0x0a010203) else none

abbrev same_text : Text → Text → Bool
same_text hash s = text_eq hash s

abbrev access : AccessConfig
access = record {
  allowed_cidrs = codes "10.0.0.0/8" ∷ [];
  api_token = codes "secret";
  api_token_hash = [];
}

abbrev after : Response × World memory
after =
    guarded parse_cidr parse_ip same_text memory rest_config (pos 0) access (codes "10.1.2.3")
      (codes "Bearer secret") (post_zone (some (codes "New.org"))) world

zone_added : length after.1.db.zones ≡ 2
unfolding guarded passes_acl allowed_nets ip_allowed authenticated bearer change create_zone
    trim_prefix text_eq contains to_lower
zone_added = refl

after_ne_world : after.1 ≢ world
after_ne_world e = omega (arith, zone_added, ap (λ (w : World memory). length w.db.zones) e)

guarded_change_example :
    MayConnect parse_cidr parse_ip same_text access (codes "10.1.2.3")
    × HasToken parse_cidr parse_ip same_text access (codes "Bearer secret")
guarded_change_example =
    guarded_change parse_cidr parse_ip same_text memory rest_config (pos 0) access
      (codes "10.1.2.3") (codes "Bearer secret") (post_zone (some (codes "New.org"))) world
      after_ne_world

abbrev parsed : Text → Text → Parsed
parsed name content = record {
  name = name;
  ttl = 300;
  type = codes "A";
  text = name ++ codes " 300 IN A " ++ content;
}

abbrev lines : List Parsed
lines =
    parsed (codes "www.example.com.") (codes "192.0.2.1")
    ∷ parsed (codes "mail.example.com.") (codes "192.0.2.2")
    ∷ parsed (codes "WWW.example.com.") (codes "192.0.2.3")
    ∷ []

group_records_partition_example :
    DistinctKeys (group_records 1 60 lines [])
    × ((name type : Text)
        → records_of name type (group_records 1 60 lines []) ≡ data_of name type lines)
    × (total (group_records 1 60 lines []) ≡ 3)
group_records_partition_example = group_records_partition 1 60 lines

-- The two records of one name in the file.
www_records :
    data_of (codes "www.example.com.") (codes "A") lines
    ≡ new_record (codes "192.0.2.1") ∷ new_record (codes "192.0.2.3") ∷ []
unfolding data_of rdata_from_rr to_lower to_upper text_eq fields join
www_records = refl

www-IsWord : IsWord (codes "www.example.com.")
unfolding is_space
www-IsWord = record { some_byte = refl; no_space = ground arith }

ttl-IsWord : IsWord (codes "300")
unfolding is_space
ttl-IsWord = record { some_byte = refl; no_space = ground arith }

class-IsWord : IsWord (codes "IN")
unfolding is_space
class-IsWord = record { some_byte = refl; no_space = ground arith }

type-IsWord : IsWord (codes "TXT")
unfolding is_space
type-IsWord = record { some_byte = refl; no_space = ground arith }

spaced : is_empty (fields (codes "\"v=spf1   -all\"")) ≡ false
unfolding fields is_space
spaced = refl

rdata_from_rr-printed_example :
    rdata_from_rr (
      printed
        (codes "www.example.com.")
        (codes "300")
        (codes "IN")
        (codes "TXT")
        (codes "\"v=spf1   -all\""))
    ≡ join (fields (codes "\"v=spf1   -all\""))
rdata_from_rr-printed_example =
    rdata_from_rr-printed (codes "www.example.com.") (codes "300") (codes "IN") (codes "TXT")
      (codes "\"v=spf1   -all\"") www-IsWord ttl-IsWord class-IsWord type-IsWord spaced
