-- ===== src/Dns/Serve.antt =====
-- `clientIPFrom` and `serveDNS` of internal/server/dns/server.go. Every path writes one message, the
-- first part of the result.
use namedor.Common.{
  ℕ, ◌*◌, ◌/◌, ◌%◌, ◌^◌, Bool, true, Option, none, some, List, [], ◌∷◌, ◌++◌, if◌then◌else◌,
  is_empty, ltb, ◌==◌,
}
use namedor.Text.{Text, to_lower}
use namedor.Text.Decimal.{format_nat}
use namedor.Net.{Addr, Prefix, invalid, v4, v6, is_valid}
use namedor.Gorm.{Gorm}
use namedor.Miekg.{
  Miekg, Msg, Question, NetIp, nil_ip, bytes_4, bytes_16, EdnsOption, client_subnet, other_option,
}
use namedor.Geo.{Info}
use namedor.Cache
use namedor.Cache.{Cache}
use namedor.Dns.Lookup.{Answers, LookupState, lookup}

-- An IPv4 address in 16 bytes: ::ffff:a.b.c.d
abbrev is_mapped : ℕ → Bool
is_mapped n = n / 2 ^ 32 == 0xffff

-- net.IP.To4
unfoldable pub to_4 : NetIp → NetIp
to_4 (bytes_4 n) = bytes_4 n
to_4 (bytes_16 n) = if is_mapped n then bytes_4 (n % 2 ^ 32) else nil_ip
to_4 _ = nil_ip

-- `a, _ := netip.ParseAddr(ip.String())`, for an IP that is not nil
unfoldable pub addr_of : NetIp → Addr
addr_of (bytes_4 n) = v4 n
addr_of (bytes_16 n) = if is_mapped n then v4 (n % 2 ^ 32) else v6 n []
addr_of _ = invalid

unfoldable pub subnet_ip : ℕ → NetIp → NetIp
unfolding to_4
subnet_ip family address = if family == 1 then to_4 address else address

abbrev pub addr_unless_nil : NetIp → Option Addr → Option Addr
addr_unless_nil nil_ip next = next
addr_unless_nil ip next = some (addr_of ip)

-- The loop over the options: the first client subnet with an address.
unfoldable pub ecs_addr : List EdnsOption → Option Addr
unfolding subnet_ip addr_of
ecs_addr [] = none
ecs_addr (client_subnet family address ∷ options) =
    addr_unless_nil (subnet_ip family address) (ecs_addr options)
ecs_addr (other_option ∷ options) = ecs_addr options

-- `remote` is what SplitHostPort and ParseAddr give for the peer's address.
unfoldable pub client_ip_from : Option (List EdnsOption) → Option Addr → Bool → Addr
unfolding ecs_addr
client_ip_from edns remote use_ecs =
    elim (if use_ecs then (elim edns [ none ↦ none | some options ↦ ecs_addr options ]) else none) [
      | some a ↦ a
      | none ↦ elim remote [ none ↦ invalid | some a ↦ a ]
    ]

-- A second, in nanoseconds.
abbrev pub second : ℕ
second = 10 ^ 9

-- `5*time.Minute`, for negative answers
abbrev pub negative_ttl : ℕ
negative_ttl = 300 * second

-- dns.RcodeNameError
abbrev pub name_error : ℕ
name_error = 3

-- The configuration that the handler reads.
pub record Settings : Type 0 where
  pub use_ecs : Bool
  pub forwarder : Text

-- The readings of the clock during a query: by the cache's Get, the zone cache's Get and Set, and
-- the cache's Set. `pick` is the entry that an eviction hits.
pub record Instants : Type 0 where
  pub cache_get : ℕ
  pub zones_get : ℕ
  pub zones_set : ℕ
  pub cache_set : ℕ
  pub pick : ℕ

module _ (dns : Miekg) (addr_text : Addr → Text) where
  open dns use {RR, Rest}

  abbrev pub Message : Type 0
  Message = Msg RR Rest

  pub record Server : Type 0 where
    pub cache : Cache Message
    pub state : LookupState

  unfoldable pub cache_scope : Addr → Text
  cache_scope ip = if is_valid ip then addr_text ip else []

  -- fmt.Sprintf("%s|%d|%s", …)
  unfoldable pub cache_key : Text → ℕ → Addr → Text
  unfolding cache_scope
  cache_key name qtype ip = to_lower name ++ b'|' ∷ (format_nat qtype ++ b'|' ∷ cache_scope ip)

  unfoldable pub store : Instants → Text → Message → ℕ → Server → Server
  store at key m ttl s = record s { cache = Cache.set at.pick at.cache_set key m ttl s.cache }

  -- The local negative answer.
  unfoldable pub negative : Instants → Text → Message → Server → Message × Server
  unfolding store
  negative at key m s =
      let m' = record m { rcode = name_error } in (m', store at key m' negative_ttl s)

  -- Go's `r`, beside its first question with the name in lower case.
  module _ (exchange : Text → Message → Option Message) where
    unfoldable pub forward :
        Settings → Instants → Text → Text → ℕ → Message → Message → Server → Message × Server
    unfolding negative store
    forward cfg at key name qtype r m s =
        if is_empty cfg.forwarder
        then negative at key m s
        else elim (exchange cfg.forwarder (dns.set_question (dns.fqdn name) qtype)) [
          | none ↦ negative at key m s
          | some incoming ↦
              let reply = record incoming { id = r.id } in
              (reply, if incoming.rcode == 0 then s else store at key reply negative_ttl s)
        ]

    -- What is done with the result of a local lookup.
    unfoldable pub respond :
        Settings
        → Instants
        → Text
        → Text
        → ℕ
        → Message
        → Message
        → Answers RR
        → Server
        → Message × Server
    unfolding forward store
    respond cfg at key name qtype r m none s = forward cfg at key name qtype r m s
    respond cfg at key name qtype r m (some ([], ttl)) s = forward cfg at key name qtype r m s
    respond cfg at key name qtype r m (some (rr ∷ answers, ttl)) s =
        let m' = record m { answer = rr ∷ answers } in
        (m', if ltb 0 ttl then store at key m' (ttl * second) s else s)

    module _ (gorm : Gorm) (parse_prefix : Text → Option Prefix) (geo : Addr → Info) where
      -- After the cache has been asked.
      unfoldable pub resolve :
          Settings
          → Instants
          → gorm.Db
          → Text
          → Text
          → ℕ
          → Addr
          → Message
          → Message
          → Option Message × Cache Message
          → Server
          → Message × Server
      unfolding respond
      resolve cfg at db key name qtype ip r m (some cached, c) s =
          (record cached { id = r.id; question = r.question }, record s { cache = c })
      resolve cfg at db key name qtype ip r m (none, c) s =
          let (answers, state) =
            lookup dns gorm parse_prefix geo at.zones_get at.zones_set db name qtype ip s.state in
          respond cfg at key name qtype r m answers (record { cache = c; state = state })

      unfoldable pub serve_questions :
          Settings
          → Instants
          → gorm.Db
          → Option Addr
          → Message
          → Message
          → List Question
          → Server
          → Message × Server
      unfolding resolve client_ip_from cache_key
      serve_questions cfg at db remote r m [] s = (m, s)
      serve_questions cfg at db remote r m (q ∷ _) s =
          let name = to_lower q.name in
          let ip = client_ip_from r.edns remote cfg.use_ecs in
          let key = cache_key name q.qtype ip in
          resolve cfg at db key name q.qtype ip r m (Cache.get at.cache_get key s.cache) s

      unfoldable pub serve_dns :
          Settings → Instants → gorm.Db → Option Addr → Message → Server → Message × Server
      unfolding serve_questions
      serve_dns cfg at db remote r s =
          let m = record (dns.set_reply r) { authoritative = true } in
          serve_questions cfg at db remote r m r.question s
