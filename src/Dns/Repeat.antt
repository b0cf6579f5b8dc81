-- ===== src/Dns/Repeat.antt =====
-- Two queries in a row: what the response cache answers to the second.
use namedor.Common.{
  ℕ, ◌+◌, ◌*◌, ◌≤◌, ◌<◌, ◌≡◌, refl, ap, sym, ◌∙◌, true, Option, none, some, List, [], ◌∷◌, arith,
  lt→ltb,
}
use namedor.Text.{Text, to_lower}
use namedor.Net.{Addr, Prefix}
use namedor.Gorm.{Gorm}
use namedor.Miekg.{Miekg, Question}
use namedor.Geo.{Info}
use namedor.Cache
use namedor.Cache.{Cache}
use namedor.Cache.Laws.{get-set_self}
use namedor.Dns.Lookup.{Answers, lookup}
use namedor.Dns.Serve.{
  Settings, Instants, Server, Message, second, negative_ttl, name_error, client_ip_from, cache_key,
  store, respond, resolve, serve_questions, serve_dns,
}

module _ (dns : Miekg) (addr_text : Addr → Text)
    (exchange : Text → Message dns addr_text → Option (Message dns addr_text)) (gorm : Gorm)
    (parse_prefix : Text → Option Prefix) (geo : Addr → Info) (cfg : Settings) where
  abbrev pub M : Type 0
  M = Message dns addr_text

  abbrev pub Srv : Type 0
  Srv = Server dns addr_text

  -- The client of a query, and the key of its answer.
  abbrev pub client : Option Addr → M → Addr
  client remote r = client_ip_from r.edns remote cfg.use_ecs

  abbrev pub key_of : Option Addr → M → Question → Text
  key_of remote r q = cache_key dns addr_text (to_lower q.name) q.qtype (client remote r)

  abbrev pub serve : Instants → gorm.Db → Option Addr → M → Srv → M × Srv
  serve at db remote r s =
      serve_dns dns addr_text exchange gorm parse_prefix geo cfg at db remote r s

  -- What the local lookup of a query gives.
  abbrev pub answers_of : Instants → gorm.Db → Option Addr → M → Question → Srv → Answers dns.RR
  answers_of at db remote r q s =
      (lookup dns gorm parse_prefix geo at.zones_get at.zones_set db (to_lower q.name) q.qtype
        (client remote r) s.state).0

  abbrev pub reply_base : M → M
  reply_base r = record (dns.set_reply r) { authoritative = true }

  -- The server after a miss, with what the lookup changed.
  abbrev pub after_miss : Instants → gorm.Db → Option Addr → M → Question → Srv → Srv
  after_miss at db remote r q s = record {
    cache = (Cache.get at.cache_get (key_of remote r q) s.cache).1;
    state =
        (lookup dns gorm parse_prefix geo at.zones_get at.zones_set db (to_lower q.name) q.qtype
          (client remote r) s.state).1;
  }

  resolve_miss :
      (at : Instants) (db : gorm.Db) (key name : Text) (qtype : ℕ) (ip : Addr) (r m : M)
      (got : Option M × Cache M) (s : Srv)
      → got.0 ≡ none
      → resolve dns addr_text exchange gorm parse_prefix geo cfg at db key name qtype ip r m got s
        ≡ respond dns addr_text exchange cfg at key name qtype r m
            (lookup dns gorm parse_prefix geo at.zones_get at.zones_set db name qtype ip s.state).0
            (record {
              cache = got.1;
              state =
                  (lookup dns gorm parse_prefix geo at.zones_get at.zones_set db name qtype ip
                    s.state).1;
            })
  unfolding resolve
  resolve_miss at db key name qtype ip r m (some cached, c) s miss = cc
  resolve_miss at db key name qtype ip r m (none, c) s miss = refl

  resolve_hit :
      (at : Instants) (db : gorm.Db) (key name : Text) (qtype : ℕ) (ip : Addr) (r m : M)
      (got : Option M × Cache M) (s : Srv) (cached : M)
      → got.0 ≡ some cached
      → (resolve dns addr_text exchange gorm parse_prefix geo cfg at db key name qtype ip r m got
          s).0
        ≡ record cached { id = r.id; question = r.question }
  unfolding resolve
  resolve_hit at db key name qtype ip r m (some found, c) s cached hit =
      let same : found ≡ cached = cc in
      ap {A = M} {B = M} (λ x. record x { id = r.id; question = r.question }) same
  resolve_hit at db key name qtype ip r m (none, c) s cached hit = cc

  respond_answered :
      (at : Instants) (key name : Text) (qtype : ℕ) (r m : M) (rr : dns.RR) (answers : List dns.RR)
      (ttl : ℕ) (s : Srv)
      → 0 < ttl
      → respond dns addr_text exchange cfg at key name qtype r m (some (rr ∷ answers, ttl)) s ≡ (
        record m { answer = rr ∷ answers },
        store dns addr_text at key (record m { answer = rr ∷ answers }) (ttl * second) s,
      )
  unfolding respond
  respond_answered at key name qtype r m rr answers ttl s pos = rw (lt→ltb 0 ttl pos)

  -- No answer: an error, or no record that parses.
  abbrev pub IsUnanswered : Answers dns.RR → Type 0
  IsUnanswered none = Unit
  IsUnanswered (some ([], ttl)) = Unit
  IsUnanswered (some (rr ∷ answers, ttl)) = ⊥

  respond_unanswered :
      (at : Instants) (key name : Text) (qtype : ℕ) (r m : M) (answers : Answers dns.RR) (s : Srv)
      → cfg.forwarder ≡ []
      → IsUnanswered answers
      → respond dns addr_text exchange cfg at key name qtype r m answers s ≡ (
        record m { rcode = name_error },
        store dns addr_text at key (record m { rcode = name_error }) negative_ttl s,
      )
  unfolding respond
  respond_unanswered at key name qtype r m none s h u = rw h
  respond_unanswered at key name qtype r m (some ([], ttl)) s h u = rw h
  respond_unanswered at key name qtype r m (some (rr ∷ answers, ttl)) s h u = absurd u

  module _ (at : Instants) (db : gorm.Db) (remote : Option Addr) (r : M) (q : Question)
      (qs : List Question) (s : Srv) where
    serve_first :
        r.question ≡ q ∷ qs
        → serve at db remote r s
          ≡ resolve dns addr_text exchange gorm parse_prefix geo cfg at db
              (key_of remote r q)
              (to_lower q.name)
              q.qtype
              (client remote r)
              r
              (reply_base r)
              (Cache.get at.cache_get (key_of remote r q) s.cache)
              s
    unfolding serve_dns
    serve_first e =
        ap
          (λ questions.
            serve_questions dns addr_text exchange gorm parse_prefix geo cfg at db remote r
              (reply_base r) questions s)
          e

    -- A query that missed the cache goes on with the local lookup.
    pub serve_miss :
        r.question ≡ q ∷ qs
        → (Cache.get at.cache_get (key_of remote r q) s.cache).0 ≡ none
        → serve at db remote r s
          ≡ respond dns addr_text exchange cfg at
              (key_of remote r q)
              (to_lower q.name)
              q.qtype
              r
              (reply_base r)
              (answers_of at db remote r q s)
              (after_miss at db remote r q s)
    serve_miss e miss =
        serve_first e ∙ resolve_miss at db _ (to_lower q.name) q.qtype _ r _ _ s miss

  get-store :
      (at : Instants) (next : ℕ) (key : Text) (m : M) (ttl : ℕ) (c : Srv)
      → next ≤ at.cache_set + ttl
      → (Cache.get next key (store dns addr_text at key m ttl c).cache).0 ≡ some m
  unfolding store
  get-store at next key m ttl c soon =
      get-set_self at.pick at.cache_set next key m ttl c.cache ∙ ground arith

  -- The second query, if the first left its reply in the cache.
  pub again :
      (at at' : Instants) (db' : gorm.Db) (remote remote' : Option Addr) (r r' : M)
      (q q' : Question) (qs' : List Question) (m : M) (ttl : ℕ) (c : Srv) (out : M × Srv) (s' : Srv)
      → out ≡ (m, store dns addr_text at (key_of remote r q) m ttl c)
      → r'.question ≡ q' ∷ qs'
      → key_of remote r q ≡ key_of remote' r' q'
      → at'.cache_get ≤ at.cache_set + ttl
      → s'.cache ≡ out.1.cache
      → (serve at' db' remote' r' s').0 ≡ record out.0 { id = r'.id; question = r'.question }
  again at at' db' remote remote' r r' q q' qs' m ttl c out s' kept e same soon kept_on =
      let key = key_of remote' r' q' in
      let there : (Cache.get at'.cache_get key s'.cache).0 ≡ some m =
        ap (λ x. (Cache.get at'.cache_get key x).0) kept_on
        ∙ ap (λ (o : M × Srv). (Cache.get at'.cache_get key o.1.cache).0) kept
        ∙ ap
            (λ k.
              (Cache.get at'.cache_get k
                (store dns addr_text at (key_of remote r q) m ttl c).cache).0)
            (sym same)
        ∙ get-store at at'.cache_get (key_of remote r q) m ttl c soon in
      let first : m ≡ out.0 = sym (ap (λ (o : M × Srv). o.0) kept) in
      ap (λ (o : M × Srv). o.0) (serve_first at' db' remote' r' q' qs' s' e)
      ∙ resolve_hit at' db' key (to_lower q'.name) q'.qtype (client remote' r') r' (reply_base r')
          (Cache.get at'.cache_get key s'.cache) s' out.0 (there ∙ ap some first)

  module _ (at at' : Instants) (db db' : gorm.Db) (remote remote' : Option Addr) (r r' : M)
      (q q' : Question) (qs qs' : List Question) (s s' : Srv) where
    -- A query that the zones answered gets their answers. A second query with the same key, up to
    -- `ttl` seconds after the reply was kept, gets the same message with its own id and question,
    -- whatever the database holds by then and whatever became of the zone cache in between (s' has
    -- the response cache that the first query left; InvalidateZoneCache does not touch it).
    pub answered_again :
        (rr : dns.RR) (answers : List dns.RR) (ttl : ℕ)
        → r.question ≡ q ∷ qs
        → r'.question ≡ q' ∷ qs'
        → key_of remote r q ≡ key_of remote' r' q'
        → (Cache.get at.cache_get (key_of remote r q) s.cache).0 ≡ none
        → answers_of at db remote r q s ≡ some (rr ∷ answers, ttl)
        → 0 < ttl
        → at'.cache_get ≤ at.cache_set + ttl * second
        → s'.cache ≡ (serve at db remote r s).1.cache
        → ((serve at db remote r s).0.answer ≡ rr ∷ answers)
          × ((serve at' db' remote' r' s').0
              ≡ record (serve at db remote r s).0 { id = r'.id; question = r'.question })
    answered_again rr answers ttl e e' same miss found pos soon kept_on =
        let base = record (reply_base r) { answer = rr ∷ answers } in
        let kept =
          serve_miss at db remote r q qs s e miss
          ∙ ap
              (λ a.
                respond dns addr_text exchange cfg at (key_of remote r q) (to_lower q.name) q.qtype
                  r (reply_base r) a (after_miss at db remote r q s))
              found
          ∙ respond_answered at (key_of remote r q) (to_lower q.name) q.qtype r (reply_base r) rr
              answers ttl (after_miss at db remote r q s) pos in
        (
          ap (λ (o : M × Srv). o.0.answer) kept,
          again at at' db' remote remote' r r' q q' qs' base (ttl * second)
              (after_miss at db remote r q s) (serve at db remote r s) s' kept e' same soon kept_on,
        )

    -- A query that the zones do not answer, with no forwarder, gets a name error, and so does one
    -- with the same key up to 300 seconds after, whatever the database holds by then and whatever
    -- became of the zone cache in between.
    pub refused_again :
        cfg.forwarder ≡ []
        → r.question ≡ q ∷ qs
        → r'.question ≡ q' ∷ qs'
        → key_of remote r q ≡ key_of remote' r' q'
        → (Cache.get at.cache_get (key_of remote r q) s.cache).0 ≡ none
        → IsUnanswered (answers_of at db remote r q s)
        → at'.cache_get ≤ at.cache_set + negative_ttl
        → s'.cache ≡ (serve at db remote r s).1.cache
        → ((serve at db remote r s).0.rcode ≡ name_error)
          × ((serve at' db' remote' r' s').0.rcode ≡ name_error)
    refused_again plain e e' same miss none_found soon kept_on =
        let base = record (reply_base r) { rcode = name_error } in
        let kept =
          serve_miss at db remote r q qs s e miss
          ∙ respond_unanswered at (key_of remote r q) (to_lower q.name) q.qtype r (reply_base r)
              (answers_of at db remote r q s) (after_miss at db remote r q s) plain none_found in
        let refused : (serve at db remote r s).0.rcode ≡ name_error =
          ap (λ (o : M × Srv). o.0.rcode) kept in
        let next =
          again at at' db' remote remote' r r' q q' qs' base negative_ttl
            (after_miss at db remote r q s) (serve at db remote r s) s' kept e' same soon kept_on in
        (refused, ap (λ (m : M). m.rcode) next ∙ refused)
