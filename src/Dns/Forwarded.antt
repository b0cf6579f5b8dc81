-- ===== src/Dns/Forwarded.antt =====
-- Two queries in a row that the zones do not answer, with a forwarder.
use namedor.Common.{
  ℕ, ◌+◌, ◌≤◌, ◌≡◌, refl, ap, ◌∙◌, false, Option, none, some, List, [], ◌∷◌, is_empty, ◌==◌,
}
use namedor.Text.{Text, to_lower}
use namedor.Net.{Addr, Prefix}
use namedor.Gorm.{Gorm}
use namedor.Miekg.{Miekg, Question}
use namedor.Geo.{Info}
use namedor.Cache
use namedor.Dns.Lookup.{Answers}
use namedor.Dns.Serve.{Settings, Instants, Server, Message, negative_ttl, store, forward, respond}
use namedor.Dns.Repeat.{
  key_of, serve, answers_of, reply_base, after_miss, IsUnanswered, serve_miss, again,
}

module _ (dns : Miekg) (addr_text : Addr → Text)
    (exchange : Text → Message dns addr_text → Option (Message dns addr_text))
    (cfg : Settings) where
  abbrev Reply : Type 0
  Reply = Message dns addr_text

  forward_refused :
      (at : Instants) (key name : Text) (qtype : ℕ) (r m incoming : Reply)
      (s : Server dns addr_text)
      → is_empty cfg.forwarder ≡ false
      → exchange cfg.forwarder (dns.set_question (dns.fqdn name) qtype) ≡ some incoming
      → (incoming.rcode == 0) ≡ false
      → forward dns addr_text exchange cfg at key name qtype r m s ≡ (
        record incoming { id = r.id },
        store dns addr_text at key (record incoming { id = r.id }) negative_ttl s,
      )
  unfolding forward
  forward_refused at key name qtype r m incoming s there answer failed =
      rw (there, answer, failed, forward) refl

  module _ (gorm : Gorm) (parse_prefix : Text → Option Prefix) (geo : Addr → Info) where
    respond_forwarded :
        (at : Instants) (key name : Text) (qtype : ℕ) (r m : Reply) (answers : Answers dns.RR)
        (s : Server dns addr_text)
        → IsUnanswered dns addr_text exchange gorm parse_prefix geo cfg answers
        → respond dns addr_text exchange cfg at key name qtype r m answers s
          ≡ forward dns addr_text exchange cfg at key name qtype r m s
    unfolding respond
    respond_forwarded at key name qtype r m none s u = refl
    respond_forwarded at key name qtype r m (some ([], ttl)) s u = refl
    respond_forwarded at key name qtype r m (some (rr ∷ answers, ttl)) s u = absurd u

    module _ (at at' : Instants) (db db' : gorm.Db) (remote remote' : Option Addr) (r r' : Reply)
        (q q' : Question) (qs qs' : List Question) (s s' : Server dns addr_text) where
      abbrev first : Reply × Server dns addr_text
      first = serve dns addr_text exchange gorm parse_prefix geo cfg at db remote r s

      -- A query that the zones do not answer is sent to the forwarder, where one is configured. If
      -- its answer is an error, the client gets that answer with the id of the query, and a query
      -- with the same key up to 300 seconds after gets the same message from the cache, with its own
      -- id and question, whatever the database holds by then.
      pub forwarded_again :
          (incoming : Reply)
          → is_empty cfg.forwarder ≡ false
          → exchange cfg.forwarder (dns.set_question (dns.fqdn (to_lower q.name)) q.qtype)
            ≡ some incoming
          → (incoming.rcode == 0) ≡ false
          → r.question ≡ q ∷ qs
          → r'.question ≡ q' ∷ qs'
          → key_of dns addr_text exchange gorm parse_prefix geo cfg remote r q
            ≡ key_of dns addr_text exchange gorm parse_prefix geo cfg remote' r' q'
          → (Cache.get at.cache_get
              (key_of dns addr_text exchange gorm parse_prefix geo cfg remote r q)
              s.cache).0
            ≡ none
          → IsUnanswered dns addr_text exchange gorm parse_prefix geo cfg
              (answers_of dns addr_text exchange gorm parse_prefix geo cfg at db remote r q s)
          → at'.cache_get ≤ at.cache_set + negative_ttl
          → s'.cache
            ≡ (serve dns addr_text exchange gorm parse_prefix geo cfg at db remote r s).1.cache
          → ((serve dns addr_text exchange gorm parse_prefix geo cfg at db remote r s).0
              ≡ record incoming { id = r.id })
            × ((serve dns addr_text exchange gorm parse_prefix geo cfg at' db' remote' r' s').0
                ≡ record incoming { id = r'.id; question = r'.question })
      forwarded_again incoming there answer failed e e' same miss unanswered soon kept_on =
          let key = key_of dns addr_text exchange gorm parse_prefix geo cfg remote r q in
          let base = reply_base dns addr_text exchange gorm parse_prefix geo cfg r in
          let after =
            after_miss dns addr_text exchange gorm parse_prefix geo cfg at db remote r q s in
          let kept =
            serve_miss dns addr_text exchange gorm parse_prefix geo cfg at db remote r q qs s e miss
            ∙ respond_forwarded at key (to_lower q.name) q.qtype r base
                (answers_of dns addr_text exchange gorm parse_prefix geo cfg at db remote r q s)
                after unanswered
            ∙ forward_refused at key (to_lower q.name) q.qtype r base incoming after there answer
                failed in
          let reply = ap (λ (o : Reply × Server dns addr_text). o.0) kept in
          let next =
            again dns addr_text exchange gorm parse_prefix geo cfg at at' db' remote remote' r r' q
              q' qs' (record incoming { id = r.id }) negative_ttl after first s' kept e' same soon
              kept_on in
          (
            reply,
            next
                ∙ ap {A = Reply} {B = Reply} (λ m. record m { id = r'.id; question = r'.question })
                    reply,
          )
