-- ===== src/Dns/Replies.antt =====
-- What the handler of DNS queries writes.
use namedor.Common.{ℕ, ◌≡◌, refl, Option, none, some, List, [], ◌∷◌, arith}
use namedor.Text.{Text, to_lower}
use namedor.Net.{Addr, Prefix}
use namedor.Gorm.{Gorm}
use namedor.Miekg.{Miekg, Question}
use namedor.Geo.{Info}
use namedor.Cache.{Cache}
use namedor.Dns.Lookup.{Answers}
use namedor.Dns.Serve.{
  Settings, Instants, Server, Message, forward, respond, resolve, serve_questions, serve_dns,
}

module _ (dns : Miekg) (addr_text : Addr → Text)
    (exchange : Text → Message dns addr_text → Option (Message dns addr_text)) where
  abbrev M : Type 0
  M = Message dns addr_text

  forward-id :
      (cfg : Settings) (at : Instants) (key name : Text) (qtype : ℕ) (r m : M)
      (s : Server dns addr_text)
      → m.id ≡ r.id
      → (forward dns addr_text exchange cfg at key name qtype r m s).0.id ≡ r.id
  unfolding forward
  forward-id cfg at key name qtype r m s h = ground arith

  respond-id :
      (cfg : Settings) (at : Instants) (key name : Text) (qtype : ℕ) (r m : M)
      (answers : Answers dns.RR) (s : Server dns addr_text)
      → m.id ≡ r.id
      → (respond dns addr_text exchange cfg at key name qtype r m answers s).0.id ≡ r.id
  unfolding respond
  respond-id cfg at key name qtype r m none s h = forward-id cfg at key name qtype r m s h
  respond-id cfg at key name qtype r m (some ([], ttl)) s h =
      forward-id cfg at key name qtype r m s h
  respond-id cfg at key name qtype r m (some (rr ∷ answers, ttl)) s h = h

  module _ (gorm : Gorm) (parse_prefix : Text → Option Prefix) (geo : Addr → Info) where
    resolve-id :
        (cfg : Settings) (at : Instants) (db : gorm.Db) (key name : Text) (qtype : ℕ) (ip : Addr)
        (r m : M) (got : Option M × Cache M) (s : Server dns addr_text)
        → m.id ≡ r.id
        → (resolve dns addr_text exchange gorm parse_prefix geo cfg at db key name qtype ip r m got
            s).0.id
          ≡ r.id
    unfolding resolve
    resolve-id cfg at db key name qtype ip r m (some cached, c) s h = refl
    resolve-id cfg at db key name qtype ip r m (none, c) s h =
        respond-id cfg at key name qtype r m _ _ h

    serve_questions-id :
        (cfg : Settings) (at : Instants) (db : gorm.Db) (remote : Option Addr) (r m : M)
        (questions : List Question) (s : Server dns addr_text)
        → m.id ≡ r.id
        → (serve_questions dns addr_text exchange gorm parse_prefix geo cfg at db remote r m
            questions s).0.id
          ≡ r.id
    unfolding serve_questions
    serve_questions-id cfg at db remote r m [] s h = h
    serve_questions-id cfg at db remote r m (q ∷ qs) s h =
        resolve-id cfg at db _ (to_lower q.name) q.qtype _ r m _ s h

    -- Every query gets a reply with its own id, on every path: with no question, from the cache,
    -- from the zones, from the forwarder, and the negative one; if SetReply copies the id.
    pub id-serve_dns :
        ((r : M) → (dns.set_reply r).id ≡ r.id)
        → (cfg : Settings) (at : Instants) (db : gorm.Db) (remote : Option Addr) (r : M)
          (s : Server dns addr_text)
        → (serve_dns dns addr_text exchange gorm parse_prefix geo cfg at db remote r s).0.id ≡ r.id
    unfolding serve_dns
    id-serve_dns copies cfg at db remote r s =
        serve_questions-id cfg at db remote r _ r.question s (copies r)
