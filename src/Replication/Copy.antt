-- ===== src/Replication/Copy.antt =====
-- A round of the synchronisation, from the master's answer to the slave's database.
use mathlib.Core.Path.{subst}
use namedor.Common.{
  ◌==◌, ◌++◌, sym, ◌∙◌, none, some, ℕ, ℤ, ◌≡◌, ◌≢◌, refl, ap, ◌⊎◌, inl, inr, Bool, true, false,
  Option, Bool-cases,
}
use namedor.Text.{Text, codes}
use namedor.Net.{Addr, Prefix}
use namedor.Gorm.{Gorm, Result-cases, ok}
use namedor.Gorm.Atomic.{IsAtomic}
use namedor.Gorm.Store.{IsStore}
use namedor.Gorm.Zones.{KeepsZones}
use namedor.Gorm.Templates.{KeepsTemplates}
use namedor.Rest.Sync.{SyncData, import_data}
use namedor.Rest.Sync.Full.{IsReplica, HasNames, import_data-IsReplica}
use namedor.Rest.Handlers.{Response, RestConfig, World, tell_dns, with_db, change, sync_import}
use namedor.Rest.Access.{AccessConfig, passes_acl, authenticated, guarded}
use namedor.Replication.{
  SyncConfig, SyncResult, done, stopped, request_failed, auth_header, applied, fetch_from_master,
  apply_data, sync_fetched, sync_once,
}
use namedor.Replication.Laws.{
  Delivery, lost, plain_to_tls, unanswered, answered, deliver, own_reply, own_server,
}

module _ (parse_cidr : Text → Option Prefix) (parse_ip : Text → Option Addr)
    (compare_hash : Text → Text → Bool) (gorm : Gorm) (store : IsStore gorm)
    (keeps : KeepsZones gorm store) (rows : KeepsTemplates gorm store keeps) (rest_cfg : RestConfig)
    (now : ℤ) (access : AccessConfig) (client : Text)
    (http_get : Text → Text → World gorm → Option (ℕ × Option SyncData) × World gorm)
    (delivery : Text → World gorm → Delivery) (cfg : SyncConfig) where
  abbrev pub Fetched : Type 0
  Fetched = SyncResult SyncData × World gorm

  abbrev pub fetch : World gorm → Fetched
  fetch w =
      fetch_from_master (World gorm) http_get
        (own_server parse_cidr parse_ip compare_hash gorm rest_cfg now access client http_get
          delivery cfg)
        cfg w

  abbrev pub round : World gorm → SyncResult (Unit {0}) × World gorm
  round w =
      sync_once (World gorm) http_get
        (own_server parse_cidr parse_ip compare_hash gorm rest_cfg now access client http_get
          delivery cfg)
        cfg w

  -- The own API lets the request in, and the import of the data succeeds.
  abbrev pub Takes : SyncData → World gorm → Type 0
  Takes d w =
      (passes_acl parse_cidr parse_ip compare_hash access client ≡ true)
      × (authenticated parse_cidr parse_ip compare_hash access (auth_header cfg.api_token) ≡ true)
      × ((import_data gorm d w.db).0 ≡ ok tt)

  -- The slave has the master's zones and templates, and the zone cache is cleared.
  abbrev pub IsCopy : SyncData → World gorm → World gorm → Type 0
  IsCopy d before after =
      IsReplica gorm store keeps rows after.db d
      × (after.dns_server ≡ tell_dns gorm before.dns_server)

  -- What becomes of the post.
  abbrev pub way : World gorm → Delivery
  way w = delivery (codes "http://" ++ cfg.rest_listen ++ codes "/sync/import") w

  -- The fetch gave data, the post of it arrives, and the own API takes it.
  abbrev pub Goes : Fetched → Type 0
  Goes f =
      (d : SyncData) × (f.0 ≡ done d)
      × Takes d f.1
      × ((way f.1 ≡ answered) ⊎ (way f.1 ≡ unanswered))

  abbrev pub IsRound : Fetched → SyncResult (Unit {0}) × World gorm → Type 0
  IsRound f out =
      ((d : SyncData) × (f.0 ≡ done d)
        × IsCopy d f.1 out.1
        × (((way f.1 ≡ answered) × (out.0 ≡ done tt))
            ⊎ ((way f.1 ≡ unanswered) × (out.0 ≡ stopped request_failed))))
      ⊎ ((¬ Goes f) × (out.0 ≢ done tt) × (out.1 ≡ f.1))

  done_inj : (d d' : SyncData) → done d ≡ done d' → d ≡ d'
  done_inj d d' e = cc

  abbrev reply_to : SyncData → World gorm → Response × World gorm
  reply_to d w =
      own_reply parse_cidr parse_ip compare_hash gorm rest_cfg now access client http_get delivery
        cfg (auth_header cfg.api_token) d w

  -- The API took the data, or it did not and changed nothing.
  abbrev IsTaken : SyncData → World gorm → Response × World gorm → Type 0
  IsTaken d w out =
      ((out.0.status ≡ 200) × IsCopy d w out.1)
      ⊎ ((¬ Takes d w) × ((out.0.status == 200) ≡ false) × (out.1 ≡ w))

  abbrev LetIn : Type 0
  LetIn = passes_acl parse_cidr parse_ip compare_hash access client ≡ true

  abbrev Shown : Type 0
  Shown = authenticated parse_cidr parse_ip compare_hash access (auth_header cfg.api_token) ≡ true

  -- The import, where the request is let in.
  imported-IsTaken :
      IsAtomic gorm
      → (d : SyncData) (w : World gorm) → HasNames gorm store keeps rows d
      → LetIn
      → Shown
      → IsTaken d w (reply_to d w)
  unfolding guarded change sync_import
  imported-IsTaken atomic d w names open_ right = elim (Result-cases (import_data gorm d w.db).0) [
    | inl (e, stop) ↦
        let back : (import_data gorm d w.db).1 ≡ w.db =
          unfold import_data in atomic.transaction _ w.db e stop in
        rw (open_, right, guarded, stop)
          (inr ((λ (o, r, ran). cc), refl, ap {A = gorm.Db} {B = World gorm} (with_db gorm w) back))
    | inr (u, ran) ↦
        let copy = import_data-IsReplica gorm store keeps rows atomic d w.db names ran in
        rw (open_, right, guarded, ran) (inl (refl, (copy, refl)))
  ]

  reply_to-IsTaken :
      IsAtomic gorm
      → (d : SyncData) (w : World gorm) → HasNames gorm store keeps rows d
      → IsTaken d w (reply_to d w)
  unfolding guarded
  reply_to-IsTaken atomic d w names =
      elim (Bool-cases (passes_acl parse_cidr parse_ip compare_hash access client)) [
        | inr shut ↦ rw (shut, guarded) (inr ((λ (o, r, ran). cc), refl, refl))
        | inl open_ ↦
            elim (Bool-cases
              (authenticated parse_cidr parse_ip compare_hash access (auth_header cfg.api_token))) [
                | inr wrong ↦ rw (open_, wrong, guarded) (inr ((λ (o, r, ran). cc), refl, refl))
                | inl right ↦ imported-IsTaken atomic d w names open_ right
              ]
      ]

  not_taken : (d : SyncData) (w : World gorm) → ¬ Takes d w → ¬ Goes (done d, w)
  not_taken d w no_way (d', same, takes, arrives) =
      no_way (subst (λ x. Takes x w) (sym (done_inj d d' same)) takes)

  -- A post that does not arrive.
  away-IsRound :
      (how : Delivery) (d : SyncData) (w : World gorm) (answer : Option ℕ)
      → way w ≡ how
      → how ≢ answered
      → how ≢ unanswered
      → applied answer ≢ done tt
      → IsRound (done d, w) (applied answer, w)
  away-IsRound how d w answer e other other' bad = inr (
    (λ (d', same, takes, arrives). elim arrives [
      | inl a ↦ other (sym e ∙ a)
      | inr a ↦ other' (sym e ∙ a)
    ]),
    bad,
    refl,
  )

  delivered-IsRound :
      (how : Delivery) (d : SyncData) (w : World gorm) (out : Response × World gorm)
      → way w ≡ how
      → IsTaken d w out
      → IsRound (done d, w) (applied (deliver how out w).0, (deliver how out w).1)
  unfolding deliver applied
  delivered-IsRound lost d w out e taken =
      away-IsRound lost d w none e (λ p. cc) (λ p. cc) (λ p. cc)
  delivered-IsRound plain_to_tls d w out e taken =
      away-IsRound plain_to_tls d w (some 400) e (λ p. cc) (λ p. cc) (λ p. cc)
  delivered-IsRound unanswered d w out e (inl (good, copy)) = inl (d, refl, copy, inr (e, refl))
  delivered-IsRound unanswered d w out e (inr (no_way, bad, same)) =
      inr (not_taken d w no_way, (λ p. cc), same)
  delivered-IsRound answered d w out e (inl (good, copy)) =
      inl (d, refl, copy, inl (e, rw (good) refl))
  delivered-IsRound answered d w out e (inr (no_way, bad, same)) =
      inr (not_taken d w no_way, (λ p. cc (rw (bad) at p)), same)

  sync_fetched-IsRound :
      IsAtomic gorm
      → (f : Fetched) → ((d : SyncData) → f.0 ≡ done d → HasNames gorm store keeps rows d)
      → IsRound f (
          sync_fetched
            (World gorm)
            http_get
            (own_server parse_cidr parse_ip compare_hash gorm rest_cfg now access client http_get
              delivery cfg)
            cfg
            f)
  unfolding sync_fetched apply_data
  sync_fetched-IsRound atomic (stopped e, w) names =
      inr ((λ (d, same, takes, arrives). cc), (λ p. cc), refl)
  sync_fetched-IsRound atomic (done d, w) names =
      delivered-IsRound (way w) d w (reply_to d w) refl (reply_to-IsTaken atomic d w (names d refl))

  -- A round of a slave's synchronisation, from the request to the master to the answer of the slave's
  -- own API, over a database that keeps what gorm documents, where no two zones and no two templates
  -- of the master have one name, whatever becomes of the two requests on their way. Either the
  -- slave's database has every zone of the master with the master's sets, and every template with its
  -- description and records, and the zone cache is cleared, and then the round succeeds if the
  -- answer to the post comes back, and fails as a request that failed if it does not; or the round
  -- does not succeed, and the slave is as the fetch left it. It is the first wherever the fetch gave
  -- data, the post arrives, the own API's list of networks and token let it in, and the import's
  -- transaction succeeds.
  pub sync_once-IsRound :
      IsAtomic gorm
      → (w : World gorm)
      → ((d : SyncData) → (fetch w).0 ≡ done d → HasNames gorm store keeps rows d)
      → IsRound (fetch w) (round w)
  unfolding sync_once
  sync_once-IsRound atomic w names = sync_fetched-IsRound atomic (fetch w) names
