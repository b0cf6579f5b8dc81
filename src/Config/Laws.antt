-- ===== src/Config/Laws.antt =====
-- What a configuration that Load accepts satisfies.
use mathlib.Core.Path.{subst}
use namedor.Common.{
  ℕ, ◌≤◌, ◌≡◌, refl, ap, ◌∙◌, ℤ, pos, negsuc, Bool, true, false, not, ◌&&◌, Option, none, some,
  List, [], ◌∷◌, is_empty, is_zero, is_negative, is_positive, arith, All, Option-cases, inl, inr,
  ◌⊎◌,
}
use namedor.Text.{Text, text_eq}
use namedor.Text.Decimal.{parse_int}
use namedor.Config.{
  Config, System, ConfigError, PerformanceConfig, ReplicationConfig, is_slave, slave,
  is_tls_enabled, apply_defaults, ◌and_then◌, validate_host_port, validate_addr,
  validate_performance, validate_replication, validate_tls, validate_cidrs, validate, wrap, fail_if,
  loaded, refused, load,
}

-- Two checks in a row find nothing only if each finds nothing.
and_then_none : (a b : Option ConfigError) → (a and_then b) ≡ none → (a ≡ none) × (b ≡ none)
and_then_none none b h = (refl, h)
and_then_none (some e) b h = cc

wrap-none : (f : ConfigError → ConfigError) (o : Option ConfigError) → wrap f o ≡ none → o ≡ none
wrap-none f none h = refl
wrap-none f (some e) h = cc

fail_if-none : (b : Bool) (e : ConfigError) → fail_if b e ≡ none → b ≡ false
fail_if-none true e h = cc
fail_if-none false e h = refl

one_of : (a b : Bool) → (not a && not b) ≡ false → (a ≡ true) ⊎ (b ≡ true)
one_of true b h = inl refl
one_of false true h = inr refl
one_of false false h = cc

-- Applying the defaults twice is applying them once.
apply_defaults_idem : (c : Config) → apply_defaults (apply_defaults c) ≡ apply_defaults c
unfolding apply_defaults
apply_defaults_idem c = ground arith

slave_panel_off :
    (c : Config) → is_slave (apply_defaults c) ≡ true → (apply_defaults c).admin.enabled ≡ false
unfolding apply_defaults
slave_panel_off c e = ground arith

cache_size_set : (c : Config) → is_zero (apply_defaults c).performance.cache_size ≡ false
unfolding apply_defaults
cache_size_set c = ground arith

module _ (sys : System) where
  -- `host:port` with a port of a machine.
  pub record IsAddr (addr : Text) : Type 0 where
    pub host : Text
    pub port : Text
    pub number : ℕ
    pub split : sys.split_host_port addr ≡ some (host, port)
    pub parsed : parse_int port ≡ some (pos number)
    pub low : 1 ≤ number
    pub high : number ≤ 65535

  validate_port :
      (host port : Text)
      → validate_host_port sys host port ≡ none
      → (n : ℕ) × (parse_int port ≡ some (pos n)) × (1 ≤ n) × (n ≤ 65535)
  unfolding validate_host_port
  validate_port host port h = go (parse_int port) refl h
    where
      go :
          (o : Option ℤ)
          → parse_int port ≡ o
          → validate_host_port sys host port ≡ none
          → (n : ℕ) × (parse_int port ≡ some (pos n)) × (1 ≤ n) × (n ≤ 65535)
      go none e k = cc (rw (e, validate_host_port) at k)
      go (some (pos n)) e k = (n, e, ground arith, ground arith)
      go (some (negsuc n)) e k = cc (rw (e, validate_host_port) at k)

  validate_addr-IsAddr : (addr : Text) → validate_addr sys addr ≡ none → IsAddr addr
  unfolding validate_addr
  validate_addr-IsAddr addr h = elim (Option-cases (sys.split_host_port addr)) [
    | inl e ↦ cc (rw (e, validate_addr) at h)
    | inr ((host, port), e) ↦
        let (n, parsed, low, high) = validate_port host port (rw (e, validate_addr) at h) in
        record {
          host = host;
          port = port;
          number = n;
          split = e;
          parsed = parsed;
          low = low;
          high = high;
        }
  ]

  validate_cidrs-All :
      (cidrs : List Text) → validate_cidrs sys cidrs ≡ none → All (λ s. sys.is_cidr s ≡ true) cidrs
  unfolding validate_cidrs
  validate_cidrs-All [] h = tt
  validate_cidrs-All (s ∷ cidrs) h =
      (ground arith, validate_cidrs-All cidrs (and_then_none _ _ h).1)

  performance_lem :
      (p : PerformanceConfig)
      → validate_performance sys p ≡ none
      → (is_negative p.cache_size ≡ false)
        × (is_positive p.dns_timeout_sec ≡ true)
        × (is_positive p.forwarder_timeout_sec ≡ true)
  unfolding validate_performance
  performance_lem p h = (ground arith, ground arith, ground arith)

  replication_lem :
      (r : ReplicationConfig)
      → validate_replication sys r ≡ none
      → (text_eq r.replication_mode slave ≡ true → is_empty r.master_url ≡ false)
        × (text_eq r.replication_mode slave ≡ true → is_positive r.sync_interval_sec ≡ true)
  unfolding validate_replication
  replication_lem r h = ((λ e. ground arith), (λ e. ground arith))

  tls_lem :
      (c : Config)
      → validate_tls sys c ≡ none
      → (is_empty c.tls_cert_file ≡ is_empty c.tls_key_file)
        × (is_tls_enabled c ≡ true
            → (sys.stat c.tls_cert_file ≡ true) × (sys.stat c.tls_key_file ≡ true))
  unfolding validate_tls
  tls_lem c h = (ground arith, (λ e. (ground arith, ground arith)))

  -- What the servers rely on.
  pub record IsUsable (c : Config) : Type 0 where
    pub listens : IsAddr c.listen
    pub rest_listens : IsAddr c.rest_listen
    pub has_driver : is_empty c.db.driver ≡ false
    pub has_dsn : is_empty c.db.dsn ≡ false
    pub cache_size : is_negative c.performance.cache_size ≡ false
    pub dns_timeout : is_positive c.performance.dns_timeout_sec ≡ true
    pub forwarder_timeout : is_positive c.performance.forwarder_timeout_sec ≡ true
    pub one_token : (is_empty c.api_token ≡ true) ⊎ (is_empty c.api_token_hash ≡ true)
    pub slave_url : is_slave c ≡ true → is_empty c.replication.master_url ≡ false
    pub slave_interval : is_slave c ≡ true → is_positive c.replication.sync_interval_sec ≡ true
    pub tls_together : is_empty c.tls_cert_file ≡ is_empty c.tls_key_file
    pub tls_files :
        is_tls_enabled c ≡ true
        → (sys.stat c.tls_cert_file ≡ true) × (sys.stat c.tls_key_file ≡ true)
    pub cidrs : All (λ s. sys.is_cidr s ≡ true) c.allowed_cidrs

  -- A configuration in which Validate finds no error is usable.
  pub validate-IsUsable : (c : Config) → validate sys c ≡ none → IsUsable c
  unfolding validate
  validate-IsUsable c h =
      let (l, h1) = and_then_none _ _ h in
      let (rl, h2) = and_then_none _ _ h1 in
      let (fwd, h3) = and_then_none _ _ h2 in
      let (driver, h4) = and_then_none _ _ h3 in
      let (dsn, h5) = and_then_none _ _ h4 in
      let (geo, h6) = and_then_none _ _ h5 in
      let (perf, h7) = and_then_none _ _ h6 in
      let (tokens, h8) = and_then_none _ _ h7 in
      let (repl, h9) = and_then_none _ _ h8 in
      let (tls, cidrs) = and_then_none _ _ h9 in
      let p = performance_lem c.performance perf in
      let r = replication_lem c.replication repl in
      let t = tls_lem c tls in
      record {
        listens = validate_addr-IsAddr c.listen (wrap-none _ _ l);
        rest_listens = validate_addr-IsAddr c.rest_listen (wrap-none _ _ rl);
        has_driver = fail_if-none _ _ driver;
        has_dsn = fail_if-none _ _ dsn;
        cache_size = p.0;
        dns_timeout = p.1;
        forwarder_timeout = p.2;
        one_token =
            one_of (is_empty c.api_token) (is_empty c.api_token_hash) (fail_if-none _ _ tokens);
        slave_url = r.0;
        slave_interval = r.1;
        tls_together = t.0;
        tls_files = t.1;
        cidrs = validate_cidrs-All c.allowed_cidrs cidrs;
      }

  abbrev GoodLoad : Config → Type 0
  GoodLoad c =
      IsUsable c
      × (is_slave c ≡ true → c.admin.enabled ≡ false)
      × (is_zero c.performance.cache_size ≡ false)
      × (load sys (some c) ≡ loaded c)

  accepted_eq :
      (c₀ c : Config)
      → load sys (some c₀) ≡ loaded c
      → validate sys (apply_defaults c₀) ≡ none
      → apply_defaults c₀ ≡ c
  unfolding load
  accepted_eq c₀ c h e =
      let same : loaded (apply_defaults c₀) ≡ loaded c = rw (e, load) at h in cc same

  refused_ne :
      (c₀ c : Config) (err : ConfigError)
      → load sys (some c₀) ≡ loaded c
      → validate sys (apply_defaults c₀) ≡ some err
      → ⊥
  unfolding load
  refused_ne c₀ c err h e = let differ : refused err ≡ loaded c = rw (e, load) at h in cc differ

  load_accepted :
      (c : Config)
      → validate sys (apply_defaults c) ≡ none
      → load sys (some c) ≡ loaded (apply_defaults c)
  unfolding load
  load_accepted c e = rw (e, load)

  load_again :
      (c : Config)
      → validate sys (apply_defaults c) ≡ none
      → load sys (some (apply_defaults c)) ≡ loaded (apply_defaults c)
  load_again c e =
      load_accepted (apply_defaults c) (ap (validate sys) (apply_defaults_idem c) ∙ e)
      ∙ ap loaded (apply_defaults_idem c)

  good_load : (c : Config) → validate sys (apply_defaults c) ≡ none → GoodLoad (apply_defaults c)
  good_load c e =
      (validate-IsUsable (apply_defaults c) e, slave_panel_off c, cache_size_set c, load_again c e)

  -- What Load returns of a file is usable; on a slave its web panel is off; its settings with a
  -- default are set, so that the cache has room for an entry; and loading it again changes nothing.
  pub load-IsUsable :
      (c₀ c : Config)
      → load sys (some c₀) ≡ loaded c
      → IsUsable c
        × (is_slave c ≡ true → c.admin.enabled ≡ false)
        × (is_zero c.performance.cache_size ≡ false)
        × (load sys (some c) ≡ loaded c)
  load-IsUsable c₀ c h = elim (Option-cases (validate sys (apply_defaults c₀))) [
    | inl e ↦ subst GoodLoad (accepted_eq c₀ c h e) (good_load c₀ e)
    | inr (err, e) ↦ absurd (refused_ne c₀ c err h e)
  ]
