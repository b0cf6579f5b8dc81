-- ===== src/Command/Laws.antt =====
-- When a run of the program can change the database.
use namedor.Common.{
  ◌≡◌, ◌≢◌, refl, true, false, Option, none, some, List, is_empty, Bool-cases, Option-cases, inl,
  inr,
}
use namedor.Text.{Text, codes}
use namedor.Gorm.{Gorm}
use namedor.Config.{Config, System, load, Loaded, loaded, refused}
use namedor.Config.Laws.{IsUsable, load-IsUsable}
use namedor.Command.{
  Flags, Shell, normalized_args, config_path, Source, source_of, with_config, with_flags, main,
}

module _ (gorm : Gorm) (sys : System) (sh : Shell gorm) where
  open gorm use {Db}

  -- The flags of a run that opens the database, with the configuration that it does it by.
  pub record Opens (flags : Flags) : Type 0 where
    pub cfg : Config
    pub source : Source
    pub no_version : flags.show_ver ≡ false
    pub no_password : is_empty flags.password ≡ true
    pub no_token : is_empty flags.token ≡ true
    pub no_test : flags.test_only ≡ false
    pub config :
        load sys (sh.read_config (config_path flags (sh.getenv (codes "SGDNS_CONFIG"))))
        ≡ loaded cfg
    pub usable : IsUsable sys cfg
    pub database : source_of cfg.db ≡ some source

  loaded-IsUsable :
      (read : Option Config) (cfg : Config) → load sys read ≡ loaded cfg → IsUsable sys cfg
  unfolding load
  loaded-IsUsable none cfg h = cc
  loaded-IsUsable (some c) cfg h = (load-IsUsable sys c cfg h).0

  connected-source :
      (flags : Flags) (cfg : Config) (db : Db)
      → (with_config gorm sys sh flags (loaded cfg) db).1 ≢ db
      → (flags.test_only ≡ false) × (source : Source) × (source_of cfg.db ≡ some source)
  unfolding with_config
  connected-source flags cfg db moved = elim (Bool-cases flags.test_only) [
    | inl test ↦ absurd (moved (rw (test) refl))
    | inr run ↦ elim (Option-cases (source_of cfg.db)) [
      | inl unknown ↦ absurd (moved (rw (run, unknown) refl))
      | inr (source, e) ↦ (run, source, e)
    ]
  ]

  loaded-Opens :
      (flags : Flags) (db : Db)
      → flags.show_ver ≡ false
      → is_empty flags.password ≡ true
      → is_empty flags.token ≡ true
      → (out : Loaded sys)
      → load sys (sh.read_config (config_path flags (sh.getenv (codes "SGDNS_CONFIG")))) ≡ out
      → (with_config gorm sys sh flags out db).1 ≢ db
      → Opens flags
  loaded-Opens flags db a b c (refused e) h moved = absurd (moved (unfold with_config in refl))
  loaded-Opens flags db a b c (loaded cfg) h moved =
      let (run, source, at) = connected-source flags cfg db moved in
      record {
        cfg = cfg;
        source = source;
        no_version = a;
        no_password = b;
        no_token = c;
        no_test = run;
        config = h;
        usable =
            loaded-IsUsable (sh.read_config (config_path flags (sh.getenv (codes "SGDNS_CONFIG"))))
              cfg h;
        database = at;
      }

  with_flags-Opens :
      (flags : Flags) (db : Db) → (with_flags gorm sys sh flags db).1 ≢ db → Opens flags
  unfolding with_flags
  with_flags-Opens flags db moved = elim (Bool-cases flags.show_ver) [
    | inl e ↦ absurd (moved (rw (e) refl))
    | inr a ↦ elim (Bool-cases (is_empty flags.password)) [
      | inr e ↦ absurd (moved (rw (a, e) refl))
      | inl b ↦ elim (Bool-cases (is_empty flags.token)) [
        | inr e ↦ absurd (moved (rw (a, b, e) refl))
        | inl c ↦ loaded-Opens flags db a b c _ refl (rw (a, b, c) at moved)
      ]
    ]
  ]

  -- A run of the program changes the database only if its flags ask for nothing else: for no
  -- version, no hash and no test of the configuration; and only after the configuration at the path
  -- of the flag, of the environment or of the default has been loaded, by which its addresses, limits,
  -- token, replication and certificate settings are usable and its driver is one of the three.
  pub main-Opens :
      (args : List Text) (db : Db)
      → (main gorm sys sh args db).1 ≢ db
      → (flags : Flags) × (sh.parse (normalized_args args) ≡ some flags) × Opens flags
  unfolding main
  main-Opens args db moved = elim (Option-cases (sh.parse (normalized_args args))) [
    | inl e ↦ absurd (moved (rw (e) refl))
    | inr (flags, e) ↦ (flags, e, with_flags-Opens flags db (rw (e) at moved))
  ]
