-- ===== src/Command.antt =====
-- cmd/namedot/main.go, with Open of internal/db/open.go: what the program does with its arguments.
-- The flag package, the environment, the files, bcrypt and the database drivers are the interface
-- `Shell`. What a run prints is left out but for hashes; the servers that it starts are modelled by
-- the other parts.
pub mod Laws
pub mod Seed
use namedor.Common.{
  Bool, true, false, not, ◌&&◌, ◌||◌, Option, none, some, List, [], ◌∷◌, ◌++◌, is_empty,
  if◌then◌else◌,
}
use namedor.Text.{Text, codes, text_eq, has_prefix, trim_prefix}
use namedor.Gorm.{Gorm, Result, ok, err}
use namedor.Config.{Config, DbConfig, System, ConfigError, load, Loaded, loaded, refused, is_slave}
use namedor.Backup.{BackupData, export_zones, import_zones}

-- The loop over the arguments: two dashes become one, up to an argument of two dashes.
unfoldable pub normalized_args : List Text → List Text
normalized_args [] = []
normalized_args (a ∷ args) =
    let rest = normalized_args args in
    if text_eq a (codes "--")
    then a ∷ args
    else if has_prefix a (codes "--")
    then (codes "-" ++ trim_prefix a (codes "--")) ∷ rest
    else a ∷ rest

-- What flag.Parse stores.
pub record Flags : Type 0 where
  pub cfg_path : Text
  pub test_only : Bool
  pub password : Text
  pub token : Text
  pub show_ver : Bool
  pub export_file : Text
  pub import_file : Text
  pub import_mode : Text

-- The flag, or else the environment, or else the default.
unfoldable pub config_path : Flags → (env : Text) → Text
config_path flags env =
    if not (is_empty flags.cfg_path)
    then flags.cfg_path
    else if not (is_empty env)
    then env
    else codes "config.yaml"

-- What is opened for a driver: the kind of the database, with the data source.
pub data Source : Type 0 where
  postgres mysql sqlite : (dsn : Text) → Source

abbrev default_dsn : Text
default_dsn = codes "file:namedot.db?_foreign_keys=on"

unfoldable pub source_of : DbConfig → Option Source
source_of cfg =
    if text_eq cfg.driver (codes "postgres") || text_eq cfg.driver (codes "postgresql")
    then some (postgres cfg.dsn)
    else if text_eq cfg.driver (codes "mysql")
    then some (mysql cfg.dsn)
    else if text_eq cfg.driver (codes "sqlite")
        || text_eq cfg.driver (codes "sqlite3")
        || is_empty cfg.driver
    then some (sqlite (if is_empty cfg.dsn then default_dsn else cfg.dsn))
    else none

pub record Shell (gorm : Gorm) : Type 0 where
  -- flag.Parse on the arguments; it ends the program where they are wrong, or ask for help
  pub parse : List Text → Option Flags
  pub getenv : Text → Text
  -- bcrypt.GenerateFromPassword
  pub generate : Text → Option Text
  -- a configuration file that is there and is YAML; a backup that is there and is JSON
  pub read_config : Text → Option Config
  pub read_backup : Text → Option BackupData
  pub write_backup : Text → BackupData → Bool
  -- gorm.Open and AutoMigrate
  pub connect : Source → Bool
  pub migrate : gorm.Db → Result (Unit {0}) × gorm.Db

-- How a run ends, or that it serves, with a slave's synchronisation or without.
pub data Run : Type 0 where
  usage : Run
  version : Run
  hashed : (hash : Text) → Run
  no_hash : Run
  bad_config : ConfigError → Run
  config_ok : Run
  no_database no_migration : Run
  exported export_failed : Run
  bad_mode imported import_failed : Run
  seeded : Run
  serves : (syncs : Bool) → Run

module _ (gorm : Gorm) (sys : System) (sh : Shell gorm) where
  open gorm use {Db}

  abbrev hash_of : Option Text → Run
  hash_of none = no_hash
  hash_of (some hash) = hashed hash

  -- os.WriteFile of the zones of the database
  abbrev written : Text → Result BackupData → Run
  written path (err e) = export_failed
  written path (ok backup) = if sh.write_backup path backup then exported else export_failed

  abbrev import_end : Result (Unit {0}) × Db → Run × Db
  import_end (ok u, db) = (imported, db)
  import_end (err e, db) = (import_failed, db)

  unfoldable pub export_or_import : Config → Flags → Db → Run × Db
  export_or_import cfg flags db =
      if not (is_empty flags.export_file)
      then (written flags.export_file (export_zones gorm db), db)
      else if not (is_empty flags.import_file)
      then if not (text_eq flags.import_mode (codes "merge"))
          && not (text_eq flags.import_mode (codes "replace"))
        then (bad_mode, db)
        else import_end (import_zones gorm (sh.read_backup flags.import_file) flags.import_mode db)
      else (serves (is_slave cfg), db)

  abbrev migrated : Config → Flags → Result (Unit {0}) × Db → Run × Db
  migrated cfg flags (err e, db) = (no_migration, db)
  migrated cfg flags (ok u, db) = export_or_import cfg flags db

  abbrev connected : Config → Flags → Option Source → Db → Run × Db
  connected cfg flags none db = (no_database, db)
  connected cfg flags (some source) db =
      if sh.connect source then migrated cfg flags (sh.migrate db) else (no_database, db)

  -- From the load of the configuration on.
  unfoldable pub with_config : Flags → Loaded sys → Db → Run × Db
  unfolding source_of export_or_import
  with_config flags (refused e) db = (bad_config e, db)
  with_config flags (loaded cfg) db =
      if flags.test_only then (config_ok, db) else connected cfg flags (source_of cfg.db) db

  unfoldable pub with_flags : Flags → Db → Run × Db
  unfolding with_config config_path
  with_flags flags db =
      if flags.show_ver
      then (version, db)
      else if not (is_empty flags.password)
      then (hash_of (sh.generate flags.password), db)
      else if not (is_empty flags.token)
      then (hash_of (sh.generate flags.token), db)
      else with_config flags
          (load sys (sh.read_config (config_path flags (sh.getenv (codes "SGDNS_CONFIG"))))) db

  abbrev parsed : Option Flags → Db → Run × Db
  parsed none db = (usage, db)
  parsed (some flags) db = with_flags flags db

  -- main, for the arguments after the name of the program
  unfoldable pub main : List Text → Db → Run × Db
  unfolding normalized_args with_flags
  main args db = parsed (sh.parse (normalized_args args)) db

  -- cmd/hashpwd/main.go
  unfoldable pub hashpwd : List Text → Run
  hashpwd [] = usage
  hashpwd (password ∷ args) = hash_of (sh.generate password)
