-- ===== src/Tests/CommandTests.antt =====
-- The commands, the certificates and the downloads at concrete inputs.
use namedor.Common.{
  ◌≡◌, ◌≢◌, refl, true, false, none, some, List, [], ◌∷◌, length, ap, sym, ◌∙◌, arith,
}
use namedor.Text.{Text, codes, text_eq, contains, has_prefix, trim_prefix}
use namedor.Text.Decimal.{parse_int}
use namedor.Gorm.{ok, each}
use namedor.Tests.Memory.{memory, tables, Tables}
use namedor.Tests.ConfigTests.{system, written}
use namedor.Config.{
  load, validate, validate_addr, validate_host_port, validate_host, validate_geoip,
  validate_performance, known_mode, validate_replication, validate_tls, validate_cidrs,
  apply_defaults, is_tls_enabled,
}
use namedor.Backup.{BackupData, import_zones, erase_all}
use namedor.Command.{
  Flags, Shell, normalized_args, config_path, source_of, export_or_import, with_config, with_flags,
  main,
}
use namedor.Command.Laws.{Opens, main-Opens}

-- A backup of no zones replaces what is there.
abbrev empty_backup : BackupData
empty_backup = record { version = codes "1.0"; zones = [] }

abbrev flags : Flags
flags = record {
  cfg_path = codes "prod.yaml";
  test_only = false;
  password = [];
  token = [];
  show_ver = false;
  export_file = [];
  import_file = codes "backup.json";
  import_mode = codes "replace";
}

abbrev shell : Shell memory
shell = record {
  parse = λ args. some flags;
  getenv = λ name. [];
  generate = λ s. none;
  read_config = λ path. some written;
  read_backup = λ path. some empty_backup;
  write_backup = λ path backup. true;
  connect = λ source. true;
  migrate = λ t. (ok tt, t);
}

abbrev args : List Text
args =
    codes "--config"
    ∷ codes "prod.yaml"
    ∷ codes "--import"
    ∷ codes "backup.json"
    ∷ codes "-import-mode"
    ∷ codes "replace"
    ∷ []

emptied : (main memory system shell args tables).1.zones ≡ []
unfolding main with_flags with_config export_or_import source_of config_path normalized_args
    import_zones erase_all each load validate validate_addr validate_host_port validate_host
    validate_geoip validate_performance known_mode validate_replication validate_tls validate_cidrs
    apply_defaults is_tls_enabled parse_int text_eq contains has_prefix trim_prefix
emptied = refl

database_emptied : (main memory system shell args tables).1 ≢ tables
database_emptied e =
    let none_left : length tables.zones ≡ 0 =
      ap (λ (t : Tables). length t.zones) (sym e) ∙ ap length emptied in
    omega arith

main-Opens_example :
    (f : Flags) × (shell.parse (normalized_args args) ≡ some f) × Opens memory system shell f
main-Opens_example = main-Opens memory system shell args tables database_emptied
