-- ===== src/Command/Seed.antt =====
-- cmd/seed-templates/main.go: the two templates that it stores. What it prints is left out.
pub mod Laws
use namedor.Common.{
  ℕ, ◌≡◌, refl, true, false, none, List, [], ◌∷◌, ◌++◌, All, arith, append_assoc, append-nil, ap,
  ◌∙◌, is_empty, Option, some, if◌then◌else◌,
}
use namedor.Text.{Text, codes, has_suffix, has_prefix, text_eq, replace_all, replace_from}
use namedor.Text.Affix.{has_suffix-append}
use namedor.Model.{Template, TemplateRecord}
use namedor.Gorm.{Gorm, Result, ok, err}
use namedor.Config.{System, Loaded, loaded, refused, load}
use namedor.Command.{Run, bad_config, no_database, no_migration, seeded, Shell, Source, source_of}
use namedor.Web.Templates.{applied_name, filled}

-- The calls of gorm beyond those of Gorm: FirstOrCreate by the name, and the deletion of the records
-- of a template.
pub record SeedDb (gorm : Gorm) : Type 0 where
  pub first_or_create : Template → gorm.Db → Result Template × gorm.Db
  pub delete_records_of_template : ℕ → gorm.Db → gorm.Db

unfoldable pub seed_record : (name type : Text) (ttl : ℕ) (content : Text) → ℕ → TemplateRecord
seed_record name type ttl content template_id = record {
  id = 0;
  template_id = template_id;
  name = name;
  type = type;
  ttl = ttl;
  content = content;
  country = none;
  continent = none;
  asn = none;
  subnet = none;
  deleted = false;
}

unfoldable pub mail_server_records : ℕ → List TemplateRecord
unfolding seed_record
mail_server_records id =
    seed_record (codes "{domain}") (codes "MX") 3600 (codes "10 mail.{domain}") id
    ∷ seed_record (codes "mail.{domain}") (codes "A") 3600 (codes "192.0.2.10") id
    ∷ seed_record (codes "{domain}") (codes "TXT") 3600 (codes "v=spf1 mx ~all") id
    ∷ seed_record (codes "_dmarc.{domain}") (codes "TXT") 3600
        (codes "v=DMARC1; p=quarantine; rua=mailto:dmarc@{domain}") id
    ∷ seed_record (codes "default._domainkey.{domain}") (codes "TXT") 3600
        (codes "v=DKIM1; k=rsa; p=YOUR_PUBLIC_KEY_HERE") id
    ∷ []

unfoldable pub web_server_records : ℕ → List TemplateRecord
unfolding seed_record
web_server_records id =
    seed_record (codes "{domain}") (codes "A") 300 (codes "192.0.2.1") id
    ∷ seed_record (codes "www.{domain}") (codes "A") 300 (codes "192.0.2.1") id
    ∷ []

module _ (gorm : Gorm) (seed : SeedDb gorm) where
  open gorm use {Db}

  -- The loop over the records, which goes on after an error.
  unfoldable pub create_all : List TemplateRecord → Db → Db
  create_all [] db = db
  create_all (t ∷ records) db = create_all records (gorm.create_template_record t db).1

  abbrev with_records : (ℕ → List TemplateRecord) → Result Template × Db → Db
  with_records records (err e, db) = db
  with_records records (ok t, db) =
      create_all (records t.id) (seed.delete_records_of_template t.id db)

  unfoldable pub seed_template : (name description : Text) → (ℕ → List TemplateRecord) → Db → Db
  unfolding create_all
  seed_template name description records db = with_records records (
      seed.first_or_create
        (record { id = 0; name = name; description = description; deleted = false; records = [] })
        db)

  unfoldable pub seed_mail_server_template : Db → Db
  unfolding seed_template mail_server_records
  seed_mail_server_template =
      seed_template (codes "Mail Server")
        (codes "Complete mail server setup with MX, SPF, DKIM, and DMARC records")
        mail_server_records

  unfoldable pub seed_web_server_template : Db → Db
  unfolding seed_template web_server_records
  seed_web_server_template =
      seed_template (codes "Web Server") (codes "Basic web server with www and root A records")
        web_server_records

  unfoldable pub seed_templates : Db → Db
  unfolding seed_mail_server_template seed_web_server_template
  seed_templates db = seed_web_server_template (seed_mail_server_template db)

  -- The path of the configuration: the first argument after the name of the program.
  unfoldable pub seed_path : List Text → Text
  seed_path [] = codes "config.yaml"
  seed_path (path ∷ args) = path

  module _ (sys : System) (sh : Shell gorm) where
    abbrev seed_migrated : Result (Unit {0}) × Db → Run × Db
    seed_migrated (err e, db) = (no_migration, db)
    seed_migrated (ok u, db) = (seeded, seed_templates db)

    abbrev seed_connected : Option Source → Db → Run × Db
    seed_connected none db = (no_database, db)
    seed_connected (some source) db =
        if sh.connect source then seed_migrated (sh.migrate db) else (no_database, db)

    abbrev seed_with : Loaded sys → Db → Run × Db
    seed_with (refused e) db = (bad_config e, db)
    seed_with (loaded cfg) db = seed_connected (source_of cfg.db) db

    -- main of cmd/seed-templates
    unfoldable pub seed_main : List Text → Db → Run × Db
    unfolding seed_path source_of seed_templates
    seed_main args db = seed_with (load sys (sh.read_config (seed_path args))) db
