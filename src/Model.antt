-- ===== src/Model.antt =====
-- The database rows of internal/db/models.go, as the Go structs are passed around. A pointer to a
-- string or an int that may be nil is an `Option`; `deleted` says whether DeletedAt is set. The
-- creation and update times are not read by the program and are left out.
use namedor.Common.{ℕ, ℤ, Bool, Option, List}
use namedor.Text.{Text}

pub record RData : Type 0 where
  pub id : ℕ
  pub rr_set_id : ℕ
  pub content : Text
  pub country : Option Text
  pub continent : Option Text
  pub asn : Option ℤ
  pub subnet : Option Text
  pub deleted : Bool

pub record RrSet : Type 0 where
  pub id : ℕ
  pub zone_id : ℕ
  pub name : Text
  pub type : Text
  pub ttl : ℕ
  pub records : List RData
  pub deleted : Bool

pub record Zone : Type 0 where
  pub id : ℕ
  pub name : Text
  pub rrsets : List RrSet
  pub deleted : Bool

pub record TemplateRecord : Type 0 where
  pub id : ℕ
  pub template_id : ℕ
  pub name : Text
  pub type : Text
  pub ttl : ℕ
  pub content : Text
  pub country : Option Text
  pub continent : Option Text
  pub asn : Option ℤ
  pub subnet : Option Text
  pub deleted : Bool

pub record Template : Type 0 where
  pub id : ℕ
  pub name : Text
  pub description : Text
  pub deleted : Bool
  pub records : List TemplateRecord
