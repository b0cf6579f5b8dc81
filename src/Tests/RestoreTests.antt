-- ===== src/Tests/RestoreTests.antt =====
-- Zones that are restored from a file, over the small database.
use namedor.Common.{
  ℕ, ◌≡◌, refl, ap, sym, none, some, List, [], ◌∷◌, length, arith, Bool-cases, Option-cases, inl,
  inr, ◌⊎◌, ◌==◌, ◌<◌,
}
use namedor.Text.{Text, codes, text_eq}
use namedor.Model.{Zone}
use namedor.Gorm.{DbError, ok, err, each}
use namedor.Gorm.Restores.{KeepsRestored}
use namedor.Rest.Sync.{zone_for}
use namedor.Backup.{BackupData, import_zones, restore_zone, erase_all, delete_sets, restored_set}
use namedor.Backup.Whole.{IsWhole, import_zones-IsWhole}
use namedor.Tests.Memory.{Tables, tables}
use namedor.Tests.StoreTests.{
  numbered, numbered_store, numbered_zones, name_at, name_at_lt, filter_others, reversed,
  master_zone, new_zone, names_differ,
}
use namedor.Tests.CopyTests.{numbered-IsAtomic}

name_at-length : (zones : List Zone) → name_at (length zones) zones ≡ none
name_at-length zones = elim (Option-cases (name_at (length zones) zones)) [
  | inl e ↦ e
  | inr (n, e) ↦ absurd (lt_irrefl (name_at_lt (length zones) n zones e))
]
  where
    lt_irrefl : length zones < length zones → ⊥
    lt_irrefl h = omega arith

new_number :
    (zone z : Zone) (t : Tables)
    → (numbered.create_zone zone t).0 ≡ ok z
    → name_at z.id t.zones ≡ none
new_number zone z t h =
    let same : record zone { id = length t.zones } ≡ z = cc in
    rw (sym same) (name_at-length t.zones)

new_name :
    (zone : Zone) (j : ℕ) (name : Text) (zones : List Zone)
    → name_at j (zone ∷ zones) ≡ some name
    → (name ≡ zone.name) ⊎ (name_at j zones ≡ some name)
new_name zone j name zones h = elim (Bool-cases (length zones == j)) [
  | inl e ↦ let same : some zone.name ≡ some name = rw (e) at h in inl (cc)
  | inr e ↦ inr (rw (e) at h)
]

abbrev numbered_restores : KeepsRestored numbered numbered_store numbered_zones
numbered_restores = record {
  name-delete_records_of = λ ids j t. refl;
  sets-delete_records_of = λ ids zone_id j t h other. refl;
  name-delete_rrsets = λ zone_id j t. refl;
  sets-delete_rrsets = λ zone_id j t other. ap reversed (filter_others zone_id j t.sets other);
  new_zone_number = λ zone z t h. new_number zone z t h;
  new_zone_name = λ zone j name t h. new_name zone j name t.zones h;
  erase_zones = λ j t h. refl;
  sets-erase_zones = λ j t. refl;
  erase_rrsets = λ j t h. refl;
}

abbrev backup : BackupData
backup = record { version = codes "1.0"; zones = master_zone ∷ new_zone ∷ [] }

import_zones-IsWhole_example :
    (((import_zones numbered (some backup) (codes "replace") tables).0 ≡ ok tt)
      × IsWhole numbered numbered_store numbered_zones numbered_restores
          (codes "replace")
          backup.zones
          (import_zones numbered (some backup) (codes "replace") tables).1)
    ⊎ (((e : DbError) × ((import_zones numbered (some backup) (codes "replace") tables).0 ≡ err e))
        × ((import_zones numbered (some backup) (codes "replace") tables).1 ≡ tables))
import_zones-IsWhole_example =
    import_zones-IsWhole numbered numbered_store numbered_zones numbered_restores numbered-IsAtomic
      backup (codes "replace") tables (inr (unfold text_eq in refl)) ((names_differ, tt), (tt, tt))

-- The file is restored, and the zone that was there has the file's sets.
replaced : (import_zones numbered (some backup) (codes "replace") tables).0 ≡ ok tt
unfolding import_zones restore_zone erase_all each zone_for delete_sets restored_set text_eq
replaced = refl
