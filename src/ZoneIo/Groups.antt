-- ===== src/ZoneIo/Groups.antt =====
-- The sets that ImportBIND makes of the records of a zone file.
use namedor.Common.{
  ℕ, ◌+◌, ◌≡◌, refl, ap, sym, ◌∙◌, ◌++◌, Bool, if◌then◌else◌, append-nil, append_assoc, false, ◌&&◌,
  List, [], ◌∷◌, length, length-append, arith, All, Bool-cases, inl, inr,
}
use namedor.Text.{Text, text_eq, to_lower, to_upper}
use namedor.Text.Laws.{text_eq_symm, text_eq_refl, text_eq_iff}
use namedor.Model.{RrSet, RData}
use namedor.Soa.{new_record}
use namedor.ZoneIo.Bind.{Parsed, same_key, add_record, group_records, rdata_from_rr}

-- The number of records in the sets.
pub total : List RrSet → ℕ
total [] = 0
total (rs ∷ sets) = length rs.records + total sets

-- No two sets have one name and one type.
abbrev pub DistinctKeys : List RrSet → Type 0
DistinctKeys [] = Unit
DistinctKeys (rs ∷ sets) = All (λ t. same_key rs.name rs.type t ≡ false) sets × DistinctKeys sets

total-add_record :
    (zone_id ttl : ℕ) (p : Parsed) (sets : List RrSet)
    → total (add_record zone_id ttl p sets) ≡ total sets + 1
unfolding total add_record
total-add_record zone_id ttl p [] = omega arith
total-add_record zone_id ttl p (rs ∷ sets) =
    elim (Bool-cases (same_key (to_lower p.name) (to_upper p.type) rs)) [
      | inl e ↦
          rw e
            (omega (arith, length-append {0} rs.records (new_record (rdata_from_rr p.text) ∷ [])))
      | inr e ↦ rw e (omega (arith, total-add_record zone_id ttl p sets))
    ]

-- A set that differs from the record's key and from the sets differs from the new sets.
add_record-All :
    (zone_id ttl : ℕ) (p : Parsed) (name type : Text) (sets : List RrSet)
    → (text_eq (to_lower p.name) name && text_eq (to_upper p.type) type) ≡ false
    → All (λ t. same_key name type t ≡ false) sets
    → All (λ t. same_key name type t ≡ false) (add_record zone_id ttl p sets)
unfolding add_record
add_record-All zone_id ttl p name type [] e h = (e, tt)
add_record-All zone_id ttl p name type (rs ∷ sets) e (k, h) =
    elim (Bool-cases (same_key (to_lower p.name) (to_upper p.type) rs)) [
      | inl same ↦ rw same (k, h)
      | inr other ↦ rw other (k, add_record-All zone_id ttl p name type sets e h)
    ]

add_record-DistinctKeys :
    (zone_id ttl : ℕ) (p : Parsed) (sets : List RrSet)
    → DistinctKeys sets
    → DistinctKeys (add_record zone_id ttl p sets)
unfolding add_record
add_record-DistinctKeys zone_id ttl p [] d = (tt, tt)
add_record-DistinctKeys zone_id ttl p (rs ∷ sets) (h, d) =
    elim (Bool-cases (same_key (to_lower p.name) (to_upper p.type) rs)) [
      | inl same ↦ rw same (h, d)
      | inr other ↦
          let differs : (text_eq (to_lower p.name) rs.name && text_eq (to_upper p.type) rs.type)
              ≡ false =
            ground (
              arith,
              text_eq_symm (to_lower p.name) rs.name,
              text_eq_symm (to_upper p.type) rs.type,
            ) in
          rw other (
            add_record-All zone_id ttl p rs.name rs.type sets differs h,
            add_record-DistinctKeys zone_id ttl p sets d,
          )
    ]

group_records_lem :
    (zone_id ttl : ℕ) (ps : List Parsed) (sets : List RrSet)
    → DistinctKeys sets
    → DistinctKeys (group_records zone_id ttl ps sets)
      × (total (group_records zone_id ttl ps sets) ≡ total sets + length ps)
unfolding group_records
group_records_lem zone_id ttl [] sets d = (d, omega arith)
group_records_lem zone_id ttl (p ∷ ps) sets d =
    let (d', n) =
      group_records_lem zone_id ttl ps (add_record zone_id ttl p sets)
        (add_record-DistinctKeys zone_id ttl p sets d) in
    (d', omega (arith, n, total-add_record zone_id ttl p sets))

-- The data of the parsed records of a name and a type, in their order: what the set is to hold.
abbrev has_key : Text → Text → Parsed → Bool
has_key name type p = text_eq (to_lower p.name) name && text_eq (to_upper p.type) type

unfoldable pub data_of : Text → Text → List Parsed → List RData
data_of name type [] = []
data_of name type (p ∷ ps) =
    let rest = data_of name type ps in
    if has_key name type p then new_record (rdata_from_rr p.text) ∷ rest else rest

-- The records of the set of a name and a type; none where there is no such set.
unfoldable pub records_of : Text → Text → List RrSet → List RData
records_of name type [] = []
records_of name type (rs ∷ sets) =
    let rest = records_of name type sets in if same_key name type rs then rs.records else rest

records_of-add_record_own :
    (zone_id ttl : ℕ) (p : Parsed) (sets : List RrSet)
    → records_of (to_lower p.name) (to_upper p.type) (add_record zone_id ttl p sets)
      ≡ records_of (to_lower p.name) (to_upper p.type) sets
        ++ new_record (rdata_from_rr p.text) ∷ []
unfolding records_of add_record
records_of-add_record_own zone_id ttl p [] =
    rw (text_eq_refl (to_lower p.name), text_eq_refl (to_upper p.type)) refl
records_of-add_record_own zone_id ttl p (rs ∷ sets) =
    elim (Bool-cases (same_key (to_lower p.name) (to_upper p.type) rs)) [
      | inl same ↦ rw (same) (rw (same) refl)
      | inr other ↦ rw (other) (rw (other) (records_of-add_record_own zone_id ttl p sets))
    ]

records_of-add_record_other :
    (zone_id ttl : ℕ) (p : Parsed) (name type : Text) (sets : List RrSet)
    → has_key name type p ≡ false
    → records_of name type (add_record zone_id ttl p sets) ≡ records_of name type sets
unfolding records_of add_record
records_of-add_record_other zone_id ttl p name type [] h = rw (h) refl
records_of-add_record_other zone_id ttl p name type (rs ∷ sets) h =
    elim (Bool-cases (same_key (to_lower p.name) (to_upper p.type) rs)) [
      | inl same ↦
          let apart : same_key name type rs ≡ false =
            ground (
              arith,
              text_eq_iff rs.name (to_lower p.name),
              text_eq_iff rs.type (to_upper p.type),
            ) in
          rw (same) (rw (apart) refl)
      | inr other ↦ rw (other) (
          ap (λ rest. if same_key name type rs then rs.records else rest)
            (records_of-add_record_other zone_id ttl p name type sets h))
    ]

records_of-add_record :
    (zone_id ttl : ℕ) (p : Parsed) (name type : Text) (sets : List RrSet)
    → records_of name type (add_record zone_id ttl p sets)
      ≡ records_of name type sets ++ data_of name type (p ∷ [])
unfolding data_of
records_of-add_record zone_id ttl p name type sets = elim (Bool-cases (has_key name type p)) [
  | inl own ↦
      let same_name : to_lower p.name ≡ name =
        (text_eq_iff (to_lower p.name) name).0 (ground arith) in
      let same_type : to_upper p.type ≡ type =
        (text_eq_iff (to_upper p.type) type).0 (ground arith) in
      rw (own) (rw (sym same_name, sym same_type) (records_of-add_record_own zone_id ttl p sets))
  | inr other ↦ rw (other) (
      records_of-add_record_other zone_id ttl p name type sets other
      ∙ sym (append-nil (records_of name type sets)))
]

data_of-cons :
    (name type : Text) (p : Parsed) (ps : List Parsed)
    → data_of name type (p ∷ ps) ≡ data_of name type (p ∷ []) ++ data_of name type ps
unfolding data_of
data_of-cons name type p ps = elim (Bool-cases (has_key name type p)) [
  | inl own ↦ rw (own) refl
  | inr other ↦ rw (other) refl
]

records_of-group_records :
    (zone_id ttl : ℕ) (name type : Text) (ps : List Parsed) (sets : List RrSet)
    → records_of name type (group_records zone_id ttl ps sets)
      ≡ records_of name type sets ++ data_of name type ps
unfolding group_records
records_of-group_records zone_id ttl name type [] sets =
    unfold data_of in sym (append-nil (records_of name type sets))
records_of-group_records zone_id ttl name type (p ∷ ps) sets =
    records_of-group_records zone_id ttl name type ps (add_record zone_id ttl p sets)
    ∙ ap (λ r. r ++ data_of name type ps) (records_of-add_record zone_id ttl p name type sets)
    ∙ append_assoc (records_of name type sets) (data_of name type (p ∷ [])) (data_of name type ps)
    ∙ ap (λ r. records_of name type sets ++ r) (sym (data_of-cons name type p ps))

-- The records of a zone file are grouped into sets by name and type: no two sets have one name and
-- one type, the set of each name and type holds the data of just the file's records whose
-- lower-case name and upper-case type these are, in the order of the file, and together the sets
-- hold as many records as the file.
pub group_records_partition :
    (zone_id ttl : ℕ) (ps : List Parsed)
    → DistinctKeys (group_records zone_id ttl ps [])
      × ((name type : Text)
          → records_of name type (group_records zone_id ttl ps []) ≡ data_of name type ps)
      × (total (group_records zone_id ttl ps []) ≡ length ps)
unfolding total
group_records_partition zone_id ttl ps =
    let (d, n) = group_records_lem zone_id ttl ps [] tt in
    (
      d,
      (λ name type. unfold records_of in records_of-group_records zone_id ttl name type ps []),
      omega (arith, n),
    )
