-- ===== src/Names/Laws.antt =====
-- Where the names come to lie, letter case, and where the two functions agree.
use namedor.Common.{
  ℕ, ◌≡◌, refl, ap, sym, ◌∙◌, true, false, [], ◌∷◌, ◌++◌, if◌then◌else◌, arith, Bool-cases, inl,
  inr, All, All-append, append_assoc,
}
use namedor.Text.{Text, text_eq, lower, to_lower, to_upper, has_suffix, trim_suffix, trim_space}
use namedor.Text.Laws.{to_lower-to_upper}
use namedor.Text.Affix.{has_suffix-append, trim_suffix-append, trim_suffix_of_not}
use namedor.Names.{dot, dot_at, origin, is_apex, fqdn, to_fqdn}

-- No letter in upper case.
abbrev pub IsLower : Text → Type 0
IsLower s = All (λ c. lower c ≡ c) s

IsLower-to_lower : (s : Text) → IsLower (to_lower s)
unfolding to_lower
IsLower-to_lower [] = tt
IsLower-to_lower (c ∷ s) = (unfold lower in ground arith, IsLower-to_lower s)

to_lower_of_IsLower : (s : Text) → IsLower s → to_lower s ≡ s
unfolding to_lower
to_lower_of_IsLower [] h = refl
to_lower_of_IsLower (c ∷ s) (p, h) = cc (to_lower_of_IsLower s h)

All-trim_suffix : (P : ℕ → Type 0) (s suffix : Text) → All P s → All P (trim_suffix s suffix)
unfolding trim_suffix
All-trim_suffix P [] suffix h = tt
All-trim_suffix P (c ∷ s) suffix (p, h) = elim (Bool-cases (text_eq (c ∷ s) suffix)) [
  | inl e ↦ rw e tt
  | inr e ↦ rw e (p, All-trim_suffix P s suffix h)
]

origin-IsLower : (zone : Text) → IsLower (origin zone)
unfolding origin
origin-IsLower zone = All-trim_suffix _ (to_lower zone) dot (IsLower-to_lower zone)

abbrev bare_name : Text → Text
bare_name name =
    let n = to_lower name in
    let relative = if has_suffix n dot_at then trim_suffix n dot_at else n in
    trim_suffix relative dot

bare_name-IsLower : (name : Text) → IsLower (bare_name name)
bare_name-IsLower name = elim (Bool-cases (has_suffix (to_lower name) dot_at)) [
  | inl e ↦ rw e (
      All-trim_suffix _ (trim_suffix (to_lower name) dot_at) dot
        (All-trim_suffix _ (to_lower name) dot_at (IsLower-to_lower name)))
  | inr e ↦ rw e (All-trim_suffix _ (to_lower name) dot (IsLower-to_lower name))
]

dot-IsLower : IsLower dot
unfolding lower
dot-IsLower = (refl, tt)

join_name : Text → Text → Text
join_name bare z = if is_apex bare then z ++ dot else bare ++ dot ++ z ++ dot

fqdn-eq-join_name : (name zone : Text) → fqdn name zone ≡ join_name (bare_name name) (origin zone)
unfolding fqdn join_name
fqdn-eq-join_name name zone = refl

join_name-IsLower : (bare z : Text) → IsLower bare → IsLower z → IsLower (join_name bare z)
unfolding join_name
join_name-IsLower bare z h k =
    let zone_dot = All-append (λ c. lower c ≡ c) z dot k dot-IsLower in
    elim (Bool-cases (is_apex bare)) [
      | inl e ↦ rw e zone_dot
      | inr e ↦ rw e (
          All-append (λ c. lower c ≡ c) (bare ++ dot ++ z) dot
            (All-append (λ c. lower c ≡ c) (bare ++ dot) z
              (All-append (λ c. lower c ≡ c) bare dot h dot-IsLower) k)
            dot-IsLower)
    ]

-- What fqdn returns has no letter in upper case: the ToLower that createRRSet and updateRRSet put
-- around it changes nothing.
to_lower-fqdn : (name zone : Text) → to_lower (fqdn name zone) ≡ fqdn name zone
to_lower-fqdn name zone = rw fqdn-eq-join_name (
    to_lower_of_IsLower _ (
      join_name-IsLower (bare_name name) (origin zone) (bare_name-IsLower name)
        (origin-IsLower zone)))

bare_name-to_upper : (name : Text) → bare_name (to_upper name) ≡ bare_name name
bare_name-to_upper name =
    ap (λ n. trim_suffix (if has_suffix n dot_at then trim_suffix n dot_at else n) dot)
      (to_lower-to_upper name)

origin-to_upper : (zone : Text) → origin (to_upper zone) ≡ origin zone
unfolding origin
origin-to_upper zone = ap (λ z. trim_suffix z dot) (to_lower-to_upper zone)

-- The letter case of the name and of the zone does not matter to fqdn.
fqdn-to_upper : (name zone : Text) → fqdn (to_upper name) (to_upper zone) ≡ fqdn name zone
fqdn-to_upper name zone =
    fqdn-eq-join_name (to_upper name) (to_upper zone)
    ∙ ap (λ b. join_name b (origin (to_upper zone))) (bare_name-to_upper name)
    ∙ ap (join_name (bare_name name)) (origin-to_upper zone)
    ∙ sym (fqdn-eq-join_name name zone)

join_name-split : (bare z : Text) → (front : Text) × (join_name bare z ≡ front ++ (z ++ dot))
unfolding join_name
join_name-split bare z = elim (Bool-cases (is_apex bare)) [
  | inl e ↦ ([], rw e refl)
  | inr e ↦ (bare ++ dot, rw e (append_assoc (bare ++ dot) z dot))
]

-- Whatever the name, fqdn lands in the zone: its result ends in the zone's name and a dot.
has_suffix-fqdn : (name zone : Text) → has_suffix (fqdn name zone) (origin zone ++ dot) ≡ true
has_suffix-fqdn name zone =
    let (front, e) = join_name-split (bare_name name) (origin zone) in
    rw (fqdn-eq-join_name, e) (has_suffix-append front (origin zone ++ dot))

has_suffix-dot : (front : Text) → has_suffix (front ++ dot) dot ≡ true
has_suffix-dot front = has_suffix-append front dot

to_fqdn_plain :
    (name zone : Text)
    → trim_space (to_lower name) ≡ to_lower name
    → has_suffix (to_lower name) dot_at ≡ false
    → to_fqdn name zone ≡ (
        if is_apex (to_lower name)
        then origin zone ++ dot
        else if has_suffix (to_lower name) dot
        then to_lower name
        else to_lower name ++ dot ++ origin zone ++ dot)
unfolding to_fqdn is_apex
to_fqdn_plain name zone trimmed plain = rw (trimmed, plain, to_fqdn) refl

not_apex_dotted : (front : Text) → is_apex front ≡ false → is_apex (front ++ dot) ≡ false
unfolding is_apex text_eq
not_apex_dotted [] h = cc
not_apex_dotted (c ∷ []) h = ground arith
not_apex_dotted (c ∷ d ∷ s) h = ground arith

-- A name that ends in a dot is kept by the web panel, and stored under the zone by the REST API: for
-- a lower-case front that is not the apex and ends in no dot or `.@`, where the name has no white
-- space at its ends, toFQDN returns the name, and fqdn appends the zone's name again, even where
-- the front ends in it.
pub fqdn_absolute :
    (front zone : Text)
    → IsLower front
    → trim_space (front ++ dot) ≡ front ++ dot
    → has_suffix (front ++ dot) dot_at ≡ false
    → is_apex front ≡ false
    → (to_fqdn (front ++ dot) zone ≡ front ++ dot)
      × (fqdn (front ++ dot) zone ≡ front ++ dot ++ origin zone ++ dot)
fqdn_absolute front zone low trimmed plain named =
    let cased : to_lower (front ++ dot) ≡ front ++ dot =
      to_lower_of_IsLower (front ++ dot)
        (All-append (λ c. lower c ≡ c) front dot low dot-IsLower) in
    let bare : bare_name (front ++ dot) ≡ front =
      rw (cased, plain) (trim_suffix-append front dot (λ p. cc)) in
    let kept = to_fqdn_plain (front ++ dot) zone (rw (cased) trimmed) (rw (cased) plain) in
    (
      kept ∙ rw (cased, not_apex_dotted front named, has_suffix-dot front) refl,
      rw (fqdn-eq-join_name, bare) (unfold join_name in rw named refl),
    )

bare_name_plain :
    (name : Text)
    → has_suffix (to_lower name) dot_at ≡ false
    → has_suffix (to_lower name) dot ≡ false
    → bare_name name ≡ to_lower name
bare_name_plain name plain relative = rw plain (trim_suffix_of_not (to_lower name) dot relative)

-- A name without white space at its ends, without a final dot and without a final `.@` is stored
-- under one name by the web panel and by the REST API.
pub to_fqdn-eq-fqdn :
    (name zone : Text)
    → trim_space (to_lower name) ≡ to_lower name
    → has_suffix (to_lower name) dot_at ≡ false
    → has_suffix (to_lower name) dot ≡ false
    → to_fqdn name zone ≡ fqdn name zone
unfolding is_apex join_name
to_fqdn-eq-fqdn name zone trimmed plain relative =
    to_fqdn_plain name zone trimmed plain
    ∙ (rw relative (
        sym (
          fqdn-eq-join_name name zone
          ∙ ap (λ b. join_name b (origin zone)) (bare_name_plain name plain relative))))
