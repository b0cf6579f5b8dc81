-- ===== src/Web/Links/Reached.antt =====
-- The actions of the pages, against the table of routes.
use namedor.Common.{
  ℕ, ap, sym, ◌∙◌, append-nil, ◌≡◌, ◌≢◌, refl, false, List, [], ◌∷◌, ◌++◌, All, All-append, map,
  is_empty, ◌⊎◌, inl, inr, arith,
}
use namedor.Text.{Text, codes, replace_all, replace_from, has_prefix}
use namedor.Text.Decimal.{format_nat, IsDigit, format_nat-All, format_nat-ne-nil}
use namedor.Model.{Template, RrSet, RData}
use namedor.Web.Request.{query}
use namedor.Web.Form.{
  edit_form, new_record, new_zone, new_template, template_form, new_template_record, apply_form,
}
use namedor.Web.Panel.{SetFilter, Row, ZoneRow}
use namedor.Web.Routes.{
  Route, reads, changes, pattern_of, zones, records, record_edit, templates, template_view,
  template_edit, zone_create, zone_delete, record_create, record_update, record_delete,
  template_create, template_update, template_delete, template_record_create, template_record_delete,
  template_applied,
}
use namedor.Web.Links.{
  Action, record_actions, zone_actions, template_actions, template_record_actions, of_rows,
  form_actions, records_link, zones_link,
}

-- gin's pattern with a part of a path for `:id`.
unfoldable pub fill : Text → Text → Text
fill pattern part = replace_all pattern (codes ":id") part

-- A part of a path is not empty, and ends before a slash and a question mark.
abbrev pub IsPart : Text → Type 0
IsPart s = (is_empty s ≡ false) × All (λ c. (c ≢ b'/') × (c ≢ b'?')) s

-- The address is that of a route of the method, with a query or without.
unfoldable pub Reaches : Action → Type 0
unfolding fill
Reaches (method, url) =
    (r : Route) × (part query : Text) × IsPart part
    × ((pattern_of r).0 ≡ method)
    × ((url ≡ fill (pattern_of r).1 part)
        ⊎ (url ≡ fill (pattern_of r).1 part ++ (codes "?" ++ query)))

at :
    (r : Route) (part url : Text)
    → IsPart part
    → url ≡ fill (pattern_of r).1 part
    → Reaches ((pattern_of r).0, url)
unfolding Reaches
at r part url h e = (r, part, [], h, refl, inl e)

asks :
    (r : Route) (part query url : Text)
    → IsPart part
    → url ≡ fill (pattern_of r).1 part ++ (codes "?" ++ query)
    → Reaches ((pattern_of r).0, url)
unfolding Reaches
asks r part query url h e = (r, part, query, h, refl, inr e)

digits-All : (s : Text) → All IsDigit s → All (λ c. (c ≢ b'/') × (c ≢ b'?')) s
digits-All [] h = tt
digits-All (c ∷ s) ((low, high), h) = ((omega arith, omega arith), digits-All s h)

format_nat-IsPart : (n : ℕ) → IsPart (format_nat n)
format_nat-IsPart n = (format_nat-ne-nil n, digits-All (format_nat n) (format_nat-All n))

pub All-of_rows :
    {A : Type 0} (f : A → List Action)
    → ((a : A) → All Reaches (f a))
    → (rows : List A) → All Reaches (of_rows f rows)
unfolding of_rows
All-of_rows f h [] = tt
All-of_rows f h (a ∷ rows) = All-append Reaches (f a) (of_rows f rows) (h a) (All-of_rows f h rows)

pub All-linked :
    (f : ℕ → Action) → ((n : ℕ) → Reaches (f n)) → (ns : List ℕ) → All Reaches (map f ns)
All-linked f h [] = tt
All-linked f h (n ∷ ns) = (h n, All-linked f h ns)

pub at_number :
    (r : Route) (n : ℕ) (url : Text)
    → url ≡ fill (pattern_of r).1 (format_nat n)
    → Reaches ((pattern_of r).0, url)
at_number r n url e = at r (format_nat n) url (format_nat-IsPart n) e

-- Where the pattern ends with the number.
at_end :
    (r : Route) (front : Text) (n : ℕ)
    → fill (pattern_of r).1 (format_nat n) ≡ front ++ (format_nat n ++ [])
    → Reaches ((pattern_of r).0, front ++ format_nat n)
at_end r front n e =
    at_number r n (front ++ format_nat n)
      (sym (e ∙ ap (λ s. front ++ s) (append-nil (format_nat n))))

pub record_actions-All : (r : Row) → All Reaches (record_actions r)
unfolding record_actions fill replace_all replace_from has_prefix pattern_of
record_actions-All r = (
  at_number (reads record_edit) r.id _ refl,
  (at_end (changes record_delete) (codes "/admin/records/") r.id refl, tt),
)

pub zone_actions-All : (r : ZoneRow) → All Reaches (zone_actions r)
unfolding zone_actions fill replace_all replace_from has_prefix pattern_of
zone_actions-All r = (
  at_number (reads records) r.zone.id _ refl,
  (at_end (changes zone_delete) (codes "/admin/zones/delete/") r.zone.id refl, tt),
)

pub template_actions-All : (t : Template) → All Reaches (template_actions t)
unfolding template_actions fill replace_all replace_from has_prefix pattern_of
template_actions-All t = (
  at_number (reads template_view) t.id _ refl,
  (
    at_number (reads template_edit) t.id _ refl,
    (at_end (changes template_delete) (codes "/admin/templates/") t.id refl, tt),
  ),
)

pub template_record_actions-All : (r : Row) → All Reaches (template_record_actions r)
unfolding template_record_actions fill replace_all replace_from has_prefix pattern_of
template_record_actions-All r =
    (at_end (changes template_record_delete) (codes "/admin/templates/records/") r.id refl, tt)

pub edit_form-All :
    (id : ℕ) (r : RData) (rs : RrSet) → All Reaches (form_actions (edit_form id r rs))
unfolding form_actions edit_form fill replace_all replace_from has_prefix pattern_of
edit_form-All id r rs = (
  at_end (changes record_update) (codes "/admin/records/") id refl,
  (at_number (reads records) rs.zone_id _ refl, tt),
)

pub new_record-All :
    (zone_id : Text) → IsPart zone_id → All Reaches (form_actions (new_record zone_id))
unfolding form_actions new_record fill replace_all replace_from has_prefix pattern_of
new_record-All zone_id h =
    (at (changes record_create) zone_id _ h refl, (at (reads records) zone_id _ h refl, tt))

pub new_zone-All : All Reaches (form_actions new_zone)
unfolding form_actions new_zone fill replace_all replace_from has_prefix pattern_of
new_zone-All = (
  at_number (changes zone_create) 0 _ refl,
  (at_number (reads zones) 0 _ refl, (at_number (reads zones) 0 _ refl, tt)),
)

pub new_template-All : All Reaches (form_actions new_template)
unfolding form_actions new_template fill replace_all replace_from has_prefix pattern_of
new_template-All = (
  at_number (changes template_create) 0 _ refl,
  (at_number (reads templates) 0 _ refl, (at_number (reads templates) 0 _ refl, tt)),
)

pub template_form-All : (id : ℕ) (t : Template) → All Reaches (form_actions (template_form id t))
unfolding form_actions template_form fill replace_all replace_from has_prefix pattern_of
template_form-All id t = (
  at_end (changes template_update) (codes "/admin/templates/") id refl,
  (at_number (reads templates) 0 _ refl, tt),
)

pub new_template_record-All :
    (template_id : Text)
    → IsPart template_id
    → All Reaches (form_actions (new_template_record template_id))
unfolding form_actions new_template_record fill replace_all replace_from has_prefix pattern_of
new_template_record-All template_id h = (
  at (changes template_record_create) template_id _ h refl,
  (at (reads template_edit) template_id _ h refl, tt),
)

pub apply_form-All :
    (template_id zone_id : Text) (t : Template)
    → IsPart template_id
    → IsPart zone_id
    → All Reaches (form_actions (apply_form template_id zone_id t))
unfolding form_actions apply_form fill replace_all replace_from has_prefix pattern_of
apply_form-All template_id zone_id t h k = (
  asks (changes template_applied) template_id (codes "zone_id=" ++ zone_id) _ h refl,
  (at (reads records) zone_id _ k refl, tt),
)

module _ (escape : Text → Text) where
  pub records_link-Reaches :
      (zone_id : ℕ) (filter : SetFilter) (n : ℕ) → Reaches (records_link escape zone_id filter n)
  unfolding records_link fill replace_all replace_from has_prefix pattern_of
  records_link-Reaches zone_id filter n =
      asks (reads records) (format_nat zone_id) _ _ (format_nat-IsPart zone_id) refl

  pub zones_link-Reaches : (search : Text) (n : ℕ) → Reaches (zones_link escape search n)
  unfolding zones_link fill replace_all replace_from has_prefix pattern_of
  zones_link-Reaches search n = asks (reads zones) (format_nat 0) _ _ (format_nat-IsPart 0) refl
