-- ===== src/Web/Form.antt =====
-- The forms of the web panel, which internal/web writes as HTML: where a form goes, its fields with
-- what they hold at first, and its texts, as keys of the translations. Style,
-- hints and the headings between fields are left out. What a browser reads of an attribute in quotes is a parameter.
use namedor.Common.{ℕ, ℤ, pos, Bool, true, false, Option, none, some, List, [], ◌∷◌, ◌++◌, map}
use namedor.Text.{Text, codes}
use namedor.Text.Decimal.{format_nat, format_int}
use namedor.Model.{RrSet, RData, Template}

-- hx-get, hx-post, hx-put and hx-delete
pub data Method : Type 0 where
  get post put delete : Method

pub data FieldKind : Type 0 where
  text number hidden textarea : FieldKind
  -- the values of the options
  select : List Text → FieldKind

-- The attribute `value`, or the text inside a textarea: none, "%s" or "%d".
pub data Content : Type 0 where
  nothing : Content
  holds_text : Text → Content
  holds_int : ℤ → Content

pub record Field : Type 0 where
  pub label : Text
  pub name : Text
  pub kind : FieldKind
  pub content : Content
  pub placeholder : Text
  pub required : Bool
  pub readonly : Bool
  pub max_length : Option ℕ

pub record Form : Type 0 where
  -- the key of the title, with the texts for its placeholders
  pub title : Text
  pub title_args : List Text
  pub method : Method
  pub action : Text
  pub fields : List Field
  pub submit : Text
  -- what the button "Cancel" gets
  pub cancel : Text
  -- the list that is loaded below the form
  pub below : Option Text

abbrev plain : (label name : Text) → FieldKind → Content → Field
plain label name kind content = record {
  label = label;
  name = name;
  kind = kind;
  content = content;
  placeholder = [];
  required = false;
  readonly = false;
  max_length = none;
}

abbrev required_field : (label name : Text) → FieldKind → Content → Field
required_field label name kind content = record (plain label name kind content) { required = true }

abbrev code_field : (label name shown : Text) → Content → Field
code_field label name shown content = record (plain label name text content) {
  placeholder = shown;
  max_length = some 2;
}

-- The fields for the clients that a record is for, with an example of a country.
unfoldable pub geo_fields : (example : Text) (country continent asn subnet : Content) → List Field
geo_fields example country continent asn subnet =
    code_field (codes "Country Code") (codes "country") example country
    ∷ code_field (codes "Continent Code") (codes "continent") (codes "EU") continent
    ∷ record (plain (codes "ASN") (codes "asn") number asn) { placeholder = codes "65001" }
    ∷ record (plain (codes "Subnet") (codes "subnet") text subnet) {
      placeholder = codes "10.0.0.0/8";
    }
    ∷ []

abbrev pub text_or_empty : Option Text → Text
text_or_empty none = []
text_or_empty (some s) = s

abbrev pub int_or_0 : Option ℤ → ℤ
int_or_0 none = pos 0
int_or_0 (some n) = n

-- The form of editRecordForm.
unfoldable pub edit_form : ℕ → RData → RrSet → Form
unfolding geo_fields
edit_form id r rs = record {
  title = codes "Edit Record";
  title_args = [];
  method = put;
  action = codes "/admin/records/" ++ format_nat id;
  fields =
      (record (required_field (codes "Name") (codes "name") text (holds_text rs.name)) {
        readonly = true;
      })
      ∷ (record (plain (codes "Type") (codes "type") text (holds_text rs.type)) { readonly = true })
      ∷ required_field (codes "TTL (seconds)") (codes "ttl") number (holds_int (pos rs.ttl))
      ∷ required_field (codes "Data (IP/Value)") (codes "data") text (holds_text r.content)
      ∷ (geo_fields (codes "RU") (holds_text (text_or_empty r.country))
            (holds_text (text_or_empty r.continent)) (holds_int (int_or_0 r.asn))
            (holds_text (text_or_empty r.subnet))
          ++ plain [] (codes "zone_id") hidden (holds_int (pos rs.zone_id))
            ∷ plain [] (codes "rrset_id") hidden (holds_int (pos rs.id))
            ∷ []);
  submit = codes "Update Record";
  cancel = codes "/admin/zones/" ++ format_nat rs.zone_id ++ codes "/records";
  below = none;
}

abbrev ttl_300 : (label : Text) → Field
ttl_300 label = required_field label (codes "ttl") number (holds_int (pos 300))

abbrev shown_field : (label name shown : Text) → Field
shown_field label name shown = record (required_field label name text nothing) {
  placeholder = shown;
}

-- The form of newRecordForm, for the zone_id of the path.
unfoldable pub new_record : Text → Form
unfolding geo_fields
new_record zone_id = record {
  title = codes "Add New Record";
  title_args = [];
  method = post;
  action = codes "/admin/zones/" ++ zone_id ++ codes "/records";
  fields =
      shown_field (codes "Name") (codes "name") (codes "www")
      ∷ required_field (codes "Type") (codes "type")
          (select (
            codes "A"
            ∷ codes "AAAA"
            ∷ codes "CNAME"
            ∷ codes "MX"
            ∷ codes "TXT"
            ∷ codes "NS"
            ∷ codes "SRV"
            ∷ codes "PTR"
            ∷ codes "CAA"
            ∷ codes "SOA"
            ∷ []))
          nothing
      ∷ ttl_300 (codes "TTL (seconds)")
      ∷ shown_field (codes "Data (IP/Value)") (codes "data") (codes "192.0.2.1")
      ∷ geo_fields (codes "RU") nothing nothing nothing nothing;
  submit = codes "Add Record";
  cancel = codes "/admin/zones/" ++ zone_id ++ codes "/records";
  below = none;
}

-- The form of newZoneForm.
unfoldable pub new_zone : Form
new_zone = record {
  title = codes "Create New Zone";
  title_args = [];
  method = post;
  action = codes "/admin/zones";
  fields = shown_field (codes "Zone Name") (codes "name") (codes "example.com") ∷ [];
  submit = codes "Create";
  cancel = codes "/admin/zones";
  below = some (codes "/admin/zones");
}

-- The form of newTemplateForm; its description's placeholder is a key.
unfoldable pub new_template : Form
new_template = record {
  title = codes "Create New Template";
  title_args = [];
  method = post;
  action = codes "/admin/templates";
  fields =
      shown_field (codes "Template Name") (codes "name") (codes "e.g., Mail Server")
      ∷ (record (plain (codes "Description") (codes "description") textarea nothing) {
        placeholder = codes "Brief description of this template";
      })
      ∷ [];
  submit = codes "Create Template";
  cancel = codes "/admin/templates";
  below = some (codes "/admin/templates");
}

-- The form of editTemplateForm.
unfoldable pub template_form : ℕ → Template → Form
template_form id t = record {
  title = codes "Edit Template: %s";
  title_args = t.name ∷ [];
  method = put;
  action = codes "/admin/templates/" ++ format_nat id;
  fields =
      required_field (codes "Template Name") (codes "name") text (holds_text t.name)
      ∷ plain (codes "Description") (codes "description") textarea (holds_text t.description)
      ∷ [];
  submit = codes "Update Template";
  cancel = codes "/admin/templates";
  below = none;
}

-- The form of newTemplateRecordForm, for the template_id of the path; some labels are no keys.
unfoldable pub new_template_record : Text → Form
unfolding geo_fields
new_template_record template_id = record {
  title = codes "Add Template Record";
  title_args = [];
  method = post;
  action = codes "/admin/templates/" ++ template_id ++ codes "/records";
  fields =
      shown_field (codes "Name") (codes "name") (codes "{domain}")
      ∷ required_field (codes "Type") (codes "type")
          (select (
            codes "A"
            ∷ codes "AAAA"
            ∷ codes "CNAME"
            ∷ codes "MX"
            ∷ codes "TXT"
            ∷ codes "NS"
            ∷ codes "SOA"
            ∷ codes "SRV"
            ∷ []))
          nothing
      ∷ ttl_300 (codes "TTL")
      ∷ shown_field (codes "Data") (codes "data") (codes "192.0.2.1")
      ∷ geo_fields (codes "US") nothing nothing nothing nothing;
  submit = codes "Add Record";
  cancel = codes "/admin/templates/" ++ template_id ++ codes "/edit";
  below = none;
}

-- The form of applyTemplateForm, for the template_id of the path and the zone_id of the query.
unfoldable pub apply_form : (template_id zone_id : Text) → Template → Form
apply_form template_id zone_id t = record {
  title = codes "Apply Template: %s";
  title_args = t.name ∷ [];
  method = post;
  action =
      codes "/admin/templates/" ++ template_id ++ codes "/apply" ++ (codes "?zone_id=" ++ zone_id);
  fields = [];
  submit = codes "Apply Template";
  cancel = codes "/admin/zones/" ++ zone_id ++ codes "/records";
  below = none;
}

-- What a browser posts of a form that nobody has changed.
module _ (as_read : Text → Text) where
  unfoldable first_option : FieldKind → Text
  first_option (select (s ∷ options)) = s
  first_option kind = []

  unfoldable pub posted : Field → Text
  unfolding first_option
  posted f = elim f.content [
    | nothing ↦ first_option f.kind
    | holds_text s ↦ as_read s
    | holds_int n ↦ format_int n
  ]

  unfoldable pub unchanged : Form → List (Text × Text)
  unfolding posted
  unchanged form = map (λ (f : Field). (f.name, posted f)) form.fields
