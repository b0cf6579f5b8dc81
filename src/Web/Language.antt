-- ===== src/Web/Language.antt =====
-- The language of the web panel: getLang and setLang of internal/web/admin.go, and the table of texts
-- of internal/web/i18n.go with its lookup.
pub mod English
pub mod Russian
pub mod Laws
use namedor.Common.{
  ℕ, ◌*◌, Bool, true, false, not, ◌&&◌, ◌||◌, Option, none, some, List, [], ◌∷◌, is_empty,
  if◌then◌else◌,
}
use namedor.Text.{Text, codes, text_eq, has_prefix}
use namedor.Assoc.{fetch}
use namedor.Config.{Config, is_tls_enabled}
use namedor.Web.Request.{Request, cookie, get_header, param}
use namedor.Web.Language.English.{english}
use namedor.Web.Language.Russian.{russian}

abbrev pub translations : List (Text × List (Text × Text))
translations = (codes "en", english) ∷ (codes "ru", russian) ∷ []

abbrev pub table_of : Option (List (Text × Text)) → List (Text × Text)
table_of none = []
table_of (some table) = table

-- The text of a key in a language, or else in English, or else the key.
unfoldable pub tr : Text → Text → Text
unfolding fetch
tr lang key = elim (fetch key (table_of (fetch lang translations))) [
  | some text ↦ text
  | none ↦ elim (fetch key english) [ some text ↦ text | none ↦ key ]
]

abbrev is_known : Text → Bool
is_known lang = text_eq lang (codes "ru") || text_eq lang (codes "en")

-- getLang, after the cookie
abbrev accepted : Request → Text
accepted req =
    if has_prefix (get_header (codes "Accept-Language") req) (codes "ru")
    then codes "ru"
    else codes "en"

abbrev lang_of : Option Text → Request → Text
lang_of none req = accepted req
lang_of (some lang) req = if is_known lang then lang else accepted req

unfoldable pub get_lang : Request → Text
get_lang req = lang_of (cookie (codes "lang") req) req

-- A cookie for a browser, which the attributes HttpOnly and SameSite=Strict go with.
pub record Cookie : Type 0 where
  pub name : Text
  pub value : Text
  pub max_age : ℕ
  pub path : Text
  pub secure : Bool

unfoldable pub set_secure_cookie :
    Config → (name value : Text) → (max_age : ℕ) → (path : Text) → Cookie
unfolding is_tls_enabled
set_secure_cookie cfg name value max_age path = record {
  name = name;
  value = value;
  max_age = max_age;
  path = path;
  secure = is_tls_enabled cfg;
}

-- setLang: the cookie, and the place of the redirect
unfoldable pub set_lang : Config → Request → Cookie × Text
unfolding set_secure_cookie
set_lang cfg req =
    let code = param (codes "code") req in
    let referer = get_header (codes "Referer") req in
    (
      set_secure_cookie cfg (codes "lang") (if is_known code then code else codes "en")
          (365 * 24 * 3600) (codes "/"),
      if is_empty referer then codes "/admin" else referer,
    )
