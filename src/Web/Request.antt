-- ===== src/Web/Request.antt =====
-- What a handler of the web panel reads of a request through gin. A field that the form or the query
-- does not have is the empty text, but for DefaultQuery.
use namedor.Common.{Option, none, some, List, []}
use namedor.Text.{Text}
use namedor.Assoc.{fetch}

pub record Request : Type 0 where
  -- the parameters of the path, in gin's order
  pub params : List (Text × Text)
  pub query : List (Text × Text)
  pub form : List (Text × Text)
  pub headers : List (Text × Text)
  pub cookies : List (Text × Text)
  pub host : Text

abbrev pub or_empty : Option Text → Text
or_empty none = []
or_empty (some s) = s

-- c.Param: the value of the first parameter of that name.
unfoldable pub param : Text → Request → Text
param key req = or_empty (fetch key req.params)

-- c.PostForm, c.Query and c.GetHeader.
unfoldable pub post_form : Text → Request → Text
post_form key req = or_empty (fetch key req.form)

unfoldable pub query : Text → Request → Text
query key req = or_empty (fetch key req.query)

unfoldable pub get_header : Text → Request → Text
get_header key req = or_empty (fetch key req.headers)

-- c.DefaultQuery
unfoldable pub default_query : Text → Text → Request → Text
default_query key value req = elim (fetch key req.query) [ none ↦ value | some s ↦ s ]

-- c.Cookie, where no cookie is an error
unfoldable pub cookie : Text → Request → Option Text
cookie key req = fetch key req.cookies
