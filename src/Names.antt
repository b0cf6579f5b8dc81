-- ===== src/Names.antt =====
-- The names that the program stores: fqdn of internal/server/rest/server.go, for the REST API, and
-- toFQDN of internal/web/records.go, for the web panel.
pub mod Laws
use namedor.Common.{Bool, ◌||◌, List, [], ◌∷◌, ◌++◌, is_empty, if◌then◌else◌}
use namedor.Text.{Text, codes, text_eq, to_lower, has_suffix, trim_suffix, trim_space}

abbrev pub dot : Text
dot = codes "."

abbrev pub at_sign : Text
at_sign = codes "@"

abbrev pub dot_at : Text
dot_at = codes ".@"

-- The zone's name in lower case and without its final dot.
unfoldable pub origin : Text → Text
unfolding to_lower trim_suffix
origin zone = trim_suffix (to_lower zone) dot

-- `n == "" || n == "@"`
unfoldable pub is_apex : Text → Bool
unfolding text_eq
is_apex n = is_empty n || text_eq n at_sign

unfoldable pub fqdn : Text → Text → Text
unfolding to_lower has_suffix trim_suffix origin is_apex
fqdn name zone =
    let n = to_lower name in
    let relative = if has_suffix n dot_at then trim_suffix n dot_at else n in
    let bare = trim_suffix relative dot in
    let z = origin zone in if is_apex bare then z ++ dot else bare ++ dot ++ z ++ dot

unfoldable pub to_fqdn : Text → Text → Text
unfolding to_lower has_suffix trim_suffix trim_space origin is_apex
to_fqdn name zone =
    let n = trim_space (to_lower name) in
    let relative = if has_suffix n dot_at then trim_suffix n dot_at else n in
    let z = origin zone in
    if is_apex relative
    then z ++ dot
    else if has_suffix relative dot
    then relative
    else relative ++ dot ++ z ++ dot
