-- ===== src/Web/Sessions.antt =====
-- The sessions of the web panel, in internal/web/admin.go: log-in, log-out, and the two checks in
-- front of the handlers. Identifiers and tokens, which the program draws at random, are arguments,
-- and so is each reading of the clock, in nanoseconds. bcrypt's comparison is a parameter.
pub mod Laws
use namedor.Common.{
  ℕ, ◌+◌, ◌*◌, ◌^◌, Bool, true, false, not, ◌&&◌, ◌||◌, Option, none, some, List, [], ◌∷◌, ◌++◌,
  is_empty, ltb, if◌then◌else◌,
}
use namedor.Text.{Text, codes, text_eq, has_prefix}
use namedor.Assoc.{fetch, remove, write}
use namedor.Web.Request.{Request, cookie, get_header, post_form, or_empty}

pub record Session : Type 0 where
  pub username : Text
  pub created_at : ℕ
  pub expires_at : ℕ
  pub csrf_token : Text

abbrev pub Sessions : Type 0
Sessions = List (Text × Session)

-- The account of the configuration.
pub record Account : Type 0 where
  pub username : Text
  pub password_hash : Text

-- 24*time.Hour
abbrev pub day : ℕ
day = 86400 * 10 ^ 9

-- What loginSubmit draws and reads: two random texts and the clock, twice.
pub record Draw : Type 0 where
  pub session_id : Text
  pub csrf_token : Text
  pub created_at : ℕ
  pub renewed_at : ℕ

unfoldable pub new_session : Text → Draw → Session
new_session username d = record {
  username = username;
  created_at = d.created_at;
  expires_at = d.renewed_at + day;
  csrf_token = d.csrf_token;
}

-- authMiddleware: the session of the cookie, where there is one that has not expired.
unfoldable pub check_session : Text → ℕ → Option Session → Sessions → Option Session × Sessions
unfolding remove
check_session id now none sessions = (none, remove id sessions)
check_session id now (some session) sessions =
    if ltb session.expires_at now then (none, remove id sessions) else (some session, sessions)

unfoldable pub authenticate : Option Text → ℕ → Sessions → Option Session × Sessions
unfolding check_session fetch
authenticate none now sessions = (none, sessions)
authenticate (some id) now sessions = check_session id now (fetch id sessions) sessions

-- logout, for the cookie or for the empty text where there is none
unfoldable pub logout : Option Text → Sessions → Sessions
unfolding remove
logout id sessions = remove (or_empty id) sessions

-- The route of logout, which is behind authMiddleware.
abbrev logout_let_in : Option Text → Option Session × Sessions → Sessions
logout_let_in id (none, sessions) = sessions
logout_let_in id (some session, sessions) = logout id sessions

unfoldable pub logout_route : Option Text → ℕ → Sessions → Sessions
unfolding authenticate logout
logout_route id now sessions = logout_let_in id (authenticate id now sessions)

-- validateOrigin
unfoldable pub same_origin : Text → Text → Bool
same_origin host origin =
    text_eq origin (codes "https://" ++ host) || text_eq origin (codes "http://" ++ host)

unfoldable pub same_referer : Text → Text → Bool
same_referer host referer =
    has_prefix referer (codes "https://" ++ host ++ codes "/")
    || has_prefix referer (codes "http://" ++ host ++ codes "/")

unfoldable pub validate_origin : Request → Bool
unfolding same_origin same_referer
validate_origin req =
    let origin = get_header (codes "Origin") req in
    let referer = get_header (codes "Referer") req in
    if is_empty origin && is_empty referer
    then false
    else (is_empty origin || same_origin req.host origin)
      && (is_empty referer || same_referer req.host referer)

-- The token that csrfMiddleware compares: of the header, or else of the form.
unfoldable pub request_token : Request → Text
request_token req =
    let token = get_header (codes "X-CSRF-Token") req in
    if is_empty token then post_form (codes "csrf_token") req else token

unfoldable pub csrf_ok : Session → Request → Bool
unfolding request_token validate_origin
csrf_ok session req =
    not (is_empty (request_token req))
    && text_eq (request_token req) session.csrf_token
    && validate_origin req

module _ (compare_hash : Text → Text → Bool) (account : Account) where
  unfoldable pub valid_login : Text → Text → Bool
  valid_login username password =
      text_eq username account.username && compare_hash account.password_hash password

  -- loginSubmit: the sessions after it, and whether it succeeded.
  unfoldable pub login : Text → Text → Draw → Sessions → Bool × Sessions
  unfolding valid_login new_session write
  login username password d sessions =
      if valid_login username password
      then (true, write d.session_id (new_session username d) sessions)
      else (false, sessions)

  -- The requests that touch the sessions.
  pub data Event : Type 0 where
    logs_in : (username password : Text) → Draw → Event
    asks : (id : Option Text) → (now : ℕ) → Event
    logs_out : (id : Option Text) → (now : ℕ) → Event

  unfoldable pub handle : Event → Sessions → Sessions
  handle (logs_in username password d) sessions = (login username password d sessions).1
  handle (asks id now) sessions = (authenticate id now sessions).1
  handle (logs_out id now) sessions = logout_route id now sessions

  -- The requests since the start, the latest first.
  unfoldable pub sessions_after : List Event → Sessions
  sessions_after [] = []
  sessions_after (e ∷ events) = handle e (sessions_after events)

-- What a state-changing route of the panel makes of a request: the handler runs behind both checks.
pub data Outcome (A : Type 0) : Type 0 where
  to_login : Outcome A
  forbidden : Outcome A
  handled : A → Outcome A

module _ {S A : Type 0} where
  unfoldable pub checked : Request → (S → A × S) → Option Session → S → Outcome A × S
  unfolding csrf_ok
  checked req handler none s = (to_login, s)
  checked req handler (some session) s =
      if csrf_ok session req then (let (a, s') = handler s in (handled a, s')) else (forbidden, s)

  unfoldable pub route : ℕ → Request → (S → A × S) → Sessions → S → Outcome A × S × Sessions
  unfolding checked authenticate
  route now req handler sessions s =
      let (session, sessions') = authenticate (cookie (codes "session") req) now sessions in
      let (out, s') = checked req handler session s in (out, s', sessions')
