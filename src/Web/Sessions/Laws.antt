-- ===== src/Web/Sessions/Laws.antt =====
-- Who can change something through the web panel.
use namedor.Common.{
  ℕ, ◌≤◌, ◌≡◌, ◌≢◌, refl, Bool, true, false, not, ◌&&◌, ◌||◌, Option, none, some, List, [], ◌∷◌,
  ◌++◌, is_empty, ltb, arith, inl, inr, ◌⊎◌, sym, Bool-cases, Option-cases,
}
use namedor.Text.{Text, codes, text_eq}
use namedor.Text.Affix.{has_prefix-split}
use namedor.Text.Laws.{text_eq_iff}
use namedor.Assoc.{fetch, remove}
use namedor.Assoc.Laws.{fetch-write, fetch-remove}
use namedor.Web.Request.{Request, cookie, get_header}
use namedor.Web.Sessions.{
  Session, Sessions, Account, Draw, new_session, check_session, authenticate, logout, logout_route,
  valid_login, login, Event, logs_in, asks, logs_out, handle, sessions_after, same_origin,
  same_referer, validate_origin, request_token, csrf_ok, checked, route,
}

-- A header that is empty or names the host, with one of the two schemes.
abbrev pub HostOrigin : Text → Text → Type 0
HostOrigin host s = (s ≡ []) ⊎ ((s ≡ codes "https://" ++ host) ⊎ (s ≡ codes "http://" ++ host))

abbrev pub HostReferer : Text → Text → Type 0
HostReferer host s =
    (s ≡ [])
    ⊎ (((path : Text) × (s ≡ codes "https://" ++ host ++ codes "/" ++ path))
        ⊎ ((path : Text) × (s ≡ codes "http://" ++ host ++ codes "/" ++ path)))

-- Both headers name the host where they are there, and one is.
pub record FromHost (req : Request) : Type 0 where
  pub some_header :
      (is_empty (get_header (codes "Origin") req) && is_empty (get_header (codes "Referer") req))
      ≡ false
  pub origin : HostOrigin req.host (get_header (codes "Origin") req)
  pub referer : HostReferer req.host (get_header (codes "Referer") req)

nil_of_empty : (s : Text) → is_empty s ≡ true → s ≡ []
nil_of_empty [] h = refl
nil_of_empty (c ∷ s) h = cc

or_true : (a b : Bool) → (a || b) ≡ true → (a ≡ true) ⊎ (b ≡ true)
or_true true b h = inl refl
or_true false b h = inr h

and_true : (a b : Bool) → (a && b) ≡ true → (a ≡ true) × (b ≡ true)
and_true true b h = (refl, h)
and_true false b h = cc

same_origin-HostOrigin :
    (host s : Text) → (is_empty s || same_origin host s) ≡ true → HostOrigin host s
unfolding same_origin
same_origin-HostOrigin host s h = elim (or_true (is_empty s) _ h) [
  | inl e ↦ inl (nil_of_empty s e)
  | inr e ↦ elim (or_true _ _ e) [
    | inl p ↦ inr (inl ((text_eq_iff s (codes "https://" ++ host)).0 p))
    | inr p ↦ inr (inr ((text_eq_iff s (codes "http://" ++ host)).0 p))
  ]
]

same_referer-HostReferer :
    (host s : Text) → (is_empty s || same_referer host s) ≡ true → HostReferer host s
unfolding same_referer
same_referer-HostReferer host s h = elim (or_true (is_empty s) _ h) [
  | inl e ↦ inl (nil_of_empty s e)
  | inr e ↦ elim (or_true _ _ e) [
    | inl p ↦ inr (inl (has_prefix-split s (codes "https://" ++ host ++ codes "/") p))
    | inr p ↦ inr (inr (has_prefix-split s (codes "http://" ++ host ++ codes "/") p))
  ]
]

validate_origin-FromHost : (req : Request) → validate_origin req ≡ true → FromHost req
unfolding validate_origin
validate_origin-FromHost req h =
    let origin = get_header (codes "Origin") req in
    let referer = get_header (codes "Referer") req in
    elim (Bool-cases (is_empty origin && is_empty referer)) [
      | inl e ↦ cc (rw (e, validate_origin) at h)
      | inr e ↦
          let (a, b) = and_true _ _ (rw (e, validate_origin) at h) in
          record {
            some_header = e;
            origin = same_origin-HostOrigin req.host origin a;
            referer = same_referer-HostReferer req.host referer b;
          }
    ]

csrf_ok-FromHost :
    (session : Session) (req : Request)
    → csrf_ok session req ≡ true
    → (request_token req ≡ session.csrf_token)
      × (is_empty (request_token req) ≡ false)
      × FromHost req
unfolding csrf_ok
csrf_ok-FromHost session req h =
    let (shown, origin) =
      and_true
        (not (is_empty (request_token req)) && text_eq (request_token req) session.csrf_token)
        (validate_origin req) h in
    let (some_token, same) =
      and_true (not (is_empty (request_token req))) (text_eq (request_token req) session.csrf_token)
        shown in
    (
      (text_eq_iff (request_token req) session.csrf_token).0 same,
      ground arith,
      validate_origin-FromHost req origin,
    )

module _ (compare_hash : Text → Text → Bool) (account : Account) where
  -- The session was opened under that identifier by a log-in with the user name and the password of
  -- the configuration, and no log-out of it followed.
  pub Opened : Text → Session → List (Event compare_hash account) → Type 0
  Opened id session [] = ⊥
  Opened id session (logs_in username password d ∷ events) =
      ((d.session_id ≡ id)
        × (username ≡ account.username)
        × (compare_hash account.password_hash password ≡ true)
        × (session ≡ new_session username d))
      ⊎ Opened id session events
  Opened id session (asks asked now ∷ events) = Opened id session events
  Opened id session (logs_out out now ∷ events) = (out ≢ some id) × Opened id session events

  fetch-authenticate :
      (id asked : Text) (now : ℕ) (sessions : Sessions) (found : Session)
      → fetch id (authenticate (some asked) now sessions).1 ≡ some found
      → fetch id sessions ≡ some found
  unfolding authenticate check_session
  fetch-authenticate id asked now sessions found h = go (fetch asked sessions) h
    where
      go :
          (o : Option Session)
          → fetch id (check_session asked now o sessions).1 ≡ some found
          → fetch id sessions ≡ some found
      go none k = ground (arith, fetch-remove asked id sessions)
      go (some session) k = ground (arith, fetch-remove asked id sessions)

  logout_route_lem :
      (key : Text) (now : ℕ) (sessions : Sessions)
      → logout_route (some key) now sessions ≡ remove key sessions
  unfolding logout_route authenticate check_session logout
  logout_route_lem key now sessions = elim (Option-cases (fetch key sessions)) [
    | inl e ↦ rw (e) refl
    | inr (session, e) ↦ elim (Bool-cases (ltb session.expires_at now)) [
      | inl f ↦ rw (e, f) refl
      | inr f ↦ rw (e, f) refl
    ]
  ]

  fetch-login :
      (id username password : Text) (d : Draw) (sessions : Sessions) (found : Session)
      → fetch id (login compare_hash account username password d sessions).1 ≡ some found
      → ((d.session_id ≡ id)
          × (username ≡ account.username)
          × (compare_hash account.password_hash password ≡ true)
          × (found ≡ new_session username d))
        ⊎ (fetch id sessions ≡ some found)
  unfolding login valid_login
  fetch-login id username password d sessions found h = ground (
    arith,
    fetch-write d.session_id id (new_session username d) sessions,
    text_eq_iff d.session_id id,
    text_eq_iff username account.username,
  )

  -- A session that is kept after any requests was opened, and not closed.
  fetch-sessions_after :
      (events : List (Event compare_hash account)) (id : Text) (session : Session)
      → fetch id (sessions_after compare_hash account events) ≡ some session
      → Opened id session events
  unfolding sessions_after Opened fetch handle logout
  fetch-sessions_after [] id session h = cc
  fetch-sessions_after (logs_in username password d ∷ events) id session h =
      elim (fetch-login id username password d (sessions_after compare_hash account events) session
        h) [
          | inl opened ↦ inl opened
          | inr kept ↦ inr (fetch-sessions_after events id session kept)
        ]
  fetch-sessions_after (asks none now ∷ events) id session h =
      fetch-sessions_after events id session (unfold authenticate in h)
  fetch-sessions_after (asks (some asked) now ∷ events) id session h =
      fetch-sessions_after events id session
        (fetch-authenticate id asked now (sessions_after compare_hash account events) session h)
  fetch-sessions_after (logs_out none now ∷ events) id session h =
      (λ e. cc, fetch-sessions_after events id session (unfold logout_route authenticate in h))
  fetch-sessions_after (logs_out (some key) now ∷ events) id session h =
      let sessions = sessions_after compare_hash account events in
      let kept : fetch id (remove key sessions) ≡ some session =
        rw (sym (logout_route_lem key now sessions)) h in
      (
        (λ e.
            let same : key ≡ id = cc in
            ground (arith, fetch-remove key id sessions, text_eq_iff key id)),
        fetch-sessions_after events id session (ground (arith, fetch-remove key id sessions)),
      )

  -- What a request shows that may change something: a session that was opened with the password, not
  -- closed, and not older than a day; its token; and headers that name the panel's own host.
  pub record MayChange (events : List (Event compare_hash account)) (now : ℕ) (req : Request)
      : Type 0 where
    pub id : Text
    pub session : Session
    pub in_cookie : cookie (codes "session") req ≡ some id
    pub opened : Opened id session events
    pub fresh : now ≤ session.expires_at
    pub token : request_token req ≡ session.csrf_token
    pub some_token : is_empty (request_token req) ≡ false
    pub from_host : FromHost req

  check_session-fresh :
      (id : Text) (now : ℕ) (o : Option Session) (sessions : Sessions) (session : Session)
      → (check_session id now o sessions).0 ≡ some session
      → (o ≡ some session) × (now ≤ session.expires_at)
  unfolding check_session
  check_session-fresh id now none sessions session h = cc
  check_session-fresh id now (some found) sessions session h = ground arith

  -- The session that a request is let in with.
  authenticate-Opened :
      (events : List (Event compare_hash account)) (id : Option Text) (now : ℕ) (session : Session)
      → (authenticate id now (sessions_after compare_hash account events)).0 ≡ some session
      → (key : Text) × (id ≡ some key) × Opened key session events × (now ≤ session.expires_at)
  unfolding authenticate
  authenticate-Opened events none now session h = cc
  authenticate-Opened events (some key) now session h =
      let (found, fresh) =
        check_session-fresh key now (fetch key (sessions_after compare_hash account events))
          (sessions_after compare_hash account events) session h in
      (key, refl, fetch-sessions_after events key session found, fresh)

  module _ {S A : Type 0} where
    -- After any log-ins, log-outs and requests, a request to a state-changing route of the panel has
    -- an effect only if its cookie names a session that was opened with the user name and password
    -- of the configuration, has not been closed since and is at most a day old, it shows the token of
    -- that session, and its Origin and Referer, of which it has at least one, name the panel's host.
    pub route-MayChange :
        (events : List (Event compare_hash account)) (now : ℕ) (req : Request) (handler : S → A × S)
        (s : S)
        → (route now req handler (sessions_after compare_hash account events) s).1 ≢ s
        → MayChange events now req
    unfolding route
    route-MayChange events now req handler s moved =
        elim (Option-cases
          (authenticate (cookie (codes "session") req) now
            (sessions_after compare_hash account events)).0) [
              | inl e ↦ absurd (moved (rw (e, checked) refl))
              | inr (session, e) ↦
                  let (id, in_cookie, opened, fresh) =
                    authenticate-Opened events (cookie (codes "session") req) now session e in
                  elim (Bool-cases (csrf_ok session req)) [
                    | inr shut ↦ absurd (moved (rw (e, checked, shut) refl))
                    | inl passed ↦
                        let (token, some_token, from_host) = csrf_ok-FromHost session req passed in
                        record {
                          id = id;
                          session = session;
                          in_cookie = in_cookie;
                          opened = opened;
                          fresh = fresh;
                          token = token;
                          some_token = some_token;
                          from_host = from_host;
                        }
                  ]
            ]
