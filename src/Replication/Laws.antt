-- ===== src/Replication/Laws.antt =====
-- What becomes of the data that a slave posts to its own REST API.
use namedor.Common.{
  ℕ, ℤ, ◌≡◌, ◌≢◌, refl, Bool, true, false, Option, none, some, ◌⊎◌, [], ◌∷◌, arith, is_empty,
  Bool-cases, inl, inr, if◌then◌else◌,
}
use namedor.Text.{Text, codes, trim_prefix, has_prefix}
use namedor.Text.Laws.{text_eq_refl}
use namedor.Text.Affix.{trim_prefix-append}
use namedor.Net.{Addr, Prefix}
use namedor.Gorm.{Gorm}
use namedor.Rest.Sync.{SyncData}
use namedor.Rest.Handlers.{Response, RestConfig, World, post_sync}
use namedor.Rest.Access.{AccessConfig, passes_acl, bearer, authenticated, guarded}
use namedor.Replication.{
  SyncConfig, SyncResult, done, stopped, auth_header, applied, fetch_from_master, apply_data,
  sync_fetched, sync_once,
}

-- What becomes of a post to the slave's own REST API: it does not arrive; it meets a server with TLS,
-- where net/http answers a plain request with 400; it arrives, but the client gives up before it has
-- the answer, as at its timeout of 30 seconds; or it arrives and the answer comes back.
pub data Delivery : Type 0 where
  lost plain_to_tls unanswered answered : Delivery

-- The answer that the client gets, and the world, where the API makes `out` of the request.
unfoldable pub deliver : {W : Type 0} → Delivery → Response × W → W → Option ℕ × W
deliver lost out w = (none, w)
deliver plain_to_tls out w = (some 400, w)
deliver unanswered out w = (none, out.1)
deliver answered out w = (some out.0.status, out.1)

module _ (parse_cidr : Text → Option Prefix) (parse_ip : Text → Option Addr)
    (compare_hash : Text → Text → Bool) where
  bearer-auth_header :
      (token : Text) → bearer parse_cidr parse_ip compare_hash (auth_header token) ≡ token
  unfolding bearer auth_header trim_prefix
  bearer-auth_header [] = refl
  bearer-auth_header (c ∷ token) = trim_prefix-append (codes "Bearer ") (c ∷ token)

  -- The header that a client makes of a token passes exactly where the token is the right one: it
  -- fits the hash, where one is set, and is the plain token, where that is set, and anything passes
  -- where neither is. So a slave's own request, with its plain token, passes where no hash is set.
  authenticated-auth_header :
      (access : AccessConfig)
      → authenticated parse_cidr parse_ip compare_hash access (auth_header access.api_token) ≡ (
          if is_empty access.api_token_hash
          then true
          else compare_hash access.api_token_hash access.api_token)
  unfolding authenticated
  authenticated-auth_header access =
      ground (arith, bearer-auth_header access.api_token, text_eq_refl access.api_token)

  module _ (gorm : Gorm) (rest_cfg : RestConfig) (now : ℤ) (access : AccessConfig) (client : Text)
      (http_get : Text → Text → World gorm → Option (ℕ × Option SyncData) × World gorm)
      (delivery : Text → World gorm → Delivery) (cfg : SyncConfig) where
    -- What the slave's own REST API makes of the post.
    abbrev pub own_reply : Text → SyncData → World gorm → Response × World gorm
    own_reply header d w =
        guarded parse_cidr parse_ip compare_hash gorm rest_cfg now access client header
          (post_sync (some d)) w

    -- The API at the other end of the network, which decides by the address what becomes of a post.
    abbrev pub own_server : Text → Text → SyncData → World gorm → Option ℕ × World gorm
    own_server url header d w = deliver (delivery url w) (own_reply header d w) w

    deliver-refused :
        (how : Delivery) (out : Response × World gorm) (w : World gorm)
        → out.0.status ≡ 401 ⊎ out.0.status ≡ 403
        → out.1 ≡ w
        → (applied (deliver how out w).0 ≢ done tt) × ((deliver how out w).1 ≡ w)
    unfolding deliver applied
    deliver-refused lost out w bad same = ((λ p. cc), refl)
    deliver-refused plain_to_tls out w bad same = ((λ p. cc), refl)
    deliver-refused unanswered out w bad same = ((λ p. cc), same)
    deliver-refused answered out w (inl bad) same = ((λ p. cc (rw (bad) at p)), same)
    deliver-refused answered out w (inr bad) same = ((λ p. cc (rw (bad) at p)), same)

    turned_away :
        (header : Text) (d : SyncData) (w : World gorm)
        → authenticated parse_cidr parse_ip compare_hash access header ≡ false
        → ((own_reply header d w).0.status ≡ 401 ⊎ (own_reply header d w).0.status ≡ 403)
          × ((own_reply header d w).1 ≡ w)
    unfolding guarded
    turned_away header d w e =
        elim (Bool-cases (passes_acl parse_cidr parse_ip compare_hash access client)) [
          | inl p ↦ rw (p, e, guarded) (inl refl, refl)
          | inr p ↦ rw (p, guarded) (inr refl, refl)
        ]

    sync_fetched_refused :
        (f : SyncResult SyncData × World gorm)
        → authenticated parse_cidr parse_ip compare_hash access (auth_header cfg.api_token) ≡ false
        → ((sync_fetched (World gorm) http_get own_server cfg f).0 ≢ done tt)
          × ((sync_fetched (World gorm) http_get own_server cfg f).1 ≡ f.1)
    unfolding sync_fetched apply_data
    sync_fetched_refused (stopped e, w) h = ((λ p. cc), refl)
    sync_fetched_refused (done d, w) h =
        let (bad, same) = turned_away (auth_header cfg.api_token) d w h in
        deliver-refused (delivery _ w) (own_reply (auth_header cfg.api_token) d w) w bad same

    hashed_unauthenticated :
        is_empty access.api_token_hash ≡ false
        → compare_hash access.api_token_hash [] ≡ false
        → cfg.api_token ≡ []
        → authenticated parse_cidr parse_ip compare_hash access (auth_header cfg.api_token) ≡ false
    unfolding authenticated bearer auth_header trim_prefix has_prefix
    hashed_unauthenticated hashed wrong plain = rw (plain, hashed) wrong

    -- A slave that is configured with the hash of its token, and so, as Validate wants it, with no
    -- plain token, never synchronises with its own REST API: whatever the master answers and whatever
    -- becomes of the post on its way, the synchronisation is no success and leaves the database and
    -- the zone cache as the fetch left them, if the empty token does not fit the hash.
    pub sync_once_refused :
        (w : World gorm)
        → is_empty access.api_token_hash ≡ false
        → compare_hash access.api_token_hash [] ≡ false
        → cfg.api_token ≡ []
        → ((sync_once (World gorm) http_get own_server cfg w).0 ≢ done tt)
          × ((sync_once (World gorm) http_get own_server cfg w).1
              ≡ (fetch_from_master (World gorm) http_get own_server cfg w).1)
    unfolding sync_once
    sync_once_refused w hashed wrong plain =
        sync_fetched_refused (fetch_from_master (World gorm) http_get own_server cfg w)
          (hashed_unauthenticated hashed wrong plain)
