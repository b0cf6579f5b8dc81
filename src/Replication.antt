-- ===== src/Replication.antt =====
-- internal/replication/sync.go: a slave fetches all zones and templates from its master and posts
-- them to its own REST API. The network is a parameter, with a state `Net` of any type: a request
-- hands back the status and what the body holds, or nothing where it failed. Building a request and
-- writing JSON do not fail.
pub mod Laws
pub mod Copy
use namedor.Common.{
  ℕ, Bool, true, false, Option, none, some, ◌++◌, [], is_empty, ◌==◌, if◌then◌else◌, zero, suc,
}
use namedor.Text.{Text, codes}
use namedor.Rest.Sync.{SyncData}

-- The settings that the client reads.
pub record SyncConfig : Type 0 where
  pub master_url : Text
  pub master_token : Text
  pub api_token : Text
  pub rest_listen : Text

pub data SyncError : Type 0 where
  request_failed bad_status bad_body : SyncError

pub data SyncResult (A : Type 0) : Type 0 where
  done : A → SyncResult A
  stopped : SyncError → SyncResult A

-- The header `Authorization`, empty where there is no token.
unfoldable pub auth_header : Text → Text
auth_header token = if is_empty token then [] else codes "Bearer " ++ token

unfoldable pub fetch_token : SyncConfig → Text
fetch_token cfg = if is_empty cfg.master_token then cfg.api_token else cfg.master_token

-- What is made of the master's response, and of the response to the import.
unfoldable pub fetched : Option (ℕ × Option SyncData) → SyncResult SyncData
fetched none = stopped request_failed
fetched (some (status, none)) = stopped (if status == 200 then bad_body else bad_status)
fetched (some (status, some d)) = if status == 200 then done d else stopped bad_status

unfoldable pub applied : Option ℕ → SyncResult (Unit {0})
applied none = stopped request_failed
applied (some status) = if status == 200 then done tt else stopped bad_status

module _ (Net : Type 0) (http_get : Text → Text → Net → Option (ℕ × Option SyncData) × Net)
    (http_post : Text → Text → SyncData → Net → Option ℕ × Net) (cfg : SyncConfig) where
  unfoldable pub fetch_from_master : Net → SyncResult SyncData × Net
  unfolding fetched auth_header fetch_token
  fetch_from_master n =
      let (response, n') =
        http_get (cfg.master_url ++ codes "/sync/export") (auth_header (fetch_token cfg)) n in
      (fetched response, n')

  unfoldable pub apply_data : SyncData → Net → SyncResult (Unit {0}) × Net
  unfolding applied auth_header
  apply_data d n =
      let (response, n') =
        http_post (codes "http://" ++ cfg.rest_listen ++ codes "/sync/import")
          (auth_header cfg.api_token) d n in
      (applied response, n')

  -- After the fetch.
  unfoldable pub sync_fetched : SyncResult SyncData × Net → SyncResult (Unit {0}) × Net
  unfolding apply_data
  sync_fetched (stopped e, n) = (stopped e, n)
  sync_fetched (done d, n) = apply_data d n

  unfoldable pub sync_once : Net → SyncResult (Unit {0}) × Net
  unfolding sync_fetched fetch_from_master
  sync_once n = sync_fetched (fetch_from_master n)

  -- The first synchronisation and those of the ticks before the context ends; an error is logged.
  unfoldable pub periodic_sync : ℕ → Net → Net
  unfolding sync_once
  periodic_sync zero n = (sync_once n).1
  periodic_sync (suc ticks) n = periodic_sync ticks (sync_once n).1
