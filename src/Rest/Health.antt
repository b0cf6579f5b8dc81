-- ===== src/Rest/Health.antt =====
-- health of internal/server/rest/server.go.
use namedor.Text.{Text, codes}
use namedor.Common.{ℕ}

-- What a ping of the database comes to: no handle of it, no answer, or an answer.
pub data Ping : Type 0 where
  no_handle unreachable answered : Ping

pub record HealthReply : Type 0 where
  pub code : ℕ
  pub status : Text
  pub db : Text

unfoldable pub health : Ping → HealthReply
health no_handle = record { code = 503; status = codes "degraded"; db = codes "error" }
health unreachable = record { code = 503; status = codes "degraded"; db = codes "unreachable" }
health answered = record { code = 200; status = codes "ok"; db = codes "ok" }
