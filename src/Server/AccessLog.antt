-- ===== src/Server/AccessLog.antt =====
-- internal/server/log_middleware.go. In router.go it stands behind gin's recovery handler, so a panic
-- of a handler passes through it.
use ragkb.Base.{ℕ, ◌-◌, List, [], ◌∷◌, ◌++◌}
use ragkb.Text.{Text}
use ragkb.Handler.Context.{Handler, Reply, reply, crash}
use ragkb.Server.{status}

-- What gin knows of the request: the middleware reads path and query before the handler runs.
pub record RequestLine : Type 0 where
  pub method : Text
  pub path : Text
  pub query : Text
  pub client_ip : Text

pub record Entry : Type 0 where
  pub status : ℕ
  pub method : Text
  pub path : Text
  pub query : Text
  pub ip : Text
  pub latency : ℕ

-- The entries that one request adds: `logger.Info` is not reached when `c.Next` panics.
unfoldable pub entries : RequestLine → ℕ → Reply → List Entry
entries line latency (crash p) = []
entries line latency (reply r) =
    record {
      status = r.status;
      method = line.method;
      path = line.path;
      query = line.query;
      ip = line.client_ip;
      latency = latency;
    }
    ∷ []

-- A handler behind the middleware, on its world and the log, the newest entry first. `now` is the
-- monotonic clock.
unfoldable pub request_logger :
    {W : Type 0} → (W → ℕ) → RequestLine → Handler W → Handler (W × List Entry)
unfolding entries
request_logger now line h (w, log) =
    let (r, v) = h w in (r, (v, entries line (now v - now w) r ++ log))
