-- ===== src/Daemon/Server/Run.antt =====
-- `NewServer` and `Run` of cmd/webblockd/server.go. The goroutine of each connection is taken to
-- end before the next; how the engine's steps mix is the matter of the engine.
use request_blocker.Shared.{
  ℕ, Bool, true, false, not, Option, none, some, List, [], ◌∷◌, Result, ok, err, if◌then◌else◌,
}
use request_blocker.RateLimit.{new_rate_limiter}
use request_blocker.Backend.Interface.{Backend}
use request_blocker.Daemon.Config.{Config}
use request_blocker.Daemon.Engine.{Engine}
use request_blocker.Daemon.Server.{Connection, Server, serve}

pub data RunError : Type 0 where
  remove_stale listen chmod_socket accept : RunError

-- How the calls before the loop end; a stale socket that is not there counts as removed.
pub record SocketIo : Type 0 where
  pub done_remove : Bool
  pub done_listen : Bool
  pub done_chmod : Bool

-- `Accept` returns a connection, or fails, with the context done or not.
pub data Accepted : Type 0 where
  accepted : Connection → Accepted
  refused : Bool → Accepted

abbrev pub accept_failed : Bool → Result RunError (Unit {0})
accept_failed true = ok tt
accept_failed false = err accept

module _ (be : Backend) (ttl : ℕ) where
  abbrev pub new_server : Config → Engine be ttl → Server be ttl
  new_server cfg e = record {
    limiter = new_rate_limiter cfg.rate_limit cfg.rate_window;
    engine = e;
  }

  -- The loop; without a result it still waits for the next connection.
  unfoldable pub accept_all :
      List Accepted → Server be ttl → Server be ttl × Option (Result RunError (Unit {0}))
  accept_all [] s = (s, none)
  accept_all (accepted c ∷ events) s = accept_all events (serve be ttl c s).0
  accept_all (refused cancelled ∷ events) s = (s, some (accept_failed cancelled))

  unfoldable pub run :
      SocketIo → List Accepted → Server be ttl → Server be ttl × Option (Result RunError (Unit {0}))
  unfolding accept_all
  run io events s =
      if not io.done_remove
      then (s, some (err remove_stale))
      else if not io.done_listen
      then (s, some (err listen))
      else if not io.done_chmod
      then (s, some (err chmod_socket))
      else accept_all events s
