-- ===== src/Daemon/Server.antt =====
-- cmd/webblockd/server.go: what `serve` does with a connection. The socket, its deadline and JSON are outside.
pub mod Run
use request_blocker.Shared.{
  ℕ, ◌^◌, ◌<◌, ◌≡◌, ◌∙◌, refl, Bool, true, false, Option, none, some, Result, ok, err, List, [],
  ◌∷◌, All,
}
use request_blocker.Text.{pos, IsInt64}
use request_blocker.Store.Scope.{Scope, user_scope}
use request_blocker.Store.Disk.{load}
use request_blocker.Store.Disk.Paths.{same_scope}
use request_blocker.Proto.{Request, PeerCred, is_root}
use request_blocker.Daemon.Peer.{PeerError, PeerCalls, get_peer_cred}
use request_blocker.RateLimit.{RateLimiter, allow}
use request_blocker.Backend.Interface.{Backend}
use request_blocker.Daemon.Engine.{Engine}
use request_blocker.Daemon.Engine.Rebuild.{IsSound}
use request_blocker.Daemon.Handlers.{Ambient, Response, dispatch}
use request_blocker.Daemon.Access.{dispatch-IsSound, dispatch-own}

-- The responses of `serve` itself, by the words of their messages, and those of the dispatcher.
pub data Reply : Type 0 where
  unknown_identity malformed_request rate_limited : Reply
  dispatched : Response → Reply

-- What a connection brings: its time, how the calls for the peer's credentials end, the request
-- if it can be decoded, and the answers of the world to its handling.
pub record Connection : Type 0 where
  pub now : ℕ
  pub peer : PeerCalls
  pub request : Option Request
  pub ambient : Ambient

-- What must not be a connection's caller for a scope to be safe from it: root, or its owner.
abbrev pub IsForeignTo : Scope → Result PeerError PeerCred → Type 0
IsForeignTo t (err x) = Unit
IsForeignTo t (ok caller) =
    (is_root caller ≡ false)
    × (caller.uid < 2 ^ 32)
    × (same_scope (user_scope (pos caller.uid)) t ≡ false)

abbrev pub IsForeign : Scope → Connection → Type 0
IsForeign t c = IsForeignTo t (get_peer_cred c.peer)

module _ (be : Backend) (ttl : ℕ) where
  pub record Server : Type 0 where
    pub limiter : RateLimiter
    pub engine : Engine be ttl

  abbrev pub admitted : Ambient → PeerCred → Request → Server → RateLimiter × Bool → Server × Reply
  admitted a caller req s (limiter', false) = (record s { limiter = limiter' }, rate_limited)
  admitted a caller req s (limiter', true) =
      let (engine', resp) = dispatch be ttl a caller req s.engine in
      (record { limiter = limiter'; engine = engine' }, dispatched resp)

  abbrev pub decoded : Connection → PeerCred → Option Request → Server → Server × Reply
  decoded c caller none s = (s, malformed_request)
  decoded c caller (some req) s = admitted c.ambient caller req s (allow caller.uid c.now s.limiter)

  abbrev pub identified : Connection → Result PeerError PeerCred → Server → Server × Reply
  identified c (err x) s = (s, unknown_identity)
  identified c (ok caller) s = decoded c caller c.request s

  unfoldable pub serve : Connection → Server → Server × Reply
  unfolding get_peer_cred
  serve c s = identified c (get_peer_cred c.peer) s

  admitted-IsSound :
      (a : Ambient) (caller : PeerCred) (req : Request) (s : Server) (r : RateLimiter × Bool)
      → IsSound be ttl s.engine
      → IsSound be ttl (admitted a caller req s r).0.engine
  admitted-IsSound a caller req s (limiter', false) sound = sound
  admitted-IsSound a caller req s (limiter', true) sound =
      dispatch-IsSound be ttl a caller req s.engine sound

  identified-IsSound :
      (c : Connection) (o : Result PeerError PeerCred) (s : Server)
      → IsSound be ttl s.engine
      → IsSound be ttl (identified c o s).0.engine
  identified-IsSound c (err x) s sound = sound
  identified-IsSound c (ok caller) s sound = go c.request
    where
      go : (req : Option Request) → IsSound be ttl (decoded c caller req s).0.engine
      go none = sound
      go (some req) =
          admitted-IsSound c.ambient caller req s (allow caller.uid c.now s.limiter) sound

  pub serve-IsSound :
      (c : Connection) (s : Server) → IsSound be ttl s.engine → IsSound be ttl (serve c s).0.engine
  unfolding serve
  serve-IsSound c s sound = identified-IsSound c (get_peer_cred c.peer) s sound

  admitted-foreign :
      (a : Ambient) (caller : PeerCred) (req : Request) (s : Server) (t : Scope)
      (r : RateLimiter × Bool)
      → is_root caller ≡ false
      → caller.uid < 2 ^ 32
      → same_scope (user_scope (pos caller.uid)) t ≡ false
      → IsInt64 t.uid
      → load t (admitted a caller req s r).0.engine.disk ≡ load t s.engine.disk
  admitted-foreign a caller req s t (limiter', false) user small other ht = refl
  admitted-foreign a caller req s t (limiter', true) user small other ht =
      dispatch-own be ttl a caller req s.engine t user small ht other

  decoded-foreign :
      (c : Connection) (caller : PeerCred) (req : Option Request) (s : Server) (t : Scope)
      → IsForeignTo t (ok caller)
      → IsInt64 t.uid
      → load t (decoded c caller req s).0.engine.disk ≡ load t s.engine.disk
  decoded-foreign c caller none s t _ ht = refl
  decoded-foreign c caller (some req) s t (user, small, other) ht =
      admitted-foreign c.ambient caller req s t (allow caller.uid c.now s.limiter) user small other
        ht

  identified-foreign :
      (c : Connection) (o : Result PeerError PeerCred) (s : Server) (t : Scope)
      → IsForeignTo t o
      → IsInt64 t.uid
      → load t (identified c o s).0.engine.disk ≡ load t s.engine.disk
  identified-foreign c (err x) s t _ ht = refl
  identified-foreign c (ok caller) s t foreign ht =
      decoded-foreign c caller c.request s t foreign ht

  -- A connection that is neither root's nor the owner's leaves a stored list as it is.
  pub serve-foreign :
      (c : Connection) (s : Server) (t : Scope)
      → IsForeign t c
      → IsInt64 t.uid
      → load t (serve c s).0.engine.disk ≡ load t s.engine.disk
  unfolding serve
  serve-foreign c s t foreign ht = identified-foreign c (get_peer_cred c.peer) s t foreign ht
