-- ===== src/Client/Ends.antt =====
-- What an exit status of the client means.
use request_blocker.Shared.{
  ℕ, Bool, true, Option, none, some, List, [], ◌≡◌, subst, refl, arith, list_eq, nat_eq, contains,
  Result, Result-cases, ok, err, Bool-cases, inl, inr,
}
use request_blocker.Text.{Text, IsInt64}
use request_blocker.Store.Scope.{Scope}
use request_blocker.Store.Disk.Users.{stored}
use request_blocker.Proto.{Request, PeerCred}
use request_blocker.Validate.Normalize.{normalize_domain}
use request_blocker.Backend.Interface.{Backend}
use request_blocker.Daemon.Authz.{resolve_scope}
use request_blocker.Daemon.Engine.{Engine}
use request_blocker.Daemon.Handlers.{Ambient, Response, ResponseError, dispatch}
use request_blocker.Client.Arguments.{Options, options, parse_args}
use request_blocker.Client.Requests.{split_list, build_request}
use request_blocker.Client.Effects.{asks, client-stored}
use request_blocker.Client.Output.{Answer}
use request_blocker.Client.Main.{Socket, SendError, send, answered, requested, parsed, main}

-- What the client decodes of a response; `words` are the texts of its errors.
abbrev pub error_text : (ResponseError → Text) → Option ResponseError → Text
error_text words none = []
error_text words (some x) = words x

abbrev pub answer_of : (ResponseError → Text) → Response → Answer
answer_of words r = record {
  is_ok = r.is_ok;
  error = error_text words r.error;
  message = r.message;
  views = r.views;
  status = r.status;
}

module _ (lower : ℕ → ℕ) (encode : Answer → Text) (socket : Text → Socket) where
  answered-ok :
      (o : Options) (req : Request) (r : Result SendError Answer)
      → (answered lower encode socket o req r).status ≡ 0
      → (resp : Answer) × (r ≡ ok resp) × (resp.is_ok ≡ true)
  answered-ok o req (err x) h = absurd (ground (arith, h))
  answered-ok o req (ok resp) h = elim (Bool-cases resp.is_ok) [
    | inl fine ↦ (resp, refl, fine)
    | inr bad ↦ absurd (ground (arith, rw bad at h))
  ]

  send-ok :
      (s : Socket) (req : Request) (resp : Answer) → send s req ≡ ok resp → s.answer req ≡ some resp
  unfolding send
  send-ok s req resp h = ground arith

  -- The client that sends a request ends with status 0 only if the daemon answers it with success.
  pub main-ok :
      (args : List Text) (o : Options)
      → parse_args args ≡ options o
      → (main lower encode socket args).status ≡ 0
      → (req : Request) × (resp : Answer) × (build_request lower o ≡ ok req)
        × ((socket o.socket).answer req ≡ some resp)
        × (resp.is_ok ≡ true)
  unfolding main
  main-ok args o is h =
      let sent : (requested lower encode socket o (build_request lower o)).status ≡ 0 =
        subst (λ p. (parsed lower encode socket p).status ≡ 0) is h in
      elim (Result-cases (build_request lower o)) [
        | inl (x, bad) ↦ absurd (ground (arith, rw bad at sent))
        | inr (req, built) ↦
            let (resp, replied, fine) =
              answered-ok o req (send (socket o.socket) req) (rw built at sent) in
            (req, resp, built, send-ok (socket o.socket) req resp replied, fine)
      ]

module _ (be : Backend) (ttl : ℕ) (a : Ambient) (words : ResponseError → Text)
    (encode : Answer → Text) (socket : Text → Socket) where
  -- When the client runs with `--add` or `--remove` against the daemon and ends with status 0, it
  -- has sent a request, and after the daemon's answer to it each name that stands between the
  -- commas of `--name` is, in its normal form, in the stored list of the request's scope for an
  -- `--add`, and not in it for a `--remove`. The scope's uid fits in 64 bits.
  pub main-stored :
      (add : Bool) (args : List Text) (o : Options) (caller : PeerCred) (e : Engine be ttl)
      (s : Scope) (raw : Text)
      → parse_args args ≡ options o
      → asks add o ≡ true
      → ((req : Request)
          → (socket o.socket).answer req
            ≡ some (answer_of words (dispatch be ttl a caller req e).1))
      → resolve_scope a.db o.user caller ≡ ok s
      → IsInt64 s.uid
      → (main a.lower encode socket args).status ≡ 0
      → contains (split_list o.name) raw ≡ true
      → (req : Request) × (build_request a.lower o ≡ ok req)
        × (contains
              (stored s (dispatch be ttl a caller req e).0.disk).domains
              (normalize_domain a.lower raw)
            ≡ add)
  main-stored add args o caller e s raw is asked daemon scope hs ended there =
      let (req, resp, built, replied, fine) = main-ok a.lower encode socket args o is ended in
      let done : (dispatch be ttl a caller req e).1.is_ok ≡ true =
        ground (arith, daemon req, replied, fine) in
      (
        req,
        built,
        client-stored be ttl a add args o req caller e s raw is asked built scope hs done there,
      )
