-- ===== src/Daemon/Handlers/Defs.antt =====
-- The handlers and the dispatcher. What the daemon logs is left out.
use request_blocker.Shared.{
  ℕ, ◌+◌, ◌-◌, Bool, true, false, ◌&&◌, not, Option, none, some, List, [], ◌∷◌, ◌++◌, list_eq,
  nat_eq, ◌==◌, length, ltb, Map, lookup, Result, ok, err, ◌>>=◌, if◌then◌else◌,
}
use request_blocker.Text.{Text, codes, ℤ, pos, int_le, itoa}
use request_blocker.Store.Scope.{Scope, global_scope, user_scope, label}
use request_blocker.Store.BlockList.{BlockList}
use request_blocker.Store.Disk.{Disk, Io, StoreError, load, list_user_uids}
use request_blocker.Proto.{
  version, action_add, action_remove, action_show, action_status, Request, ScopeView, StatusInfo,
  PeerCred, is_root,
}
use request_blocker.Resolver.{Dns}
use request_blocker.Backend.Interface.{Backend}
use request_blocker.Daemon.Authz.{UserDb, AuthzError, resolve_scope, scope_label_with_name}
use request_blocker.Daemon.Engine.{World, EngineError, Engine, add_entries, remove_entries}
use request_blocker.Daemon.Handlers.Inputs.{InputError, normalize_and_validate}

-- The texts that a response's error can be, by the words of their messages.
pub data ResponseError : Type 0 where
  not_authorized : AuthzError → ResponseError
  invalid : InputError → ResponseError
  nothing_to_do generic_apply_error : ResponseError
  unsupported_version : ℤ → ResponseError
  unknown_action : Text → ResponseError

pub record Response : Type 0 where
  pub is_ok : Bool
  pub error : Option ResponseError
  pub message : Text
  pub views : List ScopeView
  pub status : Option StatusInfo

abbrev pub failure : ResponseError → Response
failure x = record { is_ok = false; error = some x; message = []; views = []; status = none }

abbrev pub success : Response
success = record { is_ok = true; error = none; message = []; views = []; status = none }

-- What a handler meets outside: lower case beyond ASCII, the user database, the answers of the
-- file system and of DNS, and the worlds of the two phases of `Rebuild`.
pub record Ambient : Type 0 where
  pub lower : ℕ → ℕ
  pub db : UserDb
  pub io : Io
  pub dns : Dns
  pub first : World
  pub second : World

pub message : Bool → Scope → ℕ × ℕ → ℕ → ℕ → Text
message add scope (changed_dom, changed_ip) req_dom req_ip =
    let verb = if add then codes "added to" else codes "removed from" in
    let noop = (req_dom + req_ip) - (changed_dom + changed_ip) in
    let msg =
      itoa (pos changed_dom)
      ++ codes " domain(s) and "
      ++ itoa (pos changed_ip)
      ++ codes " IP(s) "
      ++ verb
      ++ codes " "
      ++ label scope
      ++ codes " blocklist" in
    if ltb (changed_dom + changed_ip) (req_dom + req_ip)
    then msg
      ++ codes " ("
      ++ itoa (pos noop)
      ++ (if add then codes " already present)" else codes " not found)")
    else msg

abbrev pub global_view : BlockList → ScopeView
global_view bl = record {
  scope = codes "global (all users)";
  read_only = false;
  domains = bl.domains;
  ips = bl.ips;
}

abbrev pub user_view : UserDb → ℤ → BlockList → ScopeView
user_view db uid bl = record {
  scope = scope_label_with_name db uid;
  read_only = false;
  domains = bl.domains;
  ips = bl.ips;
}

unfoldable pub user_views : UserDb → Disk → List ℤ → Result StoreError (List ScopeView)
user_views db d [] = ok []
user_views db d (uid ∷ uids) = load (user_scope uid) d >>= λ bl.
    user_views db d uids >>= λ views. ok (user_view db uid bl ∷ views)

abbrev pub shown : Result StoreError (List ScopeView) → Response
shown (err x) = failure generic_apply_error
shown (ok views) = record success { views = views }

pub show_as_root : UserDb → Bool → Disk → Response
unfolding user_views
show_as_root db readable d = shown do
  global ← load global_scope d
  uids ← list_user_uids readable d
  views ← user_views db d uids
  ok (global_view global ∷ views)

unfoldable pub show_as_user : ℤ → Disk → Response
show_as_user uid d = shown do
  own ← load (user_scope uid) d
  global ← load global_scope d
  ok (
      record {
        scope = codes "your blocklist";
        read_only = false;
        domains = own.domains;
        ips = own.ips;
      }
      ∷ record {
        scope = codes "global (set by administrator)";
        read_only = true;
        domains = global.domains;
        ips = global.ips;
      }
      ∷ [])

unfoldable pub show : UserDb → Bool → PeerCred → Disk → Response
unfolding show_as_root show_as_user
show db readable caller d =
    if is_root caller then show_as_root db readable d else show_as_user (pos caller.uid) d

pub status : Text → Response
status backend_name = record success {
  status = some (record { backend = backend_name; protocol_version = version });
}

-- The handlers of `NewDispatcher`: `mutateHandler` with its flag `add`, and the other two.
pub data Handler : Type 0 where
  mutate_handler : Bool → Handler
  show_handler status_handler : Handler

abbrev pub handlers : Map Text Handler
handlers =
    (action_add, mutate_handler true)
    ∷ (action_remove, mutate_handler false)
    ∷ (action_show, show_handler)
    ∷ (action_status, status_handler)
    ∷ []

module _ (be : Backend) (ttl : ℕ) where
  abbrev pub answered :
      Bool → Scope → ℕ → ℕ → Engine be ttl × Result EngineError (ℕ × ℕ) → Engine be ttl × Response
  answered add scope req_dom req_ip (e, err x) = (e, failure generic_apply_error)
  answered add scope req_dom req_ip (e, ok n) =
      (e, record success { message = message add scope n req_dom req_ip })

  abbrev pub change_entries :
      Bool
      → Ambient
      → Scope
      → List Text
      → List Text
      → Engine be ttl
      → Engine be ttl × Result EngineError (ℕ × ℕ)
  change_entries true a scope domains ips e =
      add_entries be ttl a.io a.first a.second a.dns scope domains ips e
  change_entries false a scope domains ips e =
      remove_entries be ttl a.io a.first a.second a.dns scope domains ips e

  abbrev pub change_scope :
      Bool
      → Ambient
      → Scope
      → Result InputError (List Text × List Text)
      → Engine be ttl
      → Engine be ttl × Response
  change_scope add a scope (err x) e = (e, failure (invalid x))
  change_scope add a scope (ok (domains, ips)) e =
      if length domains == 0 && length ips == 0
      then (e, failure nothing_to_do)
      else answered add scope (length domains) (length ips)
          (change_entries add a scope domains ips e)

  abbrev pub authorized :
      Bool → Ambient → Request → Result AuthzError Scope → Engine be ttl → Engine be ttl × Response
  authorized add a req (err x) e = (e, failure (not_authorized x))
  authorized add a req (ok scope) e =
      change_scope add a scope (normalize_and_validate a.lower req.domains req.ips) e

  unfoldable pub handle_mutation :
      Bool → Ambient → PeerCred → Request → Engine be ttl → Engine be ttl × Response
  unfolding normalize_and_validate message
  handle_mutation add a caller req e =
      authorized add a req (resolve_scope a.db req.target_user caller) e

  unfoldable pub handle :
      Option Handler → Ambient → PeerCred → Request → Engine be ttl → Engine be ttl × Response
  unfolding handle_mutation show status
  handle none a caller req e = (e, failure (unknown_action req.action))
  handle (some (mutate_handler add)) a caller req e = handle_mutation add a caller req e
  handle (some show_handler) a caller req e = (e, show a.db a.first.readable caller e.disk)
  handle (some status_handler) a caller req e = (e, status be.name)

  unfoldable pub dispatch : Ambient → PeerCred → Request → Engine be ttl → Engine be ttl × Response
  unfolding handle
  dispatch a caller req e =
      if not (int_le req.version version)
      then (e, failure (unsupported_version req.version))
      else handle (lookup req.action handlers) a caller req e
