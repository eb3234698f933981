-- ===== src/Proto.antt =====
-- internal/proto/proto.go: the requests and responses on the socket, and cmd/webblockd/identity.go.
use request_blocker.Shared.{ℕ, Bool, List, ◌==◌, nat_eq}
use request_blocker.Text.{Text, codes, ℤ, pos}

abbrev pub version : ℤ
version = pos 1

abbrev pub socket_path : Text
socket_path = codes "/run/webblock.sock"

-- An `Action` is a string; these four have a handler.
abbrev pub action_add : Text
action_add = codes "add"

abbrev pub action_remove : Text
action_remove = codes "remove"

abbrev pub action_show : Text
action_show = codes "show"

abbrev pub action_status : Text
action_status = codes "status"

pub record Request : Type 0 where
  pub version : ℤ
  pub action : Text
  pub domains : List Text
  pub ips : List Text
  pub target_user : Text

pub record ScopeView : Type 0 where
  pub scope : Text
  pub read_only : Bool
  pub domains : List Text
  pub ips : List Text

pub record StatusInfo : Type 0 where
  pub backend : Text
  pub protocol_version : ℤ

-- `peerCred`: what the kernel says of the other end of the connection.
pub record PeerCred : Type 0 where
  pub uid : ℕ
  pub gid : ℕ
  pub pid : ℕ

unfoldable pub is_root : PeerCred → Bool
is_root c = c.uid == 0
