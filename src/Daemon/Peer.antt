-- ===== src/Daemon/Peer.antt =====
-- cmd/webblockd/peercred_linux.go: the credentials of the process at the other end of a
-- connection, as the kernel gives them. The system calls are outside.
use request_blocker.Shared.{Bool, not, Option, none, some, Result, ok, err, if◌then◌else◌}
use request_blocker.Proto.{PeerCred}

-- The errors, by the words of their messages.
pub data PeerError : Type 0 where
  no_syscall_conn getsockopt_control no_so_peercred : PeerError

-- How the calls on a connection end: `SyscallConn`, `Control`, and the `SO_PEERCRED` of the
-- function that `Control` runs.
pub record PeerCalls : Type 0 where
  pub syscall_conn : Bool
  pub control : Bool
  pub so_peercred : Option PeerCred

unfoldable pub get_peer_cred : PeerCalls → Result PeerError PeerCred
get_peer_cred c =
    if not c.syscall_conn
    then err no_syscall_conn
    else if not c.control
    then err getsockopt_control
    else elim c.so_peercred [ none ↦ err no_so_peercred | some cred ↦ ok cred ]
