-- ===== src/Backend/Detect.antt =====
-- `Detect` of internal/backend/backend.go. What the probes of the system find is a parameter.
use request_blocker.Shared.{Bool, ◌&&◌, Option, none, some, if◌then◌else◌}
use request_blocker.Backend.Interface.{Backend}
use request_blocker.Backend.Nft.Kernel.{NftTool}
use request_blocker.Backend.Nft.Apply.{nft_backend}
use request_blocker.Backend.Iptables.Tool.{IptablesTool}
use request_blocker.Backend.Iptables.Apply.{iptables_backend}

-- Which commands are in the path, and whether `nft list ruleset` succeeds.
pub record Probes : Type 0 where
  pub finds_nft : Bool
  pub lists_ruleset : Bool
  pub finds_iptables : Bool
  pub finds_ipset : Bool

abbrev pub has_working_nft : Probes → Bool
has_working_nft p = p.finds_nft && p.lists_ruleset

abbrev pub has_iptables_and_ipset : Probes → Bool
has_iptables_and_ipset p = p.finds_iptables && p.finds_ipset

unfoldable pub detect : NftTool → IptablesTool → Probes → Option Backend
detect nft iptables p =
    if has_working_nft p
    then some (nft_backend nft)
    else if has_iptables_and_ipset p
    then some (iptables_backend iptables)
    else none
