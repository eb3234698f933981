-- ===== src/Backend.antt =====
-- internal/backend: the desired filtering state, the interface, and the nftables backend.
pub mod State
pub mod Interface
pub mod Nft
pub mod Iptables
pub mod Detect
