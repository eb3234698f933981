-- ===== src/Validate/Address.antt =====
-- Addresses as texts: `net.ParseIP`, `IP.To4`, `IP.String` and `NormalizeIP`.
mod Parse
mod Print
mod Hex
mod Groups
mod Runs
mod Printed6
mod Canonical
mod Collected
mod WellFormed
pub mod Normal
pub mod Dotted
pub mod Tests
unfoldable pub use Parse.*
unfoldable pub use Print.*
