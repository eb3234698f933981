-- ===== src/Store.antt =====
-- internal/store/store.go: the blocklists and the files that hold them.
pub mod Scope
pub mod BlockList
pub mod Disk
