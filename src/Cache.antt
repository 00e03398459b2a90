-- ===== src/Cache.antt =====
-- packages/cache/src: the page cache, whose entries live in one Valkey that the site and the API
-- share, and the module of packages/modules/src that empties it when content changes.
pub mod Valkey
pub mod Tags
pub mod Names
pub mod Store
pub mod Entries
pub mod Effects
pub mod Filing
pub mod Filed
pub mod Coherence
pub mod Instants
pub mod Purged
pub mod Scripts
pub mod Tagging
pub mod Kinds
pub mod Runs
pub mod Stamps
pub mod Refused
pub mod Left
pub mod Served
pub mod Invalidation
pub mod Tests
