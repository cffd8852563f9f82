-- ===== src/Cache.antt =====
-- crates/bulwark-engine/src/cache.rs: the response cache.
pub mod Entries
pub mod Snapshot
pub mod Message
pub mod Lru
pub mod Store
mod Ttl
mod Lookup
mod Hits
mod Effects
mod Keys
mod Runs
mod Served
mod Restore
mod Import
mod Examples
pub mod StoreExamples
