-- ===== src/Store.antt =====
-- crates/murmur-core/src/store and domain.rs: the session store.
pub mod Domain
pub mod Op
pub mod Jobs
pub mod Usage
pub mod Activity
pub mod Sessions
pub mod Items
pub mod Photos
pub mod Artifacts
pub mod Schemas
pub mod Contacts
pub mod Documents
pub mod Finish
pub mod Command
