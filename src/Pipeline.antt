-- ===== src/Pipeline.antt =====
-- crates/murmur-core/src/pipeline: from a session's items to the document.
pub mod Notes
pub mod SpokenPrice
pub mod Document
