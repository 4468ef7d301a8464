-- ===== src/Bundle.antt =====
-- crates/bundle: the `.seal` container, its documents, its writer and its reader.
pub mod Anchors
pub mod Types
pub mod Manifest
pub mod Writer
pub mod Reader
pub mod RoundTrip
pub mod Shards
