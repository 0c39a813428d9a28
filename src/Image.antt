-- ===== src/Image.antt =====
-- scripts/release/immutable_migration_image.py: the publisher and verifier of the migration image.
pub mod Format
pub mod Document
pub mod Response
pub mod Http
pub mod Redirect
pub mod Registry
pub mod Recheck
pub mod Evidence
pub mod Workflow
