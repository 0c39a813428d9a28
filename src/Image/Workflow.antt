-- ===== src/Image/Workflow.antt =====
-- The commands of immutable_migration_image.py as the workflow runs them, one job step each.
pub mod Source
pub mod Outputs
pub mod Steps
pub mod Parts
pub mod Handoff
pub mod Postflight
pub mod Verify
