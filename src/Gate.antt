-- ===== src/Gate.antt =====
-- scripts/release/migration_release_gate.py: the gate of the GitOps update that releases a migration.
pub mod Format
pub mod Values
pub mod Integers
pub mod Names
pub mod Exact
pub mod Dispatch
pub mod JobName
pub mod Sealed
pub mod Facts
pub mod Approval
pub mod Ruleset
pub mod Protection
pub mod Authorization
pub mod Text
pub mod File
pub mod Result
pub mod Fence
pub mod Lines
pub mod Kustomization
pub mod Scan
pub mod Render
pub mod BaseJob
pub mod InPlace
