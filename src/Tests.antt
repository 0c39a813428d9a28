-- ===== src/Tests.antt =====
-- The theorems at concrete inputs.
mod Sample
mod Images
mod Handoffs
mod Gates
mod Packages
mod Locals
mod Approvals
mod Rulesets
mod Results
mod Kustomizations
mod Renders
