-- ===== src/Package.antt =====
-- scripts/release/immutable_shared_package.py: the verifier of the Maven publication. The children
-- hold the artifacts, the source check, the redirect rule, and the remote classification.
pub mod Artifact
pub mod Source
pub mod Redirect
pub mod Remote
pub mod Local
