-- ===== src/Gate/Kustomization/Rendered.antt =====
-- What is rendered has been validated.

use devpath_shared.Base.{◌++◌, ◌≡◌, not, String, ◌==◌}
use devpath_shared.Base.Text.{codes}
use devpath_shared.Base.Result.{ok, >>=-eq-ok, ensure-eq-ok, ok-injective}
use devpath_shared.Context.Source.{sha64, digest_pattern}
use devpath_shared.Json.{text}
use devpath_shared.Runtime.{Bytes, Runtime}
use devpath_shared.Gate.Format.{nonzero, nonzero_iff}
use devpath_shared.Gate.JobName.{}
use devpath_shared.Gate.Lines.{join, split_lines, count_if}
use devpath_shared.Gate.Kustomization.{
  BaseParts, migration_base_parts, validate_migration_kustomization, render_migration_kustomization,
  migration_release_patch, render_parts, is_selected, is_selector_line, select_digest,
}

module _ (R : Runtime) where
  pub render_parts-valid :
      (parts : BaseParts) (digest release_sha : String) {result : Bytes}
      → render_parts R parts digest release_sha ≡ ok result
      → validate_migration_kustomization R result digest release_sha ≡ ok tt
  unfolding render_parts
  render_parts-valid parts digest release_sha h =
      let (_, h₁) = ensure-eq-ok (not (is_selected R parts digest release_sha)) _ _ h in
      let (_, h₂) =
        ensure-eq-ok (count_if (is_selector_line R) (split_lines parts.body) == 1) _ _ h₁ in
      let (patch, _, h₃) = >>=-eq-ok (migration_release_patch digest release_sha) _ h₂ in
      let (_, valid, h₄) =
        >>=-eq-ok
          (validate_migration_kustomization R
            (R.encode (join (select_digest R digest (split_lines parts.body))) ++ codes patch)
            digest release_sha)
          _ h₃ in
      rw (← (ok-injective h₄)) valid

  -- What is rendered has been validated for the same digest and release.
  pub render_migration_kustomization-valid :
      (raw : Bytes) (image_digest release_manifest_sha256 : String) {result : Bytes}
      → render_migration_kustomization R raw image_digest release_manifest_sha256 ≡ ok result
      → validate_migration_kustomization R result image_digest release_manifest_sha256 ≡ ok tt
  unfolding render_migration_kustomization
  render_migration_kustomization-valid raw image_digest release {result} h =
      let (digest, is_digest, h₁) =
        >>=-eq-ok (nonzero digest_pattern (text image_digest) "migration image digest") _ h in
      let (sha, is_sha, h₂) =
        >>=-eq-ok (nonzero sha64 (text release) "release manifest SHA-256") _ h₁ in
      let (parts, _, h₃) = >>=-eq-ok (migration_base_parts R raw) _ h₂ in
      let (same_digest, _) =
        (nonzero_iff digest_pattern image_digest "migration image digest" digest).0 is_digest in
      let (same_sha, _) = (nonzero_iff sha64 release "release manifest SHA-256" sha).0 is_sha in
      named same_digest same_sha (render_parts-valid parts digest sha h₃)
    where
      named :
          {digest sha : String}
          → digest ≡ image_digest
          → sha ≡ release
          → validate_migration_kustomization R result digest sha ≡ ok tt
          → validate_migration_kustomization R result image_digest release ≡ ok tt
      named d s valid = rw (← d, ← s) valid
