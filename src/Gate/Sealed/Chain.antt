-- ===== src/Gate/Sealed/Chain.antt =====
-- The chain of hashes and names from the dispatch input to the image.
use devpath_shared.Base.{◌≡◌, ◌∙◌, ap, true, String, ◌==ˢ◌, eq_iff, All}
use devpath_shared.Base.Pattern.{fullmatch}
use devpath_shared.Base.Result.{ok, ok-injective, ensure-eq-ok, or_refuse-eq-ok, >>=-eq-ok}
use devpath_shared.Context.Source.{sha40, sha64, digest_pattern}
use devpath_shared.Json.{
  Json, text, object, Fields, get, py_eq, py_eq-text_iff, as_dict, as_dict-eq,
}
use devpath_shared.Runtime.{Bytes, Runtime}
use devpath_shared.Gate.Format.{
  release_pattern, is_nonzero, nonzero, nonzero_iff, nonzero-eq_ok, exact_keys, exact_keys-eq_ok,
  json_object, max_api_document_bytes,
}
use devpath_shared.Gate.Sealed.{
  SealedRelease, candidate_path, expected_migration, require_migration, require_migration_iff,
  check_release, check_migration, check_candidate, validate_sealed_release,
}

module _ (R : Runtime) where
  -- The release manifest names the release, its validator and the hash of its candidate.
  abbrev pub Seals : String → Bytes → String → String → Type 0
  Seals release_id raw validator_head_sha candidate_sha =
      (release attestation candidate_ref : Fields) × (json_object R raw "release-manifest"
          max_api_document_bytes
        ≡ ok release)
      × (get release "release_id" ≡ text release_id)
      × (get release "validation_attestation" ≡ object attestation)
      × (get attestation "validator_head_sha" ≡ text validator_head_sha)
      × (get release "candidate_spec" ≡ object candidate_ref)
      × (get candidate_ref "path" ≡ text (candidate_path release_id))
      × (get candidate_ref "sha256" ≡ text candidate_sha)

  check_release-Seals :
      (release_id : String) (raw : Bytes) {r : String × String}
      → check_release R release_id raw ≡ ok r
      → Seals release_id raw r.0 r.1
  unfolding check_release
  check_release-Seals release_id raw h =
      let (release, parsed, h₁) = >>=-eq-ok (json_object R raw _ _) _ h in
      let (_, h₂) = ensure-eq-ok (py_eq (get release "document_type") _) _ _ h₁ in
      let (named, h₃) = ensure-eq-ok (py_eq (get release "release_id") _) _ _ h₂ in
      let (attestation, is_dict, h₄) =
        or_refuse-eq-ok (as_dict (get release "validation_attestation")) _ _ h₃ in
      let (head, is_head, h₅) =
        >>=-eq-ok (nonzero sha40 (get attestation "validator_head_sha") _) _ h₄ in
      let (candidate_ref, is_ref, h₆) =
        >>=-eq-ok (exact_keys R (get release "candidate_spec") _ _) _ h₅ in
      let (placed, h₇) = ensure-eq-ok (py_eq (get candidate_ref "path") _) _ _ h₆ in
      let (sha, is_sha, h₈) = >>=-eq-ok (nonzero sha64 (get candidate_ref "sha256") _) _ h₇ in
      let same = ok-injective h₈ in
      (
        release,
        attestation,
        candidate_ref,
        parsed,
        (py_eq-text_iff _ _).0 named,
        as_dict-eq _ is_dict,
        (nonzero-eq_ok sha40 _ _ is_head).0 ∙ ap (λ (p : String × String). text p.0) same,
        exact_keys-eq_ok R _ _ _ is_ref,
        (py_eq-text_iff _ _).0 placed,
        (nonzero-eq_ok sha64 _ _ is_sha).0 ∙ ap (λ (p : String × String). text p.1) same,
      )

  -- The migration has the sealed contents and names the image.
  abbrev pub Migrates : String → Json → String → Type 0
  Migrates source_sha shared_migration image_digest =
      (migration : Fields) × (shared_migration ≡ object migration)
      × All (λ (e : String × String). get migration e.0 ≡ text e.1) (expected_migration source_sha)
      × (get migration "image_digest" ≡ text image_digest)
      × (is_nonzero digest_pattern image_digest ≡ true)

  check_migration-Migrates :
      (v : Json) (source_sha : String) {image_digest : String}
      → check_migration R v source_sha ≡ ok image_digest
      → Migrates source_sha v image_digest
  unfolding check_migration
  check_migration-Migrates v source_sha h =
      let (migration, is_migration, h₁) = >>=-eq-ok (exact_keys R v _ _) _ h in
      let (_, fixed, h₂) =
        >>=-eq-ok (require_migration migration (expected_migration source_sha)) _ h₁ in
      let (named, good) = nonzero-eq_ok digest_pattern (get migration "image_digest") _ h₂ in
      (
        migration,
        exact_keys-eq_ok R v _ _ is_migration,
        (require_migration_iff migration (expected_migration source_sha)).0 fixed,
        named,
        good,
      )

  -- The candidate names the release, the base of the change and the migration.
  abbrev pub Specifies : String → String → Bytes → String → String → Type 0
  Specifies release_id source_sha raw base_sha image_digest =
      (candidate gitops : Fields) × (json_object R raw "candidate-spec" max_api_document_bytes
        ≡ ok candidate)
      × (get candidate "release_id" ≡ text release_id)
      × (get candidate "gitops" ≡ object gitops)
      × (get gitops "base_sha" ≡ text base_sha)
      × Migrates source_sha (get candidate "shared_migration") image_digest

  check_candidate-Specifies :
      (release_id source_sha : String) (raw : Bytes) {r : String × String}
      → check_candidate R release_id source_sha raw ≡ ok r
      → Specifies release_id source_sha raw r.0 r.1
  unfolding check_candidate
  check_candidate-Specifies release_id source_sha raw h =
      let (candidate, parsed, h₁) = >>=-eq-ok (json_object R raw _ _) _ h in
      let (_, h₂) = ensure-eq-ok (py_eq (get candidate "document_type") _) _ _ h₁ in
      let (named, h₃) = ensure-eq-ok (py_eq (get candidate "release_id") _) _ _ h₂ in
      let (gitops, is_dict, h₄) = or_refuse-eq-ok (as_dict (get candidate "gitops")) _ _ h₃ in
      let (base, is_base, h₅) = >>=-eq-ok (nonzero sha40 (get gitops "base_sha") _) _ h₄ in
      let (image, is_image, h₆) =
        >>=-eq-ok (check_migration R (get candidate "shared_migration") source_sha) _ h₅ in
      let same = ok-injective h₆ in
      (
        candidate,
        gitops,
        parsed,
        (py_eq-text_iff _ _).0 named,
        as_dict-eq _ is_dict,
        (nonzero-eq_ok sha40 _ _ is_base).0 ∙ ap (λ (p : String × String). text p.0) same,
        check_migration-Migrates _ source_sha
            (is_image ∙ ap (λ (p : String × String). ok p.1) same),
      )

  -- When a sealed release is accepted, the manifest is the one whose hash was dispatched, it names the
  -- release, the returned validator head and the returned hash of the candidate, the candidate is the
  -- file of that hash, and it names the release, the returned base and the migration with the sealed
  -- contents and the returned image.
  pub validate_sealed_release-chain :
      (release_id source_sha release_sha256 : String) (release_raw candidate_raw : Bytes)
      {r : SealedRelease}
      → validate_sealed_release R release_id source_sha release_sha256 release_raw candidate_raw
        ≡ ok r
      → (R.sha256 release_raw ≡ release_sha256)
        × Seals release_id release_raw r.validator_head_sha r.candidate_spec_sha256
        × (R.sha256 candidate_raw ≡ r.candidate_spec_sha256)
        × Specifies release_id source_sha candidate_raw r.gitops_base_sha r.image_digest
  unfolding validate_sealed_release
  validate_sealed_release-chain release_id source_sha release_sha256 release_raw candidate_raw h =
      let (_, h₁) = ensure-eq-ok (fullmatch release_pattern release_id) _ _ h in
      let (_, _, h₂) = >>=-eq-ok (nonzero sha40 (text source_sha) _) _ h₁ in
      let (sha, is_sha, h₃) = >>=-eq-ok (nonzero sha64 (text release_sha256) _) _ h₂ in
      let (hashed, h₄) = ensure-eq-ok (R.sha256 release_raw ==ˢ sha) _ _ h₃ in
      let (release, sealed, h₅) = >>=-eq-ok (check_release R release_id release_raw) _ h₄ in
      let (candidate_hashed, h₆) = ensure-eq-ok (R.sha256 candidate_raw ==ˢ release.1) _ _ h₅ in
      let (candidate, specified, h₇) =
        >>=-eq-ok (check_candidate R release_id source_sha candidate_raw) _ h₆ in
      let same = ok-injective h₇ in
      (
        (eq_iff _ _).0 hashed ∙ ((nonzero_iff sha64 release_sha256 _ _).0 is_sha).0,
        check_release-Seals release_id release_raw (
            sealed
            ∙ ap (λ (s : SealedRelease). ok (s.validator_head_sha, s.candidate_spec_sha256)) same),
        (eq_iff _ _).0 candidate_hashed ∙ ap (λ (s : SealedRelease). s.candidate_spec_sha256) same,
        check_candidate-Specifies release_id source_sha candidate_raw
            (specified ∙ ap (λ (s : SealedRelease). ok (s.gitops_base_sha, s.image_digest)) same),
      )
