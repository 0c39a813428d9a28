-- ===== src/Gate/Sealed.antt =====
-- `validate_sealed_release`: the release manifest, the candidate specification it seals, and the
-- migration in it.
pub mod Chain
use devpath_shared.Base.{
  ℕ, ◌≡◌, refl, ◌↔◌, Bool, true, false, ◌&&◌, not, Option, none, some, List, [], ◌∷◌, String, ◌<>◌,
  ◌==ˢ◌, eq_iff, All, arith,
}
use devpath_shared.Base.Pattern.{fullmatch}
use devpath_shared.Base.Result.{Result, ok, err, ◌>>=◌, ◌>>◌, ensure, or_refuse}
use devpath_shared.Context.Source.{sha40, sha64, digest_pattern}
use devpath_shared.Json.{Json, text, Fields, get, py_eq, py_eq-text_iff, as_dict}
use devpath_shared.Runtime.{Bytes, Runtime}
use devpath_shared.Gate.Format.{
  repository, shared_version, shared_jar_sha256, image_repository, flyway_target,
  required_migration, rollback_policy, release_pattern, nonzero, exact_keys, json_object,
  max_api_document_bytes,
}

-- The dict that is returned.
pub record SealedRelease : Type 0 where
  pub candidate_spec_sha256 : String
  pub gitops_base_sha : String
  pub image_digest : String
  pub validator_head_sha : String

abbrev pub candidate_path : String → String
candidate_path release_id = "release-manifests/candidates/" <> release_id <> ".candidate-spec.json"

-- What the migration must be, apart from its image.
abbrev pub expected_migration : String → List (String × String)
expected_migration source_sha =
    ("repository", repository)
    ∷ ("source_sha", source_sha)
    ∷ ("shared_version", shared_version)
    ∷ ("shared_jar_sha256", shared_jar_sha256)
    ∷ ("image_repository", image_repository)
    ∷ ("flyway_target", flyway_target)
    ∷ ("required_migration", required_migration)
    ∷ ("rollback_policy", rollback_policy)
    ∷ []

-- The sorted names of the keys of `shared_migration`.
abbrev migration_keys : List String
migration_keys =
    "flyway_target" ∷ "image_digest" ∷ "image_repository" ∷ "repository" ∷ "required_migration"
    ∷ "rollback_policy" ∷ "shared_jar_sha256" ∷ "shared_version" ∷ "source_sha" ∷ []

-- `for key, value in expected.items(): if migration.get(key) != value: raise …`
unfoldable pub require_migration : Fields → List (String × String) → Result (Unit {0})
require_migration d [] = ok tt
require_migration d ((key, value) ∷ expected) = do
  ensure (py_eq (get d key) (text value)) ("shared_migration." <> key <> " must equal " <> value)
  require_migration d expected

module _ (R : Runtime) where
  -- The release manifest: the head of its validator, and the sealed hash of the candidate.
  unfoldable pub check_release : String → Bytes → Result (String × String)
  check_release release_id release_raw = do
    release ← json_object R release_raw "release-manifest" max_api_document_bytes
    ensure (py_eq (get release "document_type") (text "release-manifest"))
        "document_type must be release-manifest"
    ensure (py_eq (get release "release_id") (text release_id))
        "release-manifest release_id does not match"
    attestation ←
        or_refuse (as_dict (get release "validation_attestation"))
          "release-manifest validation_attestation is missing"
    validator_head_sha ←
        nonzero sha40 (get attestation "validator_head_sha")
          "validation_attestation.validator_head_sha"
    candidate_ref ←
        exact_keys R (get release "candidate_spec") ("path" ∷ "sha256" ∷ []) "candidate_spec"
    ensure (py_eq (get candidate_ref "path") (text (candidate_path release_id)))
        "candidate_spec path is not the canonical release path"
    candidate_sha ← nonzero sha64 (get candidate_ref "sha256") "candidate_spec.sha256"
    ok (validator_head_sha, candidate_sha)

  -- The migration in the candidate specification: the digest of its image.
  unfoldable pub check_migration : Json → String → Result String
  check_migration shared_migration source_sha = do
    migration ← exact_keys R shared_migration migration_keys "shared_migration"
    require_migration migration (expected_migration source_sha)
    nonzero digest_pattern (get migration "image_digest") "shared_migration.image_digest"

  -- The candidate specification: the base of the GitOps change, and the digest of the image.
  unfoldable pub check_candidate : String → String → Bytes → Result (String × String)
  check_candidate release_id source_sha candidate_raw = do
    candidate ← json_object R candidate_raw "candidate-spec" max_api_document_bytes
    ensure (py_eq (get candidate "document_type") (text "candidate-spec"))
        "candidate document_type must be candidate-spec"
    ensure (py_eq (get candidate "release_id") (text release_id))
        "candidate-spec release_id does not match"
    gitops ← or_refuse (as_dict (get candidate "gitops")) "candidate-spec gitops object is missing"
    base_sha ← nonzero sha40 (get gitops "base_sha") "gitops.base_sha"
    image_digest ← check_migration (get candidate "shared_migration") source_sha
    ok (base_sha, image_digest)

  unfoldable pub validate_sealed_release :
      String → String → String → Bytes → Bytes → Result SealedRelease
  validate_sealed_release release_id source_sha release_sha256 release_raw candidate_raw = do
    ensure (fullmatch release_pattern release_id) "release_id has an invalid format"
    _ ← nonzero sha40 (text source_sha) "source_sha"
    expected_release_sha ← nonzero sha64 (text release_sha256) "release_manifest_sha256"
    ensure (R.sha256 release_raw ==ˢ expected_release_sha)
        "release-manifest raw SHA-256 does not match the dispatch input"
    release ← check_release release_id release_raw
    ensure (R.sha256 candidate_raw ==ˢ release.1)
        "candidate-spec raw SHA-256 does not match release-manifest"
    candidate ← check_candidate release_id source_sha candidate_raw
    ok (record {
      candidate_spec_sha256 = release.1;
      gitops_base_sha = candidate.0;
      image_digest = candidate.1;
      validator_head_sha = release.0;
    })

pub require_migration_iff :
    (d : Fields) (expected : List (String × String))
    → (require_migration d expected ≡ ok tt)
      ↔ All (λ (e : String × String). get d e.0 ≡ text e.1) expected
unfolding require_migration
require_migration_iff d [] = ground arith
require_migration_iff d ((key, value) ∷ expected) =
    ground (arith, py_eq-text_iff (get d key) value, require_migration_iff d expected)
