-- ===== src/Tests/Gates.antt =====
-- The theorems about the release of the migration, at a sealed release.
use devpath_shared.Base.Integer.{pos}
use devpath_shared.Json.{Json, integer, text, array, object, field, end, cons, nil, get}
use devpath_shared.Gate.Exact.{exact_value, exact_value-Same, Same, SameFields, SameItems}
use devpath_shared.Json.{py_eq, lookup, get}
use devpath_shared.Json.Hooks.{unique_object, hooked}
use devpath_shared.Base.Text.{after_prefix, codes, remove_prefix, take_text}
use devpath_shared.Context.Source.{digest_pattern}
use devpath_shared.Base.{◌≡◌, ◌≢◌, eq_iff, refl, true, [], ◌∷◌, String, inl, inr, arith}
use devpath_shared.Base.Pattern.{fullmatch, literal, matches}
use devpath_shared.Base.Decimal.{int_of_text}
use devpath_shared.Base.Result.{ok}
use devpath_shared.Context.{Env}
use devpath_shared.Gate.Format.{
  migration_paths, bot_name, nonzero, json_value, is_nonzero, json_object, exact_keys,
  release_pattern,
}
use devpath_shared.Gate.Dispatch.{validate_dispatch_context, validate_dispatch_context_iff}
use devpath_shared.Gate.JobName.{
  derived_migration_job_name, migration_job_name_pattern, derived_migration_job_name-matches,
}
use devpath_shared.Gate.Sealed.{
  SealedRelease, validate_sealed_release, check_release, check_migration, check_candidate,
  require_migration,
}
use devpath_shared.Gate.Sealed.Chain.{Seals, Specifies, validate_sealed_release-chain}
use devpath_shared.Gate.Facts.{
  CommitFacts, SourceFacts, facts_of, migration_subject, validate_migration_facts,
  validate_pre_reconstruction_source_facts,
}
use devpath_shared.Gate.Facts.Migration.{validate_migration_facts_iff}
use devpath_shared.Gate.Facts.Source.{validate_pre_reconstruction_source_facts_iff}
use devpath_shared.Tests.Sample.{runtime, source_sha, image_digest, sha_c, sha_d, of_pairs}

abbrev base_sha : String
base_sha = "2222222222222222222222222222222222222222"

abbrev dispatch_env : Env
dispatch_env = of_pairs (
    ("GITHUB_REPOSITORY", "DevPathAi/devpath-shared")
    ∷ ("GITHUB_EVENT_NAME", "workflow_dispatch")
    ∷ ("GITHUB_REF", "refs/heads/main")
    ∷ ("GITHUB_RUN_ATTEMPT", "1")
    ∷ (
      "GITHUB_WORKFLOW_REF",
      "DevPathAi/devpath-shared/.github/workflows/mission-spine-migration-release.yml@refs/heads/main",
    )
    ∷ ("GITHUB_WORKFLOW_SHA", source_sha)
    ∷ ("GITHUB_JOB", "deploy")
    ∷ ("GITHUB_SHA", source_sha)
    ∷ ("GITHUB_RUN_ID", "7")
    ∷ [])

validate_dispatch_context_example :
    validate_dispatch_context dispatch_env source_sha source_sha "" source_sha ≡ ok tt
unfolding is_nonzero fullmatch remove_prefix int_of_text
validate_dispatch_context_example =
    (validate_dispatch_context_iff dispatch_env source_sha source_sha "" source_sha).1 (
      (refl, (refl, (refl, (refl, (refl, (refl, (refl, tt))))))),
      refl,
      refl,
      refl,
      refl,
      refl,
      (refl, λ h. absurd (ground arith)),
    )

derived_migration_job_name-matches_example :
    (name : String) × (derived_migration_job_name image_digest sha_c ≡ ok name)
    × (fullmatch migration_job_name_pattern name ≡ true)
unfolding is_nonzero fullmatch digest_pattern remove_prefix
derived_migration_job_name-matches_example =
    derived_migration_job_name-matches image_digest sha_c refl refl

name_test :
    derived_migration_job_name image_digest sha_c
    ≡ ok "devpath-flyway-migrate-aaaaaaaaaaaa-cccccccccccccccccccccccc"
unfolding derived_migration_job_name nonzero fullmatch digest_pattern remove_prefix take_text
name_test = refl

abbrev sealed : SealedRelease
sealed = record {
  candidate_spec_sha256 = sha_d;
  gitops_base_sha = source_sha;
  image_digest = image_digest;
  validator_head_sha = source_sha;
}

release_is_sealed :
    validate_sealed_release runtime "ms-20260907-spine" source_sha sha_c (7 ∷ []) (8 ∷ [])
    ≡ ok sealed
unfolding validate_sealed_release fullmatch release_pattern nonzero remove_prefix check_release
    json_object json_value hooked unique_object py_eq get exact_keys check_candidate check_migration
    require_migration digest_pattern literal matches after_prefix codes lookup
release_is_sealed = refl

validate_sealed_release-chain_example :
    (runtime.sha256 (7 ∷ []) ≡ sha_c)
    × Seals runtime "ms-20260907-spine" (7 ∷ []) source_sha sha_d
    × (runtime.sha256 (8 ∷ []) ≡ sha_d)
    × Specifies runtime "ms-20260907-spine" source_sha (8 ∷ []) source_sha image_digest
validate_sealed_release-chain_example =
    validate_sealed_release-chain runtime "ms-20260907-spine" source_sha sha_c (7 ∷ []) (8 ∷ [])
      release_is_sealed

source-apart : source_sha ≢ base_sha
source-apart h = absurd (ground (arith, eq_iff source_sha base_sha))

abbrev commit : CommitFacts
commit = record {
  release_id = "ms-20260907-spine";
  release_manifest_sha256 = sha_c;
  gitops_base_sha = base_sha;
  pre_push_main_sha = base_sha;
  migration_commit_sha = source_sha;
  migration_parent_sha = base_sha;
  migration_tree_sha = source_sha;
  expected_tree_sha = source_sha;
  changed_paths = migration_paths;
  commit_subject = migration_subject "ms-20260907-spine" sha_c;
  commit_author_name = bot_name;
  commit_committer_name = bot_name;
  publish_mode = "published";
}

validate_migration_facts_example : validate_migration_facts commit ≡ ok (facts_of commit)
unfolding is_nonzero fullmatch remove_prefix release_pattern
validate_migration_facts_example = (validate_migration_facts_iff commit).1 (
  (refl, refl, refl, refl, refl, refl, refl, refl),
  (source-apart, refl, refl, refl, refl, refl, refl),
  inl (refl, refl),
)

abbrev head : SourceFacts
head = record {
  release_id = "ms-20260907-spine";
  release_manifest_sha256 = sha_c;
  gitops_base_sha = base_sha;
  supplied_source_sha = source_sha;
  current_head_sha = source_sha;
  current_parent_shas = base_sha ∷ [];
  changed_paths = migration_paths;
  commit_subject = migration_subject "ms-20260907-spine" sha_c;
  commit_author_name = bot_name;
  commit_committer_name = bot_name;
}

validate_pre_reconstruction_source_facts_example :
    validate_pre_reconstruction_source_facts head ≡ ok "reused"
unfolding is_nonzero fullmatch remove_prefix release_pattern
validate_pre_reconstruction_source_facts_example =
    (validate_pre_reconstruction_source_facts_iff head "reused").1 (
      (refl, refl, refl, refl, refl, refl),
      inr ((source-apart, refl, refl, refl, refl, refl), refl),
    )

abbrev forwards : Json
forwards = object (field "a" (integer (pos 1)) (field "b" (array (cons (text "x") nil)) end))

abbrev backwards : Json
backwards = object (field "b" (array (cons (text "x") nil)) (field "a" (integer (pos 1)) end))

exact_value-Same_example : exact_value backwards forwards "body" ≡ ok tt
unfolding Same SameFields SameItems get
exact_value-Same_example =
    (exact_value-Same backwards forwards "body").1 (refl, refl, (refl, ((refl, (refl, tt)), tt)))
