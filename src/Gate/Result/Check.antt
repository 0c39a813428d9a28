-- ===== src/Gate/Result/Check.antt =====
-- `validate_result_evidence`.
use devpath_shared.Base.{◌&&◌, not, [], ◌∷◌, String, ◌<>◌, ◌==ˢ◌, if◌then◌else◌}
use devpath_shared.Base.Pattern.{fullmatch}
use devpath_shared.Base.Result.{Result, ok, ◌>>=◌, ◌>>◌, ensure, or_refuse}
use devpath_shared.Context.Source.{sha40, sha64, digest_pattern}
use devpath_shared.Json.{Json, text, array, object, texts, Fields, contains, get, as_str, py_eq}
use devpath_shared.Runtime.{Bytes, Runtime}
use devpath_shared.Image.Evidence.Folder.{eq_raw}
use devpath_shared.Gate.Format.{
  repository, workflow_ref, job_name, image_repository, bot_name, migration_paths, release_pattern,
  nonzero, json_object,
}
use devpath_shared.Gate.Values.{
  gitops_repository, gitops_write_app_slug, gitops_ref, positive_integer, is_int, login,
  utc_z_seconds,
}
use devpath_shared.Gate.JobName.{derived_migration_job_name}
use devpath_shared.Gate.Facts.{migration_subject, publish_modes}
use devpath_shared.Gate.Approval.{environment_name}
use devpath_shared.Gate.Result.{
  gitops_branch, workflow_path, result_document_type, result_schema_version, max_evidence_bytes,
  Pairs, result_keys, shared_keys, approval_keys, gitops_keys, image_keys, ordered_keys,
}

-- `for key, expected in expected_shared.items()`, and the same for the GitOps part.
unfoldable pub require_equal : Fields → String → Pairs → Result (Unit {0})
require_equal d label [] = ok tt
require_equal d label ((key, expected) ∷ rest) = do
  ensure (py_eq (get d key) expected) (label <> " " <> key <> " is not exact")
  require_equal d label rest

abbrev pub expected_shared : Pairs
expected_shared =
    ("repository", text repository)
    ∷ ("workflow_path", text workflow_path)
    ∷ ("workflow_ref", text workflow_ref)
    ∷ ("event_name", text "workflow_dispatch")
    ∷ ("ref", text gitops_ref)
    ∷ ("job", text job_name)
    ∷ ("environment", text environment_name)
    ∷ []

abbrev pub expected_gitops : Pairs
expected_gitops =
    ("repository", text gitops_repository)
    ∷ ("write_app_slug", text gitops_write_app_slug)
    ∷ ("branch", text gitops_branch)
    ∷ ("changed_paths", array (texts migration_paths))
    ∷ ("commit_author_name", text bot_name)
    ∷ ("commit_committer_name", text bot_name)
    ∷ []

-- Fields of the document itself: the release and its hash.
unfoldable pub check_release : Fields → Result (String × String)
check_release document = do
  ensure (is_int (get document "schema_version") result_schema_version)
      "migration result evidence schema_version is not exact"
  ensure (py_eq (get document "document_type") (text result_document_type))
      "migration result evidence document_type is not exact"
  release_id ←
      or_refuse (as_str (get document "release_id"))
        "migration result evidence release_id is invalid"
  ensure (fullmatch release_pattern release_id) "migration result evidence release_id is invalid"
  _ ← nonzero sha64 (get document "candidate_spec_sha256") "candidate_spec_sha256"
  release_sha ← nonzero sha64 (get document "release_manifest_sha256") "release_manifest_sha256"
  ok (release_id, release_sha)

unfoldable pub check_shared : Fields → Result (Unit {0})
check_shared shared = do
  require_equal shared "shared evidence" expected_shared
  ensure (is_int (get shared "run_attempt") 1) "shared evidence run_attempt is not exact"
  _ ← nonzero sha40 (get shared "source_sha") "shared.source_sha"
  _ ← nonzero sha64 (get shared "workflow_sha256") "shared.workflow_sha256"
  _ ← positive_integer (get shared "run_id") "shared.run_id"
  ok tt

unfoldable pub check_approval : Fields → Result (Unit {0})
check_approval approval = do
  _ ← positive_integer (get approval "environment_id") "approval.environment_id"
  _ ← login (get approval "reviewer_login") "approval.reviewer_login"
  _ ← positive_integer (get approval "reviewer_id") "approval.reviewer_id"
  ensure
      (py_eq (get approval "reviewer_type") (text "User")
        && py_eq (get approval "state") (text "approved"))
      "approval evidence reviewer type/state is not exact"
  _ ← utc_z_seconds (get approval "approval_effective_at") "approval effective time"
  ok tt

-- The commits, and the head before the push.
unfoldable pub check_commits : Fields → Result (Unit {0})
check_commits gitops = do
  base_sha ← nonzero sha40 (get gitops "base_sha") "gitops.base_sha"
  _ ← nonzero sha40 (get gitops "sealed_release_sha") "gitops.sealed_release_sha"
  pre_push_sha ← nonzero sha40 (get gitops "pre_push_main_sha") "gitops.pre_push_main_sha"
  migration_sha ← nonzero sha40 (get gitops "migration_commit_sha") "gitops.migration_commit_sha"
  _ ← nonzero sha40 (get gitops "migration_tree_sha") "gitops.migration_tree_sha"
  ensure (not (migration_sha ==ˢ base_sha)) "migration evidence commit must differ from its base"
  mode ← or_refuse (as_str (get gitops "publish_mode")) "gitops evidence publish_mode is invalid"
  ensure (contains publish_modes mode) "gitops evidence publish_mode is invalid"
  ensure (pre_push_sha ==ˢ (if mode ==ˢ "published" then base_sha else migration_sha))
      "gitops pre-push SHA does not match publish mode"

unfoldable pub check_gitops : Fields → String → String → Result (Unit {0})
check_gitops gitops release_id release_sha = do
  require_equal gitops "gitops evidence" expected_gitops
  check_commits gitops
  _ ← positive_integer (get gitops "write_app_id") "gitops.write_app_id"
  _ ← positive_integer (get gitops "write_app_installation_id") "gitops.write_app_installation_id"
  ensure (py_eq (get gitops "commit_subject") (text (migration_subject release_id release_sha)))
      "gitops evidence commit subject is not exact"

unfoldable pub check_image : Fields → Fields → String → Result (Unit {0})
check_image migration_image gitops release_sha = do
  ensure (py_eq (get migration_image "repository") (text image_repository))
      "migration image repository is not exact"
  digest ← nonzero digest_pattern (get migration_image "digest") "migration image digest"
  name ← derived_migration_job_name digest release_sha
  ensure (py_eq (get gitops "rendered_job_name") (text name))
      "gitops rendered Job name is not digest/release-derived"

module _ (R : Runtime) where
  -- Every check but the last, of a document that has been read.
  unfoldable pub check_result : Json → Result Fields
  check_result value = do
    document ← ordered_keys R value result_keys "migration result evidence"
    release ← check_release document
    shared ← ordered_keys R (get document "shared") shared_keys "shared evidence"
    check_shared shared
    approval ← ordered_keys R (get document "approval") approval_keys "approval evidence"
    check_approval approval
    gitops ← ordered_keys R (get document "gitops") gitops_keys "gitops evidence"
    check_gitops gitops release.0 release.1
    migration_image ←
        ordered_keys R (get document "migration_image") image_keys "migration image evidence"
    check_image migration_image gitops release.1
    ok document

  unfoldable pub validate_result_evidence : Bytes → Result Fields
  validate_result_evidence raw = do
    parsed ← json_object R raw "migration result evidence" max_evidence_bytes
    document ← check_result (object parsed)
    ensure (eq_raw raw (R.dumps (object document)))
        "migration result evidence is not canonical JSON plus LF"
    ok document
