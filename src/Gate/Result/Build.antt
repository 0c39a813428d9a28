-- ===== src/Gate/Result/Build.antt =====
-- `build_result_evidence`.
use devpath_shared.Base.{
  ℕ, Bool, true, false, ◌&&◌, not, Option, none, some, List, String, ◌==ˢ◌, if◌then◌else◌,
}
use devpath_shared.Base.Text.{after_prefix}
use devpath_shared.Base.Pattern.{fullmatch}
use devpath_shared.Base.Result.{Result, ok, ◌>>=◌, ◌>>◌, ensure}
use devpath_shared.Context.{Env, require_env}
use devpath_shared.Context.Source.{sha40, sha64, digest_pattern}
use devpath_shared.Json.{text, object, contains}
use devpath_shared.Runtime.{Bytes, Runtime}
use devpath_shared.Gate.Format.{
  bot_name, migration_paths, release_pattern, nonzero, of_env, positive_integer_string,
}
use devpath_shared.Gate.Values.{gitops_write_app_slug}
use devpath_shared.Gate.Text.{lf_text}
use devpath_shared.Gate.JobName.{derived_migration_job_name}
use devpath_shared.Gate.Facts.{migration_subject, publish_modes, eq_lists}
use devpath_shared.Gate.Approval.{approval_context, validate_protected_approval}
use devpath_shared.Gate.Result.{Released, result_document}
use devpath_shared.Gate.Result.Check.{validate_result_evidence}

abbrev pub max_workflow_bytes : ℕ
max_workflow_bytes = 131072

abbrev pub workflow_first_line : String
workflow_first_line = "name: Mission Spine - sealed migration GitOps release\n"

-- What is passed by name, but the environment.
pub record Inputs : Type 0 where
  pub release_id : String
  pub candidate_spec_sha256 : String
  pub release_manifest_sha256 : String
  pub workflow_raw : Bytes
  pub environment_raw : Bytes
  pub approvals_raw : Bytes
  pub jobs_raw : Bytes
  pub gitops_base_sha : String
  pub sealed_release_sha : String
  pub pre_push_main_sha : String
  pub migration_commit_sha : String
  pub migration_tree_sha : String
  pub publish_mode : String
  pub gitops_write_app_slug : String
  pub gitops_write_app_id : String
  pub gitops_write_app_installation_id : String
  pub changed_paths : List String
  pub rendered_job_name : String
  pub commit_subject : String
  pub commit_author_name : String
  pub commit_committer_name : String
  pub image_digest : String

abbrev pub is_some {ℓ} : {A : Type ℓ} → Option A → Bool
is_some none = false
is_some (some a) = true

-- The commit of the run, and the number of the run.
unfoldable pub read_identity : Env → Inputs → Result (String × ℕ)
read_identity env inputs = do
  ensure (fullmatch release_pattern inputs.release_id) "release_id has an invalid format"
  _ ← nonzero sha64 (text inputs.candidate_spec_sha256) "candidate_spec_sha256"
  _ ← nonzero sha64 (text inputs.release_manifest_sha256) "release_manifest_sha256"
  source_sha ← nonzero sha40 (of_env (env "GITHUB_SHA")) "GITHUB_SHA"
  require_env env (approval_context source_sha)
  run_id ← positive_integer_string (of_env (env "GITHUB_RUN_ID")) "GITHUB_RUN_ID"
  ok (source_sha, run_id)

-- The commits of the release.
unfoldable pub check_push : Inputs → Result (Unit {0})
check_push inputs = do
  _ ← nonzero sha40 (text inputs.gitops_base_sha) "gitops base SHA"
  _ ← nonzero sha40 (text inputs.sealed_release_sha) "sealed release SHA"
  _ ← nonzero sha40 (text inputs.pre_push_main_sha) "pre-push main SHA"
  _ ← nonzero sha40 (text inputs.migration_commit_sha) "migration commit SHA"
  _ ← nonzero sha40 (text inputs.migration_tree_sha) "migration tree SHA"
  ensure (contains publish_modes inputs.publish_mode) "migration publish mode is invalid"
  ensure
      (inputs.pre_push_main_sha ==ˢ (
        if inputs.publish_mode ==ˢ "published"
        then inputs.gitops_base_sha
        else inputs.migration_commit_sha))
      "pre-push main SHA does not match migration publish mode"
  ensure (not (inputs.migration_commit_sha ==ˢ inputs.gitops_base_sha))
      "migration commit must be distinct from the GitOps base"

-- The numbers of the App and of its installation.
unfoldable pub read_app : Inputs → Result (ℕ × ℕ)
read_app inputs = do
  ensure (inputs.gitops_write_app_slug ==ˢ gitops_write_app_slug)
      "GitOps write App slug is not exact"
  app_id ← positive_integer_string (text inputs.gitops_write_app_id) "GitOps App id"
  installation_id ←
      positive_integer_string (text inputs.gitops_write_app_installation_id)
        "GitOps App installation id"
  ok (app_id, installation_id)

-- What the change is made of; its name is returned.
unfoldable pub check_change : Inputs → Result String
check_change inputs = do
  ensure (eq_lists inputs.changed_paths migration_paths) "migration changed paths are not exact"
  digest ← nonzero digest_pattern (text inputs.image_digest) "migration image digest"
  name ← derived_migration_job_name digest inputs.release_manifest_sha256
  ensure (inputs.rendered_job_name ==ˢ name)
      "rendered migration Job name is not digest/release-derived"
  ensure
      (inputs.commit_subject ==ˢ migration_subject inputs.release_id inputs.release_manifest_sha256)
      "migration commit subject is not exact"
  ensure ((inputs.commit_author_name ==ˢ bot_name) && (inputs.commit_committer_name ==ˢ bot_name))
      "migration commit actor names are not exact"
  ok name

module _ (R : Runtime) where
  unfoldable pub check_workflow : Bytes → Result (Unit {0})
  check_workflow raw = do
    workflow_text ← lf_text R raw "migration release workflow" max_workflow_bytes
    ensure (is_some (after_prefix workflow_first_line workflow_text))
        "migration release workflow bytes are not the expected workflow"

  -- Everything up to the document.
  unfoldable pub read_released : Env → Inputs → Result Released
  read_released env inputs = do
    run ← read_identity env inputs
    check_workflow inputs.workflow_raw
    approval ←
        validate_protected_approval R env inputs.environment_raw inputs.approvals_raw
          inputs.jobs_raw
    check_push inputs
    app ← read_app inputs
    name ← check_change inputs
    ok (record {
      release_id = inputs.release_id;
      candidate_spec_sha256 = inputs.candidate_spec_sha256;
      release_manifest_sha256 = inputs.release_manifest_sha256;
      source_sha = run.0;
      workflow_sha256 = R.sha256 inputs.workflow_raw;
      run_id = run.1;
      approval = approval;
      push = record {
        base_sha = inputs.gitops_base_sha;
        sealed_release_sha = inputs.sealed_release_sha;
        pre_push_main_sha = inputs.pre_push_main_sha;
        migration_commit_sha = inputs.migration_commit_sha;
        migration_tree_sha = inputs.migration_tree_sha;
        publish_mode = inputs.publish_mode;
        write_app_id = app.0;
        write_app_installation_id = app.1;
        rendered_job_name = name;
      };
      image_digest = inputs.image_digest;
    })

  unfoldable pub build_result_evidence : Env → Inputs → Result Bytes
  build_result_evidence env inputs = do
    released ← read_released env inputs
    _ ← validate_result_evidence R (R.dumps (object (result_document released)))
    ok (R.dumps (object (result_document released)))
