-- ===== src/Gate/Result.antt =====
-- The evidence of a released migration: the document that `build_result_evidence` writes, and its
-- keys in the order that `_ordered_keys` asks for.
pub mod Check
pub mod Build
pub mod WellFormed
pub mod Dict
pub mod Commits
pub mod Parts
pub mod Exact
pub mod Complete
pub mod Accepts
pub mod Inputs
pub mod Built
pub mod Folder
use devpath_shared.Base.{ℕ, Bool, true, false, ◌&&◌, List, [], ◌∷◌, String, ◌<>◌, if◌then◌else◌}
use devpath_shared.Base.Integer.{pos}
use devpath_shared.Base.Result.{Result, ok, ◌>>=◌, ◌>>◌, ensure, or_refuse}
use devpath_shared.Json.{
  Json, integer, text, array, object, texts, Fields, end, field, keys, as_dict,
}
use devpath_shared.Runtime.{Runtime}
use devpath_shared.Gate.Format.{
  repository, workflow_ref, job_name, image_repository, bot_name, migration_paths, join_names,
}
use devpath_shared.Gate.Values.{gitops_repository, gitops_write_app_slug, gitops_ref}
use devpath_shared.Gate.Facts.{migration_subject, eq_lists}
use devpath_shared.Gate.Approval.{environment_name, Approval}

abbrev pub gitops_branch : String
gitops_branch = "main"

abbrev pub workflow_path : String
workflow_path = ".github/workflows/mission-spine-migration-release.yml"

abbrev pub result_document_type : String
result_document_type = "mission-spine-migration-result"

abbrev pub result_schema_version : ℕ
result_schema_version = 2

abbrev pub max_evidence_bytes : ℕ
max_evidence_bytes = 16384

-- What varies in the GitOps part of the document.
pub record Push : Type 0 where
  pub base_sha : String
  pub sealed_release_sha : String
  pub pre_push_main_sha : String
  pub migration_commit_sha : String
  pub migration_tree_sha : String
  pub publish_mode : String
  pub write_app_id : ℕ
  pub write_app_installation_id : ℕ
  pub rendered_job_name : String

-- What varies in the document.
pub record Released : Type 0 where
  pub release_id : String
  pub candidate_spec_sha256 : String
  pub release_manifest_sha256 : String
  pub source_sha : String
  pub workflow_sha256 : String
  pub run_id : ℕ
  pub approval : Approval
  pub push : Push
  pub image_digest : String

-- A dict display: its keys with their values, in order.
abbrev pub Pairs : Type 0
Pairs = List (String × Json)

abbrev pub dict : Pairs → Fields
dict [] = end
dict ((key, value) ∷ pairs) = field key value (dict pairs)

abbrev pub keys_of : Pairs → List String
keys_of [] = []
keys_of ((key, value) ∷ pairs) = key ∷ keys_of pairs

abbrev pub shared_pairs : String → String → ℕ → Pairs
shared_pairs source_sha workflow_sha256 run_id =
    ("repository", text repository)
    ∷ ("source_sha", text source_sha)
    ∷ ("workflow_path", text workflow_path)
    ∷ ("workflow_ref", text workflow_ref)
    ∷ ("workflow_sha256", text workflow_sha256)
    ∷ ("run_id", integer (pos run_id))
    ∷ ("run_attempt", integer (pos 1))
    ∷ ("event_name", text "workflow_dispatch")
    ∷ ("ref", text gitops_ref)
    ∷ ("job", text job_name)
    ∷ ("environment", text environment_name)
    ∷ []

abbrev pub approval_pairs : Approval → Pairs
approval_pairs a =
    ("environment_id", integer (pos a.environment_id))
    ∷ ("reviewer_login", text a.reviewer_login)
    ∷ ("reviewer_id", integer (pos a.reviewer_id))
    ∷ ("reviewer_type", text a.reviewer_type)
    ∷ ("state", text a.state)
    ∷ ("approval_effective_at", text a.approval_effective_at)
    ∷ []

abbrev pub gitops_pairs : String → String → Push → Pairs
gitops_pairs release_id release_manifest_sha256 p =
    ("repository", text gitops_repository)
    ∷ ("base_sha", text p.base_sha)
    ∷ ("sealed_release_sha", text p.sealed_release_sha)
    ∷ ("pre_push_main_sha", text p.pre_push_main_sha)
    ∷ ("migration_commit_sha", text p.migration_commit_sha)
    ∷ ("migration_tree_sha", text p.migration_tree_sha)
    ∷ ("publish_mode", text p.publish_mode)
    ∷ ("write_app_slug", text gitops_write_app_slug)
    ∷ ("write_app_id", integer (pos p.write_app_id))
    ∷ ("write_app_installation_id", integer (pos p.write_app_installation_id))
    ∷ ("branch", text gitops_branch)
    ∷ ("changed_paths", array (texts migration_paths))
    ∷ ("rendered_job_name", text p.rendered_job_name)
    ∷ ("commit_subject", text (migration_subject release_id release_manifest_sha256))
    ∷ ("commit_author_name", text bot_name)
    ∷ ("commit_committer_name", text bot_name)
    ∷ []

abbrev pub image_pairs : String → Pairs
image_pairs digest = ("repository", text image_repository) ∷ ("digest", text digest) ∷ []

abbrev pub result_pairs : Released → Pairs
result_pairs p =
    ("schema_version", integer (pos result_schema_version))
    ∷ ("document_type", text result_document_type)
    ∷ ("release_id", text p.release_id)
    ∷ ("candidate_spec_sha256", text p.candidate_spec_sha256)
    ∷ ("release_manifest_sha256", text p.release_manifest_sha256)
    ∷ ("shared", object (dict (shared_pairs p.source_sha p.workflow_sha256 p.run_id)))
    ∷ ("approval", object (dict (approval_pairs p.approval)))
    ∷ ("gitops", object (dict (gitops_pairs p.release_id p.release_manifest_sha256 p.push)))
    ∷ ("migration_image", object (dict (image_pairs p.image_digest)))
    ∷ []

unfoldable pub result_document : Released → Fields
result_document p = dict (result_pairs p)

-- The keys that the reader asks for.
abbrev pub result_keys : List String
result_keys =
    "schema_version" ∷ "document_type" ∷ "release_id" ∷ "candidate_spec_sha256"
    ∷ "release_manifest_sha256" ∷ "shared" ∷ "approval" ∷ "gitops" ∷ "migration_image" ∷ []

abbrev pub shared_keys : List String
shared_keys =
    "repository" ∷ "source_sha" ∷ "workflow_path" ∷ "workflow_ref" ∷ "workflow_sha256" ∷ "run_id"
    ∷ "run_attempt" ∷ "event_name" ∷ "ref" ∷ "job" ∷ "environment" ∷ []

abbrev pub approval_keys : List String
approval_keys =
    "environment_id" ∷ "reviewer_login" ∷ "reviewer_id" ∷ "reviewer_type" ∷ "state"
    ∷ "approval_effective_at" ∷ []

abbrev pub gitops_keys : List String
gitops_keys =
    "repository" ∷ "base_sha" ∷ "sealed_release_sha" ∷ "pre_push_main_sha" ∷ "migration_commit_sha"
    ∷ "migration_tree_sha" ∷ "publish_mode" ∷ "write_app_slug" ∷ "write_app_id"
    ∷ "write_app_installation_id" ∷ "branch" ∷ "changed_paths" ∷ "rendered_job_name"
    ∷ "commit_subject" ∷ "commit_author_name" ∷ "commit_committer_name" ∷ []

abbrev pub image_keys : List String
image_keys = "repository" ∷ "digest" ∷ []

-- `_ordered_keys`, of a value that is a dict.
unfoldable pub ordered_keys : Runtime → Json → List String → String → Result Fields
ordered_keys R value expected label = do
  d ←
      or_refuse (as_dict value)
        (label <> " keys must be exactly ordered as [" <> join_names R.repr expected <> "]")
  ensure (eq_lists (keys d) expected)
      (label <> " keys must be exactly ordered as [" <> join_names R.repr expected <> "]")
  ok d
