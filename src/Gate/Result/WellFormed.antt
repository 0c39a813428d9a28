-- ===== src/Gate/Result/WellFormed.antt =====
-- What it is for a release to be well formed.
use devpath_shared.Base.{◌<◌, ◌≡◌, ◌≢◌, ◌⊎◌, true}
use devpath_shared.Base.Text.{codes}
use devpath_shared.Base.Pattern.{fullmatch}
use devpath_shared.Base.Result.{ok}
use devpath_shared.Context.Source.{sha40, sha64, digest_pattern}
use devpath_shared.Json.{}
use devpath_shared.Gate.Format.{release_pattern, is_nonzero}
use devpath_shared.Gate.Values.{is_login, utc_z_pattern, is_timestamp}
use devpath_shared.Gate.JobName.{derived_migration_job_name}
use devpath_shared.Gate.Approval.{Approval}
use devpath_shared.Gate.Result.{Push, Released}
use devpath_shared.Gate.Result.Check.{}

abbrev pub IsApproval : Approval → Type 0
IsApproval a =
    (0 < a.environment_id)
    × (is_login a.reviewer_login ≡ true)
    × (0 < a.reviewer_id)
    × (a.reviewer_type ≡ "User")
    × (a.state ≡ "approved")
    × (fullmatch utc_z_pattern a.approval_effective_at ≡ true)
    × (is_timestamp (codes a.approval_effective_at) ≡ true)

-- The commit is a new one, and the head before the push was its base, or the commit itself.
abbrev pub IsPush : Push → Type 0
IsPush p =
    (is_nonzero sha40 p.base_sha ≡ true)
    × (is_nonzero sha40 p.sealed_release_sha ≡ true)
    × (is_nonzero sha40 p.pre_push_main_sha ≡ true)
    × (is_nonzero sha40 p.migration_commit_sha ≡ true)
    × (is_nonzero sha40 p.migration_tree_sha ≡ true)
    × (p.migration_commit_sha ≢ p.base_sha)
    × (((p.publish_mode ≡ "published") × (p.pre_push_main_sha ≡ p.base_sha))
        ⊎ ((p.publish_mode ≡ "reused") × (p.pre_push_main_sha ≡ p.migration_commit_sha)))
    × (0 < p.write_app_id)
    × (0 < p.write_app_installation_id)

abbrev pub IsReleased : Released → Type 0
IsReleased p =
    (fullmatch release_pattern p.release_id ≡ true)
    × (is_nonzero sha64 p.candidate_spec_sha256 ≡ true)
    × (is_nonzero sha64 p.release_manifest_sha256 ≡ true)
    × (is_nonzero sha40 p.source_sha ≡ true)
    × (is_nonzero sha64 p.workflow_sha256 ≡ true)
    × (0 < p.run_id)
    × IsApproval p.approval
    × IsPush p.push
    × (is_nonzero digest_pattern p.image_digest ≡ true)
    × (derived_migration_job_name p.image_digest p.release_manifest_sha256
        ≡ ok p.push.rendered_job_name)
