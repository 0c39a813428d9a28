-- ===== src/Tests/Approvals.antt =====
-- The theorems about the approval of a run, at a run that one reviewer has approved.
use devpath_shared.Gate.Exact.{exact_value}
use devpath_shared.Json.Hooks.{hooked, unique_object}
use devpath_shared.Gate.Values.{
  login, initiator_login, is_login, utc_z_seconds, positive_integer, json_array, utc_z_pattern,
  is_timestamp,
}
use devpath_shared.Base.Decimal.{int_of_text}
use devpath_shared.Base.Text.{remove_prefix, eq_lower}
use devpath_shared.Base.Pattern.{fullmatch}
use devpath_shared.Gate.Format.{json_object, positive_integer_string, nonzero, json_value}
use devpath_shared.Base.{◌≡◌, refl, true, [], ◌∷◌}
use devpath_shared.Base.Integer.{pos}
use devpath_shared.Base.Result.{ok}
use devpath_shared.Context.{Env, require_env}
use devpath_shared.Json.{
  Json, null, boolean, integer, text, array, object, field, end, cons, nil, py_eq, get,
}
use devpath_shared.Runtime.{Runtime}
use devpath_shared.Gate.Approval.{
  Approval, validate_protected_approval, read_run, read_environment, configured_reviewer, as_user,
  require_exact, read_user, read_approval, required_reviewers, check_approved_environment, read_job,
}
use devpath_shared.Gate.Approval.Accepted.{Approved, validate_protected_approval-Approved}
use devpath_shared.Tests.Sample.{
  source_sha, sha_c, runtime, Table, name_of, sha_of, document_of, of_pairs,
}

abbrev pub run_env : Env
run_env = of_pairs (
    ("GITHUB_REPOSITORY", "DevPathAi/devpath-shared")
    ∷ ("GITHUB_EVENT_NAME", "workflow_dispatch")
    ∷ ("GITHUB_REF", "refs/heads/main")
    ∷ (
      "GITHUB_WORKFLOW_REF",
      "DevPathAi/devpath-shared/.github/workflows/mission-spine-migration-release.yml@refs/heads/main",
    )
    ∷ ("GITHUB_WORKFLOW_SHA", source_sha)
    ∷ ("GITHUB_RUN_ATTEMPT", "1")
    ∷ ("GITHUB_JOB", "deploy")
    ∷ ("GITHUB_SHA", source_sha)
    ∷ ("GITHUB_RUN_ID", "7")
    ∷ ("GITHUB_ACTOR", "starter")
    ∷ ("GITHUB_TRIGGERING_ACTOR", "github-actions[bot]")
    ∷ [])

abbrev reviewer : Json
reviewer = object (
    field "login" (text "Reviewer-1")
      (field "id" (integer (pos 42)) (field "type" (text "User") end)))

abbrev environment : Json
environment = object (
    field "id" (integer (pos 5)) (
      field "name" (text "mission-spine-migration-release") (
        field "protection_rules"
          (array (
            cons (object (field "type" (text "branch_policy") end)) (
              cons
                (object (
                  field "type" (text "required_reviewers") (
                    field "prevent_self_review" (boolean true) (
                      field "reviewers"
                        (array (
                          cons (object (field "type" (text "User") (field "reviewer" reviewer end)))
                            nil))
                        end))))
                nil)))
          end)))

abbrev approvals : Json
approvals = array (
    cons
      (object (
        field "state" (text "approved") (
          field "environments"
            (array (
              cons
                (object (
                  field "id" (integer (pos 5))
                    (field "name" (text "mission-spine-migration-release") end)))
                nil))
            (field "user" reviewer end))))
      nil)

abbrev jobs : Json
jobs = object (
    field "total_count" (integer (pos 1)) (
      field "jobs"
        (array (
          cons
            (object (
              field "id" (integer (pos 9)) (
                field "name" (text "deploy") (
                  field "run_attempt" (integer (pos 1)) (
                    field "head_sha" (text source_sha) (
                      field "status" (text "in_progress") (
                        field "conclusion" null
                          (field "started_at" (text "2026-09-07T10:00:00Z") end))))))))
            nil))
        end))

abbrev pub approval_table : Table
approval_table =
    (11, "environment", sha_c, environment)
    ∷ (12, "approvals", sha_c, approvals)
    ∷ (13, "jobs", sha_c, jobs)
    ∷ []

abbrev pub approval_runtime : Runtime
approval_runtime = record runtime {
  sha256 = sha_of approval_table;
  decode = name_of approval_table;
  loads = document_of approval_table;
}

abbrev pub approval : Approval
approval = record {
  environment_id = 5;
  reviewer_login = "Reviewer-1";
  reviewer_id = 42;
  reviewer_type = "User";
  state = "approved";
  approval_effective_at = "2026-09-07T10:00:00Z";
}

pub run_is_approved :
    validate_protected_approval approval_runtime run_env (11 ∷ []) (12 ∷ []) (13 ∷ []) ≡ ok approval
unfolding validate_protected_approval read_run nonzero fullmatch remove_prefix require_env
    positive_integer_string int_of_text initiator_login login is_login read_environment json_object
    json_value hooked unique_object positive_integer get py_eq required_reviewers
    configured_reviewer as_user read_user read_approval json_array check_approved_environment
    exact_value eq_lower read_job require_exact utc_z_seconds utc_z_pattern is_timestamp
run_is_approved = refl

validate_protected_approval-Approved_example :
    Approved approval_runtime run_env (11 ∷ []) (12 ∷ []) (13 ∷ []) approval
validate_protected_approval-Approved_example =
    validate_protected_approval-Approved approval_runtime run_env (11 ∷ []) (12 ∷ []) (13 ∷ [])
      run_is_approved
