-- ===== src/Gate/Approval.antt =====
-- `validate_protected_approval`: the one reviewer of the protected environment has approved the run,
-- and is none of those who have started it.
pub mod Users
pub mod Accepted
use devpath_shared.Base.{
  ℕ, Bool, true, false, ◌&&◌, ◌||◌, not, Option, none, some, List, [], ◌∷◌, String, ◌<>◌, ◌==◌,
  ◌==ˢ◌, if◌then◌else◌,
}
use devpath_shared.Base.Integer.{pos}
use devpath_shared.Base.Text.{eq_lower}
use devpath_shared.Base.Result.{Result, ok, err, ◌>>=◌, ◌>>◌, ensure, or_refuse}
use devpath_shared.Context.{Env, require_env}
use devpath_shared.Context.Source.{sha40}
use devpath_shared.Json.{Json, null, integer, text, object, Fields, get, as_dict, as_list, py_eq}
use devpath_shared.Runtime.{Bytes, Runtime}
use devpath_shared.Gate.Format.{
  repository, workflow_ref, job_name, max_api_document_bytes, nonzero, of_env, json_object,
  positive_integer_string,
}
use devpath_shared.Gate.Values.{
  gitops_ref, json_array, positive_integer, is_boolean, is_int, single, login, initiator_login,
  utc_z_seconds,
}
use devpath_shared.Gate.Exact.{exact_value}

abbrev pub environment_name : String
environment_name = "mission-spine-migration-release"

abbrev pub approval_context : String → List (String × String)
approval_context source_sha =
    ("GITHUB_REPOSITORY", repository)
    ∷ ("GITHUB_EVENT_NAME", "workflow_dispatch")
    ∷ ("GITHUB_REF", gitops_ref)
    ∷ ("GITHUB_WORKFLOW_REF", workflow_ref)
    ∷ ("GITHUB_WORKFLOW_SHA", source_sha)
    ∷ ("GITHUB_RUN_ATTEMPT", "1")
    ∷ ("GITHUB_JOB", job_name)
    ∷ []

-- Who has started which commit.
pub record Run : Type 0 where
  pub source_sha : String
  pub actor : String
  pub triggering_actor : String

unfoldable pub read_run : Env → Result Run
read_run env = do
  source_sha ← nonzero sha40 (of_env (env "GITHUB_SHA")) "GITHUB_SHA"
  require_env env (approval_context source_sha)
  _ ← positive_integer_string (of_env (env "GITHUB_RUN_ID")) "GITHUB_RUN_ID"
  actor ← initiator_login (of_env (env "GITHUB_ACTOR")) "GITHUB_ACTOR"
  triggering_actor ←
      initiator_login (of_env (env "GITHUB_TRIGGERING_ACTOR")) "GITHUB_TRIGGERING_ACTOR"
  ok (record { source_sha = source_sha; actor = actor; triggering_actor = triggering_actor })

-- A user of the API by name and number.
pub record User : Type 0 where
  pub login : String
  pub id : ℕ

unfoldable pub read_user : Fields → String → String → Result User
read_user d login_label id_label = do
  name ← login (get d "login") login_label
  number ← positive_integer (get d "id") id_label
  ok (record { login = name; id = number })

unfoldable pub required_reviewers : List Json → List Fields
required_reviewers [] = []
required_reviewers (object d ∷ rules) =
    let rest = required_reviewers rules in
    if py_eq (get d "type") (text "required_reviewers") then d ∷ rest else rest
required_reviewers (_ ∷ rules) = required_reviewers rules

-- `isinstance(value, dict) and value.get("type") == "User"`, with the value.
unfoldable pub as_user : Json → Option Fields
as_user (object d) = if py_eq (get d "type") (text "User") then some d else none
as_user _ = none

-- The reviewer that the required-reviewers rule names.
unfoldable pub configured_reviewer : Fields → Result User
configured_reviewer rule = do
  ensure (is_boolean (get rule "prevent_self_review") true) "environment must prevent self review"
  configured ←
      or_refuse (as_list (get rule "reviewers"))
        "environment must have exactly one configured reviewer"
  first ← or_refuse (single configured) "environment must have exactly one configured reviewer"
  entry ← or_refuse (as_user first) "environment reviewer must be one direct User"
  user ← or_refuse (as_user (get entry "reviewer")) "environment reviewer identity is invalid"
  read_user user "environment reviewer login" "environment reviewer id"

unfoldable pub check_approved_environment : Json → ℕ → Result (Unit {0})
check_approved_environment environments environment_id = do
  values ← or_refuse (as_list environments) "approval must cover exactly one environment"
  first ← or_refuse (single values) "approval must cover exactly one environment"
  approved ← or_refuse (as_dict first) "approved environment identity is invalid"
  exact_value (get approved "id") (integer (pos environment_id)) "approved environment id"
  exact_value (get approved "name") (text environment_name) "approved environment name"

-- `for key, expected in expected_job.items()`
unfoldable pub require_exact : Fields → String → List (String × Json) → Result (Unit {0})
require_exact d label [] = ok tt
require_exact d label ((key, expected) ∷ rest) = do
  exact_value (get d key) expected (label <> key)
  require_exact d label rest

abbrev pub expected_job : String → List (String × Json)
expected_job source_sha =
    ("name", text job_name)
    ∷ ("run_attempt", integer (pos 1))
    ∷ ("head_sha", text source_sha)
    ∷ ("status", text "in_progress")
    ∷ ("conclusion", null)
    ∷ []

-- The dict that is returned.
pub record Approval : Type 0 where
  pub environment_id : ℕ
  pub reviewer_login : String
  pub reviewer_id : ℕ
  pub reviewer_type : String
  pub state : String
  pub approval_effective_at : String

module _ (R : Runtime) where
  unfoldable pub read_environment : Bytes → Result (ℕ × User)
  read_environment raw = do
    environment ← json_object R raw "protected environment" max_api_document_bytes
    environment_id ← positive_integer (get environment "id") "environment.id"
    ensure (py_eq (get environment "name") (text environment_name))
        "protected environment name is not exact"
    rules ←
        or_refuse (as_list (get environment "protection_rules"))
          "environment protection_rules must be an array"
    rule ←
        or_refuse (single (required_reviewers rules))
          "environment must have exactly one required-reviewers rule"
    user ← configured_reviewer rule
    ok (environment_id, user)

  -- The user of the one approval record. ASCII texts are equal under `casefold` exactly when they
  -- are equal in lower case, and every login is ASCII.
  unfoldable pub read_approval : Bytes → ℕ → User → Run → Result User
  read_approval raw environment_id configured run = do
    approvals ← json_array R raw "workflow approval history" max_api_document_bytes
    first ← or_refuse (single approvals) "workflow must have exactly one approval record"
    approval ← or_refuse (as_dict first) "workflow must have exactly one approval record"
    ensure (py_eq (get approval "state") (text "approved"))
        "workflow approval state must be approved"
    check_approved_environment (get approval "environments") environment_id
    user ← or_refuse (as_user (get approval "user")) "approval reviewer must be a User"
    reviewer ← read_user user "approval reviewer login" "approval reviewer id"
    ensure ((reviewer.login ==ˢ configured.login) && (reviewer.id == configured.id))
        "approval reviewer is not the configured direct User"
    ensure (not (eq_lower reviewer.login run.actor || eq_lower reviewer.login run.triggering_actor))
        "approval reviewer must be independent from run initiators"
    ok reviewer

  unfoldable pub read_job : Bytes → String → Result String
  read_job raw source_sha = do
    jobs ← json_object R raw "attempt-one jobs" max_api_document_bytes
    ensure (is_int (get jobs "total_count") 1) "workflow attempt must contain exactly one job"
    values ←
        or_refuse (as_list (get jobs "jobs"))
          "workflow attempt jobs array must contain exactly one job"
    first ← or_refuse (single values) "workflow attempt jobs array must contain exactly one job"
    job ← or_refuse (as_dict first) "workflow job identity is invalid"
    _ ← positive_integer (get job "id") "workflow job id"
    require_exact job "workflow job " (expected_job source_sha)
    utc_z_seconds (get job "started_at") "workflow job started_at"

  unfoldable pub validate_protected_approval : Env → Bytes → Bytes → Bytes → Result Approval
  validate_protected_approval env environment_raw approvals_raw jobs_raw = do
    run ← read_run env
    environment ← read_environment environment_raw
    reviewer ← read_approval approvals_raw environment.0 environment.1 run
    started_at ← read_job jobs_raw run.source_sha
    ok (record {
      environment_id = environment.0;
      reviewer_login = reviewer.login;
      reviewer_id = reviewer.id;
      reviewer_type = "User";
      state = "approved";
      approval_effective_at = started_at;
    })
