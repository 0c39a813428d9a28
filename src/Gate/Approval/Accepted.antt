-- ===== src/Gate/Approval/Accepted.antt =====
-- What an accepted approval says of the environment, of the reviewer and of the job.
use devpath_shared.Gate.Approval.Users.{
  Starts, Names, read_run-Starts, read_user-Names, as_user-eq, Requires,
  configured_reviewer-Requires, approved_environment_lem, require_exact_iff, user-cong,
}
use devpath_shared.Base.{
  ℕ, ◌<◌, ◌≡◌, refl, ◌∙◌, ap, true, false, ◌&&◌, not, ◌||◌, some, List, [], ◌∷◌, String, ◌==◌,
  ◌==ˢ◌, eq_iff, and_iff, ==_iff, All, arith,
}
use devpath_shared.Base.Integer.{pos}
use devpath_shared.Base.Text.{codes, eq_lower}
use devpath_shared.Base.Pattern.{fullmatch}
use devpath_shared.Base.Result.{ok, >>=-eq-ok, ensure-eq-ok, or_refuse-eq-ok, ok-injective}
use devpath_shared.Context.{Env}
use devpath_shared.Json.{
  Json, integer, text, object, Fields, get, as_dict, as_list, as_dict-eq, py_eq, py_eq-text_iff,
}
use devpath_shared.Runtime.{Bytes, Runtime}
use devpath_shared.Gate.Format.{max_api_document_bytes, json_object}
use devpath_shared.Gate.Values.{
  json_array, positive_integer, positive_integer-eq_ok, is_int, is_int_iff, single, single-eq,
  utc_z_pattern, is_timestamp, utc_z_seconds-eq_ok,
}
use devpath_shared.Gate.Exact.{Same}
use devpath_shared.Gate.Approval.{
  environment_name, Run, read_run, User, read_user, required_reviewers, as_user,
  configured_reviewer, check_approved_environment, require_exact, expected_job, Approval,
  read_environment, read_approval, read_job, validate_protected_approval,
}

module _ (R : Runtime) where
  -- The environment has one required-reviewers rule, for this user.
  abbrev pub Configures : Bytes → ℕ → User → Type 0
  Configures raw environment_id user =
      (environment rule : Fields) × (rules : List Json) × (json_object R raw "protected environment"
          max_api_document_bytes
        ≡ ok environment)
      × (get environment "id" ≡ integer (pos environment_id))
      × (0 < environment_id)
      × (get environment "name" ≡ text environment_name)
      × (as_list (get environment "protection_rules") ≡ some rules)
      × (required_reviewers rules ≡ rule ∷ [])
      × Requires rule user

  -- The one approval record is of this user, for this environment alone.
  abbrev pub Approves : Bytes → ℕ → User → Type 0
  Approves raw environment_id user =
      (approval approved d : Fields) × (json_array R raw "workflow approval history"
          max_api_document_bytes
        ≡ ok (object approval ∷ []))
      × (get approval "state" ≡ text "approved")
      × (as_list (get approval "environments") ≡ some (object approved ∷ []))
      × (get approved "id" ≡ integer (pos environment_id))
      × (get approved "name" ≡ text environment_name)
      × (get approval "user" ≡ object d)
      × (get d "type" ≡ text "User")
      × Names d user

  -- The one job of the first attempt is running for the commit, since a time.
  abbrev pub RunsJob : Bytes → String → String → Type 0
  RunsJob raw source_sha started_at =
      (jobs job : Fields) × (json_object R raw "attempt-one jobs" max_api_document_bytes ≡ ok jobs)
      × (get jobs "total_count" ≡ integer (pos 1))
      × (as_list (get jobs "jobs") ≡ some (object job ∷ []))
      × All (λ (e : String × Json). get job e.0 ≡ e.1) (expected_job source_sha)
      × (get job "started_at" ≡ text started_at)
      × (fullmatch utc_z_pattern started_at ≡ true)
      × (is_timestamp (codes started_at) ≡ true)

  read_environment-Configures :
      (raw : Bytes) {r : ℕ × User} → read_environment R raw ≡ ok r → Configures raw r.0 r.1
  unfolding read_environment
  read_environment-Configures raw h =
      let (environment, parsed, h₁) = >>=-eq-ok (json_object R raw _ _) _ h in
      let (environment_id, is_id, h₂) =
        >>=-eq-ok (positive_integer (get environment "id") _) _ h₁ in
      let (named, h₃) = ensure-eq-ok (py_eq (get environment "name") _) _ _ h₂ in
      let (rules, is_list, h₄) =
        or_refuse-eq-ok (as_list (get environment "protection_rules")) _ _ h₃ in
      let (rule, one, h₅) = or_refuse-eq-ok (single (required_reviewers rules)) _ _ h₄ in
      let (user, configured, h₆) = >>=-eq-ok (configured_reviewer rule) _ h₅ in
      rw (← (ok-injective h₆)) (
        environment,
        rule,
        rules,
        parsed,
        (positive_integer-eq_ok _ _ is_id).0,
        (positive_integer-eq_ok _ _ is_id).1,
        (py_eq-text_iff _ _).0 named,
        is_list,
        single-eq _ one,
        configured_reviewer-Requires rule configured,
      )

  read_approval-Approves :
      (raw : Bytes) (environment_id : ℕ) (configured : User) (run : Run) {reviewer : User}
      → read_approval R raw environment_id configured run ≡ ok reviewer
      → Approves raw environment_id reviewer
        × (reviewer.login ≡ configured.login)
        × (reviewer.id ≡ configured.id)
        × (eq_lower reviewer.login run.actor ≡ false)
        × (eq_lower reviewer.login run.triggering_actor ≡ false)
  unfolding read_approval
  read_approval-Approves raw environment_id configured run {reviewer} h =
      let (approvals, parsed, h₁) = >>=-eq-ok (json_array R raw _ _) _ h in
      let (first, one, h₂) = or_refuse-eq-ok (single approvals) _ _ h₁ in
      let (approval, is_dict, h₃) = or_refuse-eq-ok (as_dict first) _ _ h₂ in
      let (approved, h₄) = ensure-eq-ok (py_eq (get approval "state") _) _ _ h₃ in
      let (_, covers, h₅) =
        >>=-eq-ok (check_approved_environment (get approval "environments") environment_id) _ h₄ in
      let (d, is_user, h₆) = or_refuse-eq-ok (as_user (get approval "user")) _ _ h₅ in
      let (user, named, h₇) = >>=-eq-ok (read_user d _ _) _ h₆ in
      let (same, h₈) =
        ensure-eq-ok ((user.login ==ˢ configured.login) && (user.id == configured.id)) _ _ h₇ in
      let (apart, h₉) =
        ensure-eq-ok
          (not (eq_lower user.login run.actor || eq_lower user.login run.triggering_actor)) _ _
          h₈ in
      let (covered, only, is_id, is_name) =
        approved_environment_lem (get approval "environments") environment_id covers in
      let (direct, typed) = as_user-eq (get approval "user") is_user in
      let (same_login, same_id) = (and_iff _ _).0 same in
      rw (← (ok-injective h₉)) (
        (
          approval,
          covered,
          d,
          parsed
              ∙ ap ok
                  (single-eq approvals one ∙ ap (λ (v : Json). v ∷ []) (as_dict-eq first is_dict)),
          (py_eq-text_iff _ _).0 approved,
          only,
          is_id,
          is_name,
          direct,
          typed,
          read_user-Names d _ _ named,
        ),
        (eq_iff _ _).0 same_login,
        (==_iff _ _).0 same_id,
        ground arith,
        ground arith,
      )

  read_job-RunsJob :
      (raw : Bytes) (source_sha : String) {started_at : String}
      → read_job R raw source_sha ≡ ok started_at
      → RunsJob raw source_sha started_at
  unfolding read_job Same
  read_job-RunsJob raw source_sha h =
      let (jobs, parsed, h₁) = >>=-eq-ok (json_object R raw _ _) _ h in
      let (total, h₂) = ensure-eq-ok (is_int (get jobs "total_count") 1) _ _ h₁ in
      let (values, is_list, h₃) = or_refuse-eq-ok (as_list (get jobs "jobs")) _ _ h₂ in
      let (first, one, h₄) = or_refuse-eq-ok (single values) _ _ h₃ in
      let (job, is_dict, h₅) = or_refuse-eq-ok (as_dict first) _ _ h₄ in
      let (_, _, h₆) = >>=-eq-ok (positive_integer (get job "id") _) _ h₅ in
      let (_, exact, h₇) = >>=-eq-ok (require_exact job _ (expected_job source_sha)) _ h₆ in
      (
        jobs,
        job,
        parsed,
        (is_int_iff _ 1).0 total,
        is_list
            ∙ ap some (single-eq values one ∙ ap (λ (v : Json). v ∷ []) (as_dict-eq first is_dict)),
        (require_exact_iff job _ (expected_job source_sha)).0 exact,
        (utc_z_seconds-eq_ok _ _ h₇).0,
        (utc_z_seconds-eq_ok _ _ h₇).1,
        (utc_z_seconds-eq_ok _ _ h₇).2,
      )

  -- One user is configured, has approved, and has not started the run.
  abbrev pub Approved : Env → Bytes → Bytes → Bytes → Approval → Type 0
  Approved env environment_raw approvals_raw jobs_raw r =
      (run : Run) × (user : User) × Starts env run
      × Configures environment_raw r.environment_id user
      × Approves approvals_raw r.environment_id user
      × (eq_lower user.login run.actor ≡ false)
      × (eq_lower user.login run.triggering_actor ≡ false)
      × RunsJob jobs_raw run.source_sha r.approval_effective_at
      × (r.reviewer_login ≡ user.login)
      × (r.reviewer_id ≡ user.id)
      × (r.reviewer_type ≡ "User")
      × (r.state ≡ "approved")

  -- When an approval is accepted, the environment has exactly one rule of required reviewers, which
  -- forbids self review and names one direct user; the one approval record approves exactly this
  -- environment, and is of that user, by name and number; its login is, whatever the case of its
  -- letters, neither the actor's nor the triggering actor's; the one job is running for the commit of
  -- the run; and the result is the number of the environment, the reviewer and the start of the job.
  pub validate_protected_approval-Approved :
      (env : Env) (environment_raw approvals_raw jobs_raw : Bytes) {r : Approval}
      → validate_protected_approval R env environment_raw approvals_raw jobs_raw ≡ ok r
      → Approved env environment_raw approvals_raw jobs_raw r
  unfolding validate_protected_approval
  validate_protected_approval-Approved env environment_raw approvals_raw jobs_raw h =
      let (run, started, h₁) = >>=-eq-ok (read_run env) _ h in
      let (environment, configured, h₂) = >>=-eq-ok (read_environment R environment_raw) _ h₁ in
      let (reviewer, approved, h₃) =
        >>=-eq-ok (read_approval R approvals_raw environment.0 environment.1 run) _ h₂ in
      let (started_at, running, h₄) = >>=-eq-ok (read_job R jobs_raw run.source_sha) _ h₃ in
      let (approves, same_login, same_id, not_actor, not_triggering) =
        read_approval-Approves approvals_raw environment.0 environment.1 run approved in
      let configures = read_environment-Configures environment_raw configured in
      rw (← (ok-injective h₄)) (
        run,
        reviewer,
        read_run-Starts env started,
        rw (user-cong reviewer environment.1 same_login same_id) configures,
        approves,
        not_actor,
        not_triggering,
        read_job-RunsJob jobs_raw run.source_sha running,
        refl,
        refl,
        refl,
        refl,
      )
