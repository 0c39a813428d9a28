-- ===== src/Tests/Results.antt =====
-- The theorems about the evidence of a released migration, at a release that was published.
use devpath_shared.Gate.Result.Exact.{Describes}
use devpath_shared.Json.Hooks.{hooked, unique_object}
use devpath_shared.Gate.JobName.{derived_migration_job_name}
use devpath_shared.Gate.Exact.{exact_value}
use devpath_shared.Context.Source.{digest_pattern, sha64}
use devpath_shared.Gate.Values.{
  utc_z_pattern, login, positive_integer, is_timestamp, json_array, initiator_login, is_login,
  utc_z_seconds,
}
use devpath_shared.Gate.Approval.{
  read_run, as_user, validate_protected_approval, read_job, configured_reviewer, require_exact,
  read_environment, read_approval, required_reviewers, check_approved_environment, read_user,
}
use devpath_shared.Gate.Text.{lf_text}
use devpath_shared.Base.Decimal.{show_onto, scan, int_of_text, show}
use devpath_shared.Context.{require_env}
use devpath_shared.Base.Text.{take_text, eq_lower, after_prefix, remove_prefix, codes}
use devpath_shared.Base.Pattern.{literal, fullmatch, matches}
use devpath_shared.Base.{ℕ, ◌≡◌, refl, true, [], ◌∷◌, String, arith, ◌<◌}
use devpath_shared.Base.Result.{ok}
use devpath_shared.Json.{object, null, py_eq, lookup, get}
use devpath_shared.Runtime.{Bytes, Runtime}
use devpath_shared.Gate.Format.{
  migration_paths, bot_name, positive_integer_string, json_object, is_nonzero, json_value, nonzero,
  json_object, release_pattern,
}
use devpath_shared.Json.{text}
use devpath_shared.Gate.Facts.{migration_subject}
use devpath_shared.Gate.Integers.{ten_to, positive_integer_string-bounds}
use devpath_shared.Gate.File.{read_regular_file}
use devpath_shared.Gate.File.Whole.{read_regular_file_iff}
use devpath_shared.Gate.Result.{Released, result_document, ordered_keys, max_evidence_bytes}
use devpath_shared.Gate.Result.Check.{
  validate_result_evidence, check_image, check_result, check_release, check_commits, check_approval,
  check_shared, require_equal, check_gitops,
}
use devpath_shared.Gate.Result.Accepts.{Reads, validate_result_evidence_iff}
use devpath_shared.Gate.Result.Build.{
  Inputs, workflow_first_line, read_released, build_result_evidence, check_change, read_app,
  check_workflow, check_push, read_identity,
}
use devpath_shared.Gate.Result.WellFormed.{IsReleased}
use devpath_shared.Gate.Result.Built.{
  Reports, build_result_evidence-Reports, validate_result_evidence-build_result_evidence,
}
use devpath_shared.Gate.Result.Folder.{
  result_filename, Place, missing, directory, written_file, written_file-Serves,
  verify_result_evidence_dir, write_result_evidence,
  verify_result_evidence_dir-write_result_evidence,
}
use devpath_shared.Tests.Sample.{
  source_sha, image_digest, sha_a, sha_c, sha_d, runtime, Table, name_of, sha_of, document_of,
}
use devpath_shared.Tests.Approvals.{run_env, approval, approval_table}

abbrev base_sha : String
base_sha = "2222222222222222222222222222222222222222"

abbrev commit_sha : String
commit_sha = "3333333333333333333333333333333333333333"

abbrev rendered_name : String
rendered_name = "devpath-flyway-migrate-aaaaaaaaaaaa-cccccccccccccccccccccccc"

abbrev released : Released
released = record {
  release_id = "ms-20260907-spine";
  candidate_spec_sha256 = sha_d;
  release_manifest_sha256 = sha_c;
  source_sha = source_sha;
  workflow_sha256 = sha_a;
  run_id = 7;
  approval = approval;
  push = record {
    base_sha = base_sha;
    sealed_release_sha = base_sha;
    pre_push_main_sha = base_sha;
    migration_commit_sha = commit_sha;
    migration_tree_sha = source_sha;
    publish_mode = "published";
    write_app_id = 77;
    write_app_installation_id = 88;
    rendered_job_name = rendered_name;
  };
  image_digest = image_digest;
}

abbrev result_table : Table
result_table =
    (31, "result", sha_c, object (result_document released))
    ∷ (41, workflow_first_line, sha_a, null)
    ∷ approval_table

abbrev result_runtime : Runtime
result_runtime = record runtime {
  sha256 = sha_of result_table;
  decode = name_of result_table;
  loads = document_of result_table;
  dumps = λ v. 31 ∷ [];
}

abbrev inputs : Inputs
inputs = record {
  release_id = "ms-20260907-spine";
  candidate_spec_sha256 = sha_d;
  release_manifest_sha256 = sha_c;
  workflow_raw = 41 ∷ 10 ∷ [];
  environment_raw = 11 ∷ [];
  approvals_raw = 12 ∷ [];
  jobs_raw = 13 ∷ [];
  gitops_base_sha = base_sha;
  sealed_release_sha = base_sha;
  pre_push_main_sha = base_sha;
  migration_commit_sha = commit_sha;
  migration_tree_sha = source_sha;
  publish_mode = "published";
  gitops_write_app_slug = "devpath-gitops-release";
  gitops_write_app_id = "77";
  gitops_write_app_installation_id = "88";
  changed_paths = migration_paths;
  rendered_job_name = rendered_name;
  commit_subject = migration_subject "ms-20260907-spine" sha_c;
  commit_author_name = bot_name;
  commit_committer_name = bot_name;
  image_digest = image_digest;
}

inputs_are_read : read_released result_runtime run_env inputs ≡ ok released
unfolding read_released read_identity fullmatch release_pattern nonzero remove_prefix require_env
    positive_integer_string int_of_text check_workflow lf_text validate_protected_approval read_run
    initiator_login login is_login read_environment scan show show_onto literal matches after_prefix
    codes eq_lower take_text digest_pattern as_user check_approved_environment configured_reviewer
    read_approval read_job read_user require_exact required_reviewers exact_value json_object
    json_value derived_migration_job_name check_change check_push read_app is_timestamp json_array
    positive_integer utc_z_pattern utc_z_seconds hooked unique_object get lookup py_eq
inputs_are_read = refl

result_is_built : build_result_evidence result_runtime run_env inputs ≡ ok (31 ∷ [])
unfolding build_result_evidence read_released read_identity fullmatch release_pattern nonzero
    remove_prefix require_env positive_integer_string int_of_text check_workflow lf_text
    validate_protected_approval read_run initiator_login login is_login scan show show_onto literal
    matches after_prefix codes eq_lower take_text digest_pattern as_user check_approved_environment
    configured_reviewer read_approval read_environment read_job read_user require_exact
    required_reviewers exact_value json_object json_value derived_migration_job_name check_change
    check_push read_app check_approval check_commits check_gitops check_image check_release
    check_result check_shared require_equal validate_result_evidence ordered_keys result_document
    is_timestamp json_array positive_integer utc_z_pattern utc_z_seconds hooked unique_object get
    lookup py_eq
result_is_built = refl

result_is_valid : validate_result_evidence result_runtime (31 ∷ []) ≡ ok (result_document released)
unfolding validate_result_evidence json_object json_value hooked result_document unique_object
    check_result ordered_keys check_release get py_eq fullmatch release_pattern nonzero
    remove_prefix check_shared require_equal literal matches after_prefix codes take_text
    digest_pattern derived_migration_job_name check_approval check_commits check_gitops check_image
    is_login is_timestamp login positive_integer utc_z_pattern utc_z_seconds lookup
result_is_valid = refl

validate_result_evidence_iff_example :
    (json_object result_runtime (31 ∷ []) "migration result evidence" max_evidence_bytes
      ≡ ok (result_document released))
    × Describes (result_document released)
    × (31 ∷ [] ≡ result_runtime.dumps (object (result_document released)))
validate_result_evidence_iff_example =
    (validate_result_evidence_iff result_runtime (31 ∷ []) (result_document released)).0
      result_is_valid

sha_is_nonzero : is_nonzero sha64 sha_a ≡ true
unfolding is_nonzero fullmatch remove_prefix
sha_is_nonzero = refl

build_result_evidence-Reports_example :
    (p : Released) × (31 ∷ [] ≡ result_runtime.dumps (object (result_document p)))
    × IsReleased p
    × Reports result_runtime run_env inputs p
build_result_evidence-Reports_example =
    build_result_evidence-Reports result_runtime run_env inputs sha_is_nonzero result_is_built

result-Reads : Reads result_runtime (object (result_document released))
result-Reads = record {
  written = "result";
  decoded = refl;
  unmarked = refl;
  loaded = refl;
  nonempty = omega arith;
}

validate_result_evidence-build_result_evidence_example :
    (raw : Bytes) × (build_result_evidence result_runtime run_env inputs ≡ ok raw)
    × (validate_result_evidence result_runtime raw ≡ ok (result_document released))
validate_result_evidence-build_result_evidence_example =
    validate_result_evidence-build_result_evidence result_runtime run_env inputs released
      inputs_are_read sha_is_nonzero result-Reads (omega arith)

abbrev empty_place : Place
empty_place = record { parent_is_directory = true; can_create = true; node = missing }

verify_result_evidence_dir-write_result_evidence_example :
    (stored : Place) × (write_result_evidence result_runtime (31 ∷ []) empty_place
      ≡ (ok result_filename, stored))
    × (stored.node ≡ directory ((result_filename, written_file (31 ∷ [])) ∷ []))
    × (verify_result_evidence_dir result_runtime stored.node ≡ ok (result_document released))
verify_result_evidence_dir-write_result_evidence_example =
    verify_result_evidence_dir-write_result_evidence result_runtime (31 ∷ []) empty_place
      result_is_valid refl refl refl

read_regular_file_iff_example :
    read_regular_file (written_file (5 ∷ 6 ∷ [])) "evidence.json" 16 ≡ ok (5 ∷ 6 ∷ [])
read_regular_file_iff_example =
    (read_regular_file_iff (written_file (5 ∷ 6 ∷ [])) (5 ∷ 6 ∷ [])
        (written_file-Serves (5 ∷ 6 ∷ [])) "evidence.json" 16 (5 ∷ 6 ∷ [])).1
      (refl, refl, refl, refl, omega arith, omega arith, refl, refl, refl, refl, refl)

positive_integer_string-bounds_example :
    (n : ℕ) × (positive_integer_string (text "31415926535897932384") "run" ≡ ok n)
    × (0 < n)
    × (n < ten_to 20)
unfolding fullmatch
positive_integer_string-bounds_example =
    positive_integer_string-bounds "31415926535897932384" "run" refl
