-- ===== src/Tests/Handoffs.antt =====
-- The steps of the workflow at a registry that holds the image.
use devpath_shared.Base.Exec.{retry}
use devpath_shared.Context.{require_env}
use devpath_shared.Base.Text.{strip, eq_lower, codes}
use devpath_shared.Base.Decimal.{int_of_text, scan, show, show_onto}
use devpath_shared.Image.Response.{header, check_response, last_header}
use devpath_shared.Json.Hooks.{hooked, unique_object}
use devpath_shared.Image.Format.{
  is_digest, parse_json, expected_labels, valid_digest, require_texts, valid_source_sha,
}
use devpath_shared.Base.Pattern.{fullmatch, literal, matches}
use devpath_shared.Context.Source.{is_source_sha, digest_pattern}
use devpath_shared.Base.{
  ℕ, ◌≡◌, refl, true, false, Option, none, some, List, [], ◌∷◌, String, inl, inr, length, ◌<>◌,
  arith, ◌≤◌, Bool,
}
use devpath_shared.Base.Result.{ok}
use devpath_shared.Json.{get, py_eq, lookup}
use devpath_shared.Image.Document.{
  RemoteImage, validate_remote_image, check_config, check_manifest, require_local_candidate_config,
  require_candidate_config, has_text, validate_local_image_document,
}
use devpath_shared.Image.Http.{request}
use devpath_shared.Image.Redirect.{storage_redirect, is_blob_path, allow_target, redirect_location}
use devpath_shared.Image.Registry.{
  is_exact_manifest_absence, read_token, config_url, registry_client, manifest_url, named_config,
}
use devpath_shared.Image.Registry.Inspect.{
  inspect, inspect_failure, bearer_token, inspect_manifest, fetch_config_blob, inspect_reply,
  fetch_from_storage,
}
use devpath_shared.Image.Registry.Inspect.Bound.{Outcome, Inspected}
use devpath_shared.Image.Recheck.{resolve_recheck, recheck_present}
use devpath_shared.Image.Evidence.{
  validate_evidence, evidence_document, validate_fields, require_values,
}
use devpath_shared.Image.Evidence.Folder.{
  validate_evidence_directory, validate_evidence_file, missing, directory, plain, write_evidence,
  make_directory,
}
use devpath_shared.Image.Workflow.Source.{validate_ci_context, require_run_id}
use devpath_shared.Image.Workflow.Outputs.{
  absent, regular, well_formed, output_lines, write_github_outputs,
}
use devpath_shared.Image.Workflow.Steps.{
  World, postflight, single, record_image, inspect_local_image, verify_ci_source, find_image,
  await_image, on_outside, verify_local, accept_image, on_evidence, publish_plan, preflight,
  recheck, preflight_values, recheck_values, on_outputs, inspect_registry,
}
use devpath_shared.Image.Workflow.Postflight.{postflight-Published, PublishMode, Recorded}
use devpath_shared.Image.Workflow.Verify.{verify_evidence_cli, verify_evidence_cli_iff}
use devpath_shared.Tests.Sample.{
  evidence, runtime, network, runner, env, source_sha, image_digest, config_digest, image_ref,
}
use devpath_shared.Image.Workflow.Handoff.{
  Handed, Matches, Decided, preflight-Handed, recheck-Handed,
}

abbrev at_start : World ℕ
at_start = record { outside = 0; outputs = regular "a=b\n"; evidence = missing }

abbrev at_end : String → World ℕ
at_end key = record {
  outside = 3;
  outputs = regular (
      "a=b\n" <> key <> "=false\nimage_digest=" <> image_digest <> "\ncandidate_config_digest="
      <> config_digest <> "\n");
  evidence = missing;
}

preflight_has_run :
    preflight runtime runner env image_ref config_digest at_start ≡ (ok tt, at_end "publish_needed")
unfolding preflight on_outputs inspect_registry write_github_outputs well_formed output_lines
    devpath_shared.Base.Exec.◌>>=◌ on_outside verify_local verify_ci_source validate_ci_context
    require_env is_source_sha fullmatch require_run_id int_of_text show strip inspect_local_image
    parse_json hooked unique_object scan show_onto retry literal matches codes eq_lower
    digest_pattern check_config check_manifest has_text require_candidate_config
    require_local_candidate_config validate_local_image_document validate_remote_image
    make_directory write_evidence evidence_document require_values validate_evidence validate_fields
    expected_labels is_digest require_texts valid_digest valid_source_sha request allow_target
    is_blob_path redirect_location storage_redirect bearer_token fetch_config_blob
    fetch_from_storage inspect inspect_failure inspect_manifest inspect_reply config_url
    is_exact_manifest_absence manifest_url named_config read_token registry_client check_response
    header last_header accept_image await_image find_image on_evidence publish_plan record_image
    single get lookup py_eq
preflight_has_run = refl

preflight-Handed_example :
    (o : Option RemoteImage) × Outcome runtime network true source_sha o
    × Matches o config_digest
    × Handed (preflight_values o config_digest) at_start (at_end "publish_needed")
preflight-Handed_example =
    preflight-Handed runtime runner env image_ref config_digest at_start preflight_has_run

recheck_has_run :
    recheck runtime runner env image_ref config_digest "false" image_digest at_start
    ≡ (ok tt, at_end "push_needed")
unfolding recheck resolve_recheck recheck_present on_outputs inspect_registry write_github_outputs
    well_formed output_lines devpath_shared.Base.Exec.◌>>=◌ on_outside verify_local verify_ci_source
    validate_ci_context require_env is_source_sha fullmatch require_run_id int_of_text show strip
    inspect_local_image parse_json hooked unique_object scan show_onto retry literal matches codes
    eq_lower digest_pattern check_config check_manifest has_text require_candidate_config
    require_local_candidate_config validate_local_image_document validate_remote_image
    make_directory write_evidence evidence_document require_values validate_evidence validate_fields
    expected_labels is_digest require_texts valid_digest valid_source_sha request allow_target
    is_blob_path redirect_location storage_redirect bearer_token fetch_config_blob
    fetch_from_storage inspect inspect_failure inspect_manifest inspect_reply config_url
    is_exact_manifest_absence manifest_url named_config read_token registry_client check_response
    header last_header accept_image await_image find_image on_evidence publish_plan record_image
    single get lookup py_eq
recheck_has_run = refl

recheck-Handed_example :
    (o : Option RemoteImage) × (push : Bool) × (digest : String) × Outcome runtime network true
      source_sha o
    × Decided "false" o config_digest push digest
    × Handed (recheck_values push digest config_digest) at_start (at_end "push_needed")
recheck-Handed_example =
    recheck-Handed runtime runner env image_ref config_digest "false" image_digest at_start
      recheck_has_run

abbrev before : World ℕ
before = record { outside = 0; outputs = absent; evidence = missing }

abbrev after : World ℕ
after = record {
  outside = 3;
  outputs = absent;
  evidence = directory (("evidence.json", plain (3 ∷ [])) ∷ []);
}

image_is_published :
    postflight runtime runner env image_ref config_digest "true" "" 3 true before ≡ (ok tt, after)
unfolding postflight devpath_shared.Base.Exec.◌>>=◌ on_outside verify_local verify_ci_source
    validate_ci_context require_env is_source_sha fullmatch require_run_id int_of_text show strip
    inspect_local_image parse_json hooked unique_object scan show_onto retry literal matches codes
    eq_lower digest_pattern check_config check_manifest has_text require_candidate_config
    require_local_candidate_config validate_local_image_document validate_remote_image
    make_directory write_evidence evidence_document require_values validate_evidence validate_fields
    expected_labels is_digest require_texts valid_digest valid_source_sha request allow_target
    is_blob_path redirect_location storage_redirect bearer_token fetch_config_blob
    fetch_from_storage inspect inspect_failure inspect_manifest inspect_reply config_url
    is_exact_manifest_absence manifest_url named_config read_token registry_client check_response
    header last_header accept_image await_image find_image on_evidence publish_plan record_image
    single get lookup py_eq
image_is_published = refl

postflight-Published_example :
    (found : RemoteImage) × (manifest : List ℕ) × (mode : String) × Inspected runtime network
      source_sha manifest found
    × (found.config_digest ≡ config_digest)
    × PublishMode "true" "" found.digest mode
    × (missing ≡ missing)
    × Recorded runtime runner env source_sha found.digest mode after.evidence
    × (absent ≡ absent)
postflight-Published_example =
    postflight-Published runtime runner env image_ref config_digest "true" "" 3 true before
      image_is_published

evidence_is_valid :
    validate_evidence_directory runtime (directory (("evidence.json", plain (3 ∷ [])) ∷ []))
    ≡ ok evidence
unfolding validate_evidence_directory validate_evidence_file parse_json hooked evidence_document
    unique_object validate_evidence validate_fields require_values py_eq get valid_source_sha
    fullmatch valid_digest is_digest digest_pattern
evidence_is_valid = refl

verify_evidence_cli_example :
    verify_evidence_cli runtime env (directory (("evidence.json", plain (3 ∷ [])) ∷ []))
    ≡ ok evidence
unfolding get evidence_document show
verify_evidence_cli_example =
    (verify_evidence_cli_iff runtime env (directory (("evidence.json", plain (3 ∷ [])) ∷ []))
        evidence).1
      (evidence_is_valid, refl, refl, refl, refl)
