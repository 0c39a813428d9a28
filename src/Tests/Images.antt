-- ===== src/Tests/Images.antt =====
-- The theorems about the migration image, at an image that the registry holds.
use devpath_shared.Base.Exec.{retry}
use devpath_shared.Base.Text.{strip, eq_lower, codes}
use devpath_shared.Base.Decimal.{int_of_text, scan, show, show_onto}
use devpath_shared.Image.Response.{header, check_response, last_header}
use devpath_shared.Json.Hooks.{hooked, unique_object}
use devpath_shared.Image.Format.{
  is_digest, parse_json, expected_labels, valid_digest, require_texts, valid_source_sha,
}
use devpath_shared.Base.Pattern.{fullmatch, literal, matches}
use devpath_shared.Context.Source.{is_source_sha, digest_pattern}
use devpath_shared.Base.{
  ℕ, ◌≡◌, refl, true, false, Option, none, some, List, [], ◌∷◌, String, inl, inr, length, ◌<>◌,
  arith, ◌≤◌,
}
use devpath_shared.Base.Result.{ok}
use devpath_shared.Json.{object, get, py_eq, lookup}
use devpath_shared.Image.Document.{RemoteImage, validate_remote_image, check_config, check_manifest}
use devpath_shared.Image.Document.Provenance.{validate_remote_image-bound, Describes}
use devpath_shared.Image.Http.{Failure, request}
use devpath_shared.Image.Redirect.{
  storage_redirect, storage_redirect-IsStorage, IsStorage, is_blob_path, allow_target,
  redirect_location,
}
use devpath_shared.Image.Registry.{
  Credentials, is_exact_manifest_absence, manifest_unknown, read_token, config_url, manifest_url,
  named_config,
}
use devpath_shared.Image.Registry.Inspect.{
  inspect, inspect_failure, bearer_token, inspect_manifest, fetch_config_blob, inspect_reply,
  fetch_from_storage,
}
use devpath_shared.Image.Registry.Inspect.Bound.{absence-exact, inspect-Outcome, Outcome}
use devpath_shared.Image.Recheck.{
  resolve_recheck, resolve_recheck-push_iff, resolve_recheck-reuse_iff,
}
use devpath_shared.Image.Evidence.{
  validate_evidence, evidence_document, validate_fields, require_values,
}
use devpath_shared.Image.Evidence.Accepted.{
  evidence_document-accepted_iff, validate_evidence-accepted_iff, Accepts,
}
use devpath_shared.Image.Evidence.Folder.{
  missing, directory, plain, write_evidence, validate_evidence_directory, make_directory,
}
use devpath_shared.Image.Evidence.Folder.RoundTrip.{
  Inverts, validate_evidence_directory-write_evidence,
}
use devpath_shared.Image.Workflow.Source.{validate_ci_context, validate_ci_context_iff}
use devpath_shared.Image.Workflow.Steps.{}
use devpath_shared.Tests.Sample.{
  runtime, network, env, source_sha, image_digest, config_digest, evidence, manifest_address, sha_a,
  sha_b, split,
}

abbrev image : RemoteImage
image = record { digest = image_digest; config_digest = config_digest }

image_is_valid : validate_remote_image runtime (1 ∷ []) image_digest (2 ∷ []) source_sha ≡ ok image
unfolding validate_remote_image is_source_sha fullmatch is_digest digest_pattern check_manifest
    parse_json hooked unique_object py_eq get valid_digest check_config require_texts
    expected_labels
image_is_valid = refl

validate_remote_image-bound_example :
    (image_digest ≡ image_digest)
    × (image_digest ≡ "sha256:" <> sha_a)
    × (config_digest ≡ "sha256:" <> sha_b)
    × Describes runtime (2 ∷ []) source_sha
validate_remote_image-bound_example =
    validate_remote_image-bound runtime (1 ∷ []) image_digest (2 ∷ []) source_sha image_is_valid

abbrev client : Credentials
client = record { actor = "actor"; token = "secret" }

image_is_found : inspect runtime network client source_sha false 0 ≡ (ok (some image), 3)
unfolding inspect devpath_shared.Base.Exec.◌>>=◌ manifest_url is_source_sha fullmatch bearer_token
    request eq_lower header read_token last_header parse_json hooked unique_object get inspect_reply
    inspect_manifest int_of_text scan show show_onto literal matches codes strip digest_pattern
    check_config check_manifest validate_remote_image expected_labels is_digest require_texts
    valid_digest allow_target is_blob_path redirect_location storage_redirect fetch_config_blob
    fetch_from_storage inspect_failure config_url is_exact_manifest_absence named_config
    check_response lookup py_eq
image_is_found = refl

inspect-Outcome_example : Outcome runtime network false source_sha (some image)
inspect-Outcome_example = inspect-Outcome runtime network client source_sha false 0 image_is_found

abbrev not_found : Failure
not_found = record {
  code = 404;
  url = manifest_address;
  headers = some (("Content-Type", "application/json") ∷ []);
  body = 4 ∷ [];
}

not_found_is_absence : is_exact_manifest_absence runtime not_found manifest_address ≡ ok true
unfolding is_exact_manifest_absence header parse_json hooked unique_object py_eq lookup
not_found_is_absence = refl

absence-exact_example :
    (not_found.code ≡ 404)
    × (manifest_address ≡ manifest_address)
    × ((4 ∷ []) ≡ runtime.dumps_unicode manifest_unknown)
absence-exact_example = absence-exact runtime not_found manifest_address not_found_is_absence

resolve_recheck-push_example : resolve_recheck "true" "" none config_digest ≡ ok (true, "")
unfolding is_digest fullmatch digest_pattern
resolve_recheck-push_example =
    (resolve_recheck-push_iff "true" "" none config_digest "").1 (refl, refl, refl, refl, refl)

resolve_recheck-reuse_example :
    resolve_recheck "false" image_digest (some image) config_digest ≡ ok (false, image_digest)
unfolding is_digest fullmatch digest_pattern
resolve_recheck-reuse_example =
    (resolve_recheck-reuse_iff "false" image_digest (some image) config_digest image_digest).1
      ((refl, refl), refl, inr (refl, refl, refl))

evidence_document-accepted_example : validate_evidence (object evidence) ≡ ok evidence
unfolding is_source_sha fullmatch is_digest digest_pattern
evidence_document-accepted_example =
    (evidence_document-accepted_iff source_sha 7 1 image_digest "published").1
      (refl, omega arith, refl, refl, inl refl)

evidence_is_accepted : validate_evidence (object evidence) ≡ ok evidence
unfolding validate_evidence evidence_document validate_fields require_values py_eq get
    valid_source_sha fullmatch valid_digest is_digest digest_pattern
evidence_is_accepted = refl

validate_evidence-accepted_example : Accepts evidence
validate_evidence-accepted_example =
    (validate_evidence-accepted_iff evidence).0 evidence_is_accepted

evidence_is_inverted : Inverts runtime (object evidence)
unfolding evidence_document
evidence_is_inverted = record {
  written = "evidence";
  decoded = refl;
  unmarked = refl;
  loaded = refl;
  nonempty = omega arith;
}

evidence_is_written :
    write_evidence runtime source_sha 7 1 image_digest "published" missing
    ≡ (ok "evidence.json", directory (("evidence.json", plain (3 ∷ [])) ∷ []))
unfolding write_evidence validate_evidence evidence_document validate_fields require_values py_eq
    get valid_source_sha fullmatch valid_digest is_digest digest_pattern make_directory
evidence_is_written = refl

validate_evidence_directory-write_evidence_example :
    validate_evidence_directory runtime (directory (("evidence.json", plain (3 ∷ [])) ∷ []))
    ≡ ok evidence
validate_evidence_directory-write_evidence_example =
    validate_evidence_directory-write_evidence runtime source_sha 7 1 image_digest "published"
      evidence_is_inverted evidence_is_written

abbrev blob_address : String
blob_address = "https://ghcr.io/v2/devpathai/devpath-migration/blobs/" <> config_digest

abbrev moved : Failure
moved = record {
  code = 307;
  url = blob_address;
  headers = some (("Content-Length", "0") ∷ ("Location", "storage") ∷ []);
  body = [];
}

storage_is_allowed : storage_redirect split moved blob_address config_digest ≡ ok "storage"
unfolding storage_redirect redirect_location header allow_target is_blob_path digest_pattern
storage_is_allowed = refl

storage_redirect-IsStorage_example :
    (moved.code ≡ 307)
    × (blob_address ≡ blob_address)
    × (length moved.body ≡ 0)
    × IsStorage (split "storage") config_digest
storage_redirect-IsStorage_example =
    storage_redirect-IsStorage split moved blob_address config_digest storage_is_allowed

validate_ci_context_example : validate_ci_context env source_sha source_sha source_sha "" ≡ ok tt
unfolding is_source_sha fullmatch int_of_text show
validate_ci_context_example = (validate_ci_context_iff env source_sha source_sha source_sha "").1 (
  (refl, (refl, (refl, (refl, tt)))),
  refl,
  refl,
  (7, omega arith, omega arith, refl, refl),
  refl,
  refl,
  refl,
)
