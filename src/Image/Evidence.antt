-- ===== src/Image/Evidence.antt =====
-- `EVIDENCE_KEYS`, `_evidence_document` and `_validate_evidence`.
pub mod Accepted
pub mod Folder
use devpath_shared.Base.{
  ℕ, ◌≡◌, Bool, true, false, ◌&&◌, Option, none, some, List, [], ◌∷◌, String, ◌<>◌, ◌==ˢ◌,
}
use devpath_shared.Base.Integer.{pos}
use devpath_shared.Base.Result.{Result, ok, err, ◌>>=◌, ◌>>◌, ensure, or_refuse}
use devpath_shared.Json.{Json, integer, text, object, Fields, field, end, keys, get, py_eq, as_dict}
use devpath_shared.Image.Format.{
  repository, source_label, image_repository, schema_version, builder_base_index_digest,
  builder_base_amd64_digest, runtime_base_index_digest, runtime_base_amd64_digest, valid_source_sha,
  valid_digest, positive_int, in_set,
}

abbrev pub evidence_keys : List String
evidence_keys =
    "schema_version" ∷ "status" ∷ "repository" ∷ "source_sha" ∷ "producer_run_id"
    ∷ "producer_run_attempt" ∷ "image_repository" ∷ "image_tag" ∷ "image_digest" ∷ "publish_mode"
    ∷ "source_label" ∷ "revision_label" ∷ "builder_base_index_digest" ∷ "builder_base_amd64_digest"
    ∷ "runtime_base_index_digest" ∷ "runtime_base_amd64_digest" ∷ []

-- `tuple(document) == keys`
abbrev pub eq_texts : List String → List String → Bool
eq_texts [] [] = true
eq_texts [] (t ∷ ts) = false
eq_texts (s ∷ ss) [] = false
eq_texts (s ∷ ss) (t ∷ ts) = (s ==ˢ t) && eq_texts ss ts

unfoldable pub evidence_document : String → ℕ → ℕ → String → String → Fields
evidence_document source_sha run_id run_attempt image_digest publish_mode =
    field "schema_version" (text schema_version) (
      field "status" (text "passed") (
        field "repository" (text repository) (
          field "source_sha" (text source_sha) (
            field "producer_run_id" (integer (pos run_id)) (
              field "producer_run_attempt" (integer (pos run_attempt)) (
                field "image_repository" (text image_repository) (
                  field "image_tag" (text source_sha) (
                    field "image_digest" (text image_digest) (
                      field "publish_mode" (text publish_mode) (
                        field "source_label" (text source_label) (
                          field "revision_label" (text source_sha) (
                            field "builder_base_index_digest" (text builder_base_index_digest) (
                              field "builder_base_amd64_digest" (text builder_base_amd64_digest) (
                                field "runtime_base_index_digest" (text runtime_base_index_digest) (
                                  field "runtime_base_amd64_digest" (text runtime_base_amd64_digest)
                                    end)))))))))))))))

-- `for key, value in expected.items(): if document.get(key) != value: raise …`
unfoldable pub require_values : Fields → List (String × Json) → Result (Unit {0})
require_values d [] = ok tt
require_values d ((key, value) ∷ expected) = do
  ensure (py_eq (get d key) value) ("migration image evidence " <> key <> " drifted")
  require_values d expected

abbrev pub expected_values : Json → List (String × Json)
expected_values source_sha =
    ("schema_version", text schema_version)
    ∷ ("status", text "passed")
    ∷ ("repository", text repository)
    ∷ ("image_repository", text image_repository)
    ∷ ("image_tag", source_sha)
    ∷ ("source_label", text source_label)
    ∷ ("revision_label", source_sha)
    ∷ ("builder_base_index_digest", text builder_base_index_digest)
    ∷ ("builder_base_amd64_digest", text builder_base_amd64_digest)
    ∷ ("runtime_base_index_digest", text runtime_base_index_digest)
    ∷ ("runtime_base_amd64_digest", text runtime_base_amd64_digest)
    ∷ []

abbrev pub publish_modes : List String
publish_modes = "published" ∷ "reused" ∷ []

-- The checks on the fields, once the keys are known to be exact.
unfoldable pub validate_fields : Fields → Result (Unit {0})
validate_fields d = do
  require_values d (expected_values (get d "source_sha"))
  ensure (valid_source_sha (get d "source_sha")) "migration image evidence source_sha is invalid"
  ensure (positive_int (get d "producer_run_id"))
      "migration image evidence producer_run_id is invalid"
  ensure (py_eq (get d "producer_run_attempt") (integer (pos 1)))
      "migration image evidence producer_run_attempt must equal 1"
  ensure (valid_digest (get d "image_digest")) "migration image evidence image_digest is invalid"
  known ← in_set (get d "publish_mode") publish_modes
  ensure known "migration image evidence publish_mode is invalid"

unfoldable pub validate_evidence : Json → Result Fields
validate_evidence document = do
  d ← or_refuse (as_dict document) "migration image evidence exact key order drifted"
  ensure (eq_texts (keys d) evidence_keys) "migration image evidence exact key order drifted"
  validate_fields d
  ok d
