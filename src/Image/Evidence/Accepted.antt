-- ===== src/Image/Evidence/Accepted.antt =====
-- Which evidence is accepted.
use devpath_shared.Base.{
  ℕ, ◌≡◌, ◌<◌, refl, ◌↔◌, true, List, some, [], ◌∷◌, String, ◌⊎◌, arith, eq_iff, eq_refl, All,
}
use devpath_shared.Base.Integer.{pos}
use devpath_shared.Base.Result.{ok, ensure-eq-ok, >>=-eq-ok}
use devpath_shared.Json.{
  Json, null, float, array, constant, text, integer, object, boolean, Fields, get, keys, numeric,
  py_eq, py_eq-integer_iff,
}
use devpath_shared.Context.Source.{is_source_sha}
use devpath_shared.Image.Format.{valid_source_sha, valid_digest, is_digest, positive_int, in_set}
use devpath_shared.Image.Evidence.{
  evidence_document, evidence_keys, eq_texts, require_values, expected_values, publish_modes,
  validate_fields, validate_evidence,
}

require_values_iff :
    (d : Fields) (expected : List (String × Json))
    → (require_values d expected ≡ ok tt)
      ↔ All (λ (e : String × Json). py_eq (get d e.0) e.1 ≡ true) expected
unfolding require_values
require_values_iff d [] = ground arith
require_values_iff d ((key, value) ∷ expected) = ground (arith, require_values_iff d expected)

eq_texts_iff : (ss ts : List String) → (eq_texts ss ts ≡ true) ↔ (ss ≡ ts)
eq_texts_iff [] [] = ground arith
eq_texts_iff [] (t ∷ ts) = ground arith
eq_texts_iff (s ∷ ss) [] = ground arith
eq_texts_iff (s ∷ ss) (t ∷ ts) = ground (arith, eq_iff s t, eq_texts_iff ss ts)

mode_known_iff :
    (v : Json) → (in_set v publish_modes ≡ ok true) ↔ ((v ≡ text "published") ⊎ (v ≡ text "reused"))
mode_known_iff (text s) = ground (arith, eq_iff "published" s, eq_iff "reused" s)
mode_known_iff null = ground arith
mode_known_iff (boolean b) = ground arith
mode_known_iff (integer n) = ground arith
mode_known_iff (float n r) = ground arith
mode_known_iff (array xs) = ground arith
mode_known_iff (object d) = ground arith
mode_known_iff (constant s) = ground arith

-- The contents that the validation demands, field by field.
pub record Accepts (d : Fields) : Type 0 where
  pub ordered : keys d ≡ evidence_keys
  pub fixed :
      All
        (λ (e : String × Json). py_eq (get d e.0) e.1 ≡ true)
        (expected_values (get d "source_sha"))
  pub source : valid_source_sha (get d "source_sha") ≡ true
  pub run : positive_int (get d "producer_run_id") ≡ true
  pub attempt : numeric (get d "producer_run_attempt") ≡ some (pos 1)
  pub image : valid_digest (get d "image_digest") ≡ true
  pub mode : (get d "publish_mode" ≡ text "published") ⊎ (get d "publish_mode" ≡ text "reused")

validate_fields_iff :
    (d : Fields)
    → (validate_fields d ≡ ok tt) ↔ (
        (require_values d (expected_values (get d "source_sha")) ≡ ok tt)
        × (valid_source_sha (get d "source_sha") ≡ true)
        × (positive_int (get d "producer_run_id") ≡ true)
        × (numeric (get d "producer_run_attempt") ≡ some (pos 1))
        × (valid_digest (get d "image_digest") ≡ true)
        × ((get d "publish_mode" ≡ text "published") ⊎ (get d "publish_mode" ≡ text "reused")))
unfolding validate_fields
validate_fields_iff d = ground (
  arith,
  py_eq-integer_iff (get d "producer_run_attempt") (pos 1),
  mode_known_iff (get d "publish_mode"),
)

-- A document is accepted exactly when it is a dict with the keys in their order and the demanded
-- contents. The attempt is demanded only to be equal to 1, so `True` and `1.0` pass for it.
pub validate_evidence-accepted_iff :
    (d : Fields) → (validate_evidence (object d) ≡ ok d) ↔ Accepts d
unfolding validate_evidence
validate_evidence-accepted_iff d =
    let keys_iff = eq_texts_iff (keys d) evidence_keys in
    let values_iff = require_values_iff d (expected_values (get d "source_sha")) in
    let fields_iff = validate_fields_iff d in
    (
      λ h.
          let (ordered, h₁) = ensure-eq-ok (eq_texts (keys d) evidence_keys) _ _ h in
          let (_, checked, _) = >>=-eq-ok (validate_fields d) _ h₁ in
          let (fixed, source, run, attempt, image, mode) = fields_iff.0 checked in
          record {
            ordered = keys_iff.0 ordered;
            fixed = values_iff.0 fixed;
            source = source;
            run = run;
            attempt = attempt;
            image = image;
            mode = mode;
          },
      λ a. rw (keys_iff.1 a.ordered) (
          rw (fields_iff.1 (values_iff.1 a.fixed, a.source, a.run, a.attempt, a.image, a.mode))
            refl),
    )

module _ (source_sha : String) (run_id run_attempt : ℕ) (image_digest publish_mode : String) where
  abbrev written : Fields
  written = evidence_document source_sha run_id run_attempt image_digest publish_mode

  source_read : get written "source_sha" ≡ text source_sha
  unfolding evidence_document get
  source_read = refl

  run_id_read : get written "producer_run_id" ≡ integer (pos run_id)
  unfolding evidence_document get
  run_id_read = refl

  attempt_read : get written "producer_run_attempt" ≡ integer (pos run_attempt)
  unfolding evidence_document get
  attempt_read = refl

  digest_read : get written "image_digest" ≡ text image_digest
  unfolding evidence_document get
  digest_read = refl

  mode_read : get written "publish_mode" ≡ text publish_mode
  unfolding evidence_document get
  mode_read = refl

  written_values : require_values written (expected_values (text source_sha)) ≡ ok tt
  unfolding evidence_document get require_values py_eq
  written_values = simp eq_refl

  written_keys : eq_texts (keys written) evidence_keys ≡ true
  unfolding evidence_document
  written_keys = refl

  fields_iff : (validate_fields written ≡ ok tt) ↔ (
      (is_source_sha source_sha ≡ true)
      × (0 < run_id)
      × (run_attempt ≡ 1)
      × (is_digest image_digest ≡ true)
      × ((publish_mode ≡ "published") ⊎ (publish_mode ≡ "reused")))
  unfolding validate_fields valid_source_sha valid_digest
  fields_iff =
      rw (source_read, written_values, run_id_read, attempt_read, digest_read, mode_read)
        (ground (
          arith,
          eq_iff publish_mode "published",
          eq_iff publish_mode "reused",
          py_eq-integer_iff (integer (pos run_attempt)) (pos 1),
          eq_iff "published" publish_mode,
          eq_iff "reused" publish_mode,
        ))

  -- A document that the script itself has put together passes its validation exactly when the source
  -- is a nonzero commit name, the run id is positive, the attempt is the first, the digest is a nonzero
  -- SHA-256 digest and the mode is one of the two.
  pub evidence_document-accepted_iff : (validate_evidence (object written) ≡ ok written) ↔ (
      (is_source_sha source_sha ≡ true)
      × (0 < run_id)
      × (run_attempt ≡ 1)
      × (is_digest image_digest ≡ true)
      × ((publish_mode ≡ "published") ⊎ (publish_mode ≡ "reused")))
  unfolding validate_evidence
  evidence_document-accepted_iff = ground (arith, written_keys, fields_iff)
