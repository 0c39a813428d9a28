-- ===== src/Gate/Result/Accepts.antt =====
-- What `validate_result_evidence` accepts, and what `build_result_evidence` makes of its inputs.
use devpath_shared.Base.{◌<◌, ◌≡◌, refl, ◌∙◌, ap, ◌↔◌, false, String, some}
use devpath_shared.Base.Result.{ok, >>=-eq-ok, ensure-eq-ok, ok-injective}
use devpath_shared.Json.{Json, object, Fields}
use devpath_shared.Runtime.{Bytes, Runtime}
use devpath_shared.Gate.Format.{}
use devpath_shared.Gate.Values.{}
use devpath_shared.Gate.Result.{}
use devpath_shared.Gate.Result.Check.{check_result}
use devpath_shared.Base.{length}
use devpath_shared.Image.Format.{has_bom}
use devpath_shared.Image.Evidence.Folder.{eq_raw}
use devpath_shared.Gate.Text.{eq_raw_iff}
use devpath_shared.Gate.Format.{json_object}
use devpath_shared.Gate.Result.{max_evidence_bytes}
use devpath_shared.Gate.Result.Check.{validate_result_evidence}
use devpath_shared.Gate.Result.Exact.{Describes, check_result_sound}
use devpath_shared.Gate.Result.Complete.{check_result_complete}

-- What Python documents of its codecs, at one document: the bytes that `json.dumps` writes are not
-- empty, they have no byte order mark, and decoding and reading them gives the document back.
pub record Reads (R : Runtime) (v : Json) : Type 0 where
  pub written : String
  pub decoded : R.decode (R.dumps v) ≡ some written
  pub unmarked : has_bom written ≡ false
  pub loaded : R.loads written ≡ some v
  pub nonempty : 0 < length (R.dumps v)

object-injective : {a b : Fields} → object a ≡ object b → a ≡ b
object-injective e = cc

module _ (R : Runtime) where
  -- A file is accepted as evidence exactly when it is a JSON object in the bound that lists no key
  -- twice, this object is the document of a well-formed release, every key in its order, and the file
  -- is the very text that Python writes for it; then this object is returned.
  pub validate_result_evidence_iff :
      (raw : Bytes) (d : Fields)
      → (validate_result_evidence R raw ≡ ok d) ↔ (
          (json_object R raw "migration result evidence" max_evidence_bytes ≡ ok d)
          × Describes d
          × (raw ≡ R.dumps (object d)))
  unfolding validate_result_evidence
  validate_result_evidence_iff raw d = (sound, complete)
    where
      sound :
          validate_result_evidence R raw ≡ ok d
          → (json_object R raw "migration result evidence" max_evidence_bytes ≡ ok d)
            × Describes d
            × (raw ≡ R.dumps (object d))
      sound h =
          let (parsed, is_parsed, h₁) = >>=-eq-ok (json_object R raw _ max_evidence_bytes) _ h in
          let (document, checked, h₂) = >>=-eq-ok (check_result R (object parsed)) _ h₁ in
          let (canonical, h₃) = ensure-eq-ok (eq_raw raw (R.dumps (object document))) _ _ h₂ in
          let (same, described) = check_result_sound R (object parsed) checked in
          rw (← (ok-injective h₃))
            (is_parsed ∙ ap ok (object-injective same), described, (eq_raw_iff _ _).0 canonical)

      complete :
          (json_object R raw "migration result evidence" max_evidence_bytes ≡ ok d)
            × Describes d
            × (raw ≡ R.dumps (object d))
          → validate_result_evidence R raw ≡ ok d
      complete (parsed, (p, same, good), canonical) =
          let accepted : check_result R (object d) ≡ ok d =
            rw same (check_result_complete R p good) in
          rw (parsed, accepted, (eq_raw_iff raw (R.dumps (object d))).1 canonical) refl
