-- ===== src/Image/Evidence/Folder/RoundTrip.antt =====
-- What `write_evidence` leaves behind is what `validate_evidence_directory` reads.
use devpath_shared.Base.{
  ℕ, ◌≡◌, ◌<◌, ◌≤◌, refl, sym, ◌∙◌, ap, true, false, some, [], ◌∷◌, String, length, arith,
}
use devpath_shared.Base.Result.{Result, ok, err, >>=-eq-ok, ensure-eq-ok, ok-injective}
use devpath_shared.Json.{Json, Fields, object, keys}
use devpath_shared.Json.Hooks.{hooked_iff, IsClean, FieldsClean}
use devpath_shared.Runtime.{Bytes, Runtime}
use devpath_shared.Image.Format.{has_bom, parse_json}
use devpath_shared.Image.Evidence.{
  evidence_document, validate_evidence, validate_fields, eq_texts, evidence_keys,
}
use devpath_shared.Image.Evidence.Folder.{
  plain, Root, missing, parentless, linked, not_directory, directory, eq_raw, max_evidence_bytes,
  make_directory, write_evidence, validate_evidence_file, validate_evidence_directory,
}

-- What Python documents of its codecs, at one document: the text that `json.dumps` writes is
-- nonempty and has no byte order mark, and reading it gives the document back.
pub record Inverts (R : Runtime) (v : Json) : Type 0 where
  pub written : String
  pub decoded : R.decode (R.dumps_unicode v) ≡ some written
  pub unmarked : has_bom written ≡ false
  pub loaded : R.loads written ≡ some v
  pub nonempty : 0 < length (R.dumps_unicode v)

eq_raw_refl : (s : Bytes) → eq_raw s s ≡ true
eq_raw_refl [] = refl
eq_raw_refl (c ∷ s) = ground (arith, eq_raw_refl s)

module _ (R : Runtime) (source_sha : String) (run_id run_attempt : ℕ)
    (image_digest publish_mode : String) where
  abbrev written : Fields
  written = evidence_document source_sha run_id run_attempt image_digest publish_mode

  written-IsClean : IsClean (object written)
  unfolding evidence_document IsClean FieldsClean
  written-IsClean = ground arith

  parse_written :
      (label : String)
      → Inverts R (object written)
      → parse_json R (R.dumps_unicode (object written)) label ≡ ok (object written)
  unfolding parse_json
  parse_written label h =
      rw (h.decoded, h.unmarked, h.loaded)
        ((hooked_iff _ _ (object written) (object written)).1 (refl, written-IsClean))

  read_written :
      validate_evidence (object written) ≡ ok written
      → length (R.dumps_unicode (object written)) ≤ max_evidence_bytes
      → Inverts R (object written)
      → validate_evidence_file R (R.dumps_unicode (object written)) ≡ ok written
  unfolding validate_evidence_file
  read_written valid short h = ground (
    arith,
    valid,
    short,
    h.nonempty,
    parse_written "migration image evidence" h,
    eq_raw_refl (R.dumps_unicode (object written)),
  )

  validate_evidence-same : {e : Fields} → validate_evidence (object written) ≡ ok e → e ≡ written
  unfolding validate_evidence
  validate_evidence-same h =
      let (_, h₁) = ensure-eq-ok (eq_texts (keys written) evidence_keys) _ _ h in
      let (_, _, h₂) = >>=-eq-ok (validate_fields written) _ h₁ in sym (ok-injective h₂)

  write_checked :
      (checked : Result Fields) (root : Root) {name : String} {root' : Root}
      → validate_evidence (object written) ≡ checked
      → write_evidence R source_sha run_id run_attempt image_digest publish_mode root
        ≡ (ok name, root')
      → (d : Fields) × (checked ≡ ok d)
        × (length (R.dumps_unicode (object d)) ≤ max_evidence_bytes)
        × (root ≡ missing)
        × (root' ≡ directory (("evidence.json", plain (R.dumps_unicode (object d))) ∷ []))
  unfolding write_evidence make_directory
  write_checked (err e) root v h = absurd (ground (arith, v))
  write_checked (ok d) missing v h = (d, refl, ground arith, refl, ground arith)
  write_checked (ok d) parentless v h = absurd (ground (arith, v))
  write_checked (ok d) linked v h = absurd (ground (arith, v))
  write_checked (ok d) not_directory v h = absurd (ground (arith, v))
  write_checked (ok d) (directory entries) v h = absurd (ground (arith, v))

  -- A write that succeeds has made the directory, and put the document that it has validated there.
  pub write_evidence-eq_ok :
      (root : Root) {name : String} {root' : Root}
      → write_evidence R source_sha run_id run_attempt image_digest publish_mode root
        ≡ (ok name, root')
      → (validate_evidence (object written) ≡ ok written)
        × (length (R.dumps_unicode (object written)) ≤ max_evidence_bytes)
        × (root ≡ missing)
        × (root' ≡ directory (("evidence.json", plain (R.dumps_unicode (object written))) ∷ []))
  write_evidence-eq_ok root h =
      let (d, valid, short, was, now) =
        write_checked (validate_evidence (object written)) root refl h in
      let same = validate_evidence-same valid in
      (valid ∙ ap ok same, rw same at short, was, rw same at now)

  -- When the publisher has written the evidence into a directory that it had to make, then validating
  -- that directory returns the written document, if decoding and loading what Python dumped for it
  -- gives it back.
  pub validate_evidence_directory-write_evidence :
      {name : String} {root : Root}
      → Inverts R (object written)
      → write_evidence R source_sha run_id run_attempt image_digest publish_mode missing
        ≡ (ok name, root)
      → validate_evidence_directory R root ≡ ok written
  unfolding validate_evidence_directory
  validate_evidence_directory-write_evidence i h =
      let (valid, short, _, now) = write_evidence-eq_ok missing h in
      rw now (read_written valid short i)
