-- ===== src/Gate/Result/Built.antt =====
-- What `build_result_evidence` has read when it returns, and that it accepts its own document.
use devpath_shared.Gate.Result.Inputs.{identity_lem, app_lem, change_lem, push_of, push_lem}
use devpath_shared.Base.{◌≡◌, refl, sym, ap, true, ◌<>◌, arith, some}
use devpath_shared.Base.Result.{ok, >>=-eq-ok, ok-injective}
use devpath_shared.Context.Source.{sha64}
use devpath_shared.Json.{object}
use devpath_shared.Runtime.{Bytes, Runtime}
use devpath_shared.Gate.Format.{migration_paths, is_nonzero}
use devpath_shared.Gate.Facts.{migration_subject}
use devpath_shared.Gate.Approval.{Approval}
use devpath_shared.Gate.Result.{Released, result_document}
use devpath_shared.Gate.Result.WellFormed.{IsApproval, IsReleased}
use devpath_shared.Base.{◌≤◌, length}
use devpath_shared.Json.Hooks.{hooked_iff, IsClean, FieldsClean}
use devpath_shared.Context.{Env}
use devpath_shared.Gate.Format.{json_value, json_object}
use devpath_shared.Gate.Result.{max_evidence_bytes}
use devpath_shared.Gate.Result.Check.{validate_result_evidence}
use devpath_shared.Gate.Result.Accepts.{Reads, validate_result_evidence_iff}
use devpath_shared.Gate.Approval.{validate_protected_approval}
use devpath_shared.Gate.Approval.Accepted.{Approved, validate_protected_approval-Approved}
use devpath_shared.Gate.Format.{bot_name}
use devpath_shared.Gate.Result.Build.{
  Inputs, read_identity, check_push, read_app, check_change, check_workflow, read_released,
  build_result_evidence,
}

module _ (R : Runtime) where
  approved_lem :
      (env : Env) (environment_raw approvals_raw jobs_raw : Bytes) {a : Approval}
      → Approved R env environment_raw approvals_raw jobs_raw a
      → IsApproval a
  approved_lem env environment_raw approvals_raw jobs_raw
        (
          run,
          user,
          _,
          (_, _, _, _, _, above, _, _, _, _),
          (_, _, _, _, _, _, _, _, _, _, named),
          _,
          _,
          (_, _, _, _, _, _, _, shaped, real),
          same_login,
          same_id,
          is_user,
          is_approved,
        ) =
      let (_, good, _, positive) = named in
      (above, rw same_login good, rw same_id positive, is_user, is_approved, shaped, real)

  -- The document says what was passed and what the run is.
  abbrev pub Reports : Env → Inputs → Released → Type 0
  Reports env inputs p =
      (p.release_id ≡ inputs.release_id)
      × (p.candidate_spec_sha256 ≡ inputs.candidate_spec_sha256)
      × (p.release_manifest_sha256 ≡ inputs.release_manifest_sha256)
      × (env "GITHUB_SHA" ≡ some p.source_sha)
      × (p.workflow_sha256 ≡ R.sha256 inputs.workflow_raw)
      × Approved R env inputs.environment_raw inputs.approvals_raw inputs.jobs_raw p.approval
      × (p.push
          ≡ push_of inputs (p.push.write_app_id, p.push.write_app_installation_id)
              inputs.rendered_job_name)
      × (p.image_digest ≡ inputs.image_digest)
      × (inputs.changed_paths ≡ migration_paths)
      × (inputs.commit_subject ≡ migration_subject inputs.release_id inputs.release_manifest_sha256)
      × (inputs.commit_author_name ≡ bot_name)
      × (inputs.commit_committer_name ≡ bot_name)

  released_lem :
      (env : Env) (inputs : Inputs) {p : Released}
      → read_released R env inputs ≡ ok p
      → is_nonzero sha64 (R.sha256 inputs.workflow_raw) ≡ true
      → IsReleased p × Reports env inputs p
  unfolding read_released
  released_lem env inputs h hashed =
      let (run, is_run, h₁) = >>=-eq-ok (read_identity env inputs) _ h in
      let (_, _, h₂) = >>=-eq-ok (check_workflow R inputs.workflow_raw) _ h₁ in
      let (approval, is_approval, h₃) =
        >>=-eq-ok
          (validate_protected_approval R env inputs.environment_raw inputs.approvals_raw
            inputs.jobs_raw)
          _ h₂ in
      let (_, pushed, h₄) = >>=-eq-ok (check_push inputs) _ h₃ in
      let (app, is_app, h₅) = >>=-eq-ok (read_app inputs) _ h₄ in
      let (name, is_change, h₆) = >>=-eq-ok (check_change inputs) _ h₅ in
      let (shaped, candidate, release, source, good_source, above) =
        identity_lem env inputs is_run in
      let (digest, derived, paths, rendered, subject, author, committer) =
        change_lem inputs is_change in
      let approved =
        validate_protected_approval-Approved R env inputs.environment_raw inputs.approvals_raw
          inputs.jobs_raw is_approval in
      rw (← (ok-injective h₆)) (
        (
          shaped,
          candidate,
          release,
          good_source,
          hashed,
          above,
          approved_lem env inputs.environment_raw inputs.approvals_raw inputs.jobs_raw approved,
          push_lem inputs app name pushed (app_lem inputs is_app),
          digest,
          derived,
        ),
        (
          refl,
          refl,
          refl,
          source,
          refl,
          approved,
          ap (push_of inputs app) (sym rendered),
          refl,
          paths,
          subject,
          author,
          committer,
        ),
      )

  written-IsClean : (p : Released) → IsClean (object (result_document p))
  unfolding result_document IsClean FieldsClean
  written-IsClean p = ground arith

  read_written :
      (p : Released)
      → Reads R (object (result_document p))
      → length (R.dumps (object (result_document p))) ≤ max_evidence_bytes
      → json_object R
          (R.dumps (object (result_document p)))
          "migration result evidence"
          max_evidence_bytes
        ≡ ok (result_document p)
  unfolding json_object json_value
  read_written p reads short = ground (
    arith,
    reads.nonempty,
    reads.decoded,
    reads.unmarked,
    reads.loaded,
    short,
    (hooked_iff (λ key. "JSON contains duplicate key " <> key)
          (λ value. "JSON constant " <> value <> " is not permitted") (object (result_document p))
          (object (result_document p))).1
        (refl, written-IsClean p),
  )

  -- When the evidence of a release is built, and the hash of the workflow file has the form of a
  -- SHA-256 and is not all zeroes, it is the text that Python writes for one document, and this
  -- document is that of a well-formed release and reports the release, the hashes, the commits and the
  -- image that were passed, the commit of the run, the hash of the workflow file and the approval that
  -- was accepted; the subject, the paths and the actors that were passed are the exact ones.
  pub build_result_evidence-Reports :
      (env : Env) (inputs : Inputs) {raw : Bytes}
      → is_nonzero sha64 (R.sha256 inputs.workflow_raw) ≡ true
      → build_result_evidence R env inputs ≡ ok raw
      → (p : Released) × (raw ≡ R.dumps (object (result_document p)))
        × IsReleased p
        × Reports env inputs p
  unfolding build_result_evidence
  build_result_evidence-Reports env inputs hashed h =
      let (p, is_read, h₁) = >>=-eq-ok (read_released R env inputs) _ h in
      let (_, _, h₂) =
        >>=-eq-ok (validate_result_evidence R (R.dumps (object (result_document p)))) _ h₁ in
      let (good, reports) = released_lem env inputs is_read hashed in
      (p, sym (ok-injective h₂), good, reports)

  -- When the checks of the inputs have passed, building the evidence never refuses its own document,
  -- and what it returns is accepted as the evidence of that document: if the hash of the workflow file
  -- has the form of a SHA-256 and is not all zeroes, if decoding and loading what Python writes for the
  -- document gives it back, and if that text is within the bound.
  pub validate_result_evidence-build_result_evidence :
      (env : Env) (inputs : Inputs) (p : Released)
      → read_released R env inputs ≡ ok p
      → is_nonzero sha64 (R.sha256 inputs.workflow_raw) ≡ true
      → Reads R (object (result_document p))
      → length (R.dumps (object (result_document p))) ≤ max_evidence_bytes
      → (raw : Bytes) × (build_result_evidence R env inputs ≡ ok raw)
        × (validate_result_evidence R raw ≡ ok (result_document p))
  unfolding build_result_evidence
  validate_result_evidence-build_result_evidence env inputs p is_read hashed reads short =
      let (good, _) = released_lem env inputs is_read hashed in
      let accepted =
        (validate_result_evidence_iff R (R.dumps (object (result_document p)))
            (result_document p)).1
          (read_written p reads short, (p, refl, good), refl) in
      (R.dumps (object (result_document p)), rw (is_read, accepted) refl, accepted)
