-- ===== src/Gate/Result/Exact.antt =====
-- The documents that `validate_result_evidence` accepts are those of a well-formed release.
use devpath_shared.Base.{ℕ, ◌<◌, ◌≡◌, refl, sym, ◌∙◌, ap, true, String}
use devpath_shared.Base.Integer.{pos}
use devpath_shared.Base.Pattern.{fullmatch}
use devpath_shared.Base.Result.{ok, >>=-eq-ok, ensure-eq-ok, or_refuse-eq-ok, ok-injective}
use devpath_shared.Context.Source.{sha40, sha64, digest_pattern}
use devpath_shared.Json.{
  Json, integer, text, object, Fields, keys, get, as_str, as_str-eq, py_eq, py_eq-text_iff,
}
use devpath_shared.Runtime.{Runtime}
use devpath_shared.Gate.Format.{release_pattern, is_nonzero, nonzero, nonzero-eq_ok}
use devpath_shared.Gate.Values.{is_int, is_int_iff}
use devpath_shared.Gate.JobName.{derived_migration_job_name}
use devpath_shared.Gate.Approval.{Approval}
use devpath_shared.Gate.Result.{
  result_document_type, result_schema_version, Push, Released, dict, shared_pairs, approval_pairs,
  gitops_pairs, image_pairs, result_pairs, result_document, result_keys, shared_keys, approval_keys,
  gitops_keys, image_keys, ordered_keys,
}
use devpath_shared.Gate.Result.Check.{
  check_release, check_shared, check_approval, check_gitops, check_image, check_result,
}
use devpath_shared.Gate.Result.WellFormed.{IsApproval, IsPush, IsReleased}
use devpath_shared.Gate.Result.Dict.{dict_lem, ordered_keys-eq_ok}
use devpath_shared.Gate.Result.Parts.{shared_lem, approval_lem, gitops_lem, image_lem}

-- The document of a well-formed release.
abbrev pub Describes : Fields → Type 0
Describes d = (p : Released) × (d ≡ result_document p) × IsReleased p

-- The release and the hashes of the document itself.
abbrev Heads : Fields → String → String → String → Type 0
Heads d release_id candidate_sha release_sha =
    (get d "schema_version" ≡ integer (pos result_schema_version))
    × (get d "document_type" ≡ text result_document_type)
    × (get d "release_id" ≡ text release_id)
    × (get d "candidate_spec_sha256" ≡ text candidate_sha)
    × (get d "release_manifest_sha256" ≡ text release_sha)
    × (fullmatch release_pattern release_id ≡ true)
    × (is_nonzero sha64 candidate_sha ≡ true)
    × (is_nonzero sha64 release_sha ≡ true)

release_lem :
    (d : Fields) {r : String × String}
    → check_release d ≡ ok r
    → (candidate_sha : String) × Heads d r.0 candidate_sha r.1
unfolding check_release
release_lem d h =
    let (version, h₁) =
      ensure-eq-ok (is_int (get d "schema_version") result_schema_version) _ _ h in
    let (typed, h₂) =
      ensure-eq-ok (py_eq (get d "document_type") (text result_document_type)) _ _ h₁ in
    let (release_id, is_text, h₃) = or_refuse-eq-ok (as_str (get d "release_id")) _ _ h₂ in
    let (shaped, h₄) = ensure-eq-ok (fullmatch release_pattern release_id) _ _ h₃ in
    let (candidate_sha, is_candidate, h₅) =
      >>=-eq-ok (nonzero sha64 (get d "candidate_spec_sha256") _) _ h₄ in
    let (release_sha, is_sha, h₆) =
      >>=-eq-ok (nonzero sha64 (get d "release_manifest_sha256") _) _ h₅ in
    let (same_candidate, good_candidate) = nonzero-eq_ok sha64 _ _ is_candidate in
    let (same_sha, good_sha) = nonzero-eq_ok sha64 _ _ is_sha in
    rw (← (ok-injective h₆)) (
      candidate_sha,
      (
        (is_int_iff _ result_schema_version).0 version,
        (py_eq-text_iff _ result_document_type).0 typed,
        as_str-eq _ is_text,
        same_candidate,
        same_sha,
        shaped,
        good_candidate,
        good_sha,
      ),
    )

module _ (R : Runtime) where
  pub check_result_sound :
      (v : Json) {d : Fields} → check_result R v ≡ ok d → (v ≡ object d) × Describes d
  unfolding check_result
  check_result_sound v h =
      let (document, is_document, h₁) = >>=-eq-ok (ordered_keys R v result_keys _) _ h in
      let (release, is_release, h₂) = >>=-eq-ok (check_release document) _ h₁ in
      let (shared, is_shared, h₃) =
        >>=-eq-ok (ordered_keys R (get document "shared") shared_keys _) _ h₂ in
      let (_, checked_shared, h₄) = >>=-eq-ok (check_shared shared) _ h₃ in
      let (approval, is_approval, h₅) =
        >>=-eq-ok (ordered_keys R (get document "approval") approval_keys _) _ h₄ in
      let (_, checked_approval, h₆) = >>=-eq-ok (check_approval approval) _ h₅ in
      let (gitops, is_gitops, h₇) =
        >>=-eq-ok (ordered_keys R (get document "gitops") gitops_keys _) _ h₆ in
      let (_, checked_gitops, h₈) = >>=-eq-ok (check_gitops gitops release.0 release.1) _ h₇ in
      let (image, is_image, h₉) =
        >>=-eq-ok (ordered_keys R (get document "migration_image") image_keys _) _ h₈ in
      let (_, checked_image, h₁₁) = >>=-eq-ok (check_image image gitops release.1) _ h₉ in
      let (same, ordered) = ordered_keys-eq_ok R v result_keys _ is_document in
      let (same_shared, shared_ordered) = ordered_keys-eq_ok R _ shared_keys _ is_shared in
      let (same_approval, approval_ordered) = ordered_keys-eq_ok R _ approval_keys _ is_approval in
      let (same_gitops, gitops_ordered) = ordered_keys-eq_ok R _ gitops_keys _ is_gitops in
      let (same_image, image_ordered) = ordered_keys-eq_ok R _ image_keys _ is_image in
      let (candidate, heads) = release_lem document is_release in
      let (digest, name, is_dict_image, good_digest, derived, named) =
        image_lem image gitops release.1 image_ordered checked_image in
      let (source, workflow, run, is_dict_shared, sourced, hashed, above) =
        shared_lem shared shared_ordered checked_shared in
      let (a, is_dict_approval, approved) =
        approval_lem approval approval_ordered checked_approval in
      let (push, is_dict_gitops, pushed, same_name) =
        gitops_lem gitops release.0 release.1 name gitops_ordered checked_gitops named in
      rw (← (ok-injective h₁₁)) (
        same,
        assemble document release.0 candidate release.1 source workflow run a push digest ordered
            heads (same_shared ∙ ap object is_dict_shared)
            (same_approval ∙ ap object is_dict_approval) (same_gitops ∙ ap object is_dict_gitops)
            (same_image ∙ ap object is_dict_image) sourced hashed above approved pushed good_digest
            (derived ∙ ap ok (sym same_name)),
      )
    where
      assemble :
          (d : Fields) (release_id candidate release_sha source workflow : String) (run : ℕ)
          (a : Approval) (push : Push) (digest : String)
          → keys d ≡ result_keys
          → Heads d release_id candidate release_sha
          → get d "shared" ≡ object (dict (shared_pairs source workflow run))
          → get d "approval" ≡ object (dict (approval_pairs a))
          → get d "gitops" ≡ object (dict (gitops_pairs release_id release_sha push))
          → get d "migration_image" ≡ object (dict (image_pairs digest))
          → is_nonzero sha40 source ≡ true
          → is_nonzero sha64 workflow ≡ true
          → 0 < run
          → IsApproval a
          → IsPush push
          → is_nonzero digest_pattern digest ≡ true
          → derived_migration_job_name digest release_sha ≡ ok push.rendered_job_name
          → Describes d
      assemble d release_id candidate release_sha source workflow run a push digest ordered
            (version, typed, released, is_candidate, is_sha, shaped, good_candidate, good_sha)
            is_shared is_approval is_gitops is_image sourced hashed above approved pushed
            good_digest derived =
          let p : Released = record {
            release_id = release_id;
            candidate_spec_sha256 = candidate;
            release_manifest_sha256 = release_sha;
            source_sha = source;
            workflow_sha256 = workflow;
            run_id = run;
            approval = a;
            push = push;
            image_digest = digest;
          } in
          (
            p,
            unfold result_document in
                dict_lem d (result_pairs p) ordered refl (
                  version,
                  (
                    typed,
                    (
                      released,
                      (
                        is_candidate,
                        (is_sha, (is_shared, (is_approval, (is_gitops, (is_image, tt))))),
                      ),
                    ),
                  ),
                ),
            (
              shaped, good_candidate, good_sha, sourced, hashed, above, approved, pushed,
              good_digest, derived,
            ),
          )
