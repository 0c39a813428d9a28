-- ===== src/Gate/Result/Complete.antt =====
-- The document of a well-formed release is accepted.
use devpath_shared.Base.{
  ℕ, ◌<◌, ◌≡◌, ◌≢◌, refl, ◌⊎◌, inl, inr, true, not, List, String, ◌==ˢ◌, eq_iff, eq_refl,
  if◌then◌else◌, arith,
}
use devpath_shared.Base.Integer.{pos}
use devpath_shared.Base.Text.{codes}
use devpath_shared.Base.Pattern.{Pattern, fullmatch}
use devpath_shared.Base.Result.{ok}
use devpath_shared.Context.Source.{sha40, sha64, digest_pattern}
use devpath_shared.Json.{integer, text, object, Fields, keys, contains, lookup, get, py_eq}
use devpath_shared.Runtime.{Runtime}
use devpath_shared.Gate.Format.{migration_paths, is_nonzero, nonzero, nonzero_iff}
use devpath_shared.Gate.Values.{
  positive_integer, is_login, login, utc_z_pattern, is_timestamp, utc_z_seconds,
}
use devpath_shared.Gate.JobName.{derived_migration_job_name}
use devpath_shared.Gate.Facts.{migration_subject, publish_modes, eq_lists_iff}
use devpath_shared.Gate.Approval.{Approval}
use devpath_shared.Gate.Result.{
  Push, Released, dict, shared_pairs, approval_pairs, gitops_pairs, image_pairs, result_document,
  result_keys, shared_keys, approval_keys, gitops_keys, image_keys, ordered_keys,
}
use devpath_shared.Gate.Result.Check.{
  require_equal, expected_gitops, check_release, check_shared, check_approval, check_commits,
  check_gitops, check_image, check_result,
}
use devpath_shared.Gate.Result.WellFormed.{IsApproval, IsPush, IsReleased}
use devpath_shared.Gate.Result.Dict.{require_equal_iff}

nonzero_lem :
    (pattern : Pattern) (s label : String)
    → is_nonzero pattern s ≡ true
    → nonzero pattern (text s) label ≡ ok s
nonzero_lem pattern s label h = (nonzero_iff pattern s label s).1 (refl, h)

positive_lem : (n : ℕ) (label : String) → 0 < n → positive_integer (integer (pos n)) label ≡ ok n
unfolding positive_integer
positive_lem n label h = ground arith

login_lem : (s label : String) → is_login s ≡ true → login (text s) label ≡ ok s
unfolding login
login_lem s label h = ground arith

time_lem :
    (s label : String)
    → fullmatch utc_z_pattern s ≡ true
    → is_timestamp (codes s) ≡ true
    → utc_z_seconds (text s) label ≡ ok s
unfolding utc_z_seconds
time_lem s label h g = ground arith

shared_complete :
    (source workflow : String) (run : ℕ)
    → is_nonzero sha40 source ≡ true
    → is_nonzero sha64 workflow ≡ true
    → 0 < run
    → check_shared (dict (shared_pairs source workflow run)) ≡ ok tt
unfolding check_shared require_equal get lookup py_eq
shared_complete source workflow run h g above =
    rw (nonzero_lem sha40 source _ h, nonzero_lem sha64 workflow _ g, positive_lem run _ above) refl

approval_complete : (a : Approval) → IsApproval a → check_approval (dict (approval_pairs a)) ≡ ok tt
unfolding check_approval get lookup py_eq
approval_complete a (environment, named, number, is_user, is_approved, shaped, real) =
    rw
      (
        positive_lem a.environment_id _ environment,
        login_lem a.reviewer_login _ named,
        positive_lem a.reviewer_id _ number,
        is_user,
        is_approved,
        time_lem a.approval_effective_at _ shaped real,
      )
      refl

release_complete :
    (p : Released)
    → IsReleased p
    → check_release (result_document p) ≡ ok (p.release_id, p.release_manifest_sha256)
unfolding check_release result_document get lookup py_eq
release_complete p (shaped, candidate, release_sha, _, _, _, _, _, _, _) =
    rw
      (
        shaped,
        nonzero_lem sha64 p.candidate_spec_sha256 _ candidate,
        nonzero_lem sha64 p.release_manifest_sha256 _ release_sha,
      )
      refl

mode_complete :
    (mode pre base commit : String)
    → ((mode ≡ "published") × (pre ≡ base)) ⊎ ((mode ≡ "reused") × (pre ≡ commit))
    → (contains publish_modes mode ≡ true)
      × ((pre ==ˢ (if mode ==ˢ "published" then base else commit)) ≡ true)
mode_complete mode pre base commit (inl (e, f)) = rw (e, f) (refl, eq_refl base)
mode_complete mode pre base commit (inr (e, f)) = rw (e, f) (refl, eq_refl commit)

apart_complete : (s t : String) → s ≢ t → not (s ==ˢ t) ≡ true
apart_complete s t h = ground (arith, eq_iff s t)

commits_complete :
    (release_id release_sha : String) (p : Push)
    → IsPush p
    → check_commits (dict (gitops_pairs release_id release_sha p)) ≡ ok tt
unfolding check_commits get lookup
commits_complete release_id release_sha p (base, sealed, pre, commit, tree, apart, mode, _, _) =
    rw
      (
        nonzero_lem sha40 p.base_sha _ base,
        nonzero_lem sha40 p.sealed_release_sha _ sealed,
        nonzero_lem sha40 p.pre_push_main_sha _ pre,
        nonzero_lem sha40 p.migration_commit_sha _ commit,
        nonzero_lem sha40 p.migration_tree_sha _ tree,
        apart_complete p.migration_commit_sha p.base_sha apart,
        (mode_complete p.publish_mode p.pre_push_main_sha p.base_sha p.migration_commit_sha mode).0,
        (mode_complete p.publish_mode p.pre_push_main_sha p.base_sha p.migration_commit_sha mode).1,
      )
      refl

gitops_complete :
    (release_id release_sha : String) (p : Push)
    → IsPush p
    → check_gitops (dict (gitops_pairs release_id release_sha p)) release_id release_sha ≡ ok tt
unfolding check_gitops get lookup py_eq
gitops_complete release_id release_sha p h =
    rw
      (
        fixed,
        commits_complete release_id release_sha p h,
        positive_lem p.write_app_id _ (positive h).0,
        positive_lem p.write_app_installation_id _ (positive h).1,
        eq_refl (migration_subject release_id release_sha),
      )
      refl
  where
    fixed :
        require_equal
          (dict (gitops_pairs release_id release_sha p))
          "gitops evidence"
          expected_gitops
        ≡ ok tt
    fixed =
        (require_equal_iff _ "gitops evidence" expected_gitops
            (tt, (tt, (tt, ((migration_paths, refl), (tt, (tt, tt))))))).1
          (refl, (refl, (refl, (refl, (refl, (refl, tt))))))

    positive : IsPush p → (0 < p.write_app_id) × (0 < p.write_app_installation_id)
    positive (_, _, _, _, _, _, _, app, installation) = (app, installation)

image_complete :
    (release_id release_sha digest : String) (p : Push)
    → is_nonzero digest_pattern digest ≡ true
    → derived_migration_job_name digest release_sha ≡ ok p.rendered_job_name
    → check_image
        (dict (image_pairs digest))
        (dict (gitops_pairs release_id release_sha p))
        release_sha
      ≡ ok tt
unfolding check_image get lookup py_eq
image_complete release_id release_sha digest p h derived =
    rw (nonzero_lem digest_pattern digest _ h, derived, eq_refl p.rendered_job_name) refl

module _ (R : Runtime) where
  ordered_complete :
      (d : Fields) (expected : List String) (label : String)
      → keys d ≡ expected
      → ordered_keys R (object d) expected label ≡ ok d
  unfolding ordered_keys
  ordered_complete d expected label h = rw ((eq_lists_iff (keys d) expected).1 h) refl

  pub check_result_complete :
      (p : Released)
      → IsReleased p
      → check_result R (object (result_document p)) ≡ ok (result_document p)
  unfolding check_result
  check_result_complete p h =
      rw
        (
          ordered_complete (result_document p) result_keys "migration result evidence"
              (unfold result_document in refl),
          release_complete p h,
          shared_at,
          approval_at,
          gitops_at,
          image_at,
          ordered_complete (dict (shared_pairs p.source_sha p.workflow_sha256 p.run_id)) shared_keys
              "shared evidence" refl,
          ordered_complete (dict (approval_pairs p.approval)) approval_keys "approval evidence"
              refl,
          ordered_complete (dict (gitops_pairs p.release_id p.release_manifest_sha256 p.push))
              gitops_keys "gitops evidence" refl,
          ordered_complete (dict (image_pairs p.image_digest)) image_keys "migration image evidence"
              refl,
          (parts h).0,
          (parts h).1,
          (parts h).2,
          (parts h).3,
        )
        refl
    where
      shared_at :
          get (result_document p) "shared"
          ≡ object (dict (shared_pairs p.source_sha p.workflow_sha256 p.run_id))
      shared_at = unfold result_document get lookup in refl

      approval_at : get (result_document p) "approval" ≡ object (dict (approval_pairs p.approval))
      approval_at = unfold result_document get lookup in refl

      gitops_at :
          get (result_document p) "gitops"
          ≡ object (dict (gitops_pairs p.release_id p.release_manifest_sha256 p.push))
      gitops_at = unfold result_document get lookup in refl

      image_at :
          get (result_document p) "migration_image" ≡ object (dict (image_pairs p.image_digest))
      image_at = unfold result_document get lookup in refl

      parts :
          IsReleased p
          → (check_shared (dict (shared_pairs p.source_sha p.workflow_sha256 p.run_id)) ≡ ok tt)
            × (check_approval (dict (approval_pairs p.approval)) ≡ ok tt)
            × (check_gitops
                  (dict (gitops_pairs p.release_id p.release_manifest_sha256 p.push))
                  p.release_id
                  p.release_manifest_sha256
                ≡ ok tt)
            × (check_image
                  (dict (image_pairs p.image_digest))
                  (dict (gitops_pairs p.release_id p.release_manifest_sha256 p.push))
                  p.release_manifest_sha256
                ≡ ok tt)
      parts (_, _, _, source, workflow, run, approved, pushed, digest, derived) = (
        shared_complete p.source_sha p.workflow_sha256 p.run_id source workflow run,
        approval_complete p.approval approved,
        gitops_complete p.release_id p.release_manifest_sha256 p.push pushed,
        image_complete p.release_id p.release_manifest_sha256 p.image_digest p.push digest derived,
      )
