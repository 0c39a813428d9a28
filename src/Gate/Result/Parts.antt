-- ===== src/Gate/Result/Parts.antt =====
-- The parts of an accepted document: each is the dict of what it was read as.
use devpath_shared.Gate.Result.Commits.{Commits, commits_lem}
use devpath_shared.Base.{ℕ, ◌<◌, ◌≡◌, refl, true, ◌&&◌, String, All, and_iff, arith}
use devpath_shared.Base.Integer.{pos}
use devpath_shared.Base.Result.{ok, >>=-eq-ok, ensure-eq-ok, ensure_iff}
use devpath_shared.Context.Source.{sha40, sha64, digest_pattern}
use devpath_shared.Json.{Json, integer, text, Fields, keys, get, py_eq, py_eq-text_iff}
use devpath_shared.Gate.Format.{
  image_repository, migration_paths, is_nonzero, nonzero, nonzero-eq_ok,
}
use devpath_shared.Gate.Values.{
  positive_integer, positive_integer-eq_ok, is_int, is_int_iff, login, login-eq_ok, utc_z_seconds,
  utc_z_seconds-eq_ok,
}
use devpath_shared.Gate.JobName.{derived_migration_job_name}
use devpath_shared.Gate.Facts.{migration_subject}
use devpath_shared.Gate.Approval.{Approval}
use devpath_shared.Gate.Result.{
  Push, dict, shared_pairs, approval_pairs, gitops_pairs, image_pairs, shared_keys, approval_keys,
  gitops_keys, image_keys,
}
use devpath_shared.Gate.Result.Check.{
  require_equal, expected_shared, expected_gitops, check_shared, check_approval, check_commits,
  check_gitops, check_image,
}
use devpath_shared.Gate.Result.WellFormed.{IsApproval, IsPush}
use devpath_shared.Gate.Result.Dict.{dict_lem, require_equal_iff}

pub shared_lem :
    (d : Fields)
    → keys d ≡ shared_keys
    → check_shared d ≡ ok tt
    → (source_sha workflow_sha256 : String) × (run_id : ℕ) × (d
        ≡ dict (shared_pairs source_sha workflow_sha256 run_id))
      × (is_nonzero sha40 source_sha ≡ true)
      × (is_nonzero sha64 workflow_sha256 ≡ true)
      × (0 < run_id)
unfolding check_shared
shared_lem d ordered h =
    let (_, fixed, h₁) = >>=-eq-ok (require_equal d "shared evidence" expected_shared) _ h in
    let (attempt, h₂) = ensure-eq-ok (is_int (get d "run_attempt") 1) _ _ h₁ in
    let (source, is_source, h₃) = >>=-eq-ok (nonzero sha40 (get d "source_sha") _) _ h₂ in
    let (workflow, is_workflow, h₄) = >>=-eq-ok (nonzero sha64 (get d "workflow_sha256") _) _ h₃ in
    let (run, is_run, _) = >>=-eq-ok (positive_integer (get d "run_id") _) _ h₄ in
    let (r, (p, (w, (v, (f, (j, (n, _))))))) =
      (require_equal_iff d _ expected_shared (omega arith)).0 fixed in
    let (same_source, good_source) = nonzero-eq_ok sha40 _ _ is_source in
    let (same_workflow, good_workflow) = nonzero-eq_ok sha64 _ _ is_workflow in
    let (same_run, above) = positive_integer-eq_ok _ _ is_run in
    (
      source,
      workflow,
      run,
      dict_lem d (shared_pairs source workflow run) ordered refl (
        r,
        (
          same_source,
          (
            p,
            (w, (same_workflow, (same_run, ((is_int_iff _ 1).0 attempt, (v, (f, (j, (n, tt)))))))),
          ),
        ),
      ),
      good_source,
      good_workflow,
      above,
    )

pub approval_lem :
    (d : Fields)
    → keys d ≡ approval_keys
    → check_approval d ≡ ok tt
    → (a : Approval) × (d ≡ dict (approval_pairs a)) × IsApproval a
unfolding check_approval
approval_lem d ordered h =
    let (environment, is_environment, h₁) =
      >>=-eq-ok (positive_integer (get d "environment_id") _) _ h in
    let (name, is_name, h₂) = >>=-eq-ok (login (get d "reviewer_login") _) _ h₁ in
    let (number, is_number, h₃) = >>=-eq-ok (positive_integer (get d "reviewer_id") _) _ h₂ in
    let (user, h₄) =
      ensure-eq-ok
        (py_eq (get d "reviewer_type") (text "User") && py_eq (get d "state") (text "approved")) _ _
        h₃ in
    let (time, is_time, _) = >>=-eq-ok (utc_z_seconds (get d "approval_effective_at") _) _ h₄ in
    let (same_environment, environment_above) = positive_integer-eq_ok _ _ is_environment in
    let (same_name, good_name) = login-eq_ok _ _ is_name in
    let (same_number, number_above) = positive_integer-eq_ok _ _ is_number in
    let (is_user, is_approved) = (and_iff _ _).0 user in
    let (same_time, shaped, real) = utc_z_seconds-eq_ok _ _ is_time in
    (
      record {
        environment_id = environment;
        reviewer_login = name;
        reviewer_id = number;
        reviewer_type = "User";
        state = "approved";
        approval_effective_at = time;
      },
      dict_lem d
          (approval_pairs (record {
            environment_id = environment;
            reviewer_login = name;
            reviewer_id = number;
            reviewer_type = "User";
            state = "approved";
            approval_effective_at = time;
          }))
          ordered refl
          (
            same_environment,
            (
              same_name,
              (
                same_number,
                (
                  (py_eq-text_iff _ "User").0 is_user,
                  ((py_eq-text_iff _ "approved").0 is_approved, (same_time, tt)),
                ),
              ),
            ),
          ),
      (environment_above, good_name, number_above, refl, refl, shaped, real),
    )

pub gitops_lem :
    (d : Fields) (release_id release_sha name : String)
    → keys d ≡ gitops_keys
    → check_gitops d release_id release_sha ≡ ok tt
    → get d "rendered_job_name" ≡ text name
    → (p : Push) × (d ≡ dict (gitops_pairs release_id release_sha p))
      × IsPush p
      × (p.rendered_job_name ≡ name)
unfolding check_gitops
gitops_lem d release_id release_sha name ordered h named =
    let (_, fixed, h₁) = >>=-eq-ok (require_equal d "gitops evidence" expected_gitops) _ h in
    let (_, commits, h₂) = >>=-eq-ok (check_commits d) _ h₁ in
    let (app, is_app, h₃) = >>=-eq-ok (positive_integer (get d "write_app_id") _) _ h₂ in
    let (installation, is_installation, h₄) =
      >>=-eq-ok (positive_integer (get d "write_app_installation_id") _) _ h₃ in
    let (base, sealed, pre, commit, tree, mode, found) = commits_lem d commits in
    let (same_app, app_above) = positive_integer-eq_ok _ _ is_app in
    let (same_installation, installation_above) = positive_integer-eq_ok _ _ is_installation in
    build base sealed pre commit tree mode app installation found same_app app_above
      same_installation installation_above
      ((require_equal_iff d _ expected_gitops
          (tt, (tt, (tt, ((migration_paths, refl), (tt, (tt, tt))))))).0
        fixed)
      ((py_eq-text_iff _ (migration_subject release_id release_sha)).0 ((ensure_iff _ _).0 h₄))
  where
    build :
        (base sealed pre commit tree mode : String) (app installation : ℕ)
        → Commits d base sealed pre commit tree mode
        → get d "write_app_id" ≡ integer (pos app)
        → 0 < app
        → get d "write_app_installation_id" ≡ integer (pos installation)
        → 0 < installation
        → All (λ (e : String × Json). get d e.0 ≡ e.1) expected_gitops
        → get d "commit_subject" ≡ text (migration_subject release_id release_sha)
        → (p : Push) × (d ≡ dict (gitops_pairs release_id release_sha p))
          × IsPush p
          × (p.rendered_job_name ≡ name)
    build base sealed pre commit tree mode app installation
          (b, s, f, c, t, m, gb, gs, gf, gc, gt, apart, modes) same_app app_above same_installation
          installation_above (repo, (slug, (branch, (paths, (author, (committer, _)))))) subject =
        let p : Push = record {
          base_sha = base;
          sealed_release_sha = sealed;
          pre_push_main_sha = pre;
          migration_commit_sha = commit;
          migration_tree_sha = tree;
          publish_mode = mode;
          write_app_id = app;
          write_app_installation_id = installation;
          rendered_job_name = name;
        } in
        (
          p,
          dict_lem d (gitops_pairs release_id release_sha p) ordered refl (
            repo,
            (
              b,
              (
                s,
                (
                  f,
                  (
                    c,
                    (
                      t,
                      (
                        m,
                        (
                          slug,
                          (
                            same_app,
                            (
                              same_installation,
                              (branch, (paths, (named, (subject, (author, (committer, tt)))))),
                            ),
                          ),
                        ),
                      ),
                    ),
                  ),
                ),
              ),
            ),
          ),
          (gb, gs, gf, gc, gt, apart, modes, app_above, installation_above),
          refl,
        )

pub image_lem :
    (d gitops : Fields) (release_sha : String)
    → keys d ≡ image_keys
    → check_image d gitops release_sha ≡ ok tt
    → (digest name : String) × (d ≡ dict (image_pairs digest))
      × (is_nonzero digest_pattern digest ≡ true)
      × (derived_migration_job_name digest release_sha ≡ ok name)
      × (get gitops "rendered_job_name" ≡ text name)
unfolding check_image
image_lem d gitops release_sha ordered h =
    let (held, h₁) = ensure-eq-ok (py_eq (get d "repository") (text image_repository)) _ _ h in
    let (digest, is_digest, h₂) = >>=-eq-ok (nonzero digest_pattern (get d "digest") _) _ h₁ in
    let (name, derived, h₃) = >>=-eq-ok (derived_migration_job_name digest release_sha) _ h₂ in
    let (same, good) = nonzero-eq_ok digest_pattern _ _ is_digest in
    (
      digest,
      name,
      dict_lem d (image_pairs digest) ordered refl
          ((py_eq-text_iff _ image_repository).0 held, (same, tt)),
      good,
      derived,
      (py_eq-text_iff _ name).0 ((ensure_iff _ _).0 h₃),
    )
