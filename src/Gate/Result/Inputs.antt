-- ===== src/Gate/Result/Inputs.antt =====
-- What the inputs of the evidence are when they pass their checks.
use devpath_shared.Base.{
  ℕ, ◌<◌, ◌≡◌, sym, ◌∙◌, ap, true, ◌&&◌, String, ◌==ˢ◌, eq_iff, and_iff, if◌then◌else◌, some,
}
use devpath_shared.Base.Pattern.{fullmatch}
use devpath_shared.Base.Result.{ok, >>=-eq-ok, ensure-eq-ok, ensure_iff, ok-injective}
use devpath_shared.Context.Source.{sha40, sha64, digest_pattern}
use devpath_shared.Json.{text, contains}
use devpath_shared.Gate.Format.{
  migration_paths, release_pattern, is_nonzero, nonzero, nonzero_iff, nonzero-eq_ok,
}
use devpath_shared.Gate.JobName.{derived_migration_job_name}
use devpath_shared.Gate.Facts.{migration_subject, publish_modes, eq_lists, eq_lists_iff}
use devpath_shared.Gate.Result.{Push}
use devpath_shared.Gate.Result.WellFormed.{IsPush}
use devpath_shared.Gate.Result.Commits.{apart_lem, mode_lem}
use devpath_shared.Context.{Env}
use devpath_shared.Gate.Approval.{approval_context}
use devpath_shared.Gate.Integers.{positive_integer_string-eq_ok}
use devpath_shared.Gate.Format.{of_env, of_env-text, positive_integer_string, bot_name}
use devpath_shared.Gate.Values.{gitops_write_app_slug}
use devpath_shared.Context.{require_env}
use devpath_shared.Gate.Result.Build.{Inputs, read_identity, check_push, read_app, check_change}

pub identity_lem :
    (env : Env) (inputs : Inputs) {r : String × ℕ}
    → read_identity env inputs ≡ ok r
    → (fullmatch release_pattern inputs.release_id ≡ true)
      × (is_nonzero sha64 inputs.candidate_spec_sha256 ≡ true)
      × (is_nonzero sha64 inputs.release_manifest_sha256 ≡ true)
      × (env "GITHUB_SHA" ≡ some r.0)
      × (is_nonzero sha40 r.0 ≡ true)
      × (0 < r.1)
unfolding read_identity
identity_lem env inputs h =
    let (shaped, h₁) = ensure-eq-ok (fullmatch release_pattern inputs.release_id) _ _ h in
    let (_, is_candidate, h₂) =
      >>=-eq-ok (nonzero sha64 (text inputs.candidate_spec_sha256) _) _ h₁ in
    let (_, is_release, h₃) =
      >>=-eq-ok (nonzero sha64 (text inputs.release_manifest_sha256) _) _ h₂ in
    let (source, is_source, h₄) = >>=-eq-ok (nonzero sha40 (of_env (env "GITHUB_SHA")) _) _ h₃ in
    let (_, _, h₅) = >>=-eq-ok (require_env env (approval_context source)) _ h₄ in
    let (run, is_run, h₆) =
      >>=-eq-ok (positive_integer_string (of_env (env "GITHUB_RUN_ID")) _) _ h₅ in
    let (same, good) = nonzero-eq_ok sha40 _ _ is_source in
    let (_, _, _, above) = positive_integer_string-eq_ok _ _ is_run in
    rw (← (ok-injective h₆)) (
      shaped,
      ((nonzero_iff sha64 _ _ _).0 is_candidate).1,
      ((nonzero_iff sha64 _ _ _).0 is_release).1,
      of_env-text _ same,
      good,
      above,
    )

pub app_lem : (inputs : Inputs) {r : ℕ × ℕ} → read_app inputs ≡ ok r → (0 < r.0) × (0 < r.1)
unfolding read_app
app_lem inputs h =
    let (_, h₁) = ensure-eq-ok (inputs.gitops_write_app_slug ==ˢ gitops_write_app_slug) _ _ h in
    let (app, is_app, h₂) =
      >>=-eq-ok (positive_integer_string (text inputs.gitops_write_app_id) _) _ h₁ in
    let (installation, is_installation, h₃) =
      >>=-eq-ok (positive_integer_string (text inputs.gitops_write_app_installation_id) _) _ h₂ in
    let (_, _, _, above) = positive_integer_string-eq_ok _ _ is_app in
    let (_, _, _, installed) = positive_integer_string-eq_ok _ _ is_installation in
    rw (← (ok-injective h₃)) (above, installed)

pub change_lem :
    (inputs : Inputs) {name : String}
    → check_change inputs ≡ ok name
    → (is_nonzero digest_pattern inputs.image_digest ≡ true)
      × (derived_migration_job_name inputs.image_digest inputs.release_manifest_sha256 ≡ ok name)
      × (inputs.changed_paths ≡ migration_paths)
      × (inputs.rendered_job_name ≡ name)
      × (inputs.commit_subject ≡ migration_subject inputs.release_id inputs.release_manifest_sha256)
      × (inputs.commit_author_name ≡ bot_name)
      × (inputs.commit_committer_name ≡ bot_name)
unfolding check_change
change_lem inputs h =
    let (paths, h₁) = ensure-eq-ok (eq_lists inputs.changed_paths migration_paths) _ _ h in
    let (digest, is_digest, h₂) =
      >>=-eq-ok (nonzero digest_pattern (text inputs.image_digest) _) _ h₁ in
    let (name, derived, h₃) =
      >>=-eq-ok (derived_migration_job_name digest inputs.release_manifest_sha256) _ h₂ in
    let (rendered, h₄) = ensure-eq-ok (inputs.rendered_job_name ==ˢ name) _ _ h₃ in
    let (subject, h₅) =
      ensure-eq-ok
        (inputs.commit_subject
          ==ˢ migration_subject inputs.release_id inputs.release_manifest_sha256)
        _ _ h₄ in
    let (actors, h₆) =
      ensure-eq-ok
        ((inputs.commit_author_name ==ˢ bot_name) && (inputs.commit_committer_name ==ˢ bot_name)) _
        _ h₅ in
    let (same, good) = (nonzero_iff digest_pattern inputs.image_digest _ digest).0 is_digest in
    let (author, committer) = (and_iff _ _).0 actors in
    rw (← (ok-injective h₆)) (
      good,
      ap (λ (d : String). derived_migration_job_name d inputs.release_manifest_sha256) (sym same)
          ∙ derived,
      (eq_lists_iff _ _).0 paths,
      (eq_iff _ _).0 rendered,
      (eq_iff _ _).0 subject,
      (eq_iff _ _).0 author,
      (eq_iff _ _).0 committer,
    )

-- The GitOps part of the document.
abbrev pub push_of : Inputs → ℕ × ℕ → String → Push
push_of inputs app name = record {
  base_sha = inputs.gitops_base_sha;
  sealed_release_sha = inputs.sealed_release_sha;
  pre_push_main_sha = inputs.pre_push_main_sha;
  migration_commit_sha = inputs.migration_commit_sha;
  migration_tree_sha = inputs.migration_tree_sha;
  publish_mode = inputs.publish_mode;
  write_app_id = app.0;
  write_app_installation_id = app.1;
  rendered_job_name = name;
}

pub push_lem :
    (inputs : Inputs) (app : ℕ × ℕ) (name : String)
    → check_push inputs ≡ ok tt
    → (0 < app.0) × (0 < app.1)
    → IsPush (push_of inputs app name)
unfolding check_push
push_lem inputs app name h (above, installed) =
    let (_, is_base, h₁) = >>=-eq-ok (nonzero sha40 (text inputs.gitops_base_sha) _) _ h in
    let (_, is_sealed, h₂) = >>=-eq-ok (nonzero sha40 (text inputs.sealed_release_sha) _) _ h₁ in
    let (_, is_pre, h₃) = >>=-eq-ok (nonzero sha40 (text inputs.pre_push_main_sha) _) _ h₂ in
    let (_, is_commit, h₄) = >>=-eq-ok (nonzero sha40 (text inputs.migration_commit_sha) _) _ h₃ in
    let (_, is_tree, h₅) = >>=-eq-ok (nonzero sha40 (text inputs.migration_tree_sha) _) _ h₄ in
    let (known, h₆) = ensure-eq-ok (contains publish_modes inputs.publish_mode) _ _ h₅ in
    let (matched, h₇) =
      ensure-eq-ok
        (inputs.pre_push_main_sha ==ˢ (
          if inputs.publish_mode ==ˢ "published"
          then inputs.gitops_base_sha
          else inputs.migration_commit_sha))
        _ _ h₆ in
    (
      ((nonzero_iff sha40 _ _ _).0 is_base).1,
      ((nonzero_iff sha40 _ _ _).0 is_sealed).1,
      ((nonzero_iff sha40 _ _ _).0 is_pre).1,
      ((nonzero_iff sha40 _ _ _).0 is_commit).1,
      ((nonzero_iff sha40 _ _ _).0 is_tree).1,
      apart_lem _ _ ((ensure_iff _ _).0 h₇),
      mode_lem inputs.publish_mode _ _ _ known matched,
      above,
      installed,
    )
