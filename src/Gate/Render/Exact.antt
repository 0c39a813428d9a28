-- ===== src/Gate/Render/Exact.antt =====
-- What an accepted render runs, and that no render is both inert and released.
use devpath_shared.Base.{
  ℕ, ◌≡◌, ◌≢◌, sym, ◌∙◌, ap, some, List, [], ◌∷◌, String, ◌<>◌, ◌==◌, ==_iff, arith,
}
use mathlib.Core.Option.{some-injective}
use devpath_shared.Base.Result.{
  ok, >>=-eq-ok, ensure-eq-ok, ensure_iff, or_refuse-eq-ok, ok-injective,
}
use devpath_shared.Context.Source.{digest_pattern}
use devpath_shared.Json.{text}
use devpath_shared.Runtime.{Bytes, Runtime}
use devpath_shared.Gate.Format.{image_repository, nonzero, nonzero_iff}
use devpath_shared.Gate.JobName.{derived_migration_job_name}
use devpath_shared.Gate.Facts.{eq_lists, eq_lists_iff}
use devpath_shared.Gate.Text.{lf_text, lf_text-eq_ok}
use devpath_shared.Gate.Fence.{max_kustomization_bytes}
use devpath_shared.Gate.Lines.{split_lines}
use devpath_shared.Gate.Kustomization.{
  migration_job_base_name, patch_of, selectors, validate_migration_kustomization,
}
use devpath_shared.Gate.Kustomization.Selects.{validate_migration_kustomization-SelectsJob}
use devpath_shared.Gate.Render.{
  max_render_bytes, single_document, names_in, images_in, count_suspend, check_options,
  validate_migration_render, validate_base_migration_render,
}

module _ (R : Runtime) where
  -- The one job of a text: its names, and how often it is and is not suspended.
  abbrev pub HasJob : Bytes → List String → ℕ → ℕ → String → Type 0
  HasJob raw names suspended released job =
      (content : String) × (R.decode raw ≡ some content)
      × (single_document "Job" content ≡ some job)
      × (names_in job ≡ names)
      × (count_suspend "true" job ≡ suspended)
      × (count_suspend "false" job ≡ released)

  abbrev pub RunsJob : Bytes → String → String → Type 0
  RunsJob raw image_digest name =
      (job : String) × HasJob raw (name ∷ []) 0 1 job
      × (images_in job ≡ ("image: " <> (image_repository <> ("@" <> image_digest))) ∷ [])

  validate_migration_render-RunsJob :
      (raw : Bytes) (image_digest release_manifest_sha256 : String) {name : String}
      → validate_migration_render R raw image_digest release_manifest_sha256 ≡ ok name
      → (derived_migration_job_name image_digest release_manifest_sha256 ≡ ok name)
        × RunsJob raw image_digest name
  unfolding validate_migration_render
  validate_migration_render-RunsJob raw image_digest release h =
      let (content, read, h₁) = >>=-eq-ok (lf_text R raw "migration render" max_render_bytes) _ h in
      let (digest, is_digest, h₂) =
        >>=-eq-ok (nonzero digest_pattern (text image_digest) "migration image digest") _ h₁ in
      let (job_name, derived, h₃) = >>=-eq-ok (derived_migration_job_name digest release) _ h₂ in
      let (_, _, h₄) = >>=-eq-ok (check_options "migration render" content) _ h₃ in
      let (job, one, h₅) = or_refuse-eq-ok (single_document "Job" content) _ _ h₄ in
      let (names, h₆) = ensure-eq-ok (eq_lists (names_in job) (job_name ∷ [])) _ _ h₅ in
      let (images, h₇) =
        ensure-eq-ok
          (eq_lists (images_in job) (("image: " <> (image_repository <> ("@" <> digest))) ∷ [])) _ _
          h₆ in
      let (released, h₈) = ensure-eq-ok (count_suspend "false" job == 1) _ _ h₇ in
      let (suspended, h₉) = ensure-eq-ok (count_suspend "true" job == 0) _ _ h₈ in
      let same =
        ((nonzero_iff digest_pattern image_digest "migration image digest" digest).0 is_digest).0 in
      let (_, _, _, _, _, decoded) = lf_text-eq_ok R raw "migration render" max_render_bytes read in
      (
        ap (λ (d : String). derived_migration_job_name d release) (sym same)
            ∙ derived
            ∙ ap ok (ok-injective h₉),
        (
          job,
          (
            content,
            decoded,
            one,
            (eq_lists_iff _ _).0 names ∙ ap (λ (n : String). n ∷ []) (ok-injective h₉),
            (==_iff _ _).0 suspended,
            (==_iff _ _).0 released,
          ),
          (eq_lists_iff _ _).0 images
              ∙ ap (λ (d : String). ("image: " <> (image_repository <> ("@" <> d))) ∷ []) same,
        ),
      )

  validate_base_migration_render-HasJob :
      (raw : Bytes)
      → validate_base_migration_render R raw ≡ ok tt
      → (job : String) × HasJob raw (migration_job_base_name ∷ []) 1 0 job
  unfolding validate_base_migration_render
  validate_base_migration_render-HasJob raw h =
      let (content, read, h₁) =
        >>=-eq-ok (lf_text R raw "base migration render" max_render_bytes) _ h in
      let (_, _, h₂) = >>=-eq-ok (check_options "base migration render" content) _ h₁ in
      let (job, one, h₃) = or_refuse-eq-ok (single_document "Job" content) _ _ h₂ in
      let (names, h₄) =
        ensure-eq-ok (eq_lists (names_in job) (migration_job_base_name ∷ [])) _ _ h₃ in
      let (suspended, h₅) = ensure-eq-ok (count_suspend "true" job == 1) _ _ h₄ in
      let (_, _, _, _, _, decoded) =
        lf_text-eq_ok R raw "base migration render" max_render_bytes read in
      (
        job,
        (
          content,
          decoded,
          one,
          (eq_lists_iff _ _).0 names,
          (==_iff _ _).0 suspended,
          (==_iff _ _).0 ((ensure_iff _ _).0 h₅),
        ),
      )

  -- A text has one job, which is suspended or not.
  suspended_once :
      (raw : Bytes) {names others : List String} {suspended released a b : ℕ} {job job' : String}
      → HasJob raw names suspended released job
      → HasJob raw others a b job'
      → suspended ≡ a
  suspended_once raw {job = job} {job' = job'} (content, d, one, _, s, _)
        (content', d', one', _, s', _) =
      let same : content ≡ content' = some-injective _ _ (sym d ∙ d') in
      let job_same : job ≡ job' =
        some-injective _ _ (sym one ∙ ap (λ (t : String). single_document "Job" t) same ∙ one') in
      sym s ∙ ap (λ (t : String). count_suspend "true" t) job_same ∙ s'

  -- No text passes both as the render of the inert base and as the render of a released migration,
  -- whatever the digest and the release.
  pub validate_base_migration_render-not_released :
      (raw : Bytes) (image_digest release_manifest_sha256 name : String)
      → validate_base_migration_render R raw ≡ ok tt
      → validate_migration_render R raw image_digest release_manifest_sha256 ≢ ok name
  validate_base_migration_render-not_released raw image_digest release name inert released =
      let (job, base) = validate_base_migration_render-HasJob raw inert in
      let (_, (job', run, _)) =
        validate_migration_render-RunsJob raw image_digest release released in
      let apart : 1 ≡ 0 = suspended_once raw base run in absurd (omega (arith, apart))

  -- When a kustomization and a rendered manifest are both accepted for a digest and a release, they
  -- speak of the same job: the kustomization is a body, whose one selector is the digest, and the exact
  -- patch that gives the job the name that is returned, and the manifest has one job, which has this
  -- name alone, runs the image of this digest alone and is released, once, and not suspended.
  pub validate_migration_render-SelectsJob :
      (kustomization render : Bytes) (image_digest release_manifest_sha256 : String) {name : String}
      → validate_migration_kustomization R kustomization image_digest release_manifest_sha256
        ≡ ok tt
      → validate_migration_render R render image_digest release_manifest_sha256 ≡ ok name
      → (content body : String) × (lf_text R kustomization "migration kustomization"
            max_kustomization_bytes
          ≡ ok content)
        × (content ≡ body <> patch_of name)
        × (selectors (split_lines body) ≡ ("digest", image_digest) ∷ [])
        × RunsJob render image_digest name
  validate_migration_render-SelectsJob kustomization render image_digest release h k =
      let (content, body, name, block, read, split, derived, one, _, _) =
        validate_migration_kustomization-SelectsJob R kustomization image_digest release h in
      let (rendered, runs) = validate_migration_render-RunsJob render image_digest release k in
      let same = ok-injective (sym derived ∙ rendered) in
      (content, body, read, split ∙ ap (λ (n : String). body <> patch_of n) same, one, runs)
