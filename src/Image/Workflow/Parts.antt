-- ===== src/Image/Workflow/Parts.antt =====
-- What the parts of a postflight have established when they succeed.
use devpath_shared.Base.{
  ℕ, ◌≡◌, sym, ap, ◌∙◌, Bool, true, false, ◌||◌, Option, none, some, String, ◌==ˢ◌, eq_iff, inl,
  inr, arith,
}
use mathlib.Core.Option.{some-injective}
use devpath_shared.Base.Result.{Result, ok, ensure, ok-injective}
use devpath_shared.Base.Exec.{Exec, lift, >>=-eq-ok, retry-ok_iff}
use devpath_shared.Context.{Env, or_empty}
use devpath_shared.Runtime.{Bytes, Runtime}
use devpath_shared.Image.Document.{
  RemoteImage, require_candidate_config, require_local_candidate_config,
}
use devpath_shared.Image.Evidence.Folder.{Root}
use devpath_shared.Image.Registry.{Credentials, registry_client}
use devpath_shared.Image.Registry.Inspect.{inspect}
use devpath_shared.Image.Registry.Inspect.Bound.{Inspected, inspect-Outcome}
use devpath_shared.Image.Workflow.Source.{validate_ci_context}
use devpath_shared.Image.Workflow.Steps.{
  Runner, World, on_outside, on_evidence, git, verify_ci_source, inspect_local_image, verify_local,
  accept_image, find_image, await_image,
}

module _ {W A : Type 0} where
  pub on_outside-eq_ok :
      (m : Exec W A) (w : World W) {a : A} {w' : World W}
      → on_outside m w ≡ (ok a, w')
      → (m w.outside ≡ (ok a, w'.outside)) × (w'.outputs ≡ w.outputs) × (w'.evidence ≡ w.evidence)
  unfolding on_outside
  on_outside-eq_ok m w h = (
    ap (λ (p : Result A × World W). (p.0, p.1.outside)) h,
    sym (ap (λ (p : Result A × World W). p.1.outputs) h),
    sym (ap (λ (p : Result A × World W). p.1.evidence) h),
  )

  pub on_evidence-eq_ok :
      (m : Exec Root A) (w : World W) {a : A} {w' : World W}
      → on_evidence m w ≡ (ok a, w')
      → (m w.evidence ≡ (ok a, w'.evidence)) × (w'.outputs ≡ w.outputs)
  unfolding on_evidence
  on_evidence-eq_ok m w h = (
    ap (λ (p : Result A × World W). (p.0, p.1.evidence)) h,
    sym (ap (λ (p : Result A × World W). p.1.outputs) h),
  )

pub accept_image-eq_ok :
    (o : Option RemoteImage) (candidate expected : String) {image : RemoteImage}
    → accept_image o candidate expected ≡ ok image
    → (o ≡ some image)
      × (image.config_digest ≡ candidate)
      × (((expected ==ˢ "") || (image.digest ==ˢ expected)) ≡ true)
unfolding accept_image require_candidate_config
accept_image-eq_ok none candidate expected h = absurd (ground arith)
accept_image-eq_ok (some i) candidate expected {image} h =
    let same : i ≡ image = ground arith in
    let config : i.config_digest ≡ candidate = ground (arith, eq_iff i.config_digest candidate) in
    let digest : ((expected ==ˢ "") || (i.digest ==ˢ expected)) ≡ true = ground arith in
    (ap some same, sym (ap (λ (r : RemoteImage). r.config_digest) same) ∙ config, rw same at digest)

module _ {W : Type 0} (R : Runtime) (M : Runner W) (env : Env) where
  verify_ci_source-source :
      (w : W) {source_sha : String} {w' : W}
      → verify_ci_source R M env w ≡ (ok source_sha, w')
      → source_sha ≡ or_empty (env "GITHUB_SHA")
  unfolding verify_ci_source
  verify_ci_source-source w h =
      let (_, w₁, _, h₁) = >>=-eq-ok (git R M env _) _ w h in
      let (head, w₂, _, h₂) = >>=-eq-ok (git R M env _) _ w₁ h₁ in
      let (remote_main, w₃, _, h₃) = >>=-eq-ok (git R M env _) _ w₂ h₂ in
      let (status, w₄, _, h₄) = >>=-eq-ok (git R M env _) _ w₃ h₃ in
      let (_, w₅, _, h₅) =
        >>=-eq-ok (lift (validate_ci_context env _ head remote_main status)) _ w₄ h₄ in
      sym (ok-injective (ap (λ (p : Result String × W). p.0) h₅))

  pub verify_local-source :
      (image_ref candidate : String) (w : W) {source_sha : String} {w' : W}
      → verify_local R M env image_ref candidate w ≡ (ok source_sha, w')
      → source_sha ≡ or_empty (env "GITHUB_SHA")
  unfolding verify_local
  verify_local-source image_ref candidate w h =
      let (s, w₁, verified, h₁) = >>=-eq-ok (verify_ci_source R M env) _ w h in
      let (l, w₂, _, h₂) = >>=-eq-ok (inspect_local_image R M env image_ref s) _ w₁ h₁ in
      let (u, w₃, _, h₃) = >>=-eq-ok (lift (require_local_candidate_config l candidate)) _ w₂ h₂ in
      sym (ok-injective (ap (λ (p : Result String × W). p.0) h₃))
      ∙ verify_ci_source-source w verified

  pub find_image-eq_ok :
      (client : Credentials) (source_sha candidate expected : String) (w : W) {image : RemoteImage}
      {w' : W}
      → find_image R M env client source_sha candidate expected w ≡ (ok image, w')
      → (m : Bytes) × Inspected R M.network source_sha m image
        × (image.config_digest ≡ candidate)
        × (((expected ==ˢ "") || (image.digest ==ˢ expected)) ≡ true)
  unfolding find_image
  find_image-eq_ok client source_sha candidate expected w {image} h =
      let (o, v, seen, h₁) = >>=-eq-ok (inspect R M.network client source_sha false) _ w h in
      let (found, config, digest) =
        accept_image-eq_ok o candidate expected (ap (λ (p : Result RemoteImage × W). p.0) h₁) in
      elim (inspect-Outcome R M.network client source_sha false w seen) [
        | inl (i, m, _, is_i, checked, _, _) ↦
            let same : i ≡ image = some-injective _ _ (sym is_i ∙ found) in
            (m, rw same at checked, config, digest)
        | inr (f, url, is_none, allowed, _, _, _) ↦ absurd (ground arith)
      ]

  pub await_image-eq_ok :
      (source_sha candidate expected : String) (retries : ℕ) (delay_bounded : Bool) (w : W)
      {image : RemoteImage} {w' : W}
      → await_image R M env source_sha candidate expected retries delay_bounded w ≡ (ok image, w')
      → (m : Bytes) × Inspected R M.network source_sha m image
        × (image.config_digest ≡ candidate)
        × (((expected ==ˢ "") || (image.digest ==ˢ expected)) ≡ true)
  unfolding await_image
  await_image-eq_ok source_sha candidate expected retries delay_bounded w h =
      let (_, w₁, bounded, h₁) = >>=-eq-ok (lift (ensure _ _)) _ w h in
      let (client, w₂, known, h₂) = >>=-eq-ok (lift (registry_client _ _)) _ w₁ h₁ in
      let (k, _, _, found) = (retry-ok_iff _ _ retries w₂ _ _).0 h₂ in
      find_image-eq_ok client source_sha candidate expected _ found
