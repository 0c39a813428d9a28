-- ===== src/Image/Workflow/Handoff.antt =====
-- What the preflight and the recheck have seen when they hand their outputs to the next steps.
use devpath_shared.Base.{
  ◌≡◌, refl, sym, ap, ◌∙◌, Bool, true, false, Option, none, some, String, ◌<>◌, ◌⊎◌, inl, inr, List,
  eq_iff, arith,
}
use devpath_shared.Base.Result.{Result, ok}
use devpath_shared.Base.Exec.{Exec, >>=-eq-ok, lift->>=-eq_ok}
use devpath_shared.Context.{Env, or_empty}
use devpath_shared.Runtime.{Runtime}
use devpath_shared.Image.Document.{RemoteImage, require_candidate_config}
use devpath_shared.Image.Recheck.{
  resolve_recheck, Holds, resolve_recheck-push_iff, resolve_recheck-reuse_iff,
}
use devpath_shared.Image.Registry.{registry_client}
use devpath_shared.Image.Registry.Inspect.Bound.{Outcome, inspect-Outcome}
use devpath_shared.Image.Workflow.Outputs.{
  OutputFile, regular, output_lines, write_github_outputs-eq_ok,
}
use devpath_shared.Image.Workflow.Steps.{
  Runner, World, on_outside, on_outputs, verify_local, inspect_registry, preflight_values,
  require_candidate, recheck_values, preflight, recheck,
}
use devpath_shared.Image.Workflow.Parts.{on_outside-eq_ok, verify_local-source}

on_outputs-eq_ok :
    {W A : Type 0} (m : Exec OutputFile A) (w : World W) {a : A} {w' : World W}
    → on_outputs m w ≡ (ok a, w')
    → (m w.outputs ≡ (ok a, w'.outputs)) × (w'.evidence ≡ w.evidence)
unfolding on_outputs
on_outputs-eq_ok {W} {A} m w h = (
  ap (λ (p : Result A × World W). (p.0, p.1.outputs)) h,
  sym (ap (λ (p : Result A × World W). p.1.evidence) h),
)

-- The lines are added to what the file held, and the evidence is left alone.
abbrev pub Handed : {W : Type 0} → List (String × String) → World W → World W → Type 0
Handed values w w' =
    (written : String) × (w.outputs ≡ regular written)
    × (w'.outputs ≡ regular (written <> output_lines values))
    × (w'.evidence ≡ w.evidence)

-- An image that is there has the candidate's config.
abbrev pub Matches : Option RemoteImage → String → Type 0
Matches none candidate = Unit
Matches (some image) candidate = image.config_digest ≡ candidate

require_candidate-Matches :
    (o : Option RemoteImage) (candidate : String)
    → require_candidate o candidate ≡ ok tt
    → Matches o candidate
unfolding require_candidate_config
require_candidate-Matches none candidate h = tt
require_candidate-Matches (some image) candidate h =
    ground (arith, eq_iff image.config_digest candidate)

-- What the recheck decided, and why.
abbrev pub Decided : String → Option RemoteImage → String → Bool → String → Type 0
Decided needed o candidate push digest =
    ((push ≡ true) × (needed ≡ "true") × (o ≡ none) × (digest ≡ ""))
    ⊎ ((push ≡ false) × Holds o digest candidate)

resolve_recheck-Decided :
    (needed preflight_digest : String) (o : Option RemoteImage) (candidate : String) (push : Bool)
    (digest : String)
    → resolve_recheck needed preflight_digest o candidate ≡ ok (push, digest)
    → Decided needed o candidate push digest
resolve_recheck-Decided needed preflight_digest o candidate true digest h =
    let (is_needed, _, is_none, _, empty) =
      (resolve_recheck-push_iff needed preflight_digest o candidate digest).0 h in
    inl (refl, is_needed, is_none, empty)
resolve_recheck-Decided needed preflight_digest o candidate false digest h =
    inr (refl, ((resolve_recheck-reuse_iff needed preflight_digest o candidate digest).0 h).0)

module _ {W : Type 0} (R : Runtime) (M : Runner W) (env : Env) where
  inspect_registry-Outcome :
      (source_sha : String) (allow_absent : Bool) (w : W) {o : Option RemoteImage} {w' : W}
      → inspect_registry R M env source_sha allow_absent w ≡ (ok o, w')
      → Outcome R M.network allow_absent source_sha o
  unfolding inspect_registry
  inspect_registry-Outcome source_sha allow_absent w h =
      let (client, known, h₁) = lift->>=-eq_ok (registry_client _ _) _ w h in
      inspect-Outcome R M.network client source_sha allow_absent w h₁

  Outcome-cong :
      (o : Option RemoteImage) {s t : String}
      → s ≡ t
      → Outcome R M.network true s o
      → Outcome R M.network true t o
  Outcome-cong o e x = rw e at x

  -- A preflight that succeeds has inspected the registry for the commit of the run, an image that it
  -- found has the candidate's config, and the lines that it adds to the outputs say what it found.
  pub preflight-Handed :
      (image_ref candidate : String) (w : World W) {w' : World W}
      → preflight R M env image_ref candidate w ≡ (ok tt, w')
      → (o : Option RemoteImage) × Outcome R M.network true (or_empty (env "GITHUB_SHA")) o
        × Matches o candidate
        × Handed (preflight_values o candidate) w w'
  unfolding preflight
  preflight-Handed image_ref candidate w h =
      let (source_sha, w₁, verified, h₁) =
        >>=-eq-ok (on_outside (verify_local R M env image_ref candidate)) _ w h in
      let (o, w₂, inspected, h₂) =
        >>=-eq-ok (on_outside (inspect_registry R M env source_sha true)) _ w₁ h₁ in
      let (u, matched, h₃) = lift->>=-eq_ok (require_candidate o candidate) _ w₂ h₂ in
      let (verified', outputs₁, evidence₁) = on_outside-eq_ok _ w verified in
      let (inspected', outputs₂, evidence₂) = on_outside-eq_ok _ w₁ inspected in
      let (wrote, evidence₃) = on_outputs-eq_ok _ w₂ h₃ in
      let (written, was, now) = write_github_outputs-eq_ok _ w₂.outputs wrote in
      (
        o,
        Outcome-cong o (verify_local-source R M env image_ref candidate w.outside verified')
            (inspect_registry-Outcome source_sha true w₁.outside inspected'),
        require_candidate-Matches o candidate matched,
        (written, sym outputs₁ ∙ sym outputs₂ ∙ was, now, evidence₃ ∙ evidence₂ ∙ evidence₁),
      )

  -- A recheck that succeeds has inspected the registry for the commit of the run; it hands on either
  -- that the image must be pushed, and then the preflight had seen none and there is none, or the
  -- digest of an image in the registry that has the candidate's config.
  pub recheck-Handed :
      (image_ref candidate needed preflight_digest : String) (w : World W) {w' : World W}
      → recheck R M env image_ref candidate needed preflight_digest w ≡ (ok tt, w')
      → (o : Option RemoteImage) × (push : Bool) × (digest : String) × Outcome R M.network true
          (or_empty (env "GITHUB_SHA"))
          o
        × Decided needed o candidate push digest
        × Handed (recheck_values push digest candidate) w w'
  unfolding recheck
  recheck-Handed image_ref candidate needed preflight_digest w h =
      let (source_sha, w₁, verified, h₁) =
        >>=-eq-ok (on_outside (verify_local R M env image_ref candidate)) _ w h in
      let (o, w₂, inspected, h₂) =
        >>=-eq-ok (on_outside (inspect_registry R M env source_sha true)) _ w₁ h₁ in
      let (r, resolved, h₃) =
        lift->>=-eq_ok (resolve_recheck needed preflight_digest o candidate) _ w₂ h₂ in
      let (verified', outputs₁, evidence₁) = on_outside-eq_ok _ w verified in
      let (inspected', outputs₂, evidence₂) = on_outside-eq_ok _ w₁ inspected in
      let (wrote, evidence₃) = on_outputs-eq_ok _ w₂ h₃ in
      let (written, was, now) = write_github_outputs-eq_ok _ w₂.outputs wrote in
      (
        o,
        r.0,
        r.1,
        Outcome-cong o (verify_local-source R M env image_ref candidate w.outside verified')
            (inspect_registry-Outcome source_sha true w₁.outside inspected'),
        resolve_recheck-Decided needed preflight_digest o candidate r.0 r.1 resolved,
        (written, sym outputs₁ ∙ sym outputs₂ ∙ was, now, evidence₃ ∙ evidence₂ ∙ evidence₁),
      )
