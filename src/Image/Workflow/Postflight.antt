-- ===== src/Image/Workflow/Postflight.antt =====
-- What a postflight that succeeds has seen and written.
use devpath_shared.Base.{
  ℕ, ◌≡◌, refl, sym, ap, ◌∙◌, Bool, true, false, ◌||◌, some, [], ◌∷◌, String, ◌==ˢ◌, eq_iff, ◌⊎◌,
  arith,
}
use devpath_shared.Base.Decimal.{int_of_text}
use devpath_shared.Base.Pattern.{fullmatch}
use devpath_shared.Context.Source.{digest_pattern}
use devpath_shared.Base.Result.{Result, ok}
use devpath_shared.Base.Exec.{>>=-eq-ok, lift->>=-eq_ok}
use devpath_shared.Context.{Env, or_empty}
use devpath_shared.Json.{object}
use devpath_shared.Runtime.{Bytes, Runtime}
use devpath_shared.Image.Format.{is_digest}
use devpath_shared.Image.Document.{RemoteImage}
use devpath_shared.Image.Evidence.{evidence_document}
use devpath_shared.Image.Evidence.Accepted.{evidence_document-accepted_iff}
use devpath_shared.Image.Evidence.Folder.{Root, missing, directory, plain}
use devpath_shared.Image.Evidence.Folder.RoundTrip.{write_evidence-eq_ok}
use devpath_shared.Image.Registry.Inspect.Bound.{Inspected}
use devpath_shared.Image.Workflow.Steps.{
  Runner, World, on_outside, on_evidence, verify_local, publish_plan, read_int, await_image,
  record_image, postflight,
}
use devpath_shared.Image.Workflow.Parts.{
  on_outside-eq_ok, on_evidence-eq_ok, verify_local-source, await_image-eq_ok,
}

-- A pushed image comes with no earlier digest, a reused one has the digest of the recheck.
abbrev pub PublishMode : String → String → String → String → Type 0
PublishMode push_needed prepush_digest digest mode =
    ((push_needed ≡ "true") × (prepush_digest ≡ "") × (mode ≡ "published"))
    ⊎ ((push_needed ≡ "false") × (prepush_digest ≡ digest) × (mode ≡ "reused"))

digest-nonempty : (s : String) → s ≡ "" → is_digest s ≡ false
unfolding is_digest fullmatch digest_pattern
digest-nonempty s h = rw h refl

plan-PublishMode :
    (push_needed prepush_digest : String) (image : RemoteImage) {plan : String × String}
    → publish_plan push_needed prepush_digest ≡ ok plan
    → ((plan.0 ==ˢ "") || (image.digest ==ˢ plan.0)) ≡ true
    → PublishMode push_needed prepush_digest image.digest plan.1
unfolding publish_plan
plan-PublishMode push_needed prepush_digest image {plan} h g = ground (
  arith,
  eq_iff push_needed "true",
  eq_iff push_needed "false",
  eq_iff prepush_digest "",
  eq_iff plan.0 "",
  eq_iff image.digest plan.0,
  digest-nonempty prepush_digest,
)

module _ {W : Type 0} (R : Runtime) (M : Runner W) (env : Env) where
  -- The evidence of an image that a postflight has found.
  abbrev pub Recorded : String → String → String → Root → Type 0
  Recorded source_sha image_digest mode root =
      (run_id : ℕ) × (int_of_text (or_empty (env "GITHUB_RUN_ID")) ≡ some run_id)
      × (root
          ≡ directory (
              (
                "evidence.json",
                plain (
                    R.dumps_unicode
                      (object (evidence_document source_sha run_id 1 image_digest mode))),
              )
              ∷ []))

  Recorded-cong :
      (digest mode : String) {s t : String} {a b : Root}
      → s ≡ t
      → a ≡ b
      → Recorded s digest mode a
      → Recorded t digest mode b
  Recorded-cong digest mode e f r = rw (e, f) at r

  Inspected-cong :
      (m : Bytes) (image : RemoteImage) {s t : String}
      → s ≡ t
      → Inspected R M.network s m image
      → Inspected R M.network t m image
  Inspected-cong m image e i = rw e at i

  read_int-eq_ok : (s : String) {n : ℕ} → read_int s ≡ ok n → int_of_text s ≡ some n
  read_int-eq_ok s h = ground arith

  record_image-Recorded :
      (source_sha image_digest mode : String) (root : Root) {name : String} {root' : Root}
      → record_image R M env source_sha image_digest mode root ≡ (ok name, root')
      → (root ≡ missing) × Recorded source_sha image_digest mode root'
  unfolding record_image
  record_image-Recorded source_sha image_digest mode root h =
      let (run_id, run, h₁) = lift->>=-eq_ok (read_int _) _ root h in
      let (run_attempt, attempt, h₂) = lift->>=-eq_ok (read_int _) _ root h₁ in
      let (valid, _, was, now) =
        write_evidence-eq_ok R source_sha run_id run_attempt image_digest mode root h₂ in
      let (_, _, first, _, _) =
        (evidence_document-accepted_iff source_sha run_id run_attempt image_digest mode).0 valid in
      (was, (run_id, read_int-eq_ok _ run, rw first at now))

  -- When a postflight succeeds, there is an image whose manifest, config and labels have passed
  -- every check for the commit of the run, whose config is the local candidate's, and whose digest is
  -- the one of the recheck unless it was pushed just now; the evidence directory did not exist and now
  -- holds the evidence of that image alone; and no workflow output was written.
  pub postflight-Published :
      (image_ref candidate push_needed prepush_digest : String) (retries : ℕ) (delay_bounded : Bool)
      (w : World W) {w' : World W}
      → postflight R M env image_ref candidate push_needed prepush_digest retries delay_bounded w
        ≡ (ok tt, w')
      → (image : RemoteImage) × (manifest : Bytes) × (mode : String) × Inspected R M.network
          (or_empty (env "GITHUB_SHA"))
          manifest
          image
        × (image.config_digest ≡ candidate)
        × PublishMode push_needed prepush_digest image.digest mode
        × (w.evidence ≡ missing)
        × Recorded (or_empty (env "GITHUB_SHA")) image.digest mode w'.evidence
        × (w'.outputs ≡ w.outputs)
  unfolding postflight
  postflight-Published image_ref candidate push_needed prepush_digest retries delay_bounded w {w'}
        h =
      let (source_sha, w₁, verified, h₁) =
        >>=-eq-ok (on_outside (verify_local R M env image_ref candidate)) _ w h in
      let (plan, planned, h₂) = lift->>=-eq_ok (publish_plan push_needed prepush_digest) _ w₁ h₁ in
      let (image, w₂, awaited, h₃) =
        >>=-eq-ok
          (on_outside (await_image R M env source_sha candidate plan.0 retries delay_bounded)) _ w₁
          h₂ in
      let (name, w₃, recorded, h₄) =
        >>=-eq-ok (on_evidence (record_image R M env source_sha image.digest plan.1)) _ w₂ h₃ in
      let (verified', outputs₁, evidence₁) = on_outside-eq_ok _ w verified in
      let (awaited', outputs₂, evidence₂) = on_outside-eq_ok _ w₁ awaited in
      let (recorded', outputs₃) = on_evidence-eq_ok _ w₂ recorded in
      let same = verify_local-source R M env image_ref candidate w.outside verified' in
      let last : w₃ ≡ w' = ap (λ (p : Result (Unit {0}) × World W). p.1) h₄ in
      let (m, inspected, config, digest) =
        await_image-eq_ok R M env source_sha candidate plan.0 retries delay_bounded w₁.outside
          awaited' in
      let (was, now) = record_image-Recorded source_sha image.digest plan.1 w₂.evidence recorded' in
      (
        image,
        m,
        plan.1,
        Inspected-cong m image same inspected,
        config,
        plan-PublishMode push_needed prepush_digest image planned digest,
        sym evidence₁ ∙ sym evidence₂ ∙ was,
        Recorded-cong image.digest plan.1 same (ap (λ (v : World W). v.evidence) last) now,
        ap (λ (v : World W). v.outputs) (sym last) ∙ outputs₃ ∙ outputs₂ ∙ outputs₁,
      )
