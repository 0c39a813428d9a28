-- ===== src/Package/Remote/Verify.antt =====
-- What one `fetch` can answer, and what `verify_remote` has seen when it returns.
use devpath_shared.Base.{
  ℕ, suc, ◌<◌, ◌≡◌, ◌≢◌, ◌⊎◌, inl, inr, refl, ◌↔◌, Bool, true, false, Option, none, some, List, [],
  String, ◌<>◌, All, arith, eq_iff, if◌then◌else◌, take,
}
use mathlib.Core.Path.{subst, sym}
use mathlib.Core.Bool.{false≢true}
use mathlib.Core.Option.{some-injective}
use devpath_shared.Base.Decimal.{show}
use devpath_shared.Base.Result.{Result, ok, err, refused, >>=-eq-ok}
use devpath_shared.Base.Exec.{>>=-eq-ok as exec-eq-ok, Settles, retry-ok_iff, after_attempts}
use devpath_shared.Runtime.{Bytes, Runtime}
use devpath_shared.Package.Artifact.{ArtifactSpec, artifacts}
use devpath_shared.Package.Redirect.{is_absent_package_response}
use devpath_shared.Package.Remote.{
  Fetched, fetch_all, classify_remote_artifacts, Remote, Opened, response, http_failure,
  url_failure, find_spec, maven_base_url, read_reply, fetch_artifact, fetch, verify_remote,
}
use devpath_shared.Package.Remote.Classify.{
  IsPresent, classify-IsMissing_iff, classify-IsPresent_iff,
}

module _ {W : Type 0} (N : Remote W) where
  abbrev url_of : String → String
  url_of name = maven_base_url <> "/" <> name

  -- What the service answered when `fetch` returned a status and bytes: a response whose body was read
  -- up to one byte past the size that the specification gives, or a failure that counts as absence.
  abbrev pub Answered : ArtifactSpec → String → ℕ → Bytes → W → W → Type 0
  Answered spec name status raw w w' =
      ((body : Bytes) × (N.open_url (url_of name) w ≡ (ok (response status body), w'))
        × (raw ≡ take (suc spec.size) body))
      ⊎ ((url : String) × (N.open_url (url_of name) w ≡ (ok (http_failure 404 url), w'))
          × (is_absent_package_response (N.urlsplit url) 404 ≡ ok true)
          × (status ≡ 404))

  absent-status :
      (url : String) (code : ℕ)
      → is_absent_package_response (N.urlsplit url) code ≡ ok true
      → code ≡ 404
  unfolding is_absent_package_response
  absent-status url code h = ground arith

  read_reply-Answered :
      (name : String) (spec : ArtifactSpec) (opened : Opened) (w w' : W) {status : ℕ} {raw : Bytes}
      → N.open_url (url_of name) w ≡ (ok opened, w')
      → read_reply N name spec opened ≡ ok (status, raw)
      → Answered spec name status raw w w'
  unfolding read_reply
  read_reply-Answered name spec (response s body) w w' e h = inl (body, ground arith, ground arith)
  read_reply-Answered name spec (http_failure code url) w w' {status} {raw} e h =
      let r = >>=-eq-ok (is_absent_package_response (N.urlsplit url) code) _ h in
      of_absence r.0 r.1 r.2
    where
      of_absence :
          (absent : Bool)
          → is_absent_package_response (N.urlsplit url) code ≡ ok absent
          → if◌then◌else◌ {A = Result (ℕ × Bytes)} absent
              (ok (404, []))
              (err (refused ("remote " <> name <> " returned HTTP " <> show code)))
            ≡ ok (status, raw)
          → Answered spec name status raw w w'
      of_absence true a g = let is_404 = absent-status url code a in inr (url, cc, cc, ground arith)
      of_absence false a g = absurd (ground arith)
  read_reply-Answered name spec url_failure w w' e h = absurd (ground arith)

  fetch_artifact-Answered :
      (name : String) (o : Option ArtifactSpec) (w : W) {spec : ArtifactSpec} {status : ℕ}
      {raw : Bytes} {w' : W}
      → o ≡ some spec
      → fetch_artifact N name o w ≡ (ok (status, raw), w')
      → Answered spec name status raw w w'
  unfolding fetch_artifact
  fetch_artifact-Answered name none w e h = cc
  fetch_artifact-Answered name (some s) w {spec} {status} {raw} {w'} e h =
      let (opened, v, asked, g) = exec-eq-ok (N.open_url (url_of name)) _ w h in
      subst (λ a. Answered a name status raw w w') (some-injective s spec e)
        (read_reply-Answered name s opened w w' (ground arith) (ground arith))

  -- A `fetch` that returns has been answered by a response, or by a 404 of the package host itself.
  pub fetch-Answered :
      (name : String) (w : W) {spec : ArtifactSpec} {status : ℕ} {raw : Bytes} {w' : W}
      → find_spec name artifacts ≡ some spec
      → fetch N name w ≡ (ok (status, raw), w')
      → Answered spec name status raw w w'
  unfolding fetch
  fetch-Answered name w known h = fetch_artifact-Answered name (find_spec name artifacts) w known h

  module _ (R : Runtime) (actor token : String) where
    -- `verify_remote` reports the publication as present exactly when there are credentials and one of
    -- its attempts, after refused ones alone, finds every artifact with its exact bytes; as absent
    -- exactly when the run need not find it and such an attempt gets 404 for every artifact.
    pub verify_remote_iff :
        (require_present absent : Bool) (retries : ℕ) (w w' : W)
        → (verify_remote N R actor token require_present retries w ≡ (ok absent, w')) ↔ (
            (actor ≢ "")
            × (token ≢ "")
            × Settles
                (classify_remote_artifacts R (fetch N) artifacts require_present)
                N.sleep
                retries
                w
                absent
                w')
    unfolding verify_remote
    verify_remote_iff require_present absent retries w w' = ground (
      arith,
      eq_iff actor "",
      eq_iff token "",
      retry-ok_iff (classify_remote_artifacts R (fetch N) artifacts require_present) N.sleep retries
          w absent w',
    )

    abbrev Found : ℕ → W → W → Type 0
    Found k w w' =
        (fs : List Fetched) × (fetch_all (fetch N) artifacts
            (after_attempts (classify_remote_artifacts R (fetch N) artifacts true) N.sleep k w)
          ≡ (ok fs, w'))
        × All (IsPresent R) fs

    Settles-Found :
        (absent : Bool) (retries : ℕ) (w w' : W)
        → Settles (classify_remote_artifacts R (fetch N) artifacts true) N.sleep retries w absent w'
        → (absent ≡ false) × ((k : ℕ) × (k < retries) × Found k w w')
    Settles-Found true retries w w' (k, below, before, last) =
        absurd
          (false≢true (sym ((classify-IsMissing_iff R (fetch N) artifacts true _ w').0 last).0))
    Settles-Found false retries w w' (k, below, before, last) =
        (refl, (k, below, ((classify-IsPresent_iff R (fetch N) artifacts true _ w').0 last).1))

    -- A postflight that returns has, in one of its attempts, fetched all three artifacts with status
    -- 200 and the bytes of their specifications; it never reports absence.
    pub postflight-present :
        (retries : ℕ) (w w' : W) {absent : Bool}
        → verify_remote N R actor token true retries w ≡ (ok absent, w')
        → (absent ≡ false) × ((k : ℕ) × (k < retries) × Found k w w')
    postflight-present retries w w' {absent} h =
        Settles-Found absent retries w w' ((verify_remote_iff true absent retries w w').0 h).2
