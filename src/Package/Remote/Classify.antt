-- ===== src/Package/Remote/Classify.antt =====
-- When the classification lets the publication go on, and when it takes it as done.
use devpath_shared.Base.{
  ◌∙◌, ℕ, ◌≤◌, ◌<◌, ◌≡◌, ◌↔◌, Bool, true, false, List, [], ◌∷◌, String, length, All, arith,
}
use devpath_shared.Base.Result.{ok, ensure}
use devpath_shared.Base.Exec.{Exec, lift, >>=-eq-ok, >>=-of_ok}
use devpath_shared.Runtime.{Bytes, Runtime}
use devpath_shared.Package.Artifact.{Specs, IsExact, validate_artifact_bytes_iff}
use devpath_shared.Package.Remote.{
  Fetched, known_status, fetch_all, count_present, validate_all, decide_remote,
  classify_remote_artifacts,
}

abbrev pub IsMissing : Fetched → Type 0
IsMissing f = f.status ≡ 404

abbrev IsKnown : Fetched → Type 0
IsKnown f = known_status f.status ≡ true

count_present-le : (fs : List Fetched) → count_present fs ≤ length fs
count_present-le [] = omega arith
count_present-le (f ∷ fs) = ground (arith, count_present-le fs)

count_present-zero_iff :
    (fs : List Fetched) → All IsKnown fs → (count_present fs ≡ 0) ↔ All IsMissing fs
count_present-zero_iff [] k = ground arith
count_present-zero_iff (f ∷ fs) (k, ks) = ground (arith, count_present-zero_iff fs ks)

module _ (R : Runtime) where
  -- An artifact that is there with the bytes of its specification.
  abbrev pub IsPresent : Fetched → Type 0
  IsPresent f = (f.status ≡ 200) × IsExact R f.artifact f.payload

  validate_all_iff :
      (fs : List Fetched)
      → ((count_present fs ≡ length fs) × (validate_all R fs ≡ ok tt)) ↔ All IsPresent fs
  unfolding validate_all
  validate_all_iff [] = ground arith
  validate_all_iff (f ∷ fs) = ground (
    arith,
    validate_all_iff fs,
    count_present-le fs,
    validate_artifact_bytes_iff R f.artifact f.payload,
  )

  decide_remote-true_iff :
      (require_present : Bool) (fs : List Fetched)
      → (decide_remote R require_present fs ≡ ok true)
        ↔ ((require_present ≡ false) × (count_present fs ≡ 0))
  unfolding decide_remote
  decide_remote-true_iff require_present fs = ground arith

  decide_remote-false_iff :
      (require_present : Bool) (fs : List Fetched)
      → (decide_remote R require_present fs ≡ ok false) ↔ ((0 < length fs) × All IsPresent fs)
  unfolding decide_remote
  decide_remote-false_iff require_present fs =
      ground (arith, count_present-le fs, validate_all_iff fs)

  module _ {W : Type 0} (fetch : String → Exec W (ℕ × Bytes)) where
    -- The entries answer the artifacts in order, and no status but 200 and 404 is among them.
    fetch_all-IsKnown :
        (specs : Specs) (w : W) {fs : List Fetched} {w' : W}
        → fetch_all fetch specs w ≡ (ok fs, w')
        → All IsKnown fs × (length fs ≡ length specs)
    unfolding fetch_all
    fetch_all-IsKnown [] w h = ground arith
    fetch_all-IsKnown ((name, spec) ∷ specs) w h =
        let (p, v, asked, g) = >>=-eq-ok (fetch name) _ w h in
        let (u, v', known, g') = >>=-eq-ok (lift (ensure (known_status p.0) _)) _ v g in
        let (rest, v'', others, last) = >>=-eq-ok (fetch_all fetch specs) _ v' g' in
        let ih = fetch_all-IsKnown specs v' others in ground arith

    -- The publication is reported absent exactly when every artifact answers 404, and no run that must
    -- find it reports that.
    pub classify-IsMissing_iff :
        (specs : Specs) (require_present : Bool) (w w' : W)
        → (classify_remote_artifacts R fetch specs require_present w ≡ (ok true, w')) ↔ (
            (require_present ≡ false)
            × ((fs : List Fetched) × (fetch_all fetch specs w ≡ (ok fs, w')) × All IsMissing fs))
    unfolding classify_remote_artifacts
    classify-IsMissing_iff specs rp w w' = (
      λ h.
          let (fs, v, fetched, decided) = >>=-eq-ok (fetch_all fetch specs) _ w h in
          let known = fetch_all-IsKnown specs w fetched in
          let d = (decide_remote-true_iff rp fs).0 (ground arith) in
          (d.0, (fs, ground arith, (count_present-zero_iff fs known.0).0 d.1)),
      λ r.
          let known = fetch_all-IsKnown specs w r.1.1 in
          >>=-of_ok (fetch_all fetch specs) _ w r.1.1
          ∙ ground (
            arith,
            (decide_remote-true_iff rp r.1.0).1
                (r.0, (count_present-zero_iff r.1.0 known.0).1 r.1.2),
          ),
    )

    -- The publication is reported done exactly when every artifact answers 200 with the bytes of its
    -- specification; nothing partial and nothing that differs passes.
    pub classify-IsPresent_iff :
        (specs : Specs) (require_present : Bool) (w w' : W)
        → (classify_remote_artifacts R fetch specs require_present w ≡ (ok false, w')) ↔ (
            (0 < length specs)
            × ((fs : List Fetched) × (fetch_all fetch specs w ≡ (ok fs, w')) × All IsPresent fs))
    unfolding classify_remote_artifacts
    classify-IsPresent_iff specs rp w w' = (
      λ h.
          let (fs, v, fetched, decided) = >>=-eq-ok (fetch_all fetch specs) _ w h in
          let known = fetch_all-IsKnown specs w fetched in
          let d = (decide_remote-false_iff rp fs).0 (ground arith) in
          (omega (arith, d.0, known.1), (fs, ground arith, d.1)),
      λ r.
          let known = fetch_all-IsKnown specs w r.1.1 in
          >>=-of_ok (fetch_all fetch specs) _ w r.1.1
          ∙ ground
              (arith, (decide_remote-false_iff rp r.1.0).1 (omega (arith, r.0, known.1), r.1.2)),
    )
