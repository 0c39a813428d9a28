-- ===== src/Gate/InPlace/Atomic.antt =====
-- A kustomization on disk is replaced whole or left as it is.
use devpath_shared.Base.{◌≡◌, ◌≤◌, ◌<◌, refl, ◌∙◌, ◌⊎◌, inl, inr, String, length, Bool-cases, arith}
use devpath_shared.Base.Result.{Error, Result, ok, err, refused, ◌>>=◌, >>=-eq-ok}
use devpath_shared.Runtime.{Bytes, Runtime}
use devpath_shared.Gate.JobName.{derived_migration_job_name}
use devpath_shared.Gate.Text.{lf_text-eq_ok}
use devpath_shared.Gate.File.{read_regular_file}
use devpath_shared.Gate.File.Whole.{read_regular_file_iff}
use devpath_shared.Gate.Result.Folder.{written_file, written_file-Serves}
use devpath_shared.Gate.Fence.{max_kustomization_bytes}
use devpath_shared.Gate.Kustomization.{
  validate_migration_kustomization, render_migration_kustomization,
}
use devpath_shared.Gate.Kustomization.Selects.{
  SelectsJob, validate_migration_kustomization-SelectsJob,
}
use devpath_shared.Gate.Kustomization.Rendered.{render_migration_kustomization-valid}
use devpath_shared.Gate.InPlace.{Site, write_in_place, write_migration_kustomization}

-- Either the file holds what was rendered and the check of it is the result, or nothing has changed.
in_place_cases :
    {A : Type 0} (occupied failed label : String) (rendered : Result Bytes)
    (check : Bytes → Result A) (site : Site)
    → ((raw : Bytes)
        → rendered ≡ ok raw
        → (0 < length raw) × (length raw ≤ max_kustomization_bytes))
    → ((raw : Bytes) × (rendered ≡ ok raw)
        × (write_in_place occupied failed label rendered check site
            ≡ (check raw, record site { file = written_file raw })))
      ⊎ ((e : Error) × (write_in_place occupied failed label rendered check site ≡ (err e, site)))
unfolding write_in_place
in_place_cases occupied failed label (err e) check site bounded = inr (e, refl)
in_place_cases occupied failed label (ok raw) check site bounded =
    let (above, below) = bounded raw refl in
    let read =
      (read_regular_file_iff (written_file raw) raw (written_file-Serves raw) label
          max_kustomization_bytes raw).1
        (refl, refl, refl, refl, above, below, refl, refl, refl, refl, refl) in
    elim (Bool-cases site.temporary_taken) [
      | inl taken ↦ inr (refused occupied, rw taken refl)
      | inr free ↦ elim (Bool-cases site.can_replace) [
        | inl can ↦ inl (raw, refl, rw (free, can, read) refl)
        | inr cannot ↦ inr (refused failed, rw (free, cannot) refl)
      ]
    ]

module _ (R : Runtime) where
  -- The site after the file has been replaced.
  abbrev pub Replaced : String → String → Site → Type 0
  Replaced image_digest release_manifest_sha256 site =
      (name : String) × (result : Bytes) × (write_migration_kustomization R image_digest
          release_manifest_sha256 site
        ≡ (ok name, record site { file = written_file result }))
      × (derived_migration_job_name image_digest release_manifest_sha256 ≡ ok name)
      × SelectsJob R result image_digest release_manifest_sha256

  abbrev rendered : String → String → Site → Result Bytes
  rendered image_digest release site =
      read_regular_file site.file "migration kustomization" max_kustomization_bytes >>= λ raw.
      render_migration_kustomization R raw image_digest release

  abbrev check : String → String → Bytes → Result String
  check image_digest release raw =
      validate_migration_kustomization R raw image_digest release >>= λ _.
      derived_migration_job_name image_digest release

  accepted :
      (image_digest release : String) (site : Site) (result : Bytes)
      → rendered image_digest release site ≡ ok result
      → validate_migration_kustomization R result image_digest release ≡ ok tt
  accepted image_digest release site result h =
      let (raw, _, made) =
        >>=-eq-ok (read_regular_file site.file "migration kustomization" max_kustomization_bytes) _
          h in
      render_migration_kustomization-valid R raw image_digest release made

  bounded :
      (image_digest release : String) (site : Site) (result : Bytes)
      → rendered image_digest release site ≡ ok result
      → (0 < length result) × (length result ≤ max_kustomization_bytes)
  bounded image_digest release site result h =
      let (_, _, _, _, read, _, _, _, _, _) =
        validate_migration_kustomization-SelectsJob R result image_digest release
          (accepted image_digest release site result h) in
      let (above, below, _, _, _, _) =
        lf_text-eq_ok R result "migration kustomization" max_kustomization_bytes read in
      (above, below)

  -- Whatever stands on disk, writing the kustomization of a migration either succeeds, and then the file
  -- is a whole kustomization that selects the digest and the job of the name that is returned, or it
  -- is refused, and then the file is the old one. It never ends with a file that it has written and
  -- then refused.
  pub write_migration_kustomization-atomic :
      (image_digest release_manifest_sha256 : String) (site : Site)
      → Replaced image_digest release_manifest_sha256 site
        ⊎ ((e : Error) × (write_migration_kustomization R image_digest release_manifest_sha256 site
              ≡ (err e, site)))
  unfolding write_migration_kustomization
  write_migration_kustomization-atomic image_digest release site =
      elim (in_place_cases "migration kustomization temporary path is occupied"
        "could not atomically set the migration release" "migration kustomization"
        (rendered image_digest release site) (check image_digest release) site
        (bounded image_digest release site)) [
          | inl (result, is_result, written) ↦
              let valid = accepted image_digest release site result is_result in
              let selects =
                validate_migration_kustomization-SelectsJob R result image_digest release valid in
              let (_, _, name, _, _, _, derived, _, _, _) = selects in
              inl (name, result, written ∙ ground (arith, valid, derived), derived, selects)
          | inr refusal ↦ inr refusal
        ]
