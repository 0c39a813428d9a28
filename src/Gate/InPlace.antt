-- ===== src/Gate/InPlace.antt =====
-- The kustomizations on disk: `write_migration_kustomization` and `write_writer_fence_kustomization`.
pub mod Atomic
use devpath_shared.Base.{Bool, String, ◌<>◌, if◌then◌else◌}
use devpath_shared.Base.Result.{Result, ok, err, refused, ◌>>=◌, ◌>>◌}
use devpath_shared.Base.Exec.{Exec}
use devpath_shared.Runtime.{Bytes, Runtime}
use devpath_shared.Gate.JobName.{derived_migration_job_name}
use devpath_shared.Gate.File.{File, read_regular_file}
use devpath_shared.Gate.Result.Folder.{written_file}
use devpath_shared.Gate.Fence.{max_kustomization_bytes, validate_writer_fence, render_writer_fence}
use devpath_shared.Gate.Kustomization.{
  validate_migration_kustomization, render_migration_kustomization,
}

-- The file, whether something stands at the path of its temporary neighbour, and whether that can be
-- written and renamed.
pub record Site : Type 0 where
  pub temporary_taken : Bool
  pub can_replace : Bool
  pub file : File

-- What both functions do with what they have rendered: it replaces the file in one step, and the file
-- is read again and checked. A neighbour that could not be renamed is removed.
unfoldable pub write_in_place :
    {A : Type 0} → String → String → String → Result Bytes → (Bytes → Result A) → Exec Site A
write_in_place occupied failed label rendered check site = elim rendered [
  | err e ↦ (err e, site)
  | ok result ↦
      if site.temporary_taken
      then (err (refused occupied), site)
      else if site.can_replace
      then (
        read_regular_file (written_file result) label max_kustomization_bytes >>= check,
        record site { file = written_file result },
      )
      else (err (refused failed), site)
]

module _ (R : Runtime) where
  unfoldable pub write_migration_kustomization : String → String → Exec Site String
  write_migration_kustomization image_digest release_manifest_sha256 site =
      write_in_place "migration kustomization temporary path is occupied"
        "could not atomically set the migration release" "migration kustomization"
        (do
          raw ← read_regular_file site.file "migration kustomization" max_kustomization_bytes
          render_migration_kustomization R raw image_digest release_manifest_sha256)
        (λ raw. (do
          validate_migration_kustomization R raw image_digest release_manifest_sha256
          derived_migration_job_name image_digest release_manifest_sha256))
        site

  unfoldable pub write_writer_fence_kustomization : String → Exec Site (Unit {0})
  write_writer_fence_kustomization service_name site =
      write_in_place "writer fence kustomization temporary path is occupied"
        "could not atomically set the writer fence" (service_name <> " writer fence")
        (do
          raw ←
              read_regular_file site.file (service_name <> " kustomization") max_kustomization_bytes
          render_writer_fence R raw service_name)
        (λ raw. validate_writer_fence R raw service_name) site
