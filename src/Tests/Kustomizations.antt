-- ===== src/Tests/Kustomizations.antt =====
-- The theorems about the kustomizations, at small texts.
use devpath_shared.Base.{
  ◌⊎◌, true, false, ◌≡◌, refl, true, some, ◌+◌, ◌≤◌, ◌++◌, String, ◌<>◌, leb, length, if◌then◌else◌,
  arith,
}
use devpath_shared.Base.Text.{codes, strip, strip_left, take_text, after_prefix, remove_prefix}
use devpath_shared.Base.Pattern.{fullmatch, literal, matches}
use devpath_shared.Context.Source.{digest_pattern}
use devpath_shared.Gate.Format.{nonzero}
use devpath_shared.Gate.JobName.{derived_migration_job_name}
use devpath_shared.Gate.Lines.{split_lines, chomp, lf_lines, occurs, drop_text, indent}
use devpath_shared.Gate.InPlace.{Site, write_migration_kustomization}
use devpath_shared.Gate.InPlace.Atomic.{Replaced, write_migration_kustomization-atomic}
use devpath_shared.Gate.Result.Folder.{written_file}
use devpath_shared.Base.Result.{Error, err, ok}
use devpath_shared.Runtime.{Runtime}
use devpath_shared.Gate.Text.{lf_text}
use devpath_shared.Gate.Fence.{
  count_overrides, override_here, max_kustomization_bytes, render_writer_fence,
  validate_writer_fence,
}
use devpath_shared.Gate.Fence.Once.{fence_of, render_writer_fence_complete}
use devpath_shared.Gate.Kustomization.{
  migration_base_parts, check_forbidden, skip_blanks, split_patch, selectors, check_selector,
  check_prior, prior_names, block_from, deeper, job_name_groups, migration_image_block,
  patch_for_job_name, validate_migration_image_selector, migration_release_patch, render_parts,
  select_digest, patch_of, validate_migration_kustomization, render_migration_kustomization,
}
use devpath_shared.Gate.Kustomization.Selects.{
  SelectsJob, validate_migration_kustomization-SelectsJob,
}
use devpath_shared.Tests.Sample.{sha_c, image_digest, runtime}

abbrev writer_base : String
writer_base = "resources:\n- deployment.yaml\n"

abbrev fenced : String
fenced = writer_base <> fence_of "devpath-platform-svc"

abbrev writer_runtime : Runtime
writer_runtime = record runtime {
  decode = λ raw. if leb (length raw) 29 then some writer_base else some fenced;
}

writer_base_is_read :
    lf_text writer_runtime
      (codes writer_base)
      "devpath-platform-svc kustomization"
      max_kustomization_bytes
    ≡ ok writer_base
unfolding lf_text codes
writer_base_is_read = refl

writer_base_is_bare : count_overrides true (codes writer_base) ≡ 0
unfolding count_overrides codes override_here
writer_base_is_bare = refl

room :
    length (codes writer_base) + length (codes (fence_of "devpath-platform-svc"))
    ≤ max_kustomization_bytes
unfolding codes
room = omega arith

appended :
    writer_runtime.decode (codes writer_base ++ codes (fence_of "devpath-platform-svc"))
    ≡ some fenced
unfolding codes
appended = refl

render_writer_fence_complete_example :
    (render_writer_fence writer_runtime (codes writer_base) "devpath-platform-svc"
      ≡ ok (codes writer_base ++ codes (fence_of "devpath-platform-svc")))
    × (validate_writer_fence writer_runtime
          (codes writer_base ++ codes (fence_of "devpath-platform-svc"))
          "devpath-platform-svc"
        ≡ ok tt)
render_writer_fence_complete_example =
    render_writer_fence_complete writer_runtime (codes writer_base) "devpath-platform-svc"
      writer_base writer_base_is_read writer_base_is_bare refl room
      (record { appended = appended; last_line = λ h. h })

abbrev pub job_name : String
job_name = "devpath-flyway-migrate-aaaaaaaaaaaa-cccccccccccccccccccccccc"

abbrev body_of : String → String
body_of selector =
    "resources:\n- job.yaml\nimages:\n- name: ghcr.io/devpathai/devpath-migration\n  newName: ghcr.io/devpathai/devpath-migration\n  "
    <> (selector <> "\n")

abbrev pub released : String
released = body_of ("digest: " <> image_digest) <> patch_of job_name

abbrev legacy : String
legacy = body_of "newTag: sha-1"

abbrev migration_runtime : Runtime
migration_runtime = record runtime {
  decode = λ raw. if leb (length raw) 170 then some legacy else some released;
}

released_is_valid :
    validate_migration_kustomization migration_runtime (codes released) image_digest sha_c ≡ ok tt
unfolding codes nonzero fullmatch digest_pattern remove_prefix migration_base_parts lf_text
    check_forbidden occurs lf_lines skip_blanks split_patch selectors split_lines chomp
    check_selector check_prior prior_names literal matches after_prefix strip strip_left take_text
    block_from deeper job_name_groups migration_image_block patch_for_job_name
    validate_migration_image_selector drop_text indent validate_migration_kustomization
released_is_valid = refl

legacy_is_rendered :
    render_migration_kustomization migration_runtime (codes legacy) image_digest sha_c
    ≡ ok (codes released)
unfolding codes nonzero fullmatch digest_pattern remove_prefix migration_base_parts lf_text
    check_forbidden occurs lf_lines skip_blanks split_patch selectors split_lines chomp
    check_selector check_prior prior_names literal matches after_prefix strip strip_left take_text
    block_from deeper job_name_groups migration_image_block patch_for_job_name
    validate_migration_image_selector drop_text indent validate_migration_kustomization
    render_migration_kustomization derived_migration_job_name migration_release_patch select_digest
    render_parts
legacy_is_rendered = refl

validate_migration_kustomization-SelectsJob_example :
    SelectsJob migration_runtime (codes released) image_digest sha_c
validate_migration_kustomization-SelectsJob_example =
    validate_migration_kustomization-SelectsJob migration_runtime (codes released) image_digest
      sha_c released_is_valid

abbrev site : Site
site = record { temporary_taken = false; can_replace = true; file = written_file (codes legacy) }

write_migration_kustomization-atomic_example :
    Replaced migration_runtime image_digest sha_c site
    ⊎ ((e : Error) × (write_migration_kustomization migration_runtime image_digest sha_c site
          ≡ (err e, site)))
write_migration_kustomization-atomic_example =
    write_migration_kustomization-atomic migration_runtime image_digest sha_c site
