-- ===== src/Tests/Renders.antt =====
-- The theorems about rendered manifests, at small ones.
use devpath_shared.Gate.JobName.{derived_migration_job_name}
use devpath_shared.Context.Source.{digest_pattern}
use devpath_shared.Base.Pattern.{literal, matches, fullmatch}
use devpath_shared.Gate.Format.{nonzero}
use devpath_shared.Base.Text.{remove_prefix, after_prefix, strip_left, take_text, codes, strip}
use devpath_shared.Gate.Scan.{
  split_documents, token, entry, find_all, separator, last_break, line_end, spaces,
}
use devpath_shared.Base.{◌≡◌, ◌≢◌, refl, [], ◌∷◌, String, ◌<>◌}
use devpath_shared.Base.Result.{ok}
use devpath_shared.Json.{null}
use devpath_shared.Runtime.{Runtime}
use devpath_shared.Gate.Text.{lf_text}
use devpath_shared.Gate.Fence.{max_kustomization_bytes}
use devpath_shared.Gate.Lines.{split_lines, chomp, occurs, lf_lines, indent, drop_text}
use devpath_shared.Gate.Kustomization.{
  patch_of, selectors, validate_migration_kustomization, deeper, skip_blanks, block_from,
  job_name_groups, patch_for_job_name, split_patch, check_forbidden, prior_names, check_prior,
  check_selector, validate_migration_image_selector, migration_base_parts, migration_image_block,
}
use devpath_shared.Gate.Render.{
  validate_migration_render, validate_writer_fence_render, validate_base_migration_render,
  count_suspend, replicas_in, images_in, check_options, names_in, single_document,
}
use devpath_shared.Gate.Render.Exact.{
  RunsJob, validate_base_migration_render-not_released, validate_migration_render-SelectsJob,
}
use devpath_shared.Tests.Sample.{sha_c, image_digest, runtime, Table, name_of}
use devpath_shared.Tests.Kustomizations.{job_name, released}

abbrev manifest_of : String → String → String
manifest_of name suspend =
    "kind: ConfigMap\nmetadata:\n  name: settings\n---\nkind: Job\nmetadata:\n  name: "
    <> (name
        <> ("\nspec:\n  suspend: "
            <> (suspend
                <> ("\n  template:\n    image: ghcr.io/devpathai/devpath-migration@" <> image_digest
                    <> "\n"))))

abbrev writer_manifest : String
writer_manifest =
    "kind: Service\n--- \n\nkind: Deployment\nmetadata:\n  name: devpath-sandbox-svc\nspec:\n  replicas: 0\n"

abbrev render_table : Table
render_table =
    (51, released, sha_c, null)
    ∷ (52, manifest_of job_name "false", sha_c, null)
    ∷ (53, manifest_of "devpath-flyway-migrate" "true", sha_c, null)
    ∷ (54, writer_manifest, sha_c, null)
    ∷ []

abbrev render_runtime : Runtime
render_runtime = record runtime { decode = name_of render_table }

kustomization_is_valid :
    validate_migration_kustomization render_runtime (51 ∷ 10 ∷ []) image_digest sha_c ≡ ok tt
unfolding validate_migration_kustomization nonzero fullmatch digest_pattern remove_prefix
    migration_base_parts lf_text check_forbidden occurs lf_lines skip_blanks split_patch selectors
    split_lines chomp check_selector check_prior prior_names literal matches after_prefix codes
    strip strip_left take_text block_from deeper job_name_groups migration_image_block
    patch_for_job_name validate_migration_image_selector drop_text indent
kustomization_is_valid = refl

render_is_valid :
    validate_migration_render render_runtime (52 ∷ 10 ∷ []) image_digest sha_c ≡ ok job_name
unfolding validate_migration_render lf_text nonzero fullmatch digest_pattern remove_prefix
    derived_migration_job_name check_options occurs single_document split_documents separator
    line_end spaces last_break find_all entry token literal matches after_prefix codes strip
    strip_left take_text drop_text split_lines count_suspend images_in names_in
render_is_valid = refl

base_is_inert : validate_base_migration_render render_runtime (53 ∷ 10 ∷ []) ≡ ok tt
unfolding validate_base_migration_render lf_text check_options occurs after_prefix single_document
    split_documents separator line_end spaces last_break find_all entry token codes drop_text
    names_in count_suspend
base_is_inert = refl

writer_is_fenced :
    validate_writer_fence_render render_runtime (54 ∷ 10 ∷ []) "devpath-sandbox-svc" ≡ ok tt
unfolding validate_writer_fence_render lf_text single_document split_documents separator
    after_prefix line_end spaces last_break find_all entry token codes drop_text names_in
    replicas_in
writer_is_fenced = refl

validate_migration_render-SelectsJob_example :
    (content body : String) × (lf_text render_runtime
        (51 ∷ 10 ∷ [])
        "migration kustomization"
        max_kustomization_bytes
      ≡ ok content)
    × (content ≡ body <> patch_of job_name)
    × (selectors (split_lines body) ≡ ("digest", image_digest) ∷ [])
    × RunsJob render_runtime (52 ∷ 10 ∷ []) image_digest job_name
validate_migration_render-SelectsJob_example =
    validate_migration_render-SelectsJob render_runtime (51 ∷ 10 ∷ []) (52 ∷ 10 ∷ []) image_digest
      sha_c kustomization_is_valid render_is_valid

validate_base_migration_render-not_released_example :
    validate_migration_render render_runtime (53 ∷ 10 ∷ []) image_digest sha_c ≢ ok job_name
validate_base_migration_render-not_released_example =
    validate_base_migration_render-not_released render_runtime (53 ∷ 10 ∷ []) image_digest sha_c
      job_name base_is_inert
