-- ===== src/Gate/Render.antt =====
-- The rendered manifests: `validate_migration_render`, `validate_writer_fence_render` and
-- `validate_base_migration_render`.
pub mod Exact
use Prim.Native.Char.{code}
use devpath_shared.Base.{
  ℕ, Bool, true, false, ◌&&◌, ◌||◌, not, Option, none, some, List, [], ◌∷◌, String, ◌<>◌, ◌==◌,
  ◌==ˢ◌, length, all_of, map, if◌then◌else◌,
}
use devpath_shared.Base.Text.{codes, strip}
use devpath_shared.Base.Pattern.{is_digit}
use devpath_shared.Base.Result.{Result, ok, ◌>>=◌, ◌>>◌, ensure, or_refuse}
use devpath_shared.Context.Source.{digest_pattern}
use devpath_shared.Json.{text, contains}
use devpath_shared.Runtime.{Bytes, Runtime}
use devpath_shared.Gate.Format.{image_repository, nonzero}
use devpath_shared.Gate.Values.{single}
use devpath_shared.Gate.JobName.{derived_migration_job_name}
use devpath_shared.Gate.Facts.{eq_lists}
use devpath_shared.Gate.Text.{lf_text, holds}
use devpath_shared.Gate.Fence.{writer_service_names}
use devpath_shared.Gate.Lines.{split_lines, occurs, starts, filter}
use devpath_shared.Gate.Kustomization.{migration_job_base_name}
use devpath_shared.Gate.Scan.{entry, find_lines, documents}

abbrev pub max_render_bytes : ℕ
max_render_bytes = 2000000

-- `(?m)^kind:\s*Job\s*$`, for a kind
abbrev pub is_kind : String → String → Bool
is_kind kind document =
    not (length (find_lines (entry "kind:" (λ value. value ==ˢ kind)) document) == 0)

-- The one document of a kind.
unfoldable pub single_document : String → String → Option String
single_document kind content = single (filter (is_kind kind) (documents content))

-- `(?m)^  name:\s*([^\s#]+)\s*$`
unfoldable pub names_in : String → List String
names_in document = find_lines (entry "  name:" (λ value. not (holds b'#' (codes value)))) document

-- How often `(?m)^  suspend:\s*value\s*$` stands in a document.
unfoldable pub count_suspend : String → String → ℕ
count_suspend value document =
    length (find_lines (entry "  suspend:" (λ found. found ==ˢ value)) document)

-- `(?m)^  replicas:\s*([0-9]+)\s*$`
unfoldable pub replicas_in : String → List String
replicas_in document =
    find_lines (entry "  replicas:" (λ value. all_of is_digit (codes value))) document

unfoldable pub images_in : String → List String
images_in job = filter (starts ("image: " <> image_repository)) (map strip (split_lines job))

unfoldable pub check_options : String → String → Result (Unit {0})
check_options name content = do
  ensure (not (occurs "argocd.argoproj.io/sync-options" content))
      (name <> " must not contain Argo sync options")
  ensure (not (occurs "Force=true" content || occurs "Replace=true" content))
      (name <> " must not contain force/replace options")

module _ (R : Runtime) where
  unfoldable pub validate_migration_render : Bytes → String → String → Result String
  validate_migration_render raw image_digest release_manifest_sha256 = do
    content ← lf_text R raw "migration render" max_render_bytes
    digest ← nonzero digest_pattern (text image_digest) "migration image digest"
    job_name ← derived_migration_job_name digest release_manifest_sha256
    check_options "migration render" content
    job ← or_refuse (single_document "Job" content) "migration render must contain exactly one Job"
    ensure (eq_lists (names_in job) (job_name ∷ []))
        "migration Job name is not the exact digest/release-derived name"
    ensure (eq_lists (images_in job) (("image: " <> (image_repository <> ("@" <> digest))) ∷ []))
        "migration Job does not contain the exact immutable image once"
    ensure (count_suspend "false" job == 1) "migration Job must be unsuspended exactly once"
    ensure (count_suspend "true" job == 0) "migration Job must not remain suspended"
    ok job_name

  unfoldable pub validate_writer_fence_render : Bytes → String → Result (Unit {0})
  validate_writer_fence_render raw service_name = do
    content ← lf_text R raw (service_name <> " writer-fence render") max_render_bytes
    ensure (contains writer_service_names service_name)
        "writer fence render service is not allowlisted"
    deployment ←
        or_refuse (single_document "Deployment" content)
          (service_name <> " writer fence must render one Deployment")
    ensure (eq_lists (names_in deployment) (service_name ∷ []))
        (service_name <> " writer fence Deployment name is not exact")
    ensure (eq_lists (replicas_in deployment) ("0" ∷ []))
        (service_name <> " writer fence did not render replicas zero")

  unfoldable pub validate_base_migration_render : Bytes → Result (Unit {0})
  validate_base_migration_render raw = do
    content ← lf_text R raw "base migration render" max_render_bytes
    check_options "base migration render" content
    job ←
        or_refuse (single_document "Job" content)
          "base migration render must contain exactly one Job"
    ensure (eq_lists (names_in job) (migration_job_base_name ∷ []))
        "base migration Job name is not exact"
    ensure (count_suspend "true" job == 1) "base migration Job must be suspended exactly once"
    ensure (count_suspend "false" job == 0) "base migration Job must not be runnable"
