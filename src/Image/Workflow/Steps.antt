-- ===== src/Image/Workflow/Steps.antt =====
-- `verify_ci_source`, `inspect_local_image`, `preflight`, `recheck`, `postflight` and
-- `verify_evidence_cli`.
use devpath_shared.Base.{
  ℕ, Bool, true, false, ◌&&◌, ◌||◌, Option, none, some, List, [], ◌∷◌, String, ◌<>◌, ◌==ˢ◌, leb,
  length, if◌then◌else◌,
}
use devpath_shared.Base.Decimal.{int_of_text}
use devpath_shared.Base.Text.{strip}
use devpath_shared.Base.Result
use devpath_shared.Base.Result.{Result, ok, err, refused, value_error, ensure, or_refuse}
use devpath_shared.Base.Exec.{Exec, pure, lift, ◌>>=◌, ◌>>◌, retry}
use devpath_shared.Context.{Env, or_empty}
use devpath_shared.Json.{Json, array, nil, cons}
use devpath_shared.Runtime.{Bytes, Runtime}
use devpath_shared.Image.Format.{image_repository, is_digest, parse_json}
use devpath_shared.Image.Document.{
  RemoteImage, require_candidate_config, require_local_candidate_config,
  validate_local_image_document,
}
use devpath_shared.Image.Http.{Network}
use devpath_shared.Image.Registry.{Credentials, registry_client, max_config_bytes}
use devpath_shared.Image.Registry.Inspect.{inspect}
use devpath_shared.Image.Recheck.{resolve_recheck}
use devpath_shared.Image.Evidence.Folder.{Root, write_evidence}
use devpath_shared.Image.Workflow.Source.{validate_ci_context}
use devpath_shared.Image.Workflow.Outputs.{OutputFile, write_github_outputs}

-- The runner outside the two paths that the script writes: the registry, and the `git` and `docker`
-- commands with their standard output.
pub record Runner (W : Type 0) : Type 0 where
  pub network : Network W
  pub git : List String → Exec W String
  pub docker_image_inspect : String → Exec W Bytes

pub record World (W : Type 0) : Type 0 where
  pub outside : W
  pub outputs : OutputFile
  pub evidence : Root

module _ {W A : Type 0} where
  unfoldable pub on_outside : Exec W A → Exec (World W) A
  on_outside m w =
      let (r, v) = m w.outside in
      (r, record { outside = v; outputs = w.outputs; evidence = w.evidence })

  unfoldable pub on_outputs : Exec OutputFile A → Exec (World W) A
  on_outputs m w =
      let (r, v) = m w.outputs in
      (r, record { outside = w.outside; outputs = v; evidence = w.evidence })

  unfoldable pub on_evidence : Exec Root A → Exec (World W) A
  on_evidence m w =
      let (r, v) = m w.evidence in
      (r, record { outside = w.outside; outputs = w.outputs; evidence = v })

-- The one document of an inspection that lists one.
unfoldable pub single : Json → Result Json
single (array (cons x nil)) = ok x
single _ = err (refused "local candidate inspect must return exactly one image")

abbrev pub show_bool : Bool → String
show_bool true = "true"
show_bool false = "false"

abbrev pub preflight_values : Option RemoteImage → String → List (String × String)
preflight_values none candidate =
    ("publish_needed", "true") ∷ ("image_digest", "") ∷ ("candidate_config_digest", candidate) ∷ []
preflight_values (some image) candidate =
    ("publish_needed", "false")
    ∷ ("image_digest", image.digest)
    ∷ ("candidate_config_digest", candidate)
    ∷ []

abbrev pub require_candidate : Option RemoteImage → String → Result (Unit {0})
require_candidate none candidate = ok tt
require_candidate (some image) candidate = require_candidate_config image candidate

abbrev pub recheck_values : Bool → String → String → List (String × String)
recheck_values push_needed image_digest candidate =
    ("push_needed", show_bool push_needed)
    ∷ ("image_digest", image_digest)
    ∷ ("candidate_config_digest", candidate)
    ∷ []

-- The digest that must be found, which is empty for a fresh one, and the publish mode.
unfoldable pub publish_plan : String → String → Result (String × String)
publish_plan push_needed prepush_digest =
    if push_needed ==ˢ "true"
    then (if prepush_digest ==ˢ ""
        then ok ("", "published")
        else err (refused "published postflight unexpectedly carried a pre-push digest"))
    else if push_needed ==ˢ "false"
    then (if is_digest prepush_digest
        then ok (prepush_digest, "reused")
        else err (refused "reused postflight digest inputs are inconsistent"))
    else err (refused "push_needed must equal true or false")

unfoldable pub accept_image : Option RemoteImage → String → String → Result RemoteImage
accept_image none candidate expected_digest = err (refused "postflight registry image is absent")
accept_image (some image) candidate expected_digest =
    Result.◌>>=◌ (require_candidate_config image candidate) (λ _.
      if (expected_digest ==ˢ "") || (image.digest ==ˢ expected_digest)
      then ok image
      else err (refused "reused registry digest drifted after the push boundary"))

-- `int(s)` of a text that `verify_ci_source` has found to be canonical.
abbrev pub read_int : String → Result ℕ
read_int s = elim (int_of_text s) [ none ↦ err value_error | some n ↦ ok n ]

module _ {W : Type 0} (R : Runtime) (M : Runner W) (env : Env) where
  -- `_git`
  pub git : List String → Exec W String
  git args = do output ← M.git args; pure (strip output)

  unfoldable pub verify_ci_source : Exec W String
  unfolding git
  verify_ci_source = do
    _ ← git ("fetch" ∷ "--no-tags" ∷ "origin" ∷ "main:refs/remotes/origin/main" ∷ [])
    head ← git ("rev-parse" ∷ "HEAD" ∷ [])
    remote_main ← git ("rev-parse" ∷ "refs/remotes/origin/main" ∷ [])
    status ← git ("status" ∷ "--porcelain=v1" ∷ "--untracked-files=all" ∷ [])
    lift (validate_ci_context env (or_empty (env "GITHUB_SHA")) head remote_main status)
    pure (or_empty (env "GITHUB_SHA"))

  unfoldable pub inspect_local_image : String → String → Exec W String
  inspect_local_image image_ref source_sha = do
    lift (
        ensure (image_ref ==ˢ (image_repository <> ":" <> source_sha))
          "local candidate image reference drifted")
    raw ← M.docker_image_inspect image_ref
    lift (
        ensure (leb (length raw) max_config_bytes)
          "local candidate inspect response exceeded its byte limit")
    parsed ← lift (parse_json R raw "local candidate inspect response")
    document ← lift (single parsed)
    lift (validate_local_image_document document source_sha)

  -- What every step begins with: the source, and the local image, whose config is the candidate's.
  unfoldable pub verify_local : String → String → Exec W String
  verify_local image_ref candidate = do
    source_sha ← verify_ci_source
    local ← inspect_local_image image_ref source_sha
    lift (require_local_candidate_config local candidate)
    pure source_sha

  -- `_registry_client().inspect(…)`
  unfoldable pub inspect_registry : String → Bool → Exec W (Option RemoteImage)
  inspect_registry source_sha allow_absent = do
    client ← lift (registry_client (or_empty (env "GITHUB_ACTOR")) (or_empty (env "GITHUB_TOKEN")))
    inspect R M.network client source_sha allow_absent

  unfoldable pub preflight : String → String → Exec (World W) (Unit {0})
  preflight image_ref candidate = do
    source_sha ← on_outside (verify_local image_ref candidate)
    image ← on_outside (inspect_registry source_sha true)
    lift (require_candidate image candidate)
    on_outputs (write_github_outputs (preflight_values image candidate))

  unfoldable pub recheck : String → String → String → String → Exec (World W) (Unit {0})
  recheck image_ref candidate preflight_publish_needed preflight_digest = do
    source_sha ← on_outside (verify_local image_ref candidate)
    current ← on_outside (inspect_registry source_sha true)
    resolved ← lift (resolve_recheck preflight_publish_needed preflight_digest current candidate)
    on_outputs (write_github_outputs (recheck_values resolved.0 resolved.1 candidate))

  -- One attempt of the loop in `postflight`.
  unfoldable pub find_image : Credentials → String → String → String → Exec W RemoteImage
  find_image client source_sha candidate expected_digest = do
    image ← inspect R M.network client source_sha false
    lift (accept_image image candidate expected_digest)

  -- The loop of `postflight`; `delay_bounded` is `0 <= delay_seconds <= 30`.
  unfoldable pub await_image : String → String → String → ℕ → Bool → Exec W RemoteImage
  await_image source_sha candidate expected_digest retries delay_bounded = do
    lift (
        ensure (leb 1 retries && leb retries 30 && delay_bounded)
          "postflight retry arguments are invalid")
    client ← lift (registry_client (or_empty (env "GITHUB_ACTOR")) (or_empty (env "GITHUB_TOKEN")))
    retry (find_image client source_sha candidate expected_digest) M.network.sleep retries

  unfoldable pub record_image : String → String → String → Exec Root String
  record_image source_sha image_digest publish_mode = do
    run_id ← lift (read_int (or_empty (env "GITHUB_RUN_ID")))
    run_attempt ← lift (read_int (or_empty (env "GITHUB_RUN_ATTEMPT")))
    write_evidence R source_sha run_id run_attempt image_digest publish_mode

  unfoldable pub postflight :
      String → String → String → String → ℕ → Bool → Exec (World W) (Unit {0})
  postflight image_ref candidate push_needed prepush_digest retries delay_bounded = do
    source_sha ← on_outside (verify_local image_ref candidate)
    plan ← lift (publish_plan push_needed prepush_digest)
    image ← on_outside (await_image source_sha candidate plan.0 retries delay_bounded)
    _ ← on_evidence (record_image source_sha image.digest plan.1)
    pure tt
