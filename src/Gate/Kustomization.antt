-- ===== src/Gate/Kustomization.antt =====
-- The kustomization of the migration: `_migration_base_parts`, `_migration_image_block`,
-- `_validate_migration_image_selector`, `_migration_release_patch`,
-- `render_migration_kustomization` and `validate_migration_kustomization`.
pub mod Prior
pub mod Selects
pub mod Rendered
use Prim.Native.Char.{code}
use devpath_shared.Base.{
  ℕ, suc, ◌+◌, Bool, true, false, not, ◌&&◌, ◌||◌, Option, none, some, List, [], ◌∷◌, ◌++◌, String,
  ◌<>◌, ◌==◌, ◌==ˢ◌, leb, map, if◌then◌else◌,
}
use devpath_shared.Base.Text.{
  codes, take_text, after_prefix, remove_prefix, strip, strip_left, is_empty,
}
use devpath_shared.Base.Pattern.{Pattern, done, piece, fullmatch, is_alnum}
use devpath_shared.Base.Result.{Result, ok, err, refused, ◌>>=◌, ◌>>◌, ensure, or_refuse}
use devpath_shared.Context.Source.{sha64, digest_pattern}
use devpath_shared.Json.{text}
use devpath_shared.Runtime.{Bytes, Runtime}
use devpath_shared.Gate.Format.{image_repository, nonzero}
use devpath_shared.Gate.Values.{single}
use devpath_shared.Gate.JobName.{
  migration_job_prefix, migration_job_name_pattern, derived_migration_job_name,
}
use devpath_shared.Gate.Facts.{eq_lists}
use devpath_shared.Gate.Text.{lf_text}
use devpath_shared.Gate.Fence.{max_kustomization_bytes}
use devpath_shared.Gate.Lines.{
  split_lines, chomp, lf_lines, starts, occurs, drop_text, indent, count_if, filter, join,
}

abbrev pub migration_job_base_name : String
migration_job_base_name = "devpath-flyway-migrate"

abbrev is_tag_char : ℕ → Bool
is_tag_char c = c == b'.' || (c == b'_' || c == b'-') || is_alnum c

-- `^[A-Za-z0-9][A-Za-z0-9._-]{0,127}$`
abbrev pub safe_tag : Pattern
safe_tag = piece is_alnum 1 1 (piece is_tag_char 0 127 done)

abbrev pub patch_of : String → String
patch_of job_name =
    "patches:\n- target:\n    group: batch\n    version: v1\n    kind: Job\n    name: "
    <> (migration_job_base_name
        <> ("\n  patch: |-\n    - op: replace\n      path: /metadata/name\n      value: "
            <> (job_name
                <> "\n    - op: replace\n      path: /spec/suspend\n      value: false\n")))

-- `_migration_release_patch_for_job_name`, as a text.
unfoldable pub patch_for_job_name : String → Result String
patch_for_job_name job_name = do
  ensure (fullmatch migration_job_name_pattern job_name) "migration Job name has an invalid format"
  ok (patch_of job_name)

unfoldable pub migration_release_patch : String → String → Result String
migration_release_patch image_digest release_manifest_sha256 = do
  name ← derived_migration_job_name image_digest release_manifest_sha256
  patch_for_job_name name

abbrev pub is_image_line : String → Bool
is_image_line line = strip line ==ˢ ("- name: " <> image_repository)

-- The lines below an entry that are indented deeper than it, blank lines included.
unfoldable pub deeper : ℕ → List String → List String
deeper n [] = []
deeper n (line ∷ lines) =
    let rest = deeper n lines in
    if is_empty (strip line) then line ∷ rest else if leb (indent line) n then [] else line ∷ rest

-- `lines[start:end]`
unfoldable pub block_from : List String → List String
block_from [] = []
block_from (line ∷ lines) =
    let rest = block_from lines in
    if is_image_line line then line ∷ deeper (indent line) lines else rest

unfoldable pub migration_image_block : String → Result (List String)
migration_image_block body = do
  let lines = split_lines body
  ensure (count_if is_image_line lines == 1)
      "migration base must contain exactly one target image entry"
  ensure (count_if (λ line. starts "- name:" (strip_left line)) lines == 1)
      "migration base image transformer must contain one image"
  ok (block_from lines)

-- What the entry must say.
abbrev pub selector_lines : String → String → List String
selector_lines kind value =
    ("- name: " <> image_repository)
    ∷ ("newName: " <> image_repository)
    ∷ (kind <> (": " <> value))
    ∷ []

unfoldable pub validate_migration_image_selector : String → String → String → Result (Unit {0})
validate_migration_image_selector body kind value = do
  block ← migration_image_block body
  ensure
      (eq_lists (filter (λ line. not (is_empty line)) (map strip block))
        (selector_lines kind value))
      "migration base image selector bytes are not exact"

abbrev pub forbidden : List String
forbidden =
    "argocd.argoproj.io/sync-options" ∷ "sync-options" ∷ "Force=true" ∷ "Replace=true"
    ∷ "patchesJson6902:" ∷ "patchesStrategicMerge:" ∷ []

unfoldable pub check_forbidden : String → List String → Result (Unit {0})
check_forbidden content [] = ok tt
check_forbidden content (word ∷ words) = do
  ensure (not (occurs word content))
      ("sealed base migration kustomization contains forbidden " <> word)
  check_forbidden content words

unfoldable pub skip_blanks : String → String
skip_blanks String.[] = String.[]
skip_blanks (String.◌∷◌ c s) =
    let rest = skip_blanks s in if code c == b' ' || code c == b'\t' then rest else String.◌∷◌ c s

-- `(?m)^[ \t]*patches:[^\r\n]*$` at a line of a text without `\r`.
abbrev pub is_patch_key : String → Bool
is_patch_key line = starts "patches:" (skip_blanks line)

-- The text before the first such line, and the text from it on.
unfoldable pub split_patch : Bool → String → String × String
split_patch at_line String.[] = (String.[], String.[])
split_patch at_line (String.◌∷◌ c s) =
    let rest = split_patch (code c == b'\n') s in
    if at_line && is_patch_key (String.◌∷◌ c s)
    then (String.[], String.◌∷◌ c s)
    else (String.◌∷◌ c rest.0, rest.1)

abbrev pub first_line : List String → String
first_line [] = ""
first_line (line ∷ lines) = line

-- The kinds of selector in the order of the inner loop.
abbrev of_kind : String → String → List (String × String)
of_kind kind line = elim (after_prefix ("  " <> (kind <> ": ")) line) [
  | none ↦ []
  | some value ↦ (kind, value) ∷ []
]

unfoldable pub selectors : List String → List (String × String)
selectors [] = []
selectors (line ∷ lines) =
    of_kind "newTag" (chomp line) ++ (of_kind "digest" (chomp line) ++ selectors lines)

-- `re.findall` of the lines that give a job its name.
unfoldable pub prior_names : List String → List String
prior_names [] = []
prior_names (line ∷ lines) =
    let rest = prior_names lines in
    elim (after_prefix "      value: " line) [
      | none ↦ rest
      | some name ↦ if fullmatch migration_job_name_pattern name then name ∷ rest else rest
    ]

-- The two groups of `MIGRATION_JOB_NAME`, of a name that matches it.
unfoldable pub job_name_groups : String → Option (String × String)
job_name_groups name = elim (after_prefix migration_job_prefix name) [
  | none ↦ none
  | some groups ↦ elim (after_prefix "-" (drop_text 12 groups)) [
    | none ↦ none
    | some release ↦ some (take_text 12 groups, release)
  ]
]

-- A prior digest with its patch; the part of the release in the name is returned. Two texts are equal
-- exactly when their UTF-8 bytes are.
unfoldable pub check_prior : String → String → Result String
check_prior value patch = do
  prior_digest ← nonzero digest_pattern (text value) "prior migration digest"
  prior_name ←
      or_refuse (single (prior_names (lf_lines patch)))
        "prior migration Job name is not unique and exact"
  groups ←
      or_refuse (job_name_groups prior_name) "prior migration Job name does not bind its digest"
  ensure (groups.0 ==ˢ take_text 12 (remove_prefix "sha256:" prior_digest))
      "prior migration Job name does not bind its digest"
  expected ← patch_for_job_name prior_name
  ensure (patch ==ˢ expected) "prior migration patch is not the exact digest/release-derived patch"
  ok groups.1

-- What `_migration_base_parts` returns.
pub record BaseParts : Type 0 where
  pub body : String
  pub kind : String
  pub value : String
  pub prior_release_prefix : Option String

unfoldable pub check_selector : String → String → String → String → Result (Option String)
check_selector body patch kind value =
    if kind ==ˢ "newTag"
    then (do
      ensure (fullmatch safe_tag value && is_empty patch)
          "legacy migration base tag/patch is not exact"
      ok none)
    else (do prior ← check_prior value patch; ok (some prior))

module _ (R : Runtime) where
  unfoldable pub migration_base_parts : Bytes → Result BaseParts
  migration_base_parts raw = do
    content ← lf_text R raw "migration kustomization" max_kustomization_bytes
    check_forbidden content forbidden
    ensure (leb (count_if is_patch_key (lf_lines content)) 1)
        "sealed base migration patch is duplicated"
    let split = split_patch true content
    ensure (is_empty split.1 || (first_line (lf_lines split.1) ==ˢ "patches:"))
        "sealed base migration patch key is not exact"
    selector ←
        or_refuse (single (selectors (split_lines split.0)))
          "sealed base migration selector is not unique"
    prior ← check_selector split.0 split.1 selector.0 selector.1
    validate_migration_image_selector split.0 selector.0 selector.1
    ok (record {
      body = split.0;
      kind = selector.0;
      value = selector.1;
      prior_release_prefix = prior;
    })

  abbrev pub is_prior : Option String → String → Bool
  is_prior none prefix = false
  is_prior (some prior) prefix = prior ==ˢ prefix

  unfoldable pub validate_migration_kustomization : Bytes → String → String → Result (Unit {0})
  validate_migration_kustomization raw image_digest release_manifest_sha256 = do
    digest ← nonzero digest_pattern (text image_digest) "migration image digest"
    release_sha ← nonzero sha64 (text release_manifest_sha256) "release manifest SHA-256"
    parts ← migration_base_parts raw
    ensure
        ((parts.kind ==ˢ "digest")
          && ((parts.value ==ˢ digest)
              && is_prior parts.prior_release_prefix (take_text 24 release_sha)))
        "migration kustomization digest/release selector is not exact"

  abbrev is_selector_line : String → Bool
  is_selector_line line = starts "  newTag: " line || starts "  digest: " line

  -- `lines[selector[0]] = …`
  unfoldable pub select_digest : String → List String → List String
  select_digest digest [] = []
  select_digest digest (line ∷ lines) =
      let rest = select_digest digest lines in
      if is_selector_line line then ("  digest: " <> (digest <> "\n")) ∷ lines else line ∷ rest

  -- `kind == "digest" and prior_value == digest and prior_release_prefix == release_sha[:24]`
  abbrev is_selected : BaseParts → String → String → Bool
  is_selected parts digest release_sha =
      (parts.kind ==ˢ "digest")
      && ((parts.value ==ˢ digest)
          && is_prior parts.prior_release_prefix (take_text 24 release_sha))

  -- The rendering of a base that has been read.
  unfoldable pub render_parts : BaseParts → String → String → Result Bytes
  render_parts parts digest release_sha = do
    ensure (not (is_selected parts digest release_sha))
        "migration digest and release are already selected; no new M commit exists"
    let lines = split_lines parts.body
    ensure (count_if is_selector_line lines == 1) "sealed base migration selector is not unique"
    patch ← migration_release_patch digest release_sha
    let result = R.encode (join (select_digest digest lines)) ++ codes patch
    validate_migration_kustomization result digest release_sha
    ok result

  unfoldable pub render_migration_kustomization : Bytes → String → String → Result Bytes
  render_migration_kustomization raw image_digest release_manifest_sha256 = do
    digest ← nonzero digest_pattern (text image_digest) "migration image digest"
    release_sha ← nonzero sha64 (text release_manifest_sha256) "release manifest SHA-256"
    parts ← migration_base_parts raw
    render_parts parts digest release_sha
