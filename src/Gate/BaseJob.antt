-- ===== src/Gate/BaseJob.antt =====
-- `validate_base_migration_job`: the job of the sealed base is suspended, waits for the writers, and
-- runs the migrations of one commit of this repository.
pub mod Bound
use Prim.Native.Char.{code}
use devpath_shared.Base.{
  ℕ, zero, suc, Bool, true, false, ◌&&◌, ◌||◌, not, Option, none, some, List, [], ◌∷◌, String, ◌<>◌,
  ◌==◌, ◌==ˢ◌, leb, if◌then◌else◌,
}
use devpath_shared.Base.Text.{take_text, after_prefix, is_empty}
use devpath_shared.Base.Pattern.{Pattern, done, times, fullmatch, is_digit}
use devpath_shared.Base.Result.{Result, ok, err, value_error, ◌>>=◌, ◌>>◌, ensure}
use devpath_shared.Context.Source.{sha40}
use devpath_shared.Json.{text}
use devpath_shared.Runtime.{Bytes, Runtime}
use devpath_shared.Gate.Format.{flyway_target, required_migration, nonzero}
use devpath_shared.Gate.Facts.{eq_lists}
use devpath_shared.Gate.Text.{lf_text}
use devpath_shared.Gate.Lines.{lf_lines, occurs, starts, drop_text, count_if}
use devpath_shared.Gate.Scan.{Matcher, find_lines, count_text, spaces}

abbrev pub kubectl_image : String
kubectl_image =
    "registry.k8s.io/kubectl@sha256:b0d792e0d8dfb9bb1b922b78b23137e2a34bb6f9667640353a9d2aadd1fd7761"

abbrev pub max_job_bytes : ℕ
max_job_bytes = 262144

abbrev pub required_migrations : List String
required_migrations =
    "V202609051001__public_support_requests.sql" ∷ "V202609051002__mentor_access.sql"
    ∷ "V202609051003__mentor_invite_codes.sql" ∷ required_migration ∷ []

-- `  suspend: true\n  backoffLimit: 3\n`, at the pieces between the characters `\n`.
abbrev pub suspends : List String → Bool
suspends (line ∷ next ∷ after ∷ lines) =
    (line ==ˢ "  suspend: true") && (next ==ˢ "  backoffLimit: 3")
suspends _ = false

-- `(?:  #[^\r\n]*\n)+` and what must follow; `seen` says whether there was a comment.
unfoldable pub comments : Bool → List String → Bool
comments seen [] = false
comments seen (line ∷ lines) =
    let rest = comments true lines in
    if starts "  #" line then rest else seen && suspends (line ∷ lines)

-- `(?m)^spec:\n…`
unfoldable pub has_inert_spec : List String → Bool
has_inert_spec [] = false
has_inert_spec (line ∷ lines) = ((line ==ˢ "spec:") && comments false lines) || has_inert_spec lines

unfoldable pub is_inert : String → Bool
is_inert content =
    ((count_text "suspend:" content == 1)
      && (count_if (λ line. line ==ˢ "spec:") (lf_lines content) == 1)
      && has_inert_spec (lf_lines content))
    && (not (occurs "sync-options" content)
        && (not (occurs "Force=true" content) && not (occurs "Replace=true" content)))

abbrev pub required_writer_fence_lines : List String
required_writer_fence_lines =
    "      serviceAccountName: devpath-migration-fence\n"
    ∷ "      automountServiceAccountToken: false\n"
    ∷ "        - name: wait-for-writer-deployments\n" ∷ "        - name: wait-for-platform-pods\n"
    ∷ "        - name: wait-for-sandbox-pods\n"
    ∷ "            - --for=jsonpath={.spec.replicas}=0\n"
    ∷ "            - deployment/devpath-platform-svc\n"
    ∷ "            - deployment/devpath-sandbox-svc\n"
    ∷ "            - --selector=app=devpath-platform-svc\n"
    ∷ "            - --selector=app=devpath-sandbox-svc\n"
    ∷ "              - serviceAccountToken:\n" ∷ "                  expirationSeconds: 3600\n" ∷ []

unfoldable pub each_once : List String → String → Bool
each_once [] content = true
each_once (line ∷ lines) content = (count_text line content == 1) && each_once lines content

abbrev pub ordered_init_names : List String
ordered_init_names =
    "wait-for-writer-deployments" ∷ "wait-for-platform-pods" ∷ "wait-for-sandbox-pods"
    ∷ "sandbox-low-lock-preflight" ∷ []

-- `content.index(word)`, where `none` is Python's `ValueError`
unfoldable pub index_of : String → String → Option ℕ
index_of word String.[] = if is_empty word then some 0 else none
index_of word (String.◌∷◌ c s) =
    let rest = index_of word s in
    if starts word (String.◌∷◌ c s)
    then some 0
    else elim rest [ none ↦ none | some n ↦ some (suc n) ]

unfoldable pub read_offsets : List String → String → Result (List ℕ)
read_offsets [] content = ok []
read_offsets (name ∷ names) content =
    elim (index_of ("        - name: " <> (name <> "\n")) content) [
      | none ↦ err value_error
      | some n ↦ (read_offsets names content >>= λ offsets. ok (n ∷ offsets))
    ]

-- `offsets == sorted(offsets)`
abbrev pub is_sorted : List ℕ → Bool
is_sorted [] = true
is_sorted (n ∷ []) = true
is_sorted (n ∷ m ∷ offsets) = leb n m && is_sorted (m ∷ offsets)

abbrev pub at_line_end : String → Bool
at_line_end s = is_empty s || starts "\n" s

-- `^\s*- name: KEY\n\s+value: "(…)"$`, for a value of so many characters that a pattern matches.
unfoldable pub env_value : String → ℕ → Pattern → Matcher
env_value key width pattern s = elim (after_prefix ("- name: " <> (key <> "\n")) (spaces s).1) [
  | none ↦ none
  | some rest ↦
      if is_empty (spaces rest).0 then none else elim (after_prefix "value: \"" (spaces rest).1) [
        | none ↦ none
        | some value ↦ elim (after_prefix "\"" (drop_text width value)) [
          | none ↦ none
          | some behind ↦
              if fullmatch pattern (take_text width value) && at_line_end behind
              then some (take_text width value, behind)
              else none
        ]
      ]
]

-- `[0-9]{12}`
abbrev pub version_pattern : Pattern
version_pattern = times 12 is_digit done

unfoldable pub commits_in : String → List String
commits_in content = find_lines (env_value "EXPECTED_SHARED_COMMIT" 40 sha40) content

unfoldable pub targets_in : String → List String
targets_in content = find_lines (env_value "TARGET_FLYWAY_VERSION" 12 version_pattern) content

unfoldable pub check_migrations : List String → String → Result (Unit {0})
check_migrations [] content = ok tt
check_migrations (migration ∷ migrations) content = do
  ensure (count_text ("test -f /flyway/sql/" <> migration) content == 1)
      ("base migration Job does not require " <> migration)
  check_migrations migrations content

unfoldable pub check_commands : List String → String → Result (Unit {0})
check_commands [] content = ok tt
check_commands (command ∷ commands) content = do
  ensure
      (count_text
          ("flyway -locations=\"$migration_locations\" -target=\"$TARGET_FLYWAY_VERSION\" "
            <> command)
          content
        == 1)
      ("base migration Job does not run target-scoped " <> command)
  check_commands commands content

-- The containers: the writer fence, the image, the users, and the order.
unfoldable pub check_containers : String → Result (Unit {0})
check_containers content = do
  ensure (each_once required_writer_fence_lines content)
      "base migration Job writer-fence commands are not exact"
  ensure (count_text ("          image: " <> (kubectl_image <> "\n")) content == 3)
      "base migration Job must use the pinned kubectl image three times"
  ensure
      ((count_text "            runAsUser: 65532\n" content == 3)
        && (count_text "            readOnlyRootFilesystem: true\n" content == 3))
      "base migration Job kubectl security contexts are not exact"
  offsets ← read_offsets ordered_init_names content
  ensure (is_sorted offsets) "base migration Job writer-fence init order is not exact"

-- The commit, the target, the migrations and the commands.
unfoldable pub check_binding : String → String → Result (Unit {0})
check_binding source_sha content = do
  ensure
      (eq_lists (commits_in content) (source_sha ∷ source_sha ∷ [])
        && (count_text ("test \"$EXPECTED_SHARED_COMMIT\" = \"" <> (source_sha <> "\"")) content
            == 1))
      "base migration Job does not bind the exact shared source commit"
  ensure
      (eq_lists (targets_in content) (flyway_target ∷ flyway_target ∷ [])
        && (count_text ("test \"$TARGET_FLYWAY_VERSION\" = \"" <> (flyway_target <> "\"")) content
            == 1))
      "base migration Job does not bind the exact Flyway target"
  check_migrations required_migrations content
  check_commands ("migrate" ∷ "validate" ∷ []) content

module _ (R : Runtime) where
  unfoldable pub validate_base_migration_job : Bytes → String → Result (Unit {0})
  validate_base_migration_job raw expected_shared_commit = do
    content ← lf_text R raw "base migration Job" max_job_bytes
    source_sha ← nonzero sha40 (text expected_shared_commit) "expected shared commit"
    ensure (is_inert content) "sealed base migration Job is not canonically inert"
    check_containers content
    check_binding source_sha content
