-- ===== src/Gate/Format.antt =====
-- The constants, the patterns and the checks of single values: `_nonzero`, `_json_value`,
-- `_json_object`, `_exact_keys` and `_positive_integer_string`.
use devpath_shared.Base.{
  ℕ, ◌≡◌, sym, ap, ◌↔◌, Bool, true, false, ◌&&◌, ◌||◌, not, Option, none, some, List, [], ◌∷◌,
  String, ◌<>◌, ◌==◌, leb, ltb, length, arith,
}
use devpath_shared.Base.Text.{codes, remove_prefix}
use devpath_shared.Base.Decimal.{int_of_text}
use devpath_shared.Base.Pattern.{
  Pattern, done, piece, times, literal, fullmatch, is_digit, is_lower_alnum, in_range,
}
use devpath_shared.Base.Result.{Result, ok, err, refused, ◌>>=◌, ◌>>◌, ensure, or_refuse}
use devpath_shared.Json.{
  Json, text, null, boolean, integer, float, array, constant, object, Fields, keys, contains,
  as_dict,
}
use devpath_shared.Json.Hooks.{hooked}
use devpath_shared.Runtime.{Bytes, Runtime}
use devpath_shared.Image.Format.{has_bom}

abbrev pub repository : String
repository = "DevPathAi/devpath-shared"

abbrev pub workflow_ref : String
workflow_ref =
    "DevPathAi/devpath-shared/.github/workflows/mission-spine-migration-release.yml@refs/heads/main"

abbrev pub job_name : String
job_name = "deploy"

abbrev pub shared_version : String
shared_version = "0.0.1-rm.20260907"

abbrev pub shared_jar_sha256 : String
shared_jar_sha256 = "3a64de1a1773f1aa05ccd801a88f01ef2cead887e44930554074230fd01f2996"

abbrev pub image_repository : String
image_repository = "ghcr.io/devpathai/devpath-migration"

abbrev pub flyway_target : String
flyway_target = "202609051004"

abbrev pub required_migration : String
required_migration = "V202609051004__mentor_invite_batches.sql"

abbrev pub rollback_policy : String
rollback_policy = "additive-retained"

-- `f"{GITOPS_WRITE_APP_SLUG}[bot]"`
abbrev pub bot_name : String
bot_name = "devpath-gitops-release[bot]"

-- `tuple(sorted((MIGRATION_PATH, *WRITER_PATHS.values())))`
abbrev pub migration_paths : List String
migration_paths =
    "apps/devpath-migration/base/kustomization.yaml"
    ∷ "apps/devpath-platform-svc/base/kustomization.yaml"
    ∷ "apps/devpath-sandbox-svc/base/kustomization.yaml" ∷ []

abbrev pub max_api_document_bytes : ℕ
max_api_document_bytes = 262144

abbrev is_dash_alnum : ℕ → Bool
is_dash_alnum c = c == b'-' || is_lower_alnum c

-- `^ms-[0-9]{8}-[a-z0-9][a-z0-9-]{2,40}$`
unfoldable pub release_pattern : Pattern
unfolding literal
release_pattern =
    literal "ms-"
      (times 8 is_digit (literal "-" (piece is_lower_alnum 1 1 (piece is_dash_alnum 2 40 done))))

abbrev is_nonzero_digit : ℕ → Bool
is_nonzero_digit c = in_range b'1' b'9' c

-- `^[1-9][0-9]{0,19}$`
abbrev pub positive_integer_pattern : Pattern
positive_integer_pattern = piece is_nonzero_digit 1 1 (piece is_digit 0 19 done)

abbrev are_zeroes : List ℕ → Bool
are_zeroes [] = true
are_zeroes (c ∷ s) = c == b'0' && are_zeroes s

-- `set(hex_value) == {"0"}`
abbrev pub all_zeroes : List ℕ → Bool
all_zeroes [] = false
all_zeroes (c ∷ s) = are_zeroes (c ∷ s)

unfoldable pub is_nonzero : Pattern → String → Bool
is_nonzero pattern s = fullmatch pattern s && not (all_zeroes (codes (remove_prefix "sha256:" s)))

-- `_nonzero`
unfoldable pub nonzero : Pattern → Json → String → Result String
nonzero pattern (text s) label = do
  ensure (fullmatch pattern s) (label <> " has an invalid format")
  ensure (not (all_zeroes (codes (remove_prefix "sha256:" s)))) (label <> " must not be all zeroes")
  ok s
nonzero pattern _ label = err (refused (label <> " has an invalid format"))

pub nonzero_iff :
    (pattern : Pattern) (s label : String) (r : String)
    → (nonzero pattern (text s) label ≡ ok r) ↔ ((r ≡ s) × (is_nonzero pattern s ≡ true))
unfolding nonzero is_nonzero
nonzero_iff pattern s label r = ground arith

pub nonzero-eq_ok :
    (pattern : Pattern) (v : Json) (label : String) {s : String}
    → nonzero pattern v label ≡ ok s
    → (v ≡ text s) × (is_nonzero pattern s ≡ true)
unfolding nonzero
nonzero-eq_ok pattern (text t) label {s} h =
    let (same, good) = (nonzero_iff pattern t label s).0 h in (ap text (sym same), rw same good)
nonzero-eq_ok pattern null label h = cc
nonzero-eq_ok pattern (boolean b) label h = cc
nonzero-eq_ok pattern (integer n) label h = cc
nonzero-eq_ok pattern (float n r) label h = cc
nonzero-eq_ok pattern (array xs) label h = cc
nonzero-eq_ok pattern (object d) label h = cc
nonzero-eq_ok pattern (constant s) label h = cc

-- `env.get(key)` as a value
abbrev pub of_env : Option String → Json
of_env none = null
of_env (some s) = text s

pub of_env-text : (o : Option String) {s : String} → of_env o ≡ text s → o ≡ some s
of_env-text none h = cc
of_env-text (some t) h = ground arith

abbrev pub subset : List String → List String → Bool
subset [] names = true
subset (s ∷ ss) names = contains names s && subset ss names

-- The inside of `repr` of a list of texts.
abbrev pub join_names : (String → String) → List String → String
join_names repr [] = ""
join_names repr (s ∷ []) = repr s
join_names repr (s ∷ t ∷ ss) = repr s <> ", " <> join_names repr (t ∷ ss)

module _ (R : Runtime) where
  -- `_json_value`, whose hooks are `_reject_duplicate_keys` and `_reject_json_constant`
  unfoldable pub json_value : Bytes → String → ℕ → Result Json
  json_value raw label maximum = do
    ensure (ltb 0 (length raw) && leb (length raw) maximum)
        (label <> " size is outside the allowed bound")
    decoded ← or_refuse (R.decode raw) (label <> " is not valid UTF-8 JSON")
    ensure (not (has_bom decoded)) (label <> " must not contain a UTF-8 BOM")
    tree ← or_refuse (R.loads decoded) (label <> " is not valid UTF-8 JSON")
    hooked (λ key. "JSON contains duplicate key " <> key)
        (λ value. "JSON constant " <> value <> " is not permitted") tree

  unfoldable pub json_object : Bytes → String → ℕ → Result Fields
  json_object raw label maximum = do
    document ← json_value raw label maximum
    or_refuse (as_dict document) (label <> " root must be an object")

  -- `_exact_keys`: the keys as a set, whose names are given in sorted order.
  unfoldable pub exact_keys : Json → List String → String → Result Fields
  exact_keys (object d) expected label = do
    ensure (subset (keys d) expected && subset expected (keys d))
        (label <> " keys must be exactly [" <> join_names R.repr expected <> "]")
    ok d
  exact_keys _ expected label =
      err (refused (label <> " keys must be exactly [" <> join_names R.repr expected <> "]"))

  pub exact_keys-eq_ok :
      (v : Json) (names : List String) (label : String) {d : Fields}
      → exact_keys v names label ≡ ok d
      → v ≡ object d
  unfolding exact_keys
  exact_keys-eq_ok (object e) names label h = ground arith
  exact_keys-eq_ok null names label h = cc
  exact_keys-eq_ok (boolean b) names label h = cc
  exact_keys-eq_ok (integer n) names label h = cc
  exact_keys-eq_ok (float n r) names label h = cc
  exact_keys-eq_ok (array xs) names label h = cc
  exact_keys-eq_ok (text s) names label h = cc
  exact_keys-eq_ok (constant s) names label h = cc

-- `_positive_integer_string`; the pattern leaves at most twenty digits for `int`.
unfoldable pub positive_integer_string : Json → String → Result ℕ
positive_integer_string (text s) label = do
  ensure (fullmatch positive_integer_pattern s) (label <> " must be a positive decimal integer")
  or_refuse (int_of_text s) (label <> " must be a positive decimal integer")
positive_integer_string _ label = err (refused (label <> " must be a positive decimal integer"))
