-- ===== src/Image/Format.antt =====
-- The constants of the script, `_valid_source_sha`, `_valid_digest`, `_positive_int`,
-- `_expected_labels` and `_parse_json`.
use Prim.Native.Char.{code}
use devpath_shared.Base.{
  ◌≡◌, ◌↔◌, Bool, false, ◌&&◌, not, List, [], ◌∷◌, String, ◌<>◌, ◌==◌, ◌==ˢ◌, arith, All,
}
use devpath_shared.Base.Integer.{is_positive}
use devpath_shared.Base.Pattern.{fullmatch}
use devpath_shared.Base.Result.{Result, ok, err, type_error, ◌>>=◌, ◌>>◌, ensure, or_refuse}
use devpath_shared.Context.Source.{digest_pattern, is_source_sha, zero_sha64}
use devpath_shared.Json.{
  Json, integer, text, array, object, Fields, get, py_eq, py_eq-text_iff, contains,
}
use devpath_shared.Json.Hooks.{hooked}
use devpath_shared.Runtime.{Bytes, Runtime}

abbrev pub repository : String
repository = "DevPathAi/devpath-shared"

abbrev pub source_label : String
source_label = "https://github.com/DevPathAi/devpath-shared"

abbrev pub image_repository : String
image_repository = "ghcr.io/devpathai/devpath-migration"

abbrev pub registry_repository : String
registry_repository = "devpathai/devpath-migration"

abbrev pub schema_version : String
schema_version = "leva.mission-spine.immutable-migration-image.v1"

abbrev pub builder_base_index_digest : String
builder_base_index_digest =
    "sha256:1ff763083f2993d57d0bf374ab10bb3e2cb873af6c13a04458ebbd3e0337dc76"

abbrev pub builder_base_amd64_digest : String
builder_base_amd64_digest =
    "sha256:4ec2402e5ebb803add08b063b9e5e52e7c11961caaae1f490479d925753f0d92"

abbrev pub runtime_base_index_digest : String
runtime_base_index_digest =
    "sha256:df06535dfd6559ae5f0628c4761013dfa4ea6a30cf6e34294931d8091f55a18f"

abbrev pub runtime_base_amd64_digest : String
runtime_base_amd64_digest =
    "sha256:aa01d87052ace414b7fb33ddabbdabb056a1e603a8bb5831dd516176718227e1"

-- `_valid_source_sha`
unfoldable pub valid_source_sha : Json → Bool
unfolding is_source_sha
valid_source_sha (text s) = is_source_sha s
valid_source_sha _ = false

-- `_valid_digest` of a text
unfoldable pub is_digest : String → Bool
is_digest s = fullmatch digest_pattern s && not (s ==ˢ ("sha256:" <> zero_sha64))

-- `_valid_digest`
unfoldable pub valid_digest : Json → Bool
valid_digest (text s) = is_digest s
valid_digest _ = false

-- `_positive_int`: `True` is an `int` in Python, and is refused.
abbrev pub positive_int : Json → Bool
positive_int (integer n) = is_positive n
positive_int _ = false

-- `value in {…}` for a set of texts: a list or a dict cannot be hashed.
abbrev pub in_set : Json → List String → Result Bool
in_set (array xs) names = err type_error
in_set (object d) names = err type_error
in_set (text s) names = ok (contains names s)
in_set _ names = ok false

unfoldable pub expected_labels : String → List (String × String)
expected_labels source_sha =
    ("org.opencontainers.image.source", source_label)
    ∷ ("org.opencontainers.image.revision", source_sha)
    ∷ ("ai.devpath.migration.builder-base.index-digest", builder_base_index_digest)
    ∷ ("ai.devpath.migration.builder-base.amd64-digest", builder_base_amd64_digest)
    ∷ ("ai.devpath.migration.runtime-base.index-digest", runtime_base_index_digest)
    ∷ ("ai.devpath.migration.runtime-base.amd64-digest", runtime_base_amd64_digest)
    ∷ []

-- `for key, value in expected.items(): if document.get(key) != value: raise …`
unfoldable pub require_texts :
    (String → String) → Fields → List (String × String) → Result (Unit {0})
require_texts message d [] = ok tt
require_texts message d ((key, value) ∷ expected) = do
  ensure (py_eq (get d key) (text value)) (message key)
  require_texts message d expected

abbrev pub HasText : Fields → String × String → Type 0
HasText d (key, value) = get d key ≡ text value

-- `text.startswith("\ufeff")`
abbrev pub has_bom : String → Bool
has_bom String.[] = false
has_bom (String.◌∷◌ c s) = code c == 0xfeff

module _ (R : Runtime) where
  -- `_parse_json`, whose hooks are `_unique_object` and `_reject_constant`
  unfoldable pub parse_json : Bytes → String → Result Json
  parse_json raw label = do
    decoded ← or_refuse (R.decode raw) (label <> " is not strict UTF-8")
    ensure (not (has_bom decoded)) (label <> " must not contain a UTF-8 BOM")
    tree ← or_refuse (R.loads decoded) (label <> " is not valid JSON")
    hooked (λ key. "JSON contains duplicate key " <> R.repr key)
        (λ value. "JSON contains non-finite number " <> value) tree

pub require_texts_iff :
    (message : String → String) (d : Fields) (expected : List (String × String))
    → (require_texts message d expected ≡ ok tt) ↔ All (HasText d) expected
unfolding require_texts
require_texts_iff message d [] = ground arith
require_texts_iff message d ((key, value) ∷ expected) =
    ground (arith, py_eq-text_iff (get d key) value, require_texts_iff message d expected)
