-- ===== src/Package/Local.antt =====
-- The files that a build has left for the publication: `validate_pom_semantics`,
-- `validate_module_semantics` and `validate_local_artifacts`.
pub mod Exact
use devpath_shared.Base.{
  ℕ, ◌≡◌, refl, ◌↔◌, Bool, true, false, ◌&&◌, Option, none, some, List, [], ◌∷◌, String, ◌<>◌,
  ◌==ˢ◌, eq_iff, All, arith, if◌then◌else◌,
}
use devpath_shared.Base.Result.{Result, ok, err, refused, key_error, ◌>>=◌, ◌>>◌, ensure, or_refuse}
use devpath_shared.Json.{Json, text, object, Fields, get, py_eq, py_eq-text_iff, as_dict}
use devpath_shared.Runtime.{Bytes, Runtime}
use devpath_shared.Package.Remote.{find_spec}
use devpath_shared.Package.Artifact.{
  ArtifactSpec, artifacts, group_id, artifact_id, version, validate_artifact_bytes,
}

-- What is called of Python's readers of files: `ET.fromstring(raw)` with `findall` of a child's name in
-- the POM namespace, as the texts of the children of that name, and `json.loads(raw)` of bytes, where
-- the last of several pairs with one key counts. `none` is an error of the reader.
pub record Reader : Type 0 where
  pub xml_children : Bytes → Option (String → List (Option String))
  pub json_document : Bytes → Option Json

abbrev pub pom_coordinates : List (String × String)
pom_coordinates = ("groupId", group_id) ∷ ("artifactId", artifact_id) ∷ ("version", version) ∷ []

-- `len(nodes) == 1 and nodes[0].text == value`
abbrev pub is_single : List (Option String) → String → Bool
is_single (some s ∷ []) value = s ==ˢ value
is_single _ value = false

unfoldable pub require_children :
    (String → List (Option String)) → List (String × String) → Result (Unit {0})
require_children find [] = ok tt
require_children find ((key, value) ∷ expected) = do
  ensure (is_single (find key) value) ("publication POM " <> key <> " does not equal " <> value)
  require_children find expected

abbrev pub module_coordinates : List (String × String)
module_coordinates = ("group", group_id) ∷ ("module", artifact_id) ∷ ("version", version) ∷ []

-- `{key: component.get(key) for key in expected} == expected`
unfoldable pub has_coordinates : Fields → List (String × String) → Bool
has_coordinates d [] = true
has_coordinates d ((key, value) ∷ expected) =
    py_eq (get d key) (text value) && has_coordinates d expected

-- `f"{ARTIFACT_ID}-{VERSION}{suffix}"`
abbrev pub artifact_name : String → String
artifact_name suffix = artifact_id <> "-" <> version <> suffix

-- What stands at the path of an artifact.
pub data LocalFile : Type 0 where
  regular : Bytes → LocalFile
  not_regular : LocalFile

module _ (R : Runtime) (F : Reader) where
  unfoldable pub validate_pom_semantics : Bytes → Result (Unit {0})
  validate_pom_semantics raw = do
    find ← or_refuse (F.xml_children raw) "publication POM is not valid UTF-8 XML"
    require_children find pom_coordinates

  unfoldable pub validate_module_semantics : Bytes → Result (Unit {0})
  validate_module_semantics raw = do
    document ← or_refuse (F.json_document raw) "Gradle module metadata is not valid UTF-8 JSON"
    d ← or_refuse (as_dict document) "Gradle module metadata root must be an object"
    component ←
        or_refuse (as_dict (get d "component")) "Gradle module metadata component is missing"
    ensure (has_coordinates component module_coordinates)
        "Gradle module metadata coordinate drifted"

  -- `name.endswith(".pom")` and `name.endswith(".module")`, of the three names.
  unfoldable pub semantics : String → Bytes → Result (Unit {0})
  semantics suffix raw =
      if suffix ==ˢ ".pom"
      then validate_pom_semantics raw
      else if suffix ==ˢ ".module"
      then validate_module_semantics raw
      else ok tt

  -- One turn of the loop, once the entry of `ARTIFACTS` has been looked up.
  unfoldable pub validate_file : String → Option ArtifactSpec → LocalFile → Result (Unit {0})
  validate_file suffix o not_regular =
      err (refused (artifact_name suffix <> " is not one regular local file"))
  validate_file suffix none (regular raw) = err key_error
  validate_file suffix (some spec) (regular raw) = do
    validate_artifact_bytes R spec raw
    semantics suffix raw

  unfoldable pub validate_files : List (String × LocalFile) → Result (Unit {0})
  validate_files [] = ok tt
  validate_files ((suffix, file) ∷ files) = do
    validate_file suffix (find_spec (artifact_name suffix) artifacts) file
    validate_files files

  unfoldable pub validate_local_artifacts : LocalFile → LocalFile → LocalFile → Result (Unit {0})
  validate_local_artifacts jar pom gradle_module =
      validate_files ((".jar", jar) ∷ (".pom", pom) ∷ (".module", gradle_module) ∷ [])
