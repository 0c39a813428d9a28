-- ===== src/Package/Local/Exact.antt =====
-- Which local files are accepted.
use devpath_shared.Base.{
  ◌≡◌, refl, ap, ◌∙◌, ◌↔◌, true, Option, none, some, List, [], ◌∷◌, String, eq_iff, All, arith,
}
use devpath_shared.Base.Result.{ok, >>=-eq-ok, or_refuse-eq-ok}
use devpath_shared.Json.{text, object, Fields, get, py_eq-text_iff, as_dict, as_dict-eq}
use devpath_shared.Runtime.{Bytes, Runtime}
use devpath_shared.Package.Artifact.{
  ArtifactSpec, artifacts, IsExact, validate_artifact_bytes, validate_artifact_bytes_iff,
}
use devpath_shared.Package.Remote.{find_spec}
use devpath_shared.Package.Local.{
  Reader, LocalFile, regular, not_regular, artifact_name, pom_coordinates, module_coordinates,
  is_single, require_children, has_coordinates, validate_pom_semantics, validate_module_semantics,
  semantics, validate_file, validate_files, validate_local_artifacts,
}

is_single_iff :
    (nodes : List (Option String)) (value : String)
    → (is_single nodes value ≡ true) ↔ (nodes ≡ some value ∷ [])
is_single_iff [] value = ground arith
is_single_iff (none ∷ nodes) value = ground arith
is_single_iff (some s ∷ []) value = ground (arith, eq_iff s value)
is_single_iff (some s ∷ n ∷ nodes) value = ground arith

require_children_iff :
    (find : String → List (Option String)) (expected : List (String × String))
    → (require_children find expected ≡ ok tt)
      ↔ All (λ (e : String × String). find e.0 ≡ some e.1 ∷ []) expected
unfolding require_children
require_children_iff find [] = ground arith
require_children_iff find ((key, value) ∷ expected) =
    ground (arith, is_single_iff (find key) value, require_children_iff find expected)

has_coordinates_iff :
    (d : Fields) (expected : List (String × String))
    → (has_coordinates d expected ≡ true)
      ↔ All (λ (e : String × String). get d e.0 ≡ text e.1) expected
unfolding has_coordinates
has_coordinates_iff d [] = ground arith
has_coordinates_iff d ((key, value) ∷ expected) =
    ground (arith, py_eq-text_iff (get d key) value, has_coordinates_iff d expected)

module _ (R : Runtime) (F : Reader) where
  -- The POM has one child of each name, with the text of the coordinate.
  abbrev pub IsPom : Bytes → Type 0
  IsPom raw =
      (find : String → List (Option String)) × (F.xml_children raw ≡ some find)
      × All (λ (e : String × String). find e.0 ≡ some e.1 ∷ []) pom_coordinates

  -- The module metadata has a component with the coordinates.
  abbrev pub IsModule : Bytes → Type 0
  IsModule raw =
      (d component : Fields) × (F.json_document raw ≡ some (object d))
      × (get d "component" ≡ object component)
      × All (λ (e : String × String). get component e.0 ≡ text e.1) module_coordinates

  validate_pom_semantics-IsPom : (raw : Bytes) → validate_pom_semantics R F raw ≡ ok tt → IsPom raw
  unfolding validate_pom_semantics
  validate_pom_semantics-IsPom raw h =
      let (find, parsed, h₁) = or_refuse-eq-ok (F.xml_children raw) _ _ h in
      (find, parsed, (require_children_iff find pom_coordinates).0 h₁)

  validate_module_semantics-IsModule :
      (raw : Bytes) → validate_module_semantics R F raw ≡ ok tt → IsModule raw
  unfolding validate_module_semantics
  validate_module_semantics-IsModule raw h =
      let (v, parsed, h₁) = or_refuse-eq-ok (F.json_document raw) _ _ h in
      let (d, is_dict, h₂) = or_refuse-eq-ok (as_dict v) _ _ h₁ in
      let (c, is_component, h₃) = or_refuse-eq-ok (as_dict (get d "component")) _ _ h₂ in
      (
        d,
        c,
        parsed ∙ ap some (as_dict-eq v is_dict),
        as_dict-eq _ is_component,
        (has_coordinates_iff c module_coordinates).0 (ground arith),
      )

  -- A regular file with the bytes of its entry in `ARTIFACTS`.
  abbrev pub IsArtifact : String → LocalFile → Bytes → Type 0
  IsArtifact suffix file raw =
      (spec : ArtifactSpec) × (find_spec (artifact_name suffix) artifacts ≡ some spec)
      × (file ≡ regular raw)
      × IsExact R spec raw

  validate_file-IsArtifact :
      (suffix : String) (o : Option ArtifactSpec) (file : LocalFile)
      → find_spec (artifact_name suffix) artifacts ≡ o
      → validate_file R F suffix o file ≡ ok tt
      → (raw : Bytes) × IsArtifact suffix file raw × (semantics R F suffix raw ≡ ok tt)
  unfolding validate_file
  validate_file-IsArtifact suffix o not_regular e h = absurd (ground arith)
  validate_file-IsArtifact suffix none (regular raw) e h = absurd (ground arith)
  validate_file-IsArtifact suffix (some spec) (regular raw) e h =
      let (u, exact, h₁) = >>=-eq-ok (validate_artifact_bytes R spec raw) _ h in
      (raw, (spec, e, refl, (validate_artifact_bytes_iff R spec raw).0 exact), h₁)

  -- When the three local files are accepted, each is a regular file with the exact bytes of its entry,
  -- the POM names the coordinates, each once, and so does the component of the module metadata.
  pub validate_local_artifacts-exact :
      (jar pom gradle_module : LocalFile)
      → validate_local_artifacts R F jar pom gradle_module ≡ ok tt
      → (j p m : Bytes) × IsArtifact ".jar" jar j
        × IsArtifact ".pom" pom p
        × IsArtifact ".module" gradle_module m
        × IsPom p
        × IsModule m
  unfolding validate_local_artifacts validate_files semantics
  validate_local_artifacts-exact jar pom gradle_module h =
      let (u, h₁, rest₁) =
        >>=-eq-ok (validate_file R F ".jar" (find_spec (artifact_name ".jar") artifacts) jar) _ h in
      let (v, h₂, rest₂) =
        >>=-eq-ok (validate_file R F ".pom" (find_spec (artifact_name ".pom") artifacts) pom) _
          rest₁ in
      let (w, h₃, rest₃) =
        >>=-eq-ok
          (validate_file R F ".module" (find_spec (artifact_name ".module") artifacts)
            gradle_module)
          _ rest₂ in
      let (j, jar_exact, _) = validate_file-IsArtifact ".jar" _ jar refl h₁ in
      let (p, pom_exact, pom_good) = validate_file-IsArtifact ".pom" _ pom refl h₂ in
      let (m, module_exact, module_good) =
        validate_file-IsArtifact ".module" _ gradle_module refl h₃ in
      (
        j,
        p,
        m,
        jar_exact,
        pom_exact,
        module_exact,
        validate_pom_semantics-IsPom p pom_good,
        validate_module_semantics-IsModule m module_good,
      )
