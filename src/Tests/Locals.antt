-- ===== src/Tests/Locals.antt =====
-- The local files of the package, at files of the published sizes.
use devpath_shared.Base.{
  ℕ, zero, suc, ◌≡◌, refl, ap, Option, some, List, [], ◌∷◌, String, ◌==◌, ◌==ˢ◌, length,
  if◌then◌else◌,
}
use devpath_shared.Base.Result.{ok}
use devpath_shared.Json.{text, object, field, end, get, py_eq}
use devpath_shared.Runtime.{Bytes, Runtime}
use devpath_shared.Package.Artifact.{
  ArtifactSpec, artifacts, validate_artifact_bytes, validate_artifact_bytes_iff,
}
use devpath_shared.Package.Local.{
  Reader, regular, validate_local_artifacts, validate_files, validate_file, semantics,
  validate_pom_semantics, validate_module_semantics, require_children, has_coordinates,
}
use devpath_shared.Package.Local.Exact.{IsArtifact, IsPom, IsModule, validate_local_artifacts-exact}
use devpath_shared.Tests.Sample.{runtime}

unfoldable repeat : ℕ → ℕ → Bytes
repeat zero c = []
repeat (suc n) c = c ∷ repeat n c

length-repeat : (n c : ℕ) → length (repeat n c) ≡ n
unfolding repeat
length-repeat zero c = refl
length-repeat (suc n) c = ap suc (length-repeat n c)

abbrev sha_of_head : Bytes → String
sha_of_head [] = ""
sha_of_head (c ∷ raw) =
    if c == 1
    then "3a64de1a1773f1aa05ccd801a88f01ef2cead887e44930554074230fd01f2996"
    else if c == 2
    then "3d2dbf7bc1dd2ef98d327d941ac4c23b419e22fb8d69857d4f7a02f556b3ba50"
    else "a6b05c5408dfbd55ee7edcd3ce9492142e3d15c9d6f904b178d64d088e0a6964"

abbrev local_runtime : Runtime
local_runtime = record runtime { sha256 = sha_of_head }

abbrev children : String → List (Option String)
children name =
    if name ==ˢ "groupId"
    then some "ai.devpath" ∷ []
    else if name ==ˢ "artifactId"
    then some "devpath-shared" ∷ []
    else some "0.0.1-rm.20260907" ∷ []

abbrev reader : Reader
reader = record {
  xml_children = λ raw. some children;
  json_document = λ raw. some (
      object (
        field "component"
          (object (
            field "group" (text "ai.devpath") (
              field "module" (text "devpath-shared")
                (field "version" (text "0.0.1-rm.20260907") end))))
          end));
}

abbrev jar_spec : ArtifactSpec
jar_spec = record {
  name = "devpath-shared-0.0.1-rm.20260907.jar";
  size = 1239001;
  sha256 = "3a64de1a1773f1aa05ccd801a88f01ef2cead887e44930554074230fd01f2996";
}

abbrev pom_spec : ArtifactSpec
pom_spec = record {
  name = "devpath-shared-0.0.1-rm.20260907.pom";
  size = 1545;
  sha256 = "3d2dbf7bc1dd2ef98d327d941ac4c23b419e22fb8d69857d4f7a02f556b3ba50";
}

abbrev module_spec : ArtifactSpec
module_spec = record {
  name = "devpath-shared-0.0.1-rm.20260907.module";
  size = 2883;
  sha256 = "a6b05c5408dfbd55ee7edcd3ce9492142e3d15c9d6f904b178d64d088e0a6964";
}

sha_of_repeat : (n c : ℕ) → sha_of_head (repeat (suc n) c) ≡ sha_of_head (c ∷ [])
unfolding repeat
sha_of_repeat n c = refl

jar_is_exact : validate_artifact_bytes local_runtime jar_spec (repeat 1239001 1) ≡ ok tt
jar_is_exact =
    (validate_artifact_bytes_iff local_runtime jar_spec (repeat 1239001 1)).1
      (length-repeat 1239001 1, sha_of_repeat 1239000 1)

pom_is_exact : validate_artifact_bytes local_runtime pom_spec (repeat 1545 2) ≡ ok tt
pom_is_exact =
    (validate_artifact_bytes_iff local_runtime pom_spec (repeat 1545 2)).1
      (length-repeat 1545 2, sha_of_repeat 1544 2)

module_is_exact : validate_artifact_bytes local_runtime module_spec (repeat 2883 3) ≡ ok tt
module_is_exact =
    (validate_artifact_bytes_iff local_runtime module_spec (repeat 2883 3)).1
      (length-repeat 2883 3, sha_of_repeat 2882 3)

files_are_valid :
    validate_local_artifacts local_runtime reader
      (regular (repeat 1239001 1))
      (regular (repeat 1545 2))
      (regular (repeat 2883 3))
    ≡ ok tt
unfolding validate_local_artifacts validate_files validate_file artifacts semantics
    validate_pom_semantics validate_module_semantics require_children get has_coordinates py_eq
files_are_valid = rw (jar_is_exact, pom_is_exact, module_is_exact) refl

validate_local_artifacts-exact_example :
    (j p m : Bytes) × IsArtifact local_runtime reader ".jar" (regular (repeat 1239001 1)) j
    × IsArtifact local_runtime reader ".pom" (regular (repeat 1545 2)) p
    × IsArtifact local_runtime reader ".module" (regular (repeat 2883 3)) m
    × IsPom local_runtime reader p
    × IsModule local_runtime reader m
validate_local_artifacts-exact_example =
    validate_local_artifacts-exact local_runtime reader (regular (repeat 1239001 1))
      (regular (repeat 1545 2)) (regular (repeat 2883 3)) files_are_valid
