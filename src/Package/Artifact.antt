-- ===== src/Package/Artifact.antt =====
-- `ArtifactSpec`, `ARTIFACTS`, `validate_artifact_bytes`
use devpath_shared.Base.{
  ℕ, ◌≡◌, ◌↔◌, List, [], ◌∷◌, String, ◌<>◌, ◌==◌, ◌==ˢ◌, eq_iff, length, arith,
}
use devpath_shared.Base.Decimal.{show}
use devpath_shared.Base.Result.{Result, ok, ◌>>◌, ensure}
use devpath_shared.Runtime.{Bytes, Runtime}

abbrev pub group_id : String
group_id = "ai.devpath"

abbrev pub artifact_id : String
artifact_id = "devpath-shared"

abbrev pub version : String
version = "0.0.1-rm.20260907"

abbrev pub repository : String
repository = "DevPathAi/devpath-shared"

pub record ArtifactSpec : Type 0 where
  pub name : String
  pub size : ℕ
  pub sha256 : String

-- A dict from file names; each value names its key.
abbrev pub Specs : Type 0
Specs = List (String × ArtifactSpec)

spec : String → ℕ → String → String × ArtifactSpec
spec suffix size sha =
    let name = artifact_id <> "-" <> version <> suffix in
    (name, record { name = name; size = size; sha256 = sha })

unfoldable pub artifacts : Specs
unfolding spec
artifacts =
    spec ".jar" 1239001 "3a64de1a1773f1aa05ccd801a88f01ef2cead887e44930554074230fd01f2996"
    ∷ spec ".pom" 1545 "3d2dbf7bc1dd2ef98d327d941ac4c23b419e22fb8d69857d4f7a02f556b3ba50"
    ∷ spec ".module" 2883 "a6b05c5408dfbd55ee7edcd3ce9492142e3d15c9d6f904b178d64d088e0a6964"
    ∷ []

module _ (R : Runtime) where
  unfoldable pub validate_artifact_bytes : ArtifactSpec → Bytes → Result (Unit {0})
  validate_artifact_bytes s raw = do
    ensure (length raw == s.size)
        (s.name <> " size drifted: expected " <> show s.size <> ", got " <> show (length raw))
    let actual = R.sha256 raw
    ensure (actual ==ˢ s.sha256)
        (s.name <> " SHA-256 drifted: expected " <> s.sha256 <> ", got " <> actual)

  -- The bytes of the specification, by size and hash.
  abbrev pub IsExact : ArtifactSpec → Bytes → Type 0
  IsExact s raw = (length raw ≡ s.size) × (R.sha256 raw ≡ s.sha256)

  pub validate_artifact_bytes_iff :
      (s : ArtifactSpec) (raw : Bytes) → (validate_artifact_bytes s raw ≡ ok tt) ↔ IsExact s raw
  unfolding validate_artifact_bytes
  validate_artifact_bytes_iff s raw = ground (arith, eq_iff (R.sha256 raw) s.sha256)
