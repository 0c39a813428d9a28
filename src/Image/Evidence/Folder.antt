-- ===== src/Image/Evidence/Folder.antt =====
-- The directory of the evidence: `write_evidence` and `validate_evidence_directory`.
pub mod RoundTrip
use devpath_shared.Base.{
  ℕ, Bool, true, false, not, ◌&&◌, Option, none, some, List, [], ◌∷◌, String, ◌==ˢ◌, ltb, leb,
  length, if◌then◌else◌,
}
use devpath_shared.Base.Result.{Result, ok, err, refused, os_error, ◌>>=◌, ◌>>◌, ensure}
use devpath_shared.Base.Exec.{Exec}
use devpath_shared.Json.{Fields, object}
use devpath_shared.Runtime.{Bytes, Runtime}
use devpath_shared.Image.Format.{parse_json}
use devpath_shared.Image.Evidence.{evidence_document, validate_evidence}

abbrev pub max_evidence_bytes : ℕ
max_evidence_bytes = 8192

-- What stands in a directory under a name. A symbolic link is not followed.
pub data Node : Type 0 where
  plain : Bytes → Node
  symlink special : Node

-- What stands at the path of the directory.
pub data Root : Type 0 where
  missing parentless linked not_directory : Root
  directory : List (String × Node) → Root

-- `raw != _canonical_json(document)`
abbrev pub eq_raw : Bytes → Bytes → Bool
eq_raw [] [] = true
eq_raw [] (d ∷ t) = false
eq_raw (c ∷ s) [] = false
eq_raw (c ∷ s) (d ∷ t) = leb c d && leb d c && eq_raw s t

-- `root.mkdir(parents=False, exist_ok=False)`
unfoldable pub make_directory : Exec Root (Unit {0})
make_directory missing = (ok tt, directory [])
make_directory parentless = (err os_error, parentless)
make_directory linked = (err os_error, linked)
make_directory not_directory = (err os_error, not_directory)
make_directory (directory entries) = (err os_error, directory entries)

module _ (R : Runtime) where
  -- What the fields are checked against comes first, then the directory is made, and a document that
  -- is too long leaves it empty.
  unfoldable pub write_evidence : String → ℕ → ℕ → String → String → Exec Root String
  write_evidence source_sha run_id run_attempt image_digest publish_mode root =
      elim (validate_evidence
        (object (evidence_document source_sha run_id run_attempt image_digest publish_mode))) [
          | err e ↦ (err e, root)
          | ok document ↦
              let (made, root') = make_directory root in
              let raw = R.dumps_unicode (object document) in
              elim made [
                | err e ↦ (err e, root')
                | ok _ ↦
                    if ltb max_evidence_bytes (length raw)
                    then (err (refused "migration image evidence exceeded its byte limit"), root')
                    else (ok "evidence.json", directory (("evidence.json", plain raw) ∷ []))
              ]
        ]

  unfoldable pub validate_evidence_file : Bytes → Result Fields
  validate_evidence_file raw = do
    ensure (ltb 0 (length raw) && leb (length raw) max_evidence_bytes)
        "migration image evidence size is invalid"
    parsed ← parse_json R raw "migration image evidence"
    document ← validate_evidence parsed
    ensure (eq_raw raw (R.dumps_unicode (object document)))
        "migration image evidence is not canonical LF UTF-8 JSON"
    ok document

  abbrev pub validate_entries : List (String × Node) → Result Fields
  validate_entries ((name, plain raw) ∷ []) = do
    ensure (name ==ˢ "evidence.json")
        "migration image evidence root must contain only evidence.json"
    validate_evidence_file raw
  validate_entries ((name, symlink) ∷ []) = do
    ensure (name ==ˢ "evidence.json")
        "migration image evidence root must contain only evidence.json"
    err (refused "migration image evidence is not one regular file")
  validate_entries ((name, special) ∷ []) = do
    ensure (name ==ˢ "evidence.json")
        "migration image evidence root must contain only evidence.json"
    err (refused "migration image evidence is not one regular file")
  validate_entries _ = err (refused "migration image evidence root must contain only evidence.json")

  unfoldable pub validate_evidence_directory : Root → Result Fields
  validate_evidence_directory (directory entries) = validate_entries entries
  validate_evidence_directory _ =
      err (refused "migration image evidence root is not one regular directory")
