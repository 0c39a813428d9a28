-- ===== src/Gate/Result/Folder.antt =====
-- The directory of the evidence: `write_result_evidence` and `verify_result_evidence_dir`.
use devpath_shared.Base.{
  ℕ, ◌+◌, ◌≤◌, ◌<◌, ◌≡◌, refl, sym, ◌∙◌, Bool, true, false, ◌&&◌, List, [], ◌∷◌, String, ◌==ˢ◌, ltb,
  leb, length, Bool-cases, inl, inr, and_iff, ltb_iff, leb_iff, ◌≢◌, ◌⊎◌, if◌then◌else◌, arith,
}
use devpath_shared.Base.Result.{
  Error, Result, ok, err, refused, ◌>>=◌, ◌>>◌, ensure, >>=-eq-ok, ensure-eq-ok,
}
use devpath_shared.Base.Exec.{Exec}
use devpath_shared.Json.{Fields}
use devpath_shared.Runtime.{Bytes, Runtime}
use devpath_shared.Gate.Format.{json_object, json_value}
use devpath_shared.Gate.File.{Stat, File, read_regular_file}
use devpath_shared.Gate.Text.{take, drop, length-drop, take-all}
use devpath_shared.Gate.File.Whole.{Serves, read_regular_file_iff}
use devpath_shared.Gate.Result.{max_evidence_bytes}
use devpath_shared.Gate.Result.Check.{validate_result_evidence}

abbrev pub result_filename : String
result_filename = "evidence.json"

-- What stands at the path of the directory.
pub data Node : Type 0 where
  missing linked not_directory : Node
  directory : List (String × File) → Node

-- The path, whether its parent is one regular directory, and whether a file can be created below.
pub record Place : Type 0 where
  pub parent_is_directory : Bool
  pub can_create : Bool
  pub node : Node

-- A file that has been written and is left alone.
abbrev pub written_stat : Bytes → Stat
written_stat raw = record { is_regular = true; dev = 1; ino = 1; size = length raw; mtime_ns = 1 }

abbrev pub written_file : Bytes → File
written_file raw = record {
  is_symlink = false;
  opens = true;
  before = written_stat raw;
  after = written_stat raw;
  os_read = λ offset limit. take limit (drop offset raw);
}

module _ (R : Runtime) where
  unfoldable pub verify_result_evidence_dir : Node → Result Fields
  verify_result_evidence_dir (directory ((name, file) ∷ [])) = do
    ensure (name ==ˢ result_filename) "evidence directory must contain only evidence.json"
    raw ← read_regular_file file result_filename max_evidence_bytes
    validate_result_evidence R raw
  verify_result_evidence_dir (directory _) =
      err (refused "evidence directory must contain only evidence.json")
  verify_result_evidence_dir _ = err (refused "evidence path must be one regular directory")

  -- `directory.mkdir(mode=0o700)` makes a directory, or finds something at the path.
  abbrev pub store_result : Bytes → Place → Result String × Place
  store_result raw place =
      if place.can_create
      then (let stored = directory ((result_filename, written_file raw) ∷ []) in
          (
            (do _ ← verify_result_evidence_dir stored; ok result_filename),
            record place { node = stored },
          ))
      else (
        err (refused "could not create immutable result evidence"),
        record place { node = directory [] },
      )

  unfoldable pub write_result_evidence : Bytes → Exec Place String
  write_result_evidence raw place = elim (validate_result_evidence R raw) [
    | err e ↦ (err e, place)
    | ok document ↦
        if place.parent_is_directory
        then elim place.node [
          | missing ↦ store_result raw place
          | _ ↦ (err (refused "evidence directory already exists"), place)
        ]
        else (err (refused "evidence parent must be one existing regular directory"), place)
  ]

pub written_file-Serves : (raw : Bytes) → Serves (written_file raw) raw
written_file-Serves raw offset limit h above =
    let size : length (drop offset raw) + offset ≡ length raw = length-drop offset raw h in
    elim (Bool-cases (leb limit (length (drop offset raw)))) [
      | inl short ↦ (limit, refl, omega arith, ground (arith, size), λ _. above)
      | inr long ↦
          let fits : length (drop offset raw) ≤ limit = ground arith in
          (
            length (drop offset raw),
            take-all limit (drop offset raw) fits
                ∙ sym (take-all (length (drop offset raw)) (drop offset raw) (omega arith)),
            fits,
            omega (arith, size),
            λ before_end. omega (arith, size, before_end),
          )
    ]

module _ (R : Runtime) where
  object_size :
      (raw : Bytes) (label : String) (maximum : ℕ) {d : Fields}
      → json_object R raw label maximum ≡ ok d
      → (0 < length raw) × (length raw ≤ maximum)
  unfolding json_object json_value
  object_size raw label maximum h =
      let (_, valued, _) = >>=-eq-ok (json_value R raw label maximum) _ h in
      let (sized, _) = ensure-eq-ok (ltb 0 (length raw) && leb (length raw) maximum) _ _ valued in
      ((ltb_iff _ _).0 ((and_iff _ _).0 sized).0, (leb_iff _ _).0 ((and_iff _ _).0 sized).1)

  valid_size :
      (raw : Bytes) {d : Fields}
      → validate_result_evidence R raw ≡ ok d
      → (0 < length raw) × (length raw ≤ max_evidence_bytes)
  unfolding validate_result_evidence
  valid_size raw h =
      let (_, parsed, _) = >>=-eq-ok (json_object R raw _ max_evidence_bytes) _ h in
      object_size raw _ max_evidence_bytes parsed

  verify_written :
      (raw : Bytes) {d : Fields}
      → validate_result_evidence R raw ≡ ok d
      → verify_result_evidence_dir R (directory ((result_filename, written_file raw) ∷ [])) ≡ ok d
  unfolding verify_result_evidence_dir
  verify_written raw h =
      let (above, below) = valid_size raw h in
      let read =
        (read_regular_file_iff (written_file raw) raw (written_file-Serves raw) result_filename
            max_evidence_bytes raw).1
          (refl, refl, refl, refl, above, below, refl, refl, refl, refl, refl) in
      rw read h

  -- A file that is accepted as evidence is written whole when nothing stands at the path, its parent is
  -- one regular directory and a file can be created there: the write succeeds, the new directory holds
  -- this file alone, and verifying it returns the document.
  pub verify_result_evidence_dir-write_result_evidence :
      (raw : Bytes) (place : Place) {d : Fields}
      → validate_result_evidence R raw ≡ ok d
      → place.parent_is_directory ≡ true
      → place.can_create ≡ true
      → place.node ≡ missing
      → (stored : Place) × (write_result_evidence R raw place ≡ (ok result_filename, stored))
        × (stored.node ≡ directory ((result_filename, written_file raw) ∷ []))
        × (verify_result_evidence_dir R stored.node ≡ ok d)
  unfolding write_result_evidence
  verify_result_evidence_dir-write_result_evidence raw place h parent create fresh = (
    record place { node = directory ((result_filename, written_file raw) ∷ []) },
    ground (arith, h, parent, fresh, create, verify_written raw h),
    refl,
    verify_written raw h,
  )

  -- Whatever is passed, a write where something stands already, or below what is no regular directory,
  -- is refused and changes nothing.
  pub write_result_evidence-keeps :
      (raw : Bytes) (place : Place)
      → (place.node ≢ missing) ⊎ (place.parent_is_directory ≡ false)
      → (e : Error) × (write_result_evidence R raw place ≡ (err e, place))
  unfolding write_result_evidence
  write_result_evidence-keeps raw place h =
      keeps (validate_result_evidence R raw) place.parent_is_directory place.node refl refl refl h
    where
      keeps :
          (checked : Result Fields) (parent : Bool) (node : Node)
          → validate_result_evidence R raw ≡ checked
          → place.parent_is_directory ≡ parent
          → place.node ≡ node
          → (place.node ≢ missing) ⊎ (place.parent_is_directory ≡ false)
          → (e : Error) × (write_result_evidence R raw place ≡ (err e, place))
      keeps (err e) parent node v p n g = (e, ground (arith, v))
      keeps (ok d) false node v p n g =
          (refused "evidence parent must be one existing regular directory", ground (arith, v, p))
      keeps (ok d) true missing v p n (inl taken) = absurd (taken n)
      keeps (ok d) true missing v p n (inr no_parent) = cc
      keeps (ok d) true linked v p n g =
          (refused "evidence directory already exists", ground (arith, v, p, n))
      keeps (ok d) true not_directory v p n g =
          (refused "evidence directory already exists", ground (arith, v, p, n))
      keeps (ok d) true (directory entries) v p n g =
          (refused "evidence directory already exists", ground (arith, v, p, n))
