-- ===== src/Image/Workflow/Outputs.antt =====
-- `_write_github_outputs`: the lines that a step hands to the next ones.
use devpath_shared.Base.{
  ℕ, ◌≡◌, refl, Bool, true, false, ◌&&◌, ◌||◌, not, List, [], ◌∷◌, String, ◌<>◌, ◌==◌, leb,
  if◌then◌else◌, arith,
}
use devpath_shared.Base.Text.{codes}
use devpath_shared.Base.Result.{ok, err, refused}
use devpath_shared.Base.Exec.{Exec}

-- What stands at the path of `GITHUB_OUTPUT`.
pub data OutputFile : Type 0 where
  regular : String → OutputFile
  absent linked irregular : OutputFile

-- `re.fullmatch(r"[a-z_]+", key)`
abbrev is_key_code : ℕ → Bool
is_key_code c = (leb b'a' c && leb c b'z') || c == b'_'

abbrev are_key_codes : List ℕ → Bool
are_key_codes [] = true
are_key_codes (c ∷ s) = is_key_code c && are_key_codes s

abbrev is_key : List ℕ → Bool
is_key [] = false
is_key (c ∷ s) = are_key_codes (c ∷ s)

abbrev has_break : List ℕ → Bool
has_break [] = false
has_break (c ∷ s) = (c == 10 || c == 13) || has_break s

unfoldable pub well_formed : List (String × String) → Bool
unfolding codes
well_formed [] = true
well_formed ((key, value) ∷ values) =
    (is_key (codes key) && not (has_break (codes value))) && well_formed values

unfoldable pub output_lines : List (String × String) → String
output_lines [] = ""
output_lines ((key, value) ∷ values) = key <> "=" <> value <> "\n" <> output_lines values

-- Every pair is checked before the first is written.
unfoldable pub write_github_outputs : List (String × String) → Exec OutputFile (Unit {0})
write_github_outputs values (regular written) =
    if well_formed values
    then (ok tt, regular (written <> output_lines values))
    else (err (refused "GitHub output key or value is malformed"), regular written)
write_github_outputs values absent =
    (err (refused "GITHUB_OUTPUT must already exist as one regular file"), absent)
write_github_outputs values linked =
    (err (refused "GITHUB_OUTPUT must already exist as one regular file"), linked)
write_github_outputs values irregular =
    (err (refused "GITHUB_OUTPUT must already exist as one regular file"), irregular)

pub write_github_outputs-eq_ok :
    (values : List (String × String)) (file : OutputFile) {file' : OutputFile}
    → write_github_outputs values file ≡ (ok tt, file')
    → (written : String) × (file ≡ regular written)
      × (file' ≡ regular (written <> output_lines values))
unfolding write_github_outputs
write_github_outputs-eq_ok values (regular written) h = (written, refl, ground arith)
write_github_outputs-eq_ok values absent h = absurd (ground arith)
write_github_outputs-eq_ok values linked h = absurd (ground arith)
write_github_outputs-eq_ok values irregular h = absurd (ground arith)
