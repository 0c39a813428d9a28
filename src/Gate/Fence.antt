-- ===== src/Gate/Fence.antt =====
-- The writer fence: `_writer_fence_block`, `render_writer_fence_kustomization` and
-- `validate_writer_fence_kustomization`. A text is the list of its code points; what the gate writes
-- itself is ASCII, whose UTF-8 bytes are its code points.
pub mod Append
pub mod Once
use devpath_shared.Base.{
  ℕ, ◌+◌, ◌-◌, Bool, true, false, ◌&&◌, Option, none, some, List, [], ◌∷◌, ◌++◌, String, ◌<>◌, ◌==◌,
  leb, length, if◌then◌else◌,
}
use devpath_shared.Base.Text.{codes, is_space}
use devpath_shared.Base.Result.{Result, ok, ◌>>=◌, ◌>>◌, ensure}
use devpath_shared.Json.{contains}
use devpath_shared.Runtime.{Bytes, Runtime}
use devpath_shared.Image.Evidence.Folder.{eq_raw}
use devpath_shared.Gate.Text.{lf_text, take, drop}

abbrev pub max_kustomization_bytes : ℕ
max_kustomization_bytes = 65536

abbrev pub writer_service_names : List String
writer_service_names = "devpath-platform-svc" ∷ "devpath-sandbox-svc" ∷ []

unfoldable pub writer_fence_block : String → Result (List ℕ)
writer_fence_block service_name = do
  ensure (contains writer_service_names service_name) "writer fence service is not allowlisted"
  ok (codes ("replicas:\n- name: " <> service_name <> "\n  count: 0\n"))

-- What stands behind a text.
abbrev pub behind : List ℕ → List ℕ → Option (List ℕ)
behind [] s = some s
behind (c ∷ p) [] = none
behind (c ∷ p) (d ∷ s) = let rest = behind p s in if c == d then rest else none

-- `\s*:`
abbrev pub colon_follows : List ℕ → Bool
colon_follows [] = false
colon_follows (c ∷ s) = let rest = colon_follows s in if is_space c then rest else c == b':'

-- `replicas\s*:` here
unfoldable pub override_here : List ℕ → Bool
unfolding codes
override_here s = elim (behind (codes "replicas") s) [
  | none ↦ false
  | some rest ↦ colon_follows rest
]

-- The matches of `(?m)^replicas\s*:`, of a text that begins at a line or not. They do not overlap,
-- since none holds the start of another.
unfoldable pub count_overrides : Bool → List ℕ → ℕ
count_overrides at_line [] = 0
count_overrides at_line (c ∷ s) =
    (if at_line && override_here (c ∷ s) then 1 else 0) + count_overrides (c == b'\n') s

-- `text.endswith(block)`
abbrev pub ends_with : List ℕ → List ℕ → Bool
ends_with block s = leb (length block) (length s) && eq_raw (drop (length s - length block) s) block

module _ (R : Runtime) where
  unfoldable pub validate_writer_fence : Bytes → String → Result (Unit {0})
  validate_writer_fence raw service_name = do
    content ← lf_text R raw (service_name <> " writer fence") max_kustomization_bytes
    block ← writer_fence_block service_name
    ensure (count_overrides true (codes content) == 1 && ends_with block (codes content))
        (service_name <> " writer fence is not exact")
    ensure
        (count_overrides true (take (length (codes content) - length block) (codes content)) == 0)
        (service_name <> " writer fence is duplicated")

  unfoldable pub render_writer_fence : Bytes → String → Result Bytes
  render_writer_fence raw service_name = do
    content ← lf_text R raw (service_name <> " kustomization") max_kustomization_bytes
    ensure (count_overrides true (codes content) == 0)
        (service_name <> " sealed base already contains a replica override")
    block ← writer_fence_block service_name
    validate_writer_fence (raw ++ block) service_name
    ok (raw ++ block)
