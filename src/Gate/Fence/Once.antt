-- ===== src/Gate/Fence/Once.antt =====
-- The fence is appended once: a base without an override gets one, and a fenced text gets none.
use devpath_shared.Base.{
  ℕ, ◌+◌, ◌-◌, ◌≤◌, ◌<◌, ◌≡◌, refl, sym, ◌∙◌, ap, ◌⊎◌, inl, inr, true, false, ◌&&◌, some, List, ◌∷◌,
  ◌++◌, String, ◌<>◌, ◌==◌, ◌==ˢ◌, eq_iff, length, length-append, Bool-cases, arith,
}
use devpath_shared.Base.Text.{codes, codes-append}
use devpath_shared.Base.Result.{ok, err, refused, >>=-eq-ok, ensure-eq-ok, ok-injective}
use devpath_shared.Json.{contains}
use devpath_shared.Runtime.{Bytes, Runtime}
use devpath_shared.Gate.Text.{lf_text, holds, ends_line, take, lf_text-eq_ok, lf_text_complete}
use devpath_shared.Gate.Fence.Append.{
  holds-append, ends_line-append, take-append, ends_with-append, count-append,
}
use devpath_shared.Gate.Fence.{
  max_kustomization_bytes, writer_service_names, writer_fence_block, override_here, count_overrides,
  ends_with, validate_writer_fence, render_writer_fence,
}

-- What UTF-8 guarantees of a text and of ASCII text behind it: the bytes decode to the two texts, and a
-- last byte that ends a line is a last character that does.
pub record Extends (R : Runtime) (raw : Bytes) (base added : String) : Type 0 where
  pub appended : R.decode (raw ++ codes added) ≡ some (base <> added)
  pub last_line : ends_line raw ≡ true → ends_line (codes base) ≡ true

abbrev pub fence_of : String → String
fence_of service_name = "replicas:\n- name: " <> service_name <> "\n  count: 0\n"

-- A fence begins with `r`, holds one override and is lines.
abbrev IsFence : List ℕ → Type 0
IsFence block =
    (rest : List ℕ) × (block ≡ b'r' ∷ rest)
    × (count_overrides true block ≡ 1)
    × (holds 0 block ≡ false)
    × (holds b'\r' block ≡ false)
    × (ends_line block ≡ true)

platform_lem : IsFence (codes (fence_of "devpath-platform-svc"))
unfolding codes count_overrides override_here
platform_lem = (_, refl, refl, refl, refl, refl)

sandbox_lem : IsFence (codes (fence_of "devpath-sandbox-svc"))
unfolding codes count_overrides override_here
sandbox_lem = (_, refl, refl, refl, refl, refl)

service_cases :
    (s : String)
    → contains writer_service_names s ≡ true
    → (s ≡ "devpath-platform-svc") ⊎ (s ≡ "devpath-sandbox-svc")
service_cases s h = elim (Bool-cases ("devpath-platform-svc" ==ˢ s)) [
  | inl e ↦ inl (sym ((eq_iff _ _).0 e))
  | inr e ↦ inr (sym ((eq_iff _ _).0 (ground arith)))
]

fence_lem :
    (service_name : String)
    → contains writer_service_names service_name ≡ true
    → IsFence (codes (fence_of service_name))
fence_lem s h = elim (service_cases s h) [ inl e ↦ rw e platform_lem | inr e ↦ rw e sandbox_lem ]

block_lem :
    (service_name : String) {block : List ℕ}
    → writer_fence_block service_name ≡ ok block
    → (contains writer_service_names service_name ≡ true) × (block ≡ codes (fence_of service_name))
unfolding writer_fence_block
block_lem s h =
    let (known, returned) = ensure-eq-ok (contains writer_service_names s) _ _ h in
    (known, sym (ok-injective returned))

block_complete :
    (service_name : String)
    → contains writer_service_names service_name ≡ true
    → writer_fence_block service_name ≡ ok (codes (fence_of service_name))
unfolding writer_fence_block
block_complete s known = rw known refl

ends_fence : (s block : List ℕ) → IsFence block → ends_line (s ++ block) ≡ true
ends_fence s block (rest, e, _, _, _, h) = rw e (ends_line-append s rest b'r' ∙ (rw e at h))

count_fence :
    (s block : List ℕ)
    → IsFence block
    → ends_line s ≡ true
    → count_overrides true (s ++ block) ≡ count_overrides true s + 1
count_fence s block (rest, e, one, _, _, _) h =
    rw e (count-append rest true s h ∙ ap (λ (n : ℕ). count_overrides true s + n) (rw e at one))

before_fence : (s block : List ℕ) → take (length (s ++ block) - length block) (s ++ block) ≡ s
before_fence s block =
    let size : length (s ++ block) - length block ≡ length s =
      omega (arith, length-append s block) in
    rw size (take-append s block)

module _ (R : Runtime) where
  -- A text that ends in a fence, and has no other override.
  fenced_lem :
      (raw block : Bytes) (service_name content : String) (base : List ℕ)
      → lf_text R raw (service_name <> " writer fence") max_kustomization_bytes ≡ ok content
      → writer_fence_block service_name ≡ ok block
      → codes content ≡ base ++ block
      → IsFence block
      → ends_line base ≡ true
      → count_overrides true base ≡ 0
      → validate_writer_fence R raw service_name ≡ ok tt
  unfolding validate_writer_fence
  fenced_lem raw block service_name content base read is_block same fence ends bare =
      let one : count_overrides true (base ++ block) ≡ 1 =
        count_fence base block fence ends ∙ ap (λ (n : ℕ). n + 1) bare in
      let last = ends_with-append base block in
      let first = before_fence base block in rw (read, is_block, same, one, last, first, bare) refl

  read_fenced :
      (raw block : Bytes) (label : String) {content : String}
      → IsFence block
      → 0 < length raw
      → holds 0 raw ≡ false
      → holds b'\r' raw ≡ false
      → length raw + length block ≤ max_kustomization_bytes
      → R.decode (raw ++ block) ≡ some content
      → lf_text R (raw ++ block) label max_kustomization_bytes ≡ ok content
  read_fenced raw block label fence above no_nul no_cr fits decoded =
      let (_, _, _, block_no_nul, block_no_cr, _) = fence in
      let size = length-append raw block in
      lf_text_complete R (raw ++ block) label max_kustomization_bytes (omega (arith, size))
        (omega (arith, size)) (holds-append 0 raw block ∙ ground (arith, no_nul, block_no_nul))
        (holds-append b'\r' raw block ∙ ground (arith, no_cr, block_no_cr))
        (ends_fence raw block fence) decoded

  -- A kustomization of a writer that is read as a text without any override of replicas gets the fence
  -- of that writer as its last lines, and rendering never refuses what it has made: if the bound leaves
  -- room for the fence, and under what UTF-8 guarantees of ASCII text behind a text.
  pub render_writer_fence_complete :
      (raw : Bytes) (service_name base : String)
      → lf_text R raw (service_name <> " kustomization") max_kustomization_bytes ≡ ok base
      → count_overrides true (codes base) ≡ 0
      → contains writer_service_names service_name ≡ true
      → length raw + length (codes (fence_of service_name)) ≤ max_kustomization_bytes
      → Extends R raw base (fence_of service_name)
      → (render_writer_fence R raw service_name ≡ ok (raw ++ codes (fence_of service_name)))
        × (validate_writer_fence R (raw ++ codes (fence_of service_name)) service_name ≡ ok tt)
  unfolding render_writer_fence
  render_writer_fence_complete raw service_name base read bare known fits utf8 =
      let (above, _, no_nul, no_cr, ends, _) =
        lf_text-eq_ok R raw (service_name <> " kustomization") max_kustomization_bytes read in
      let fence = fence_lem service_name known in
      let is_block = block_complete service_name known in
      let valid =
        fenced_lem (raw ++ codes (fence_of service_name)) (codes (fence_of service_name))
          service_name (base <> fence_of service_name) (codes base)
          (read_fenced raw (codes (fence_of service_name)) (service_name <> " writer fence") fence
            above no_nul no_cr fits utf8.appended)
          is_block (codes-append base (fence_of service_name)) fence (utf8.last_line ends) bare in
      (rw (read, bare, is_block, valid) refl, valid)

  -- A kustomization that passes as fenced is never fenced again: rendering refuses it.
  pub render_writer_fence_once :
      (raw : Bytes) (service_name : String)
      → validate_writer_fence R raw service_name ≡ ok tt
      → render_writer_fence R raw service_name
        ≡ err (refused (service_name <> " sealed base already contains a replica override"))
  unfolding validate_writer_fence render_writer_fence
  render_writer_fence_once raw service_name h =
      let (content, read, h₁) =
        >>=-eq-ok (lf_text R raw (service_name <> " writer fence") max_kustomization_bytes) _ h in
      let (block, _, h₂) = >>=-eq-ok (writer_fence_block service_name) _ h₁ in
      let (exact, _) =
        ensure-eq-ok (count_overrides true (codes content) == 1 && ends_with block (codes content))
          _ _ h₂ in
      let (above, below, no_nul, no_cr, ends, decoded) =
        lf_text-eq_ok R raw (service_name <> " writer fence") max_kustomization_bytes read in
      let again =
        lf_text_complete R raw (service_name <> " kustomization") max_kustomization_bytes above
          below no_nul no_cr ends decoded in
      let one : count_overrides true (codes content) ≡ 1 = ground arith in
      ground (arith, again, one)
