-- ===== src/Gate/Text.antt =====
-- `_validate_lf_text`, and what the gate searches in texts.
use devpath_shared.Base.{
  ℕ, zero, suc, ◌+◌, ◌≤◌, ◌<◌, ◌≡◌, refl, sym, ◌∙◌, ap, ◌↔◌, Bool, true, false, ◌&&◌, ◌||◌, not,
  Option, none, some, List, [], ◌∷◌, String, ◌<>◌, ◌==◌, leb, ltb, length, arith,
}
use devpath_shared.Base.Result.{Result, ok, ◌>>◌, ensure, or_refuse, ensure-eq-ok}
use devpath_shared.Runtime.{Bytes, Runtime}
use devpath_shared.Image.Evidence.Folder.{eq_raw}

-- `c in raw`
abbrev pub holds : ℕ → List ℕ → Bool
holds c [] = false
holds c (d ∷ s) = d == c || holds c s

-- `raw.endswith(b"\n")`
abbrev pub ends_line : List ℕ → Bool
ends_line [] = false
ends_line (c ∷ []) = c == b'\n'
ends_line (c ∷ d ∷ s) = ends_line (d ∷ s)

-- `s.startswith(p)`
abbrev pub starts_with : List ℕ → List ℕ → Bool
starts_with [] s = true
starts_with (c ∷ p) [] = false
starts_with (c ∷ p) (d ∷ s) = c == d && starts_with p s

unfoldable pub lf_text : Runtime → Bytes → String → ℕ → Result String
lf_text R raw label maximum = do
  ensure (ltb 0 (length raw) && leb (length raw) maximum)
      (label <> " size is outside the allowed bound")
  ensure (not (holds 0 raw) && not (holds b'\r' raw) && ends_line raw)
      (label <> " must be NUL-free LF-terminated UTF-8")
  or_refuse (R.decode raw) (label <> " must be UTF-8")

abbrev pub take : ℕ → List ℕ → List ℕ
take zero s = []
take (suc n) [] = []
take (suc n) (c ∷ s) = c ∷ take n s

abbrev pub drop : ℕ → List ℕ → List ℕ
drop zero s = s
drop (suc n) [] = []
drop (suc n) (c ∷ s) = drop n s

pub length-take : (k : ℕ) (s : List ℕ) → k ≤ length s → length (take k s) ≡ k
length-take zero s h = refl
length-take (suc k) [] h = absurd (omega arith)
length-take (suc k) (c ∷ s) h = ap suc (length-take k s (omega arith))

pub length-drop : (k : ℕ) (s : List ℕ) → k ≤ length s → length (drop k s) + k ≡ length s
length-drop zero s h = omega arith
length-drop (suc k) [] h = absurd (omega arith)
length-drop (suc k) (c ∷ s) h = omega (arith, length-drop k s (omega arith))

pub take-nil : (k : ℕ) → take k [] ≡ []
take-nil zero = refl
take-nil (suc k) = refl

pub drop-nil : (k : ℕ) → drop k [] ≡ []
drop-nil zero = refl
drop-nil (suc k) = refl

pub drop-drop : (a b : ℕ) (s : List ℕ) → drop b (drop a s) ≡ drop (a + b) s
drop-drop zero b s = ground arith
drop-drop (suc a) b [] = drop-nil b ∙ sym (drop-nil (suc a + b))
drop-drop (suc a) b (c ∷ s) =
    let e : suc a + b ≡ suc (a + b) = omega arith in rw e (drop-drop a b s)

pub drop-end : (k : ℕ) (s : List ℕ) → length s ≤ k → drop k s ≡ []
drop-end zero [] h = refl
drop-end zero (c ∷ s) h = absurd (omega arith)
drop-end (suc k) [] h = refl
drop-end (suc k) (c ∷ s) h = drop-end k s (omega arith)

pub take-all : (k : ℕ) (s : List ℕ) → length s ≤ k → take k s ≡ s
take-all zero [] h = refl
take-all zero (c ∷ s) h = absurd (omega arith)
take-all (suc k) [] h = refl
take-all (suc k) (c ∷ s) h = ap (λ (t : List ℕ). c ∷ t) (take-all k s (omega arith))

pub eq_raw_iff : (s t : List ℕ) → (eq_raw s t ≡ true) ↔ (s ≡ t)
eq_raw_iff [] [] = ground arith
eq_raw_iff [] (d ∷ t) = ground arith
eq_raw_iff (c ∷ s) [] = ground arith
eq_raw_iff (c ∷ s) (d ∷ t) = ground (arith, eq_raw_iff s t)

module _ (R : Runtime) where
  pub lf_text-eq_ok :
      (raw : Bytes) (label : String) (maximum : ℕ) {content : String}
      → lf_text R raw label maximum ≡ ok content
      → (0 < length raw)
        × (length raw ≤ maximum)
        × (holds 0 raw ≡ false)
        × (holds b'\r' raw ≡ false)
        × (ends_line raw ≡ true)
        × (R.decode raw ≡ some content)
  unfolding lf_text
  lf_text-eq_ok raw label maximum {content} h =
      let (sized, h₁) = ensure-eq-ok (ltb 0 (length raw) && leb (length raw) maximum) _ _ h in
      let (clean, h₂) =
        ensure-eq-ok (not (holds 0 raw) && not (holds b'\r' raw) && ends_line raw) _ _ h₁ in
      decoded (R.decode raw) sized clean h₂
    where
      decoded :
          (o : Option String)
          → (ltb 0 (length raw) && leb (length raw) maximum) ≡ true
          → (not (holds 0 raw) && not (holds b'\r' raw) && ends_line raw) ≡ true
          → or_refuse o (label <> " must be UTF-8") ≡ ok content
          → (0 < length raw)
            × (length raw ≤ maximum)
            × (holds 0 raw ≡ false)
            × (holds b'\r' raw ≡ false)
            × (ends_line raw ≡ true)
            × (o ≡ some content)
      decoded none sized clean h = cc
      decoded (some t) sized clean h = ground (arith, h)

  pub lf_text_complete :
      (raw : Bytes) (label : String) (maximum : ℕ) {content : String}
      → 0 < length raw
      → length raw ≤ maximum
      → holds 0 raw ≡ false
      → holds b'\r' raw ≡ false
      → ends_line raw ≡ true
      → R.decode raw ≡ some content
      → lf_text R raw label maximum ≡ ok content
  unfolding lf_text
  lf_text_complete raw label maximum above below no_nul no_cr ends decoded = ground (arith, decoded)
