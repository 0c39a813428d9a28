-- ===== src/Base/Text.antt =====
-- `str` as the scripts walk it: code points, prefixes and slices.
use Prim.Native.Char.{Char, code}
use Prim.Native.Nat.{ℕ, zero, suc, ◌+◌, ◌≤◌}
use Prim.Native.String.{String, ◌++◌ as ◌<>◌}
use Prim.Native.String.append
use mathlib.Core.Path.{◌≡◌, refl, ap, ap₂, sym, ◌∙◌}
use mathlib.Core.Logic.{inl, inr}
use mathlib.Core.Bool.{Bool, true, false, ◌&&◌, ◌||◌}
use mathlib.Core.Option.{Option, none, some, some-injective}
use mathlib.Core.List.{List, [], ◌∷◌, ◌++◌}
use native.Mathlib.Omega.{arith}
use text.Mathlib.TextEquality.{Char-path}
use devpath_shared.Base.Tests.{◌==◌, leb, if◌then◌else◌, length, Bool-cases}

unfoldable pub codes : String → List ℕ
codes String.[] = []
codes (String.◌∷◌ c s) = code c ∷ codes s

-- `s[:n]`
unfoldable pub take_text : ℕ → String → String
take_text zero s = String.[]
take_text (suc n) String.[] = String.[]
take_text (suc n) (String.◌∷◌ c s) = String.◌∷◌ c (take_text n s)

-- The rest of `s` behind `p`, if `s` starts with `p`.
unfoldable pub after_prefix : String → String → Option String
after_prefix String.[] s = some s
after_prefix (String.◌∷◌ c p) String.[] = none
after_prefix (String.◌∷◌ c p) (String.◌∷◌ d s) =
    let rest = after_prefix p s in if code c == code d then rest else none

-- `s.removeprefix(p)`
unfoldable pub remove_prefix : String → String → String
unfolding after_prefix
remove_prefix p s = elim (after_prefix p s) [ none ↦ s | some rest ↦ rest ]

-- The characters that `str.strip` removes.
abbrev pub is_space : ℕ → Bool
is_space c =
    ((leb 9 c && leb c 13) || (leb 28 c && leb c 32))
    || ((c == 0x85 || c == 0xa0) || (c == 0x1680 || (leb 0x2000 c && leb c 0x200a)))
    || ((c == 0x2028 || c == 0x2029) || (c == 0x202f || (c == 0x205f || c == 0x3000)))

unfoldable pub strip_left : String → String
strip_left String.[] = String.[]
strip_left (String.◌∷◌ c s) =
    let rest = strip_left s in if is_space (code c) then rest else String.◌∷◌ c s

abbrev pub is_empty : String → Bool
is_empty String.[] = true
is_empty (String.◌∷◌ c s) = false

strip_right : String → String
strip_right String.[] = String.[]
strip_right (String.◌∷◌ c s) =
    let rest = strip_right s in
    if is_space (code c) && is_empty rest then String.[] else String.◌∷◌ c rest

-- `s.strip()`
unfoldable pub strip : String → String
unfolding strip_left strip_right
strip s = strip_right (strip_left s)

abbrev lower_code : ℕ → ℕ
lower_code c = if leb b'A' c && leb c b'Z' then c + 32 else c

-- `s.lower() == t.lower()` of ASCII texts
unfoldable pub eq_lower : String → String → Bool
eq_lower String.[] String.[] = true
eq_lower String.[] (String.◌∷◌ d t) = false
eq_lower (String.◌∷◌ c s) String.[] = false
eq_lower (String.◌∷◌ c s) (String.◌∷◌ d t) =
    lower_code (code c) == lower_code (code d) && eq_lower s t

pub codes-append : (s t : String) → codes (s <> t) ≡ codes s ++ codes t
unfolding codes
codes-append String.[] t = ap codes (λ i. append.nil t i)
codes-append (String.◌∷◌ c s) t =
    ap codes (λ i. append.cons c s t i) ∙ ap (λ (l : List ℕ). code c ∷ l) (codes-append s t)

pub codes-take_text :
    (n : ℕ) (s : String) → n ≤ length (codes s) → length (codes (take_text n s)) ≡ n
unfolding codes take_text
codes-take_text zero s h = refl
codes-take_text (suc n) String.[] h = absurd (omega arith)
codes-take_text (suc n) (String.◌∷◌ c s) h = ap suc (codes-take_text n s (omega arith))

pub after_prefix-append : (p s : String) → after_prefix p (p <> s) ≡ some s
unfolding after_prefix
after_prefix-append String.[] s = ap some (λ i. append.nil s i)
after_prefix-append (String.◌∷◌ c p) s =
    ap (after_prefix (String.◌∷◌ c p)) (λ i. append.cons c p s i)
    ∙ ground (arith, after_prefix-append p s)

cons-cong : {c d : Char} {s t : String} → code c ≡ code d → s ≡ t → String.◌∷◌ c s ≡ String.◌∷◌ d t
cons-cong {c} {d} e h = ap₂ (λ x y. String.◌∷◌ x y) (Char-path c d e) h

pub append-after_prefix : (p s : String) {t : String} → after_prefix p s ≡ some t → s ≡ p <> t
unfolding after_prefix
append-after_prefix String.[] s {t} h = some-injective s t h ∙ sym (λ i. append.nil t i)
append-after_prefix (String.◌∷◌ c p) String.[] h = cc
append-after_prefix (String.◌∷◌ c p) (String.◌∷◌ d s) {t} h = elim (Bool-cases (code c == code d)) [
  | inl e ↦
      cons-cong (ground arith) (append-after_prefix p s (rw e at h))
      ∙ sym (λ i. append.cons c p t i)
  | inr e ↦ absurd (ground arith)
]
