-- ===== src/Gate/Integers.antt =====
-- `_positive_integer_string`: the texts that its pattern lets through are numbers, within a bound.
use Prim.Native.Char.{code}
use native.Mathlib.Nat.{mul-le-mul_right}
use devpath_shared.Base.{
  ℕ, zero, suc, ◌+◌, ◌-◌, ◌*◌, ◌≤◌, ◌<◌, ◌≡◌, refl, sym, ◌∙◌, true, some, String, length, all_of,
  and_iff, arith,
}
use devpath_shared.Base.Text.{codes}
use devpath_shared.Base.Decimal.{scan, int_of_text}
use devpath_shared.Base.Pattern.{done, piece, matches, fullmatch, fullmatch-range_iff, is_digit}
use devpath_shared.Base.Result.{ok, ensure-eq-ok, ok-injective}
use devpath_shared.Json.{Json, null, boolean, integer, float, text, array, object, constant}
use devpath_shared.Gate.Format.{positive_integer_pattern, positive_integer_string}

-- `10 ** k`
abbrev pub ten_to : ℕ → ℕ
ten_to zero = 1
ten_to (suc k) = 10 * ten_to k

-- Digits after the number `n` give a number, which keeps `n` in front.
scan_bound :
    (n : ℕ) (s : String)
    → all_of is_digit (codes s) ≡ true
    → (m : ℕ) × (scan n s ≡ some m) × (n ≤ m) × (m < (n + 1) * ten_to (length (codes s)))
unfolding scan codes
scan_bound n String.[] h = (n, refl, omega arith, omega arith)
scan_bound n (String.◌∷◌ c s) h =
    let (digit, rest) = (and_iff (is_digit (code c)) (all_of is_digit (codes s))).0 h in
    let (m, read, above, below) = scan_bound (n * 10 + (code c - b'0')) s rest in
    let small : (n * 10 + (code c - b'0')) + 1 ≤ (n + 1) * 10 = ground arith in
    (
      m,
      rw digit read,
      omega (arith, above),
      omega (arith, below, mul-le-mul_right (ten_to (length (codes s))) small),
    )

ten_to_mono : (k n : ℕ) → k ≤ n → ten_to k ≤ ten_to n
ten_to_mono zero zero h = omega arith
ten_to_mono zero (suc n) h = omega (arith, ten_to_mono zero n (omega arith))
ten_to_mono (suc k) zero h = absurd (omega arith)
ten_to_mono (suc k) (suc n) h = omega (arith, ten_to_mono k n (omega arith))

-- The first digit is not zero, and at most nineteen follow.
read_positive :
    (s : String)
    → fullmatch positive_integer_pattern s ≡ true
    → (n : ℕ) × (int_of_text s ≡ some n) × (0 < n) × (n < ten_to 20)
unfolding fullmatch matches codes int_of_text scan
read_positive String.[] h = cc
read_positive (String.◌∷◌ c s) h =
    let (first, rest) = (and_iff _ (fullmatch (piece is_digit 0 19 done) s)).0 h in
    let (_, short, digits) = (fullmatch-range_iff is_digit 0 19 s (omega arith)).0 rest in
    let (m, read, above, below) = scan_bound (0 * 10 + (code c - b'0')) s digits in
    let is_first : is_digit (code c) ≡ true = ground arith in
    let small : (0 * 10 + (code c - b'0')) + 1 ≤ 10 = ground arith in
    let large : 0 < 0 * 10 + (code c - b'0') = ground arith in
    (
      m,
      rw is_first read,
      omega (arith, above, large),
      omega (
        arith,
        below,
        mul-le-mul_right (ten_to (length (codes s))) small,
        ten_to_mono (length (codes s)) 19 (omega (arith, short)),
      ),
    )

-- A text of the pattern is always read: the number is positive and has at most twenty digits.
pub positive_integer_string-bounds :
    (s label : String)
    → fullmatch positive_integer_pattern s ≡ true
    → (n : ℕ) × (positive_integer_string (text s) label ≡ ok n) × (0 < n) × (n < ten_to 20)
unfolding positive_integer_string
positive_integer_string-bounds s label h =
    let (n, read, above, below) = read_positive s h in (n, rw (h, read) refl, above, below)

pub positive_integer_string-eq_ok :
    (v : Json) (label : String) {n : ℕ}
    → positive_integer_string v label ≡ ok n
    → (s : String) × (v ≡ text s) × (fullmatch positive_integer_pattern s ≡ true) × (0 < n)
unfolding positive_integer_string
positive_integer_string-eq_ok (text s) label h =
    let (matched, _) = ensure-eq-ok (fullmatch positive_integer_pattern s) _ _ h in
    let (m, read, above, _) = positive_integer_string-bounds s label matched in
    (s, refl, matched, rw (ok-injective (sym read ∙ h)) at above)
positive_integer_string-eq_ok null label h = cc
positive_integer_string-eq_ok (boolean b) label h = cc
positive_integer_string-eq_ok (integer k) label h = cc
positive_integer_string-eq_ok (float k r) label h = cc
positive_integer_string-eq_ok (array xs) label h = cc
positive_integer_string-eq_ok (object d) label h = cc
positive_integer_string-eq_ok (constant s) label h = cc
