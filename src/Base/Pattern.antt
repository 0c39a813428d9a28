-- ===== src/Base/Pattern.antt =====
-- The regular expressions of the scripts, as sequences of `class{least,most}`, and `fullmatch`.
use Prim.Native.Nat.{ℕ, zero, suc, ◌≤◌}
use Prim.Native.String.{String, ◌++◌ as ◌<>◌}
use Prim.Native.Char.{code}
use mathlib.Core.Path.{◌≡◌, refl, ap, ◌∙◌}
use mathlib.Core.Logic.{◌↔◌}
use mathlib.Core.Bool.{Bool, true, false, ◌&&◌, ◌||◌}
use mathlib.Core.List.{List, [], ◌∷◌, ◌++◌}
use native.Mathlib.Omega.{arith}
use devpath_shared.Base.Tests.{◌==◌, leb, length, all_of}
use devpath_shared.Base.Text.{codes, codes-append}

pub data Pattern : Type 0 where
  done : Pattern
  piece : (ℕ → Bool) → ℕ → ℕ → Pattern → Pattern

-- A greedy piece gives back what it took when the rest does not match, as in `re`.
unfoldable pub matches : Pattern → List ℕ → Bool
matches done [] = true
matches done (c ∷ s) = false
matches (piece p zero zero r) s = matches r s
matches (piece p zero (suc n) r) [] = matches r []
matches (piece p zero (suc n) r) (c ∷ s) =
    (p c && matches (piece p zero n r) s) || matches r (c ∷ s)
matches (piece p (suc m) zero r) s = false
matches (piece p (suc m) (suc n) r) [] = false
matches (piece p (suc m) (suc n) r) (c ∷ s) = p c && matches (piece p m n r) s

-- `pattern.fullmatch(s) is not None`
unfoldable pub fullmatch : Pattern → String → Bool
unfolding matches codes
fullmatch p s = matches p (codes s)

-- Exactly `n` characters of a class.
abbrev pub times : ℕ → (ℕ → Bool) → Pattern → Pattern
times n p r = piece p n n r

-- Literal text.
unfoldable pub literal : String → Pattern → Pattern
literal String.[] r = r
literal (String.◌∷◌ c s) r = piece (λ d. d == code c) 1 1 (literal s r)

or_false : (b : Bool) → (b || false) ≡ b
or_false true = refl
or_false false = refl

matches-take_one :
    (p : ℕ → Bool) (n c : ℕ) (s : List ℕ)
    → matches (piece p zero (suc n) done) (c ∷ s) ≡ (p c && matches (piece p zero n done) s)
unfolding matches
matches-take_one p n c s = or_false _

range-cons :
    (n k : ℕ) (a b q : Bool)
    → (b ≡ true) ↔ ((0 ≤ k) × (k ≤ n) × (q ≡ true))
    → ((a && b) ≡ true) ↔ ((0 ≤ suc k) × (suc k ≤ suc n) × ((a && q) ≡ true))
range-cons n k true b q h = (
  λ e. (omega arith, omega (arith, (h.0 e).1), (h.0 e).2),
  λ e. h.1 (omega arith, omega arith, e.2),
)
range-cons n k false b q h = (λ e. cc, λ e. e.2)

matches-piece_range :
    (p : ℕ → Bool) (m n : ℕ) (s : List ℕ)
    → m ≤ n
    → (matches (piece p m n done) s ≡ true)
      ↔ ((m ≤ length s) × (length s ≤ n) × (all_of p s ≡ true))
unfolding matches
matches-piece_range p zero zero [] h = ground arith
matches-piece_range p zero zero (c ∷ s) h = ground arith
matches-piece_range p zero (suc n) [] h = ground arith
matches-piece_range p zero (suc n) (c ∷ s) h =
    rw matches-take_one
      (range-cons n (length s) (p c) _ (all_of p s) (matches-piece_range p zero n s (omega arith)))
matches-piece_range p (suc m) zero s h = absurd (omega arith)
matches-piece_range p (suc m) (suc n) [] h = ground arith
matches-piece_range p (suc m) (suc n) (c ∷ s) h =
    ground (arith, matches-piece_range p m n s (omega arith))

-- A class repeated `least` to `most` times, and nothing else.
pub fullmatch-range_iff :
    (p : ℕ → Bool) (m n : ℕ) (s : String)
    → m ≤ n
    → (fullmatch (piece p m n done) s ≡ true)
      ↔ ((m ≤ length (codes s)) × (length (codes s) ≤ n) × (all_of p (codes s) ≡ true))
unfolding fullmatch
fullmatch-range_iff p m n s h = matches-piece_range p m n (codes s) h

pub matches-times_append :
    (p : ℕ → Bool) (n : ℕ) (r : Pattern) (s t : List ℕ)
    → length s ≡ n
    → all_of p s ≡ true
    → matches (times n p r) (s ++ t) ≡ matches r t
unfolding matches
matches-times_append p zero r [] t e h = refl
matches-times_append p zero r (c ∷ s) t e h = absurd (omega arith)
matches-times_append p (suc n) r [] t e h = absurd (omega arith)
matches-times_append p (suc n) r (c ∷ s) t e h =
    ground (arith, matches-times_append p n r s t (omega arith))

pub matches-literal :
    (w : String) (r : Pattern) (t : List ℕ) → matches (literal w r) (codes w ++ t) ≡ matches r t
unfolding matches literal codes
matches-literal String.[] r t = refl
matches-literal (String.◌∷◌ c w) r t = ground (arith, matches-literal w r t)

-- A text that begins with a literal goes on as the rest of the pattern says.
pub fullmatch-literal :
    (w s : String) (r : Pattern) → fullmatch (literal w r) (w <> s) ≡ fullmatch r s
unfolding fullmatch
fullmatch-literal w s r = rw codes-append (matches-literal w r (codes s))

pub fullmatch-times_append :
    (p : ℕ → Bool) (n : ℕ) (r : Pattern) (s t : String)
    → length (codes s) ≡ n
    → all_of p (codes s) ≡ true
    → fullmatch (times n p r) (s <> t) ≡ fullmatch r t
unfolding fullmatch
fullmatch-times_append p n r s t e h =
    ap (matches (times n p r)) (codes-append s t)
    ∙ matches-times_append p n r (codes s) (codes t) e h

-- The character classes that the scripts write.
abbrev pub in_range : ℕ → ℕ → ℕ → Bool
in_range lo hi c = leb lo c && leb c hi

abbrev pub is_digit : ℕ → Bool
is_digit c = in_range b'0' b'9' c

abbrev pub is_hex : ℕ → Bool
is_hex c = in_range b'0' b'9' c || in_range b'a' b'f' c

abbrev pub is_lower_alnum : ℕ → Bool
is_lower_alnum c = in_range b'a' b'z' c || in_range b'0' b'9' c

abbrev pub is_alnum : ℕ → Bool
is_alnum c = in_range b'A' b'Z' c || is_lower_alnum c
