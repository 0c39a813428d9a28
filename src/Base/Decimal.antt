-- ===== src/Base/Decimal.antt =====
-- `str(n)` and `int(s)` on the natural numbers.
use Prim.Native.Nat.{ℕ, zero, suc, ◌+◌, ◌-◌, ◌*◌, ◌/◌, ◌%◌}
use Prim.Native.Char.{code}
use Prim.Native.String.{String, ◌++◌ as ◌<>◌}
use mathlib.Core.Path.{◌≡◌, refl}
use mathlib.Core.Option.{Option, none, some}
use devpath_shared.Base.Tests.{ltb, if◌then◌else◌}
use devpath_shared.Base.Pattern.{is_digit}

abbrev digit : ℕ → String
digit zero = "0"
digit (suc zero) = "1"
digit (suc (suc zero)) = "2"
digit (suc (suc (suc zero))) = "3"
digit (suc (suc (suc (suc zero)))) = "4"
digit (suc (suc (suc (suc (suc zero))))) = "5"
digit (suc (suc (suc (suc (suc (suc zero)))))) = "6"
digit (suc (suc (suc (suc (suc (suc (suc zero))))))) = "7"
digit (suc (suc (suc (suc (suc (suc (suc (suc zero)))))))) = "8"
digit _ = "9"

-- The digits of `n` in front of `tail`, on fuel: `n + 1` rounds are enough for `n`.
unfoldable pub show_onto : ℕ → ℕ → String → String
show_onto zero n tail = tail
show_onto (suc fuel) n tail =
    let more = show_onto fuel (n / 10) (digit (n % 10) <> tail) in
    if ltb n 10 then digit n <> tail else more

-- `str(n)`
unfoldable pub show : ℕ → String
unfolding show_onto
show n = show_onto (suc n) n ""

show_test : show 1239001 ≡ "1239001"
unfolding show
show_test = refl

-- The value of decimal digits after the number `n`.
unfoldable pub scan : ℕ → String → Option ℕ
scan n String.[] = some n
scan n (String.◌∷◌ c s) = if is_digit (code c) then scan (n * 10 + (code c - b'0')) s else none

-- `int(s)` of a text that is one or more ASCII digits.
unfoldable pub int_of_text : String → Option ℕ
unfolding scan
int_of_text String.[] = none
int_of_text (String.◌∷◌ c s) = scan 0 (String.◌∷◌ c s)

int_test : int_of_text "1239001" ≡ some 1239001
unfolding int_of_text
int_test = refl

-- `sys.get_int_max_str_digits()`: `int` refuses a longer text by a `ValueError`.
abbrev pub max_int_digits : ℕ
max_int_digits = 4300
