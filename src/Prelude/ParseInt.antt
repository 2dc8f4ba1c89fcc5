-- ===== src/Prelude/ParseInt.antt =====
-- `int(s)` of Python.
pub mod Digits
use Prim.Native.Nat.{ℕ, zero, suc, ◌+◌, ◌-◌, ◌*◌, ◌/◌, ◌%◌}
use Prim.Native.Char.{code}
use Prim.Native.String
use Prim.Native.String.{String, [], ◌∷◌, char_at}
use mathlib.Core.Path.{◌≡◌, refl}
use mathlib.Core.Bool.{Bool, true, false, ◌&&◌}
use mathlib.Core.Option
use mathlib.Core.Option.{Option, none, some}
use messiah_fx_prod.Prelude.Tests.{leb, ◌==◌, if◌then◌else◌}
use messiah_fx_prod.Prelude.Int.{ℤ, pos, negsuc, sub_ℕ}
use messiah_fx_prod.Prelude.Text.{strip}

-- The value of the digits read so far; `after_digit` says that the last character was a digit, which
-- an underscore and the end of the text need.
parse_digits : ℕ → Bool → String → Option ℕ
parse_digits acc after_digit [] = if after_digit then some acc else none
parse_digits acc after_digit (c ∷ s) = elim (leb 48 (code c) && leb (code c) 57) [
  | true ↦ parse_digits (acc * 10 + (code c - 48)) true s
  | false ↦ elim (code c == 95 && after_digit) [ true ↦ parse_digits acc false s | false ↦ none ]
]

parse_signed : String → Option ℤ
parse_signed [] = none
parse_signed (c ∷ s) =
    if code c == 45
    then Option.map (λ n. sub_ℕ 0 n) (parse_digits 0 false s)
    else if code c == 43
    then Option.map pos (parse_digits 0 false s)
    else Option.map pos (parse_digits 0 false (c ∷ s))

-- `int(s)` for a text of ASCII digits, `none` where it raises ValueError
unfoldable pub parse_int : String → Option ℤ
unfolding parse_signed parse_digits strip
parse_int s = parse_signed (strip s)

parse_int_runs : parse_int " -1_2\n" ≡ some (negsuc 11)
unfolding parse_int
parse_int_runs = refl

-- The decimal digits of `n` before `s`, on fuel; `n + 1` rounds are enough.
show_digits : ℕ → ℕ → String → String
show_digits zero n s = s
show_digits (suc fuel) n s =
    let shown = char_at "0123456789" (n % 10) ∷ s in
    elim (n / 10 == 0) [ true ↦ shown | false ↦ show_digits fuel (n / 10) shown ]

-- `str(n)`
unfoldable pub show_int : ℤ → String
unfolding show_digits
show_int (pos n) = show_digits (suc n) n ""
show_int (negsuc n) = String.◌++◌ "-" (show_digits (suc (suc n)) (suc n) "")

show_int_runs : show_int (negsuc 119) ≡ "-120"
unfolding show_int
show_int_runs = refl
