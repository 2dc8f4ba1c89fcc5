-- ===== src/Prelude/ParseInt/Digits.antt =====
-- `int(str(n))` is `n`.
use Prim.Native.Nat.{ℕ, zero, suc, ◌+◌, ◌-◌, ◌*◌, ◌/◌, ◌%◌, ◌≤◌, ◌<◌}
use Prim.Native.Char.{Char, code}
use Prim.Native.String.{String, [], ◌∷◌, char_at}
use mathlib.Core.Path.{◌≡◌, refl, ◌∙◌, ap}
use mathlib.Core.Logic.{inl, inr}
use mathlib.Core.Bool.{Bool, true, false}
use mathlib.Core.Option.{Option, none, some}
use native.Mathlib.Omega.{arith}
use messiah_fx_prod.Prelude.Tests.{leb, ◌==◌, Bool-cases}
use messiah_fx_prod.Prelude.Int.{pos}
use messiah_fx_prod.Prelude.Text.{HasNoBlank, strip-no_blank, digit_no_space}
use messiah_fx_prod.Prelude.ParseInt.{parse_digits, parse_signed, show_digits, show_int, parse_int}

abbrev IsDigit : Char → Type 0
IsDigit c = (48 ≤ code c) × (code c ≤ 57)

abbrev digit : ℕ → Char
digit n = char_at "0123456789" n

code-digit : (d : ℕ) → d < 10 → code (digit d) ≡ 48 + d
code-digit zero h = refl
code-digit (suc zero) h = refl
code-digit (suc (suc zero)) h = refl
code-digit (suc (suc (suc zero))) h = refl
code-digit (suc (suc (suc (suc zero)))) h = refl
code-digit (suc (suc (suc (suc (suc zero))))) h = refl
code-digit (suc (suc (suc (suc (suc (suc zero)))))) h = refl
code-digit (suc (suc (suc (suc (suc (suc (suc zero))))))) h = refl
code-digit (suc (suc (suc (suc (suc (suc (suc (suc zero)))))))) h = refl
code-digit (suc (suc (suc (suc (suc (suc (suc (suc (suc zero))))))))) h = refl
code-digit (suc (suc (suc (suc (suc (suc (suc (suc (suc (suc d)))))))))) h = absurd (omega arith)

digit-IsDigit : (n : ℕ) → IsDigit (digit (n % 10))
digit-IsDigit n = rw (code-digit (n % 10) (omega arith)) (omega arith)

abbrev AllDigits : String → Type 0
AllDigits [] = Unit
AllDigits (c ∷ s) = IsDigit c × AllDigits s

AllDigits-HasNoBlank : (s : String) → AllDigits s → HasNoBlank s
AllDigits-HasNoBlank [] h = tt
AllDigits-HasNoBlank (c ∷ s) h = (digit_no_space (code c) h.0.0 h.0.1, AllDigits-HasNoBlank s h.1)

show_digits_last :
    (fuel n : ℕ) (s : String)
    → (n / 10 == 0) ≡ true
    → show_digits (suc fuel) n s ≡ digit (n % 10) ∷ s
unfolding show_digits
show_digits_last fuel n s h = rw (h, show_digits)

show_digits_more :
    (fuel n : ℕ) (s : String)
    → (n / 10 == 0) ≡ false
    → show_digits (suc fuel) n s ≡ show_digits fuel (n / 10) (digit (n % 10) ∷ s)
unfolding show_digits
show_digits_more fuel n s h = rw (h, show_digits)

show_digits-AllDigits : (fuel n : ℕ) (s : String) → AllDigits s → AllDigits (show_digits fuel n s)
show_digits-AllDigits zero n s h = unfold show_digits in h
show_digits-AllDigits (suc fuel) n s h =
    let h' : AllDigits (digit (n % 10) ∷ s) = (digit-IsDigit n, h) in
    elim (Bool-cases (n / 10 == 0)) [
      | inl last ↦ rw (show_digits_last fuel n s last) h'
      | inr more ↦
          rw (show_digits_more fuel n s more)
            (show_digits-AllDigits fuel (n / 10) (digit (n % 10) ∷ s) h')
    ]

-- One digit read.
parse_digit :
    (acc d : ℕ) (b : Bool) (s : String)
    → d < 10
    → parse_digits acc b (digit d ∷ s) ≡ parse_digits (acc * 10 + d) true s
unfolding parse_digits
parse_digit acc d b s h =
    rw (code-digit d h, parse_digits)
      (let low : leb 48 (48 + d) ≡ true = ground arith in
        let high : leb (48 + d) 57 ≡ true = ground arith in
        let value : code (digit d) - 48 ≡ d = omega (arith, code-digit d h) in
        rw (low, high, value))

-- What `show_digits` puts before `s` is read as `n`, given fuel past `n`.
parse-show :
    (fuel n : ℕ) (b : Bool) (s : String)
    → n < fuel
    → parse_digits 0 b (show_digits fuel n s) ≡ parse_digits n true s
parse-show zero n b s h = absurd (omega arith)
parse-show (suc fuel) n b s h = elim (Bool-cases (n / 10 == 0)) [
  | inl last ↦
      let small : n % 10 ≡ n = ground arith in
      let value : 0 * 10 + n ≡ n = omega arith in
      rw (show_digits_last fuel n s last)
        (rw small (parse_digit 0 n b s (ground arith) ∙ ap (λ k. parse_digits k true s) value))
  | inr more ↦
      let value : n / 10 * 10 + n % 10 ≡ n = omega arith in
      rw (show_digits_more fuel n s more) (
        parse-show fuel (n / 10) b (digit (n % 10) ∷ s) (ground arith)
        ∙ (parse_digit (n / 10) (n % 10) true s (omega arith)
            ∙ ap (λ k. parse_digits k true s) value))
]

parse_empty : (n : ℕ) → parse_digits 0 false "" ≡ some n → ◌≡◌ {A = Option ℕ} none (some n)
unfolding parse_digits
parse_empty n e = e

parse_signed-AllDigits :
    (s : String) {n : ℕ}
    → AllDigits s
    → parse_digits 0 false s ≡ some n
    → parse_signed s ≡ some (pos n)
unfolding parse_signed
parse_signed-AllDigits [] {n} h e = cc (parse_empty n e)
parse_signed-AllDigits (c ∷ s) h e =
    let minus : (code c == 45) ≡ false = ground arith in
    let plus : (code c == 43) ≡ false = ground arith in rw minus (rw plus (rw e))

-- A natural number that is written is read back.
pub parse-show_int : (n : ℕ) → parse_int (show_int (pos n)) ≡ some (pos n)
unfolding parse_int show_int
parse-show_int n =
    let digits : AllDigits (show_digits (suc n) n "") = show_digits-AllDigits (suc n) n "" tt in
    rw (strip-no_blank _ (AllDigits-HasNoBlank _ digits)) (
      parse_signed-AllDigits _ digits
        (parse-show (suc n) n false "" (omega arith) ∙ unfold parse_digits in refl))
