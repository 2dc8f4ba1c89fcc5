-- ===== src/Prelude/Text.antt =====
-- `str.strip` and `str.lower` of Python.
pub mod Affixes
use Prim.Native.Nat.{ℕ, ◌-◌, ◌≤◌}
use Prim.Native.Char.{Char, code}
use Prim.Native.String.{String, [], ◌∷◌, char_at}
use mathlib.Core.Path.{◌≡◌, refl}
use mathlib.Core.Bool.{Bool, false, ◌&&◌, ◌||◌}
use native.Mathlib.Omega.{arith}
use messiah_fx_prod.Prelude.Tests.{leb, ◌==◌, if◌then◌else◌}

-- The code points for which `str.isspace` holds.
unfoldable pub is_space : ℕ → Bool
is_space c =
    leb 9 c && leb c 13
    || leb 28 c && leb c 32
    || c == 133
    || c == 160
    || c == 5760
    || leb 8192 c && leb c 8202
    || leb 8232 c && leb c 8233
    || c == 8239
    || c == 8287
    || c == 12288

left_strip : String → String
left_strip [] = []
left_strip (c ∷ s) = if is_space (code c) then left_strip s else c ∷ s

-- A blank character goes if nothing is left after it.
drop_blank : Char → String → String
drop_blank c [] = if is_space (code c) then [] else c ∷ []
drop_blank c (d ∷ s) = c ∷ d ∷ s

right_strip : String → String
right_strip [] = []
right_strip (c ∷ s) = drop_blank c (right_strip s)

-- `s.strip()`
unfoldable pub strip : String → String
unfolding left_strip right_strip drop_blank is_space
strip s = right_strip (left_strip s)

-- The letters of ASCII. Of the others only the Kelvin sign has a lower case among these, the letter
-- k, which stands in no text that the program compares with a lowered one.
lower_char : Char → Char
lower_char c =
    if leb 65 (code c) && leb (code c) 90
    then char_at "abcdefghijklmnopqrstuvwxyz" (code c - 65)
    else c

-- `s.lower()`
unfoldable pub lower : String → String
unfolding lower_char
lower [] = []
lower (c ∷ s) = lower_char c ∷ lower s

lower-strip_runs : lower (strip " \t Filled\n ") ≡ "filled"
unfolding lower strip
lower-strip_runs = refl

-- No character of the text is blank.
abbrev pub HasNoBlank : String → Type 0
HasNoBlank [] = Unit
HasNoBlank (c ∷ s) = (is_space (code c) ≡ false) × HasNoBlank s

left_strip-no_blank : (s : String) → HasNoBlank s → left_strip s ≡ s
unfolding left_strip
left_strip-no_blank [] h = refl
left_strip-no_blank (c ∷ s) h = rw h.0

drop_blank-no_blank : (c : Char) (s : String) → is_space (code c) ≡ false → drop_blank c s ≡ c ∷ s
unfolding drop_blank
drop_blank-no_blank c [] h = rw h
drop_blank-no_blank c (d ∷ s) h = refl

right_strip-no_blank : (s : String) → HasNoBlank s → right_strip s ≡ s
unfolding right_strip
right_strip-no_blank [] h = refl
right_strip-no_blank (c ∷ s) h = rw (right_strip-no_blank s h.1) (drop_blank-no_blank c s h.0)

pub strip-no_blank : (s : String) → HasNoBlank s → strip s ≡ s
unfolding strip
strip-no_blank s h = rw (left_strip-no_blank s h) (right_strip-no_blank s h)

pub digit_no_space : (c : ℕ) → 48 ≤ c → c ≤ 57 → is_space c ≡ false
unfolding is_space
digit_no_space c h k = ground arith
