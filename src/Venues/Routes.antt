-- ===== src/Venues/Routes.antt =====
-- shared/mezna_shared/venues.py: a venue that is written before a symbol is found again.
use Prim.Native.Char.{code}
use Prim.Native.String.{◌++◌, [], ◌∷◌}
use text.Mathlib.TextLemmas.{nil-append, cons-append}
use mathlib.Core.Bool.{false≢true}
use messiah_fx_prod.Prelude.{
  String, Bool, true, false, not, ◌&&◌, ◌==◌, ◌≡◌, refl, Option, none, some, inl, inr, Bool-cases,
  or_false_left, or_false_right,
}
use messiah_fx_prod.Prelude.Text.{HasNoBlank, strip, lower, is_space, strip-no_blank}
use messiah_fx_prod.Prelude.Dict.{contains, All, All-contains}
use messiah_fx_prod.Venues.{
  known_venues, has_char, infer_venue, split_colon, routed, parse_symbol_spec,
}

HasNoBlank-append : (s t : String) → HasNoBlank s → HasNoBlank t → HasNoBlank (s ++ t)
HasNoBlank-append [] t h k = rw (nil-append t) k
HasNoBlank-append (c ∷ s) t h k = rw (cons-append c s t) (h.0, HasNoBlank-append s t h.1 k)

split_colon_at : (s : String) → split_colon (":" ++ s) ≡ some ("", s)
unfolding split_colon
split_colon_at s = rw (cons-append ":" "" s, nil-append s) refl

split_colon-append :
    (v s : String) → has_char 58 v ≡ false → split_colon (v ++ ":" ++ s) ≡ some (v, s)
unfolding split_colon has_char
split_colon-append [] s h = rw (nil-append (":" ++ s)) (split_colon_at s)
split_colon-append (c ∷ v) s h =
    let other : (code c == 58) ≡ false = or_false_left (code c == 58) (has_char 58 v) h in
    let rest = split_colon-append v s (or_false_right (code c == 58) (has_char 58 v) h) in
    rw (cons-append c v (":" ++ s), other, rest) refl

-- A test for HasNoBlank.
no_space : String → Bool
no_space [] = true
no_space (c ∷ s) = not (is_space (code c)) && no_space s

blank_free : (s : String) → no_space s ≡ true → HasNoBlank s
unfolding no_space
blank_free [] h = tt
blank_free (c ∷ s) h = elim (Bool-cases (is_space (code c))) [
  | inl blank ↦ absurd (false≢true (rw blank at h))
  | inr visible ↦ (visible, blank_free s (rw visible at h))
]

-- What the names of the venues have in common.
record IsName (v : String) : Type 0 where
  no_blank : HasNoBlank v
  no_colon : has_char 58 v ≡ false
  is_lower : lower v ≡ v

known-IsName : All IsName known_venues
unfolding has_char lower is_space no_space
known-IsName =
    let name : (v : String) → no_space v ≡ true → has_char 58 v ≡ false → lower v ≡ v → IsName v =
      λ v n c l. record { no_blank = blank_free v n; no_colon = c; is_lower = l } in
    (
      name _ refl refl refl,
      (
        name _ refl refl refl,
        (
          name _ refl refl refl,
          (
            name _ refl refl refl,
            (
              name _ refl refl refl,
              (name _ refl refl refl, (name _ refl refl refl, (name _ refl refl refl, tt))),
            ),
          ),
        ),
      ),
    )

-- A known venue, written before a symbol without blanks, is found again, and so is the symbol.
pub parse_symbol_spec-routes :
    (venue symbol : String)
    → contains venue known_venues ≡ true
    → HasNoBlank symbol
    → parse_symbol_spec (venue ++ ":" ++ symbol) ≡ (venue, symbol)
unfolding parse_symbol_spec no_space is_space
parse_symbol_spec-routes venue symbol known no_blank =
    let name : IsName venue = All-contains IsName known_venues venue known-IsName known in
    let spec_blank_free : HasNoBlank (venue ++ ":" ++ symbol) =
      HasNoBlank-append venue _ name.no_blank
        (HasNoBlank-append ":" symbol (blank_free ":" refl) no_blank) in
    rw
      (
        strip-no_blank _ spec_blank_free,
        split_colon-append venue symbol name.no_colon,
        name.is_lower,
        known,
        strip-no_blank symbol no_blank,
      )
      refl

infer_venue-known : (s : String) → contains (infer_venue s) known_venues ≡ true
unfolding infer_venue
infer_venue-known s = elim (Bool-cases (has_char 95 (strip s))) [
  | inl forex ↦ rw forex refl
  | inr crypto ↦ rw crypto refl
]

routed-known :
    (spec : String) (parts : Option (String × String))
    → contains (routed spec parts).0 known_venues ≡ true
routed-known spec none = infer_venue-known spec
routed-known spec (some (head, rest)) = elim (Bool-cases (contains (lower head) known_venues)) [
  | inl known ↦ rw known known
  | inr unknown ↦ rw unknown (infer_venue-known spec)
]

-- Whatever is configured, the venue is a known one.
pub parse_symbol_spec-known :
    (spec : String) → contains (parse_symbol_spec spec).0 known_venues ≡ true
unfolding parse_symbol_spec
parse_symbol_spec-known spec = routed-known (strip spec) (split_colon (strip spec))
