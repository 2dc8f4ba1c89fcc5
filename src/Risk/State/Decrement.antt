-- ===== src/Risk/State/Decrement.antt =====
-- services/risk/app/state.py: a closed position is taken off the count.
use messiah_fx_prod.Prelude.{
  ℕ, ◌-◌, String, ◌≡◌, refl, none, some, inl, inr, arith, Bool-cases, ◌=ˢ◌, eq_iff, ap, sym, ◌∙◌,
}
use messiah_fx_prod.Prelude.Int.{pos, ◌-ℤ◌}
use messiah_fx_prod.Prelude.ParseInt.{parse_int, show_int}
use messiah_fx_prod.Prelude.ParseInt.Digits.{parse-show_int}
use messiah_fx_prod.Prelude.Dict.{lookup}
use messiah_fx_prod.Numbers.{Floats}
use messiah_fx_prod.RedisKeys
use messiah_fx_prod.Redis.{Redis, IsServer, World, hset}
use messiah_fx_prod.Risk.State.{int_or_zero, max_zero, decrement_open_positions}
use messiah_fx_prod.Risk.Consumer.Untouched.{Counts}

parse_empty : parse_int "" ≡ none
unfolding parse_int
parse_empty = refl

int_or_zero-show_int : (n : ℕ) → int_or_zero (some (show_int (pos n))) ≡ some (pos n)
int_or_zero-show_int n = elim (Bool-cases (show_int (pos n) =ˢ "")) [
  | inr text ↦ rw text (parse-show_int n)
  | inl empty ↦
      let same : show_int (pos n) ≡ "" = (eq_iff _ _).0 empty in
      let clash : none ≡ some (pos n) =
        sym parse_empty ∙ ap parse_int (sym same) ∙ parse-show_int n in
      cc clash
]

one_less : (n : ℕ) → max_zero (pos n -ℤ pos 1) ≡ pos (n - 1)
unfolding ◌-ℤ◌
one_less n = ground arith

-- Where risk:state counts `n` open positions, `decrement_open_positions` returns one less, but not
-- below 0, and that is what risk:state counts after it. The server is one that keeps the documented
-- effect of the commands.
pub decrement_open_positions-Counts :
    {fl : Floats} {r : Redis fl} (laws : IsServer r) (n : ℕ) (now : String) (w : World r)
    → Counts r n w.server
    → ((decrement_open_positions {r = r} now w).0 ≡ some (pos (n - 1)))
      × Counts r (n - 1) (decrement_open_positions {r = r} now w).1.server
unfolding decrement_open_positions
decrement_open_positions-Counts {r = r} laws n now w h =
    let read : int_or_zero (lookup "open_position_count" (r.hash_at RedisKeys.risk_state w.server))
        ≡ some (pos n) =
      rw h (int_or_zero-show_int n) in
    rw (read, one_less n)
      (
        refl,
        laws.field-run (hset RedisKeys.risk_state _) RedisKeys.risk_state "open_position_count"
            w.server refl,
      )
