-- ===== src/Executor/Legs/Tallies.antt =====
-- services/executor/app/consumer.py: every leg of a plan is counted.
use messiah_fx_prod.Prelude.{
  ℕ, suc, ◌+◌, ◌≤◌, String, ◌≡◌, Option, none, some, List, [], ◌∷◌, length, arith, if◌then◌else◌,
  ◌=ˢ◌,
}
use messiah_fx_prod.Numbers.{Floats}
use messiah_fx_prod.Redis.{Redis}
use messiah_fx_prod.Executor.Settings.{Settings}
use messiah_fx_prod.Executor.Plan.{Leg}
use messiah_fx_prod.Executor.Desk.{Desk, Call, after, persist}
use messiah_fx_prod.Executor.Leg.{Outside, order_for, execute_leg}
use messiah_fx_prod.Executor.Legs.{
  Moment, Tally, no_tick, trade, run_leg, run_legs, with_quantity, usable, as_text, leg_usd,
}
use messiah_fx_prod.Executor.Sizing.{calc_quantity}

module _ {fl : Floats} (r : Redis fl) where
  -- The call raises, or returns a tally with `n` more attempts and at most `n` more fills.
  pub data Counts (n : ℕ) (before : Tally fl) : Option (Tally fl) × Desk r → Type 0 where
    raised : {d : Desk r} → Counts n before (none, d)
    counted :
        {t : Tally fl} {d : Desk r}
        → t.fills_attempted ≡ before.fills_attempted + n
        → before.fills_ok ≤ t.fills_ok
        → t.fills_ok ≤ before.fills_ok + n
        → Counts n before (some t, d)

  Counts-after :
      {A : Type 0} (n : ℕ) (before : Tally fl) (f : A → Call r (Tally fl)) (o : Option A × Desk r)
      → ((a : A) (d : Desk r) → Counts n before (f a d))
      → Counts n before (after f o)
  Counts-after n before f (none, d) h = raised
  Counts-after n before f (some a, d) h = h a d

  Counts-join :
      (n : ℕ) (before t : Tally fl) (d : Desk r) (o : Option (Tally fl) × Desk r)
      → Counts 1 before (some t, d)
      → Counts n t o
      → Counts (suc n) before o
  Counts-join n before t d o h raised = raised
  Counts-join n before t d o (counted e low high) (counted e1 low1 high1) =
      counted (omega arith) (omega arith) (omega arith)

  Counts-then :
      (n : ℕ) (before : Tally fl) (f : Tally fl → Call r (Tally fl))
      (o : Option (Tally fl) × Desk r)
      → Counts 1 before o
      → ((t : Tally fl) (d : Desk r) → Counts n t (f t d))
      → Counts (suc n) before (after f o)
  Counts-then n before f (none, d) h k = raised
  Counts-then n before f (some t, d) h k = Counts-join n before t d (f t d) h (k t d)

module _ {fl : Floats} {r : Redis fl} (outside : Outside fl) (settings : Settings fl)
    (moment : Moment fl) (opportunity_id : Option String) (strategy_type : String) where
  trade-Counts :
      (i : ℕ) (venue symbol side : String) (q : fl.F) (t : Tally fl) (d : Desk r)
      → Counts r 1 t
          (trade outside settings moment opportunity_id strategy_type i venue symbol side q t d)
  unfolding trade
  trade-Counts i venue symbol side q t d =
      Counts-after r 1 t _
        (execute_leg outside settings
          (order_for outside settings (moment.random24 i) strategy_type opportunity_id i venue
            symbol side q)
          d)
        λ (order, result) d1.
          Counts-after r 1 t _ (persist moment.now order result _) λ realized d2.
            let more : t.fills_ok
                ≤ (if result.status =ˢ "filled" then suc t.fills_ok else t.fills_ok) =
              ground arith in
            let most : (if result.status =ˢ "filled" then suc t.fills_ok else t.fills_ok)
                ≤ t.fills_ok + 1 =
              ground arith in
            counted (omega arith) more most

  with_quantity-Counts :
      (i : ℕ) (venue symbol side : String) (t : Tally fl) (o : Option fl.F) (d : Desk r)
      → Counts r 1 t (
          with_quantity outside settings moment opportunity_id strategy_type i venue symbol side t o
            d)
  unfolding no_tick
  with_quantity-Counts i venue symbol side t none d =
      counted (omega arith) (omega arith) (omega arith)
  with_quantity-Counts i venue symbol side t (some q) d = trade-Counts i venue symbol side q t d

  run_leg-Counts :
      (position_usd : fl.F) (i : ℕ) (leg : Leg fl) (t : Tally fl) (d : Desk r)
      → Counts r 1 t
          (run_leg outside settings moment opportunity_id strategy_type position_usd i leg t d)
  unfolding run_leg
  run_leg-Counts position_usd i leg t d =
      Counts-after r 1 t _ (as_text leg.venue, d)
        λ venue d1.
          Counts-after r 1 t _ (as_text leg.symbol, d1)
            λ symbol d2.
              with_quantity-Counts i venue symbol leg.side t
                (usable fl (
                  calc_quantity r venue symbol leg.side
                    (leg_usd outside settings moment position_usd venue symbol) d2.world.server))
                d2

  -- Where the run over the legs of a plan returns, as many attempts are added as there are legs, and no
  -- more fills than legs; no fill counted before is lost.
  pub run_legs-Counts :
      (position_usd : fl.F) (i : ℕ) (legs : List (Leg fl)) (t : Tally fl) (d : Desk r)
      → Counts r
          (length legs)
          t
          (run_legs outside settings moment opportunity_id strategy_type position_usd i legs t d)
  unfolding run_legs
  run_legs-Counts position_usd i [] t d = counted (omega arith) (omega arith) (omega arith)
  run_legs-Counts position_usd i (leg ∷ legs) t d =
      Counts-then r (length legs) t _
        (run_leg outside settings moment opportunity_id strategy_type position_usd i leg t d)
        (run_leg-Counts position_usd i leg t d)
        λ next d1. run_legs-Counts position_usd (suc i) legs next d1
