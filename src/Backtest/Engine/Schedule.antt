-- ===== src/Backtest/Engine/Schedule.antt =====
-- services/backtest/app/engine.py, run_stat_arb: how long its trades are held.
use messiah_fx_prod.Prelude.{
  ℕ, suc, ◌+◌, ◌-◌, ◌≤◌, ◌<◌, false, ltb, ◌≡◌, refl, arith, Option, none, some, List, [], ◌∷◌,
  length, inl, inr, Bool-cases,
}
use messiah_fx_prod.Numbers.{Floats, num_zero}
use messiah_fx_prod.Backtest.WalkForward.{align}
use messiah_fx_prod.Backtest.Engine.{
  Numpy, key_of, Candle, TradeRecord, Entry, Params, simulate_from, stat_arb_trades, rolling_z,
  spreads_of,
}

module _ {fl : Floats} where
  open fl use {F, lt, abs, eq}

  abbrev pub total_hold : List (TradeRecord fl) → ℕ
  total_hold [] = 0
  total_hold (t ∷ trades) = t.hold_candles + total_hold trades

  abbrev pub AllHeld : List (TradeRecord fl) → Type 0
  AllHeld [] = Unit
  AllHeld (t ∷ trades) = (1 ≤ t.hold_candles) × AllHeld trades

  -- There are trades, each is held for a candle or more, and all of them together for so many at most.
  pub record IsSchedule (n : ℕ) (result : Option (List (TradeRecord fl))) : Type 0 where
    pub trades : List (TradeRecord fl)
    pub is_result : result ≡ some trades
    pub held : AllHeld trades
    pub within : total_hold trades ≤ n

  -- A price to divide by.
  abbrev pub IsPriced : Candle fl → Type 0
  IsPriced c = (eq c.mid (num_zero fl) ≡ false) × (eq (abs c.mid) (num_zero fl) ≡ false)

  abbrev pub AllPriced : List (Candle fl) → Type 0
  AllPriced [] = Unit
  AllPriced (c ∷ candles) = IsPriced c × AllPriced candles

  -- A position was entered before, at a price.
  abbrev IsOpen : ℕ → Option (Entry fl) → Type 0
  IsOpen i none = Unit
  IsOpen i (some entry) = (entry.entry_idx < i) × (eq (abs entry.price) (num_zero fl) ≡ false)

  -- The candles for which a position was held already.
  abbrev held_for : ℕ → Option (Entry fl) → ℕ
  held_for i none = 0
  held_for i (some entry) = i - entry.entry_idx

  pub no_trades : (n : ℕ) → IsSchedule n (some [])
  no_trades n = record { trades = []; is_result = refl; held = tt; within = omega arith }

  pub wider :
      {m n : ℕ} {result : Option (List (TradeRecord fl))}
      → m ≤ n
      → IsSchedule m result
      → IsSchedule n result
  wider h s = record {
    trades = s.trades;
    is_result = s.is_result;
    held = s.held;
    within = omega (arith, h, s.within);
  }

  wait :
      (i : ℕ) (position : Option (Entry fl)) (n : ℕ) {result : Option (List (TradeRecord fl))}
      → IsSchedule (n + held_for (suc i) position) result
      → IsSchedule (suc n + held_for i position) result
  wait i none n s = wider (omega arith) s
  wait i (some entry) n s = wider (omega arith) s

  later : (i : ℕ) (position : Option (Entry fl)) → IsOpen i position → IsOpen (suc i) position
  later i none h = tt
  later i (some entry) h = (omega (arith, h.0), h.1)

  simulate_from-IsSchedule :
      (params : Params fl) (i : ℕ) (position : Option (Entry fl)) (zs : List (Option F))
      (candles : List (Candle fl)) (spreads : List F)
      → IsOpen i position
      → AllPriced candles
      → IsSchedule
          (length candles + held_for i position)
          (simulate_from fl params i position zs candles spreads)
  unfolding simulate_from
  simulate_from-IsSchedule params i position [] candles spreads o p = no_trades _
  simulate_from-IsSchedule params i position (none ∷ zs) [] spreads o p = no_trades _
  simulate_from-IsSchedule params i position (none ∷ zs) (c ∷ candles) [] o p = no_trades _
  simulate_from-IsSchedule params i position (none ∷ zs) (c ∷ candles) (x ∷ spreads) o p =
      wait i position (length candles) (
        simulate_from-IsSchedule params (suc i) position zs candles spreads (later i position o)
          p.1)
  simulate_from-IsSchedule params i none (some z ∷ zs) [] spreads o p = no_trades _
  simulate_from-IsSchedule params i none (some z ∷ zs) (c ∷ candles) [] o p = no_trades _
  simulate_from-IsSchedule params i none (some z ∷ zs) (c ∷ candles) (x ∷ spreads) o p =
      elim (Bool-cases (lt params.entry_z (abs z))) [
        | inl past ↦
            rw (past, p.0.0)
              (wider (omega arith) (
                simulate_from-IsSchedule params (suc i) (some _) zs candles spreads
                  (omega arith, p.0.1) p.1))
        | inr small ↦ rw small (
            wait i none (length candles)
              (simulate_from-IsSchedule params (suc i) none zs candles spreads tt p.1))
      ]
  simulate_from-IsSchedule params i (some entry) (some z ∷ zs) [] spreads o p = no_trades _
  simulate_from-IsSchedule params i (some entry) (some z ∷ zs) (c ∷ candles) [] o p = no_trades _
  simulate_from-IsSchedule params i (some entry) (some z ∷ zs) (c ∷ candles) (x ∷ spreads) o p =
      elim (Bool-cases (lt (abs z) params.exit_z)) [
        | inl back ↦
            let rest = simulate_from-IsSchedule params (suc i) none zs candles spreads tt p.1 in
            rw (back, o.1, rest.is_result)
              record {
                trades = _ ∷ rest.trades;
                is_result = refl;
                held = (omega (arith, o.0), rest.held);
                within = omega (arith, rest.within);
              }
        | inr away ↦ rw away (
            wait i (some entry) (length candles) (
              simulate_from-IsSchedule params (suc i) (some entry) zs candles spreads
                (later i (some entry) o) p.1))
      ]

  -- For aligned spot candles whose mid prices are not 0, and neither are their absolute values, the
  -- simulation answers trades: each is held for a candle or more, and all of them together for no
  -- more than the aligned candles, since one is closed before the next is entered.
  pub stat_arb_trades-IsSchedule :
      (numpy : Numpy fl) (params : Params fl) (spot perp : List (Candle fl))
      → AllPriced (align (λ (c : Candle fl). key_of c.ts) spot perp).0
      → IsSchedule
          (length (align (λ (c : Candle fl). key_of c.ts) spot perp).0)
          (stat_arb_trades fl numpy params spot perp)
  unfolding stat_arb_trades
  stat_arb_trades-IsSchedule numpy params spot perp p =
      let aligned = align (λ (c : Candle fl). key_of c.ts) spot perp in
      elim (Bool-cases (ltb (length aligned.0) (params.window + 10))) [
        | inl few ↦ rw few (no_trades _)
        | inr enough ↦ rw enough (
            wider (omega arith) (
              simulate_from-IsSchedule params 0 none
                (rolling_z fl numpy (spreads_of fl aligned.0 aligned.1) params.window) aligned.0
                (spreads_of fl aligned.0 aligned.1) tt p))
      ]
