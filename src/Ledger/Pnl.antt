-- ===== src/Ledger/Pnl.antt =====
-- shared/mezna_shared/pnl.py: one fill applied to a position at average cost. `none` is a division
-- by zero.
pub mod Fees
use messiah_fx_prod.Prelude.{
  String, Bool, true, false, ◌||◌, Option, none, some, ◌>>=◌, ◌=ˢ◌, if◌then◌else◌,
}
use messiah_fx_prod.Numbers.{Floats, num_zero, num_one, divide, max_of, min_of, or_zero}

pub record PositionState (fl : Floats) : Type 0 where
  pub net_qty : fl.F
  pub avg_price : fl.F
  pub open_fees : fl.F

pub record FillOutcome (fl : Floats) : Type 0 where
  pub position : PositionState fl
  pub realized_pnl : fl.F
  pub closed : Bool
  pub flipped : Bool

module _ (fl : Floats) where
  open fl use {F, lit, add, sub, mul, neg, abs, lt, le, eq}

  -- 1e-9, below which a quantity counts as nothing
  abbrev pub eps : F
  eps = lit 1 9

  abbrev pub flat : PositionState fl
  flat = record { net_qty = num_zero fl; avg_price = num_zero fl; open_fees = num_zero fl }

  -- the fill's direction
  abbrev pub side_sign : String → F
  side_sign side = if side =ˢ "buy" then num_one fl else neg (num_one fl)

  -- the position's direction
  abbrev pub cur_sign : F → F
  cur_sign q =
      if lt eps q then num_one fl else if lt q (neg eps) then neg (num_one fl) else num_zero fl

  -- Opening, or adding in the same direction.
  unfoldable pub open_or_add : PositionState fl → F → F → F → F → Option (FillOutcome fl)
  open_or_add position d a p f = do
    let prior = abs position.net_qty
    let new_abs = add prior a
    new_avg ← divide fl (add (mul position.avg_price prior) (mul p a)) new_abs
    some (record {
      position = record {
        net_qty = mul d new_abs;
        avg_price = new_avg;
        open_fees = add position.open_fees f;
      };
      realized_pnl = num_zero fl;
      closed = false;
      flipped = false;
    })

  -- The share of the entry fees that the closed quantity `c` carries.
  abbrev pub entry_fee_share : F → F → F → Option F
  entry_fee_share fees c prior =
      if lt eps prior
      then (do share ← divide fl c prior; some (mul fees share))
      else some (num_zero fl)

  -- Which of a flip, a full close and a partial close it is.
  unfoldable pub settle :
      PositionState fl → F → F → F → F → F → F → F → F → F → Option (FillOutcome fl)
  settle position d a p f prior c close_fee entry_fee_portion realized =
      let leftover = sub a c in
      let remaining = sub prior c in
      if lt eps leftover
      then some (record {
        position = record { net_qty = mul d leftover; avg_price = p; open_fees = sub f close_fee };
        realized_pnl = realized;
        closed = true;
        flipped = true;
      })
      else if le remaining eps
      then some
          (record { position = flat; realized_pnl = realized; closed = true; flipped = false })
      else some (record {
        position = record {
          net_qty = mul (cur_sign position.net_qty) remaining;
          avg_price = position.avg_price;
          open_fees = sub position.open_fees entry_fee_portion;
        };
        realized_pnl = realized;
        closed = false;
        flipped = false;
      })

  -- Closing against the position, in part, in full or past it.
  unfoldable pub close_or_flip : PositionState fl → F → F → F → F → Option (FillOutcome fl)
  close_or_flip position d a p f = do
    let q = position.net_qty
    let avg = position.avg_price
    let prior = abs q
    let c = min_of fl a prior
    share ← divide fl c a
    let close_fee = mul f share
    entry_fee_portion ← entry_fee_share position.open_fees c prior
    let gross = if lt (num_zero fl) q then mul (sub p avg) c else mul (sub avg p) c
    let realized = sub (sub gross close_fee) entry_fee_portion
    settle position d a p f prior c close_fee entry_fee_portion realized

  unfoldable pub apply_fill : PositionState fl → String → F → F → F → Option (FillOutcome fl)
  apply_fill position side fill_qty p fee =
      let q = position.net_qty in
      let d = side_sign side in
      let a = abs fill_qty in
      let f = max_of fl (or_zero fl fee) (num_zero fl) in
      let cur = cur_sign q in
      if le a eps || le p (num_zero fl)
      then some (record {
        position = position;
        realized_pnl = num_zero fl;
        closed = false;
        flipped = false;
      })
      else if eq cur (num_zero fl) || eq cur d
      then open_or_add position d a p f
      else close_or_flip position d a p f
