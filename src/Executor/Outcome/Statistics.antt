-- ===== src/Executor/Outcome/Statistics.antt =====
-- services/executor/app/consumer.py, _record_outcome: the averages of wins and losses, the cumulative
-- result and its drawdown, and the whole of it.
use messiah_fx_prod.Prelude.{String, Bool, true, false, Option, none, some, ◌=ˢ◌, if◌then◌else◌}
use messiah_fx_prod.Numbers.{Floats, num_zero, max_of}
use messiah_fx_prod.Redis.{Redis, Exec, pure, reads, or_raise, send, set_ex, swallowed, ◌>>=◌, ◌>>◌}
use messiah_fx_prod.Executor.Settings.{Settings}
use messiah_fx_prod.Executor.Outcome.Keys.{
  avg_win_key, avg_loss_key, cum_pnl_key, peak_pnl_key, drawdown_key, edge_ttl,
}
use messiah_fx_prod.Executor.Outcome.Rotation.{record_rotation}
use messiah_fx_prod.Executor.Outcome.Edge.{record_edge}

module _ (fl : Floats) where
  open fl use {F, lit, add, sub, mul, div, lt, eq, round, show, parse}

  -- `float(raw) if raw else default`
  abbrev pub float_or : F → Option String → Option F
  float_or x none = some x
  float_or x (some raw) = if raw =ˢ "" then some x else parse raw

  abbrev pub drawdown_of : F → F → F
  drawdown_of new_peak new_cum =
      if lt (num_zero fl) new_peak
      then mul (div (sub new_peak new_cum) new_peak) (lit 100 0)
      else num_zero fl

module _ {fl : Floats} {r : Redis fl} (strategy : String) where
  open fl use {F, lit, add, mul, lt, eq, round, show}

  -- A moving average: nine tenths of the old one and a tenth of the new amount.
  abbrev pub move_average : String → F → Exec r Unit
  move_average key amount = do
    old_raw ← reads (r.text_at key)
    old ← or_raise (float_or fl amount old_raw)
    send (set_ex key (show (round (add (mul (lit 9 1) old) (mul (lit 1 1) amount)) 4)) edge_ttl)

  unfoldable pub record_average : Bool → F → Exec r Unit
  record_average true realized_pnl = move_average (avg_win_key strategy) realized_pnl
  record_average false realized_pnl = move_average (avg_loss_key strategy) (fl.abs realized_pnl)

  unfoldable pub record_drawdown : F → Exec r Unit
  record_drawdown realized_pnl = do
    old_cum_raw ← reads (r.text_at (cum_pnl_key strategy))
    old_cum ← or_raise (float_or fl (num_zero fl) old_cum_raw)
    let new_cum = add old_cum realized_pnl
    send (set_ex (cum_pnl_key strategy) (show (round new_cum 4)) edge_ttl)
    old_peak_raw ← reads (r.text_at (peak_pnl_key strategy))
    old_peak ← or_raise (float_or fl (num_zero fl) old_peak_raw)
    let new_peak = max_of fl old_peak new_cum
    send (set_ex (peak_pnl_key strategy) (show (round new_peak 4)) edge_ttl)
    send
        (set_ex (drawdown_key strategy) (show (round (drawdown_of fl new_peak new_cum) 4)) edge_ttl)

  -- What a closed round trip changes; an open changes nothing here.
  abbrev pub close_if : Settings fl → String → Bool → Bool → F → Exec r Unit
  close_if settings now true won realized_pnl = pure tt
  close_if settings now false won realized_pnl = do
    record_edge settings now strategy won
    record_average won realized_pnl
    record_drawdown realized_pnl

  unfoldable pub record_close : Settings fl → String → F → Exec r Unit
  record_close settings now realized_pnl =
      close_if settings now (eq realized_pnl (num_zero fl)) (lt (num_zero fl) realized_pnl)
        realized_pnl

  unfoldable pub record_outcome : Settings fl → String → Bool → F → Exec r Unit
  record_outcome settings now filled_ok realized_pnl = swallowed (do
    record_rotation settings now strategy filled_ok realized_pnl
    record_close settings now realized_pnl)
