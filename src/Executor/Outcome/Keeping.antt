-- ===== src/Executor/Outcome/Keeping.antt =====
-- services/executor/app/consumer.py, _record_outcome: what the statistics leave alone is kept by the
-- calls that write them.
use messiah_fx_prod.Prelude.{
  String, Bool, true, false, not, ◌&&◌, leb, length, List, [], ◌∷◌, if◌then◌else◌,
}
use messiah_fx_prod.Prelude.Int.{ℤ}
use messiah_fx_prod.Numbers.{Floats, num_zero}
use messiah_fx_prod.Payload.{Value}
use messiah_fx_prod.Redis.{Redis, Exec, Command, pure, send, delete}
use messiah_fx_prod.Redis.Keeps.{Keeps, Keeps-after, Keeps-test}
use messiah_fx_prod.Executor.Settings.{Settings}
use messiah_fx_prod.Executor.Outcome.Keys.{
  edge_decayed_key, avg_win_key, avg_loss_key, cum_pnl_key, peak_pnl_key, edge_min_sample,
}
use messiah_fx_prod.Executor.Outcome.Rotation.{
  is_candidate, prefer, prefer_first, update_rotation_preferred,
}
use messiah_fx_prod.Executor.Outcome.Edge.{
  flag_decay, alert_decay, is_below, record_win_rate, ints, win_rate_of,
}
use messiah_fx_prod.Executor.Outcome.Statistics.{float_or, record_average, record_drawdown}
use messiah_fx_prod.Executor.Outcome.Apart.{
  Statistic, prefers, notifies, win_rate, decays, recovers, avg_win, avg_loss, cum_pnl, peak_pnl,
  drawdown,
}

module _ {fl : Floats} (r : Redis fl) (P : r.S → Type 0) (strategy : String)
    (kept : (c : Command fl) → Statistic fl strategy c → (s : r.S) → P s → P (r.run c s)) where
  prefer_first-Keeps :
      (now failed regime : String) (candidates : List String)
      → Keeps r P (prefer_first now failed regime candidates)
  unfolding prefer_first
  prefer_first-Keeps now failed regime [] w h = h
  prefer_first-Keeps now failed regime (c ∷ candidates) w h =
      Keeps-test r P (is_candidate r failed c w.server) (prefer now failed c regime)
        (prefer_first now failed regime candidates) w
        (λ fit. kept _ (notifies _) _ (kept _ (prefers _ _) _ h))
        (λ unfit. prefer_first-Keeps now failed regime candidates w h)

  pub update_rotation_preferred-Keeps :
      (now failed regime : String) → Keeps r P (update_rotation_preferred now failed regime)
  unfolding update_rotation_preferred
  update_rotation_preferred-Keeps now failed regime = prefer_first-Keeps now failed regime _

  module _ (settings : Settings fl) (now : String) where
    flag_decay-Keeps :
        (rate : fl.F) (outcomes : List ℤ)
        → Keeps r P (flag_decay settings now strategy rate outcomes)
    unfolding flag_decay
    flag_decay-Keeps rate outcomes w h =
        let already_decayed = r.exists (edge_decayed_key strategy) w.server in
        let below = is_below settings rate in
        let clear : Exec r Unit =
          if not below && already_decayed
          then send (delete (edge_decayed_key strategy))
          else pure tt in
        Keeps-test r P (below && not already_decayed && leb edge_min_sample (length outcomes))
          (alert_decay settings now strategy rate outcomes) clear w
          (λ alerts. kept _ (notifies _) _ (kept _ (decays _ _) _ h))
          (λ other.
            Keeps-test r P (not below && already_decayed)
              (send (delete (edge_decayed_key strategy))) (pure tt) w
              (λ recovered. kept _ recovers _ h) (λ neither. h))

    pub record_win_rate-Keeps :
        (raw : List (Value fl)) → Keeps r P (record_win_rate settings now strategy raw)
    unfolding record_win_rate
    record_win_rate-Keeps [] w h = h
    record_win_rate-Keeps (o ∷ raw) w h =
        Keeps-after r P _ (ints (o ∷ raw), w) h
          λ outcomes w1 h1.
            flag_decay-Keeps (win_rate_of fl outcomes) outcomes _ (kept _ (win_rate _ _) _ h1)

  pub record_average-Keeps : (won : Bool) (x : fl.F) → Keeps r P (record_average strategy won x)
  unfolding record_average
  record_average-Keeps true x w h =
      Keeps-after r P _ (float_or fl x (r.text_at (avg_win_key strategy) w.server), w) h
        λ old w1 h1. kept _ (avg_win _ _) _ h1
  record_average-Keeps false x w h =
      Keeps-after r P _ (float_or fl (fl.abs x) (r.text_at (avg_loss_key strategy) w.server), w) h
        λ old w1 h1. kept _ (avg_loss _ _) _ h1

  pub record_drawdown-Keeps : (x : fl.F) → Keeps r P (record_drawdown strategy x)
  unfolding record_drawdown
  record_drawdown-Keeps x w h =
      Keeps-after r P _ (float_or fl (num_zero fl) (r.text_at (cum_pnl_key strategy) w.server), w) h
        λ old w1 h1.
          let h2 = kept _ (cum_pnl _ _) _ h1 in
          Keeps-after r P _ (float_or fl (num_zero fl) (r.text_at (peak_pnl_key strategy) _), _) h2
            λ peak w3 h3. kept _ (drawdown _ _) _ (kept _ (peak_pnl _ _) _ h3)
