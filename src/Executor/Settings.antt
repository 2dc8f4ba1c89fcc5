-- ===== src/Executor/Settings.antt =====
-- services/executor/app/config.py: the settings that the order path reads. The
-- window of the edge monitor and the bars of the volatility are not negative here.
use messiah_fx_prod.Prelude.{ℕ, String, Bool, ◌=ˢ◌}
use messiah_fx_prod.Prelude.Int.{ℤ}
use messiah_fx_prod.Numbers.{Floats}

pub record Settings (fl : Floats) : Type 0 where
  pub trading_mode : String
  pub paper_capital_usd : fl.F
  pub risk_max_per_trade_pct : fl.F
  pub kelly_enabled : Bool
  pub account_equity_usd : fl.F
  pub kelly_multiplier : fl.F
  pub kelly_max_position_pct : fl.F
  pub vol_target_enabled : Bool
  pub vol_target_lookback_bars : ℕ
  pub vol_target_lam : fl.F
  pub vol_target_min : fl.F
  pub vol_target_max : fl.F
  pub edge_monitor_window : ℕ
  pub edge_baseline_win_rate : fl.F
  pub edge_decay_threshold : fl.F
  pub rotation_consecutive_loss_threshold : ℤ

module _ {fl : Floats} (settings : Settings fl) where
  abbrev pub is_paper : Bool
  is_paper = settings.trading_mode =ˢ "paper"

  abbrev pub position_usd : fl.F
  position_usd = fl.mul settings.paper_capital_usd settings.risk_max_per_trade_pct
