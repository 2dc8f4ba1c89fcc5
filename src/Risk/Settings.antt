-- ===== src/Risk/Settings.antt =====
-- services/risk/app/config.py: the limits, and what is derived from them.
use messiah_fx_prod.Prelude.{ℕ, String, Bool, ◌||◌, ◌=ˢ◌}
use messiah_fx_prod.Prelude.Int.{ℤ}
use messiah_fx_prod.Numbers.{Floats, num_zero}

pub record Settings (fl : Floats) : Type 0 where
  pub trading_mode : String
  pub risk_max_per_trade_pct : fl.F
  pub risk_max_daily_drawdown_pct : fl.F
  pub risk_max_open_positions : ℤ
  pub risk_max_consecutive_losses : ℤ
  pub risk_cooldown_minutes : ℕ
  pub paper_capital_usd : fl.F
  pub risk_max_gross_exposure_usd : fl.F
  pub risk_max_strategy_exposure_usd : fl.F
  pub risk_daily_loss_limit_usd : fl.F

module _ {fl : Floats} (settings : Settings fl) where
  abbrev pub position_usd : fl.F
  position_usd = fl.mul settings.paper_capital_usd settings.risk_max_per_trade_pct

  abbrev pub exposure_caps_enabled : Bool
  exposure_caps_enabled =
      fl.lt (num_zero fl) settings.risk_max_gross_exposure_usd
      || fl.lt (num_zero fl) settings.risk_max_strategy_exposure_usd

  abbrev pub is_paper : Bool
  is_paper = settings.trading_mode =ˢ "paper"
