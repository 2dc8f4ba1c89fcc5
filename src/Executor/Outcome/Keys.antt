-- ===== src/Executor/Outcome/Keys.antt =====
-- services/executor/app/consumer.py: the keys and the constants of _record_outcome.
use Prim.Native.String.{String, ◌++◌}
use messiah_fx_prod.Prelude.{ℕ}

abbrev pub losses_key : String → String
losses_key name = "strategy:consecutive_losses:" ++ name

abbrev pub degraded_key : String → String
degraded_key name = "strategy:degraded:" ++ name

abbrev pub rotation_preferred : String
rotation_preferred = "strategy:rotation:preferred"

abbrev pub edge_outcomes_key : String → String
edge_outcomes_key name = "edge:outcomes:" ++ name

abbrev pub edge_win_rate_key : String → String
edge_win_rate_key name = "edge:win_rate:" ++ name

abbrev pub edge_decayed_key : String → String
edge_decayed_key name = "edge:decayed:" ++ name

abbrev pub avg_win_key : String → String
avg_win_key name = "strategy:avg_win:" ++ name

abbrev pub avg_loss_key : String → String
avg_loss_key name = "strategy:avg_loss:" ++ name

abbrev pub cum_pnl_key : String → String
cum_pnl_key name = "strategy:cum_pnl:" ++ name

abbrev pub peak_pnl_key : String → String
peak_pnl_key name = "strategy:peak_pnl:" ++ name

abbrev pub drawdown_key : String → String
drawdown_key name = "strategy:drawdown_pct:" ++ name

abbrev pub edge_min_sample : ℕ
edge_min_sample = 10

-- In seconds: four hours, and a day.
abbrev pub rotation_ttl : ℕ
rotation_ttl = 14400

abbrev pub edge_ttl : ℕ
edge_ttl = 86400
