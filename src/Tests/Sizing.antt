-- ===== src/Tests/Sizing.antt =====
-- Runs of the simulated fills and of the volatility multiplier, and the theorems at them.
use messiah_fx_prod.Prelude.{◌≡◌, refl, ◌⊎◌, some}
use messiah_fx_prod.Prelude.Int.{ℤ, pos, ◌/ℤ◌}
use messiah_fx_prod.Prelude.ParseInt.{parse_int}
use messiah_fx_prod.Numbers.Laws.{whole, whole-IsOrdered}
use messiah_fx_prod.Redis.Memory.{memory}
use messiah_fx_prod.Executor.Sizing.{clean_symbol, latest_tick, calc_quantity}
use messiah_fx_prod.Executor.Paper.{simulate, unfilled}
use messiah_fx_prod.Executor.Paper.Fills.{
  IsFillAt, IsSizedAt, IsUnreadable, shown, simulate-IsFillAt,
}
use messiah_fx_prod.Executor.Legs.{leg_usd}
use messiah_fx_prod.Executor.Legs.Scaling.{IsScaled, leg_usd-IsScaled}
use messiah_fx_prod.Tests.Execution.{settings_in_paper, buy_order, outside, moment, server}

simulate-IsFillAt_example :
    ((simulate (memory whole) "r" buy_order (pos 10) server
        ≡ unfilled buy_order "error" "malformed_tick_data")
      × IsUnreadable whole (server.hashes (latest_tick "binance" "BTC/USDT")))
    ⊎ ((price : ℤ) × IsSizedAt whole "binance" (pos 5000) price (pos 50)
        × (shown whole "buy" (server.hashes (latest_tick "binance" "BTC/USDT")) ≡ some price)
        × IsFillAt buy_order (some price) (simulate (memory whole) "r" buy_order (pos 10) server))
unfolding calc_quantity clean_symbol ◌/ℤ◌ parse_int
simulate-IsFillAt_example =
    simulate-IsFillAt (memory whole) "r" buy_order (pos 10) (pos 5000) (pos 50) server refl refl

leg_usd-IsScaled_example :
    IsScaled whole-IsOrdered outside settings_in_paper refl
      (pos 5000)
      (leg_usd outside settings_in_paper moment (pos 5000) "binance" "BTC/USDT")
leg_usd-IsScaled_example =
    leg_usd-IsScaled whole-IsOrdered outside settings_in_paper refl moment (pos 5000) "binance"
      "BTC/USDT" refl
