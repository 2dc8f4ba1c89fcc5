-- ===== src/Executor/Sizing.antt =====
-- services/executor/app/consumer.py: the money and the quantity of a leg.
pub mod Limits
use Prim.Native.Char.{code}
use Prim.Native.String.{◌++◌, [], ◌∷◌}
use messiah_fx_prod.Prelude.{
  String, Bool, true, false, not, ◌||◌, ◌==◌, Option, none, some, ◌>>=◌, ◌=ˢ◌, if◌then◌else◌,
}
use messiah_fx_prod.Prelude.Dict.{Dict, lookup}
use messiah_fx_prod.Numbers.{Floats, num_zero, num_one, divide, max_of}
use messiah_fx_prod.Redis.{Redis}
use messiah_fx_prod.Kelly.{get_strategy_kelly_fraction, kelly_position_usd}
use messiah_fx_prod.Executor.Settings.{Settings, position_usd}

-- `symbol.replace("/", "_").replace(":", "_")`
unfoldable pub clean_symbol : String → String
clean_symbol [] = []
clean_symbol (c ∷ s) =
    let rest = clean_symbol s in if code c == 47 || code c == 58 then "_" ++ rest else c ∷ rest

abbrev pub latest_tick : String → String → String
latest_tick venue symbol = "tick:latest:" ++ venue ++ ":" ++ clean_symbol symbol

module _ {fl : Floats} (r : Redis fl) where
  open fl use {F, le, round}

  -- The fixed size unless Kelly is enabled, the equity is known and the Kelly size is positive.
  unfoldable pub resolve_position_usd : Settings fl → String → r.S → F
  resolve_position_usd settings strategy_type s =
      let fixed = position_usd settings in
      let fraction =
        get_strategy_kelly_fraction r strategy_type settings.kelly_multiplier (fl.lit 1 2) s in
      let sized =
        kelly_position_usd fl settings.account_equity_usd fraction settings.kelly_max_position_pct
          (fl.lit 10 0) in
      if not settings.kelly_enabled || le settings.account_equity_usd (num_zero fl)
      then fixed
      else if le sized (num_zero fl)
      then fixed
      else sized

  -- The price that the side pays or gets.
  abbrev pub tick_price : String → Dict String → Option F
  tick_price side tick = do raw ← lookup (if side =ˢ "buy" then "ask" else "bid") tick; fl.parse raw

  -- The quantity at a price.
  abbrev pub quantity_at : String → F → F → Option F
  quantity_at venue position_usd price = if le price (num_zero fl) then none else do
    quantity ← divide fl position_usd price
    some (if venue =ˢ "oanda" then max_of fl (num_one fl) (round quantity 0) else round quantity 8)

  -- No tick is no quantity, and neither is a tick that cannot be read.
  unfoldable pub calc_quantity : String → String → String → F → r.S → Option F
  calc_quantity venue symbol side position_usd s = if venue =ˢ "mt5" then some position_usd else do
    price ← tick_price side (r.hash_at (latest_tick venue symbol) s)
    quantity_at venue position_usd price
