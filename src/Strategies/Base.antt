-- ===== src/Strategies/Base.antt =====
-- services/strategy/app/strategies/base.py: what the strategies read of Redis.
use Prim.Native.String.{◌++◌}
use messiah_fx_prod.Prelude.{
  ℕ, zero, suc, String, Bool, false, Option, none, some, List, [], ◌∷◌, ◌=ˢ◌,
}
use messiah_fx_prod.Prelude.Dict.{Dict}
use messiah_fx_prod.Numbers.{Floats}
use messiah_fx_prod.Payload.{Value, text}
use messiah_fx_prod.RedisKeys
use messiah_fx_prod.Redis.{Redis}
use messiah_fx_prod.Executor.Sizing.{clean_symbol, latest_tick}

abbrev pub tick_cache : String → String → String
tick_cache venue symbol = "ticks:" ++ venue ++ ":" ++ clean_symbol symbol

abbrev pub is_text : String → Option String → Bool
is_text t none = false
is_text t (some s) = s =ˢ t

abbrev pub take_first {ℓ} : {A : Type ℓ} → ℕ → List A → List A
take_first zero xs = []
take_first (suc n) [] = []
take_first (suc n) (x ∷ xs) = x ∷ take_first n xs

-- LRANGE key 0 n-1, which for 0 is the whole list
abbrev pub lrange {ℓ} : {A : Type ℓ} → ℕ → List A → List A
lrange zero xs = xs
lrange (suc n) xs = take_first (suc n) xs

module _ {fl : Floats} where
  -- An item that does not parse is left out.
  abbrev pub parsed : List (Value fl) → List (Value fl)
  parsed [] = []
  parsed (text s ∷ raw_list) = parsed raw_list
  parsed (v ∷ raw_list) = v ∷ parsed raw_list

  module _ (r : Redis fl) where
    unfoldable pub read_tick_cache : String → String → ℕ → r.S → List (Value fl)
    read_tick_cache venue symbol n s = parsed (lrange n (r.list_at (tick_cache venue symbol) s))

    -- An empty hash is no tick.
    abbrev pub read_latest_tick : String → String → r.S → Dict String
    read_latest_tick venue symbol = r.hash_at (latest_tick venue symbol)

    abbrev pub is_halted : r.S → Bool
    is_halted s = is_text "1" (r.text_at RedisKeys.halt s)

    abbrev pub get_strategy_state : String → r.S → Dict String
    get_strategy_state strategy_name = r.hash_at (RedisKeys.strategy_state strategy_name)

    abbrev pub is_on_cooldown : String → r.S → Bool
    is_on_cooldown strategy_name = r.exists (RedisKeys.cooldown strategy_name)
