-- ===== src/Tests/Shared.antt =====
-- Runs of the routes of symbols and of the differences of parameters, and the theorems at them.
use messiah_fx_prod.Prelude.{ℕ, ◌==◌, true, ◌≡◌, refl, arith, [], ◌∷◌}
use messiah_fx_prod.Prelude.Text.{is_space}
use messiah_fx_prod.Prelude.Dict.{Dict, lookup}
use messiah_fx_prod.Venues.{parse_symbol_spec}
use messiah_fx_prod.Venues.Routes.{parse_symbol_spec-routes}
use messiah_fx_prod.ParamGovernance.{Values, diff_params}
use messiah_fx_prod.ParamGovernance.Changes.{patched, patched-diff_params}

parse_symbol_spec-routes_example : parse_symbol_spec "bybit:ETH" ≡ ("bybit", "ETH")
unfolding is_space
parse_symbol_spec-routes_example =
    parse_symbol_spec-routes "bybit" "ETH" refl (refl, (refl, (refl, tt)))

abbrev numbers : Values
numbers = record { V = ℕ; same = ◌==◌ }

abbrev old_params : Dict ℕ
old_params = ("window", 20) ∷ ("entry_z", 2) ∷ []

abbrev new_params : Dict ℕ
new_params = ("window", 60) ∷ ("exit_z", 1) ∷ []

numbers_sound : (a b : ℕ) → (a == b) ≡ true → a ≡ b
numbers_sound a b h = ground arith

patched-diff_params_example :
    patched numbers (diff_params numbers old_params new_params) old_params "window"
    ≡ lookup "window" new_params
patched-diff_params_example =
    patched-diff_params numbers numbers_sound old_params new_params (refl, (refl, tt)) "window"
