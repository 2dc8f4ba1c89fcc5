-- ===== src/AiFilter/Advice/Checks.antt =====
-- services/risk/app/checker.py and consumer.py: of an opportunity the checks read only the net edge.
use messiah_fx_prod.Prelude.{String, Bool, ◌≡◌, refl, ap, Option, none, some, List, if◌then◌else◌}
use messiah_fx_prod.Prelude.Dict.{Dict}
use messiah_fx_prod.Numbers.{Floats, num_zero}
use messiah_fx_prod.Payload.{Payload, Value, get, null, truthy, to_float}
use messiah_fx_prod.Redis.{Redis, World}
use messiah_fx_prod.Risk.Settings.{Settings}
use messiah_fx_prod.Risk.Checker.{
  read_net_edge, check_edge, check_losses, check_exposure, check_positions, check_daily_loss,
  run_checks,
}
use messiah_fx_prod.Risk.Consumer.{Moment, check}

abbrev net_edge_of : (fl : Floats) → Option (Value fl) → Option fl.F
net_edge_of fl o =
    let v : Value fl = elim o [ none ↦ null | some w ↦ w ] in
    if truthy v then to_float v else some (num_zero fl)

module _ {fl : Floats} (settings : Settings fl) (d e : Payload fl)
    (edge : get "net_edge_bps" d ≡ get "net_edge_bps" e) where
  check_edge_same : (p : List String) → check_edge settings p d ≡ check_edge settings p e
  unfolding check_edge
  check_edge_same p =
      let same : read_net_edge fl d ≡ read_net_edge fl e = ap (net_edge_of fl) edge in rw same refl

  check_losses_same :
      (p : List String) (h : Dict String)
      → check_losses settings p h d ≡ check_losses settings p h e
  unfolding check_losses
  check_losses_same p h = rw (check_edge_same _) refl

  check_exposure_same :
      (p : List String) (h : Dict String) (x y z : fl.F)
      → check_exposure settings p h d x y z ≡ check_exposure settings p h e x y z
  unfolding check_exposure
  check_exposure_same p h x y z = rw (check_losses_same _ h) refl

  check_positions_same :
      (p : List String) (h : Dict String) (x y z : fl.F)
      → check_positions settings p h d x y z ≡ check_positions settings p h e x y z
  unfolding check_positions
  check_positions_same p h x y z = rw (check_exposure_same _ h x y z) refl

  check_daily_loss_same :
      (p : List String) (h : Dict String) (x y z : fl.F)
      → check_daily_loss settings p h d x y z ≡ check_daily_loss settings p h e x y z
  unfolding check_daily_loss
  check_daily_loss_same p h x y z = rw (check_positions_same _ h x y z) refl

  run_checks_same :
      (h : Dict String) (f : String) (s : Dict String) (c : Bool) (x y z : fl.F)
      → run_checks settings h d f s c x y z ≡ run_checks settings h e f s c x y z
  unfolding run_checks
  run_checks_same h f s c x y z = rw (check_daily_loss_same _ h x y z) refl

  pub check_same :
      {r : Redis fl} (moment : Moment fl) (f g : Payload fl) (st : String) (w : World r)
      → check settings moment f d st w ≡ check settings moment g e st w
  unfolding check
  check_same moment f g st w = rw (run_checks_same _ _ _ _ _ _ _) refl
