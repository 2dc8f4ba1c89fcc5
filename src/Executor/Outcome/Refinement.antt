-- ===== src/Executor/Outcome/Refinement.antt =====
-- services/executor/app/consumer.py: _record_outcome keeps in Redis what it means to keep.
use mathlib.Core.Path.{subst}
use messiah_fx_prod.Prelude.{
  ◌+◌, String, Bool, true, false, not, ◌&&◌, ◌||◌, ◌≡◌, refl, sym, ap, Option, some, if◌then◌else◌,
}
use messiah_fx_prod.Prelude.Int.{ℤ, pos, leb_ℤ}
use messiah_fx_prod.Numbers.{Floats, num_zero}
use messiah_fx_prod.Redis.{Redis, IsServer, Exec, World, send, after, increment, incr, expire, ◌>>◌}
use messiah_fx_prod.Executor.Settings.{Settings}
use messiah_fx_prod.Executor.Outcome.Keys.{losses_key, rotation_ttl, edge_ttl}
use messiah_fx_prod.Executor.Outcome.Rotation.{regime_of, degrade_if, rotate, record_rotation}
use messiah_fx_prod.Executor.Outcome.Edge.{record_edge}
use messiah_fx_prod.Executor.Outcome.Statistics.{
  record_average, close_if, record_close, record_outcome,
}
use messiah_fx_prod.Executor.Outcome.Keeping.{
  update_rotation_preferred-Keeps, record_win_rate-Keeps, record_average-Keeps,
  record_drawdown-Keeps,
}
use messiah_fx_prod.Redis.Keeps.{Keeps-after}
use messiah_fx_prod.Executor.Outcome.Choice.{update_returns}
use messiah_fx_prod.Executor.Outcome.Shown.{
  degrades, clears, counts_loss, Statistic-IsShown, adds_outcome,
}
use messiah_fx_prod.Executor.Outcome.Standing.{
  Standing, rotated, closed, is_enough, standing_after, IsShown,
}

module _ {fl : Floats} {r : Redis fl} where
  increment-known :
      (k : String) (n : ℤ) (w : World r)
      → r.count_reply k w.server ≡ some n
      → increment {r = r} k w ≡ (some n, (send (incr k) w).1)
  increment-known k n w e = rw e refl

  -- A call whose result is known.
  after-known :
      {A B : Type 0} (Q : r.S → Type 0) (f : A → Exec r B) (a : A) (w : World r)
      (o : Option A × World r)
      → o ≡ (some a, w)
      → Q (f a w).1.server
      → Q (after f o).1.server
  after-known Q f a w o e h = subst (λ p. Q (after f p).1.server) (sym e) h

module _ {fl : Floats} {r : Redis fl} (laws : IsServer r) (settings : Settings fl)
    (strategy now : String) where
  degrade_if-IsShown :
      (is_enough : Bool) (a : Standing) (w : World r)
      → IsShown settings r strategy a w.server
      → IsShown settings r strategy
          (record a { degraded = if is_enough then some "1" else a.degraded })
          (degrade_if {r = r} now strategy is_enough w).1.server
  degrade_if-IsShown true a w h =
      update_rotation_preferred-Keeps r _ strategy
        (Statistic-IsShown laws settings strategy (record a { degraded = some "1" })) now strategy
        (regime_of (r.text_at "ai:regime:current" _)) _
        (degrades laws settings strategy a rotation_ttl w.server h)
  degrade_if-IsShown false a w h = h

  rotate-IsShown :
      (won lost : Bool) (a : Standing) (w : World r)
      → IsShown settings r strategy a w.server
      → IsShown settings r strategy
          (rotated won lost (is_enough settings a.losses) a)
          (rotate settings now strategy won lost w).1.server
  rotate-IsShown true lost a w h = clears laws settings strategy a w.server h
  rotate-IsShown false true a w h =
      let counted = counts_loss laws settings strategy a w.server h in
      let now_at = (send {r = r} (incr (losses_key strategy)) w).1 in
      after-known (IsShown settings r strategy (rotated false true (is_enough settings a.losses) a))
        (λ count.
          send (expire (losses_key strategy) edge_ttl)
          >> degrade_if now strategy (leb_ℤ settings.rotation_consecutive_loss_threshold count))
        (pos (a.losses + 1)) now_at (increment (losses_key strategy) w)
        (increment-known (losses_key strategy) (pos (a.losses + 1)) w counted.0)
        (degrade_if-IsShown (is_enough settings a.losses) (record a { losses = a.losses + 1 }) _
          counted.1)
  rotate-IsShown false false a w h = h

  degrade_if-returns :
      (is_enough : Bool) (w : World r) → (degrade_if {r = r} now strategy is_enough w).0 ≡ some tt
  degrade_if-returns true w =
      update_returns r now strategy (regime_of (r.text_at "ai:regime:current" _)) _
  degrade_if-returns false w = refl

  rotate-returns :
      (won lost : Bool) (a : Standing) (w : World r)
      → IsShown settings r strategy a w.server
      → (rotate settings now strategy won lost w).0 ≡ some tt
  rotate-returns true lost a w h = refl
  rotate-returns false true a w h =
      let counted = counts_loss laws settings strategy a w.server h in
      rw counted.0 (degrade_if-returns (is_enough settings a.losses) _)
  rotate-returns false false a w h = refl

  record_edge-IsShown :
      (won : Bool) (a : Standing) (w : World r)
      → IsShown settings r strategy a w.server
      → IsShown settings r strategy
          (closed false won a)
          (record_edge settings now strategy won w).1.server
  unfolding record_edge
  record_edge-IsShown won a w h =
      record_win_rate-Keeps r _ strategy
        (Statistic-IsShown laws settings strategy (closed false won a)) settings now _ _
        (adds_outcome laws settings strategy a won w.server h)

  close_if-IsShown :
      (is_open won : Bool) (x : fl.F) (a : Standing) (w : World r)
      → IsShown settings r strategy a w.server
      → IsShown settings r strategy
          (closed is_open won a)
          (close_if {r = r} strategy settings now is_open won x w).1.server
  close_if-IsShown true won x a w h = h
  close_if-IsShown false won x a w h =
      let kept = Statistic-IsShown laws settings strategy (closed false won a) in
      Keeps-after r (IsShown settings r strategy (closed false won a)) _
        (record_edge settings now strategy won w) (record_edge-IsShown won a w h)
        λ t w1 h1.
          Keeps-after r (IsShown settings r strategy (closed false won a)) _
            (record_average strategy won x w1) (record_average-Keeps r _ strategy kept won x w1 h1)
            λ u w2 h2. record_drawdown-Keeps r _ strategy kept x w2 h2

  -- On a server that keeps the documented effect of its commands: where Redis shows how a strategy
  -- stands, recording an outcome returns, and Redis shows how the strategy stands after it. A filled
  -- win clears the consecutive losses and the flag of degradation, another loss or a leg that did not
  -- fill counts and degrades the strategy at the threshold, and each closed round trip enters the
  -- window of the last EDGE_MONITOR_WINDOW outcomes.
  pub record_outcome-IsShown :
      (filled_ok : Bool) (x : fl.F) (a : Standing) (w : World r)
      → IsShown settings r strategy a w.server
      → ((record_outcome strategy settings now filled_ok x w).0 ≡ some tt)
        × IsShown settings r strategy
            (standing_after settings filled_ok x a)
            (record_outcome strategy settings now filled_ok x w).1.server
  unfolding record_outcome record_rotation record_close
  record_outcome-IsShown filled_ok x a w h =
      let won = filled_ok && fl.lt (num_zero fl) x in
      let lost = not filled_ok || fl.lt x (num_zero fl) in
      let b = rotated won lost (is_enough settings a.losses) a in
      let is_open = fl.eq x (num_zero fl) in
      let is_win = fl.lt (num_zero fl) x in
      let rotated_at = rotate settings now strategy won lost w in
      (
        refl,
        after-known (IsShown settings r strategy (closed is_open is_win b))
            (λ t. close_if {r = r} strategy settings now is_open is_win x) tt rotated_at.1
            rotated_at (ap (λ o. (o, rotated_at.1)) (rotate-returns won lost a w h))
            (close_if-IsShown is_open is_win x b rotated_at.1 (rotate-IsShown won lost a w h)),
      )
