-- ===== src/Risk/Checker/Approval.antt =====
-- The pre-trade checks approve exactly what meets the conditions.
use messiah_fx_prod.Prelude.{
  String, Bool, true, false, not, ◌&&◌, ◌≡◌, refl, Option, none, some, List, ◌>>=◌, Bool-cases, inl,
  inr, if◌then◌else◌,
}
use messiah_fx_prod.Prelude.Dict.{Dict}
use messiah_fx_prod.Numbers.{Floats, num_zero}
use messiah_fx_prod.Payload.{Payload}
use messiah_fx_prod.Risk.Settings.{Settings}
use messiah_fx_prod.Risk.Checker.{
  CheckResult, approval, read_int, read_float, read_float_or, read_net_edge, check_edge,
  check_losses, check_exposure, check_positions, check_daily_loss, run_checks,
}
use messiah_fx_prod.Risk.Checker.Conditions.{
  through, from_edge, from_losses, from_exposure, from_positions, from_daily_loss, all_passed,
  Approves, HasEdge, HasRoom, HasFewLosses, IsWithinCaps, IsAboveLossLimit, IsAdmissible,
}

Approves-bind {ℓ} :
    {A : Type ℓ} (m : Option A) (k : A → Option CheckResult)
    → Approves (m >>= k)
    → (a : A) × (m ≡ some a) × Approves (k a)
Approves-bind none k h = absurd h
Approves-bind (some a) k h = (a, refl, h)

Approves-test :
    (b : Bool) (r : CheckResult) (m : Option CheckResult)
    → r.approved ≡ false
    → Approves (if b then some r else m)
    → (b ≡ false) × Approves m
Approves-test true r m e h = cc
Approves-test false r m e h = (refl, h)

and_false : (a b : Bool) → (a ≡ true → b ≡ false) → (a && b) ≡ false
and_false true b h = h refl
and_false false b h = refl

and_false_right : (a b : Bool) → (a && b) ≡ false → a ≡ true → b ≡ false
and_false_right true b h e = h
and_false_right false b h e = cc

not-false : (b : Bool) → not b ≡ false → b ≡ true
not-false true h = refl
not-false false h = cc

module _ {fl : Floats} (settings : Settings fl) where
  open fl use {F, lt}

  module _ (opportunity : Payload fl) where
    check_edge-Approves :
        (passed : List String)
        → Approves (check_edge settings passed opportunity)
        → HasEdge settings opportunity
    unfolding check_edge
    check_edge-Approves passed h =
        let (x, e, k) = Approves-bind (read_net_edge fl opportunity) _ h in
        record { edge = x; edge_read = e; edge_positive = (Approves-test _ _ _ refl k).0 }

    check_edge-eq :
        (passed : List String)
        → HasEdge settings opportunity
        → check_edge settings passed opportunity ≡ some (approval (through passed from_edge))
    unfolding check_edge
    check_edge-eq passed h = rw h.edge_read (rw h.edge_positive)

  module _ (risk_hash : Dict String) (opportunity : Payload fl) where
    check_losses-Approves :
        (passed : List String)
        → Approves (check_losses settings passed risk_hash opportunity)
        → HasFewLosses settings risk_hash × HasEdge settings opportunity
    unfolding check_losses
    check_losses-Approves passed h =
        let (x, e, k) = Approves-bind (read_int "consecutive_losses" risk_hash) _ h in
        let (below, rest) = Approves-test _ _ _ refl k in
        (
          record { losses = x; losses_read = e; losses_below = below },
          check_edge-Approves opportunity _ rest,
        )

    check_losses-eq :
        (passed : List String)
        → HasFewLosses settings risk_hash
        → HasEdge settings opportunity
        → check_losses settings passed risk_hash opportunity
          ≡ some (approval (through passed from_losses))
    unfolding check_losses
    check_losses-eq passed l h =
        rw l.losses_read (rw l.losses_below (check_edge-eq opportunity _ h))

    module _ (gross strategy new_notional : F) where
      check_exposure-Approves :
          (passed : List String)
          → Approves
              (check_exposure settings passed risk_hash opportunity gross strategy new_notional)
          → IsWithinCaps settings gross strategy new_notional
            × HasFewLosses settings risk_hash
            × HasEdge settings opportunity
      unfolding check_exposure
      check_exposure-Approves passed h =
          let (g, k) = Approves-test _ _ _ refl h in
          let (s, rest) = Approves-test _ _ _ refl k in
          let (l, e) = check_losses-Approves _ rest in
          (record { gross_cap = and_false_right _ _ g; strategy_cap = and_false_right _ _ s }, l, e)

      check_exposure-eq :
          (passed : List String)
          → IsWithinCaps settings gross strategy new_notional
          → HasFewLosses settings risk_hash
          → HasEdge settings opportunity
          → check_exposure settings passed risk_hash opportunity gross strategy new_notional
            ≡ some (approval (through passed from_exposure))
      unfolding check_exposure
      check_exposure-eq passed c l e =
          rw (and_false _ _ c.gross_cap) (rw (and_false _ _ c.strategy_cap) (check_losses-eq _ l e))

      check_positions-Approves :
          (passed : List String)
          → Approves
              (check_positions settings passed risk_hash opportunity gross strategy new_notional)
          → HasRoom settings risk_hash
            × IsWithinCaps settings gross strategy new_notional
            × HasFewLosses settings risk_hash
            × HasEdge settings opportunity
      unfolding check_positions
      check_positions-Approves passed h =
          let (x, e, k) = Approves-bind (read_int "open_position_count" risk_hash) _ h in
          let (below, rest) = Approves-test _ _ _ refl k in
          let (c, l, edge) = check_exposure-Approves _ rest in
          (record { positions = x; positions_read = e; positions_below = below }, c, l, edge)

      check_positions-eq :
          (passed : List String)
          → HasRoom settings risk_hash
          → IsWithinCaps settings gross strategy new_notional
          → HasFewLosses settings risk_hash
          → HasEdge settings opportunity
          → check_positions settings passed risk_hash opportunity gross strategy new_notional
            ≡ some (approval (through passed from_positions))
      unfolding check_positions
      check_positions-eq passed p c l e =
          rw p.positions_read (rw p.positions_below (check_exposure-eq _ c l e))

      check_daily_loss-Approves :
          (passed : List String)
          → Approves
              (check_daily_loss settings passed risk_hash opportunity gross strategy new_notional)
          → IsAboveLossLimit settings risk_hash
            × HasRoom settings risk_hash
            × IsWithinCaps settings gross strategy new_notional
            × HasFewLosses settings risk_hash
            × HasEdge settings opportunity
      unfolding check_daily_loss
      check_daily_loss-Approves passed h =
          elim (Bool-cases (lt (num_zero fl) settings.risk_daily_loss_limit_usd)) [
            | inl on ↦
                let (x, e, k) =
                  Approves-bind (read_float_or fl "daily_pnl_usd" risk_hash) _ (rw on at h) in
                let (above, rest) = Approves-test _ _ _ refl k in
                let (p, c, l, edge) = check_positions-Approves _ rest in
                (λ _. (x, e, above), p, c, l, edge)
            | inr off ↦
                let (p, c, l, edge) = check_positions-Approves _ (rw off at h) in
                (λ on. cc, p, c, l, edge)
          ]

      check_daily_loss-eq :
          (passed : List String)
          → IsAboveLossLimit settings risk_hash
          → HasRoom settings risk_hash
          → IsWithinCaps settings gross strategy new_notional
          → HasFewLosses settings risk_hash
          → HasEdge settings opportunity
          → check_daily_loss settings passed risk_hash opportunity gross strategy new_notional
            ≡ some (approval (through passed from_daily_loss))
      unfolding check_daily_loss
      check_daily_loss-eq passed d p c l e =
          elim (Bool-cases (lt (num_zero fl) settings.risk_daily_loss_limit_usd)) [
            | inl on ↦
                let (x, r, above) = d on in rw on (rw r (rw above (check_positions-eq _ p c l e)))
            | inr off ↦ rw off (check_positions-eq _ p c l e)
          ]

      module _ (halt_flag : String) (strategy_state : Dict String) (on_cooldown : Bool) where
        -- An opportunity is approved only if the system is not halted, its strategy is enabled and not
        -- cooling down, today's drawdown and configured loss limit are not reached, the open positions
        -- and the loss streak are below their limits, no configured exposure cap would be passed, and
        -- the net edge is positive.
        pub run_checks-IsAdmissible :
            Approves (
              run_checks settings risk_hash opportunity halt_flag strategy_state on_cooldown gross
                strategy new_notional)
            → IsAdmissible settings risk_hash opportunity halt_flag strategy_state on_cooldown gross
                strategy new_notional
        unfolding run_checks
        run_checks-IsAdmissible h =
            let (halt, k1) = Approves-test _ _ _ refl h in
            let (enabled, k2) = Approves-test _ _ _ refl k1 in
            let (cool, k3) = Approves-test _ _ _ refl k2 in
            let (x, e, k4) = Approves-bind (read_float fl "daily_drawdown_pct" risk_hash) _ k3 in
            let (below, rest) = Approves-test _ _ _ refl k4 in
            let (d, p, c, l, edge) = check_daily_loss-Approves _ rest in
            record {
              not_halted = halt;
              enabled = not-false _ enabled;
              no_cooldown = cool;
              drawdown = record { drawdown = x; drawdown_read = e; drawdown_below = below };
              loss = d;
              room = p;
              caps = c;
              losses = l;
              edge = edge;
            }

        -- Whatever meets those conditions is approved: the result names the ten checks as passed, in
        -- their order, and has no reason, and no halt or cooldown is asked for.
        pub run_checks-approves :
            IsAdmissible settings risk_hash opportunity halt_flag strategy_state on_cooldown gross
              strategy new_notional
            → run_checks settings risk_hash opportunity halt_flag strategy_state on_cooldown gross
                strategy new_notional
              ≡ some all_passed
        unfolding run_checks
        run_checks-approves h = rw h.not_halted (
            rw h.enabled (
              rw h.no_cooldown (
                rw h.drawdown.drawdown_read (
                  rw h.drawdown.drawdown_below
                    (check_daily_loss-eq _ h.loss h.room h.caps h.losses h.edge)))))
