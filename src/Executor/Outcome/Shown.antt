-- ===== src/Executor/Outcome/Shown.antt =====
-- services/executor/app/consumer.py: what single commands of _record_outcome do to what Redis shows of a
-- strategy.
use messiah_fx_prod.Prelude.{
  ℕ, ◌+◌, String, Bool, true, false, ◌≡◌, refl, sym, ◌∙◌, ap, none, some, List, [], ◌∷◌, ◌++◌, map,
  inl, inr, ◌=ˢ◌, eq_iff,
}
use messiah_fx_prod.Prelude.Int.{pos}
use messiah_fx_prod.Prelude.Text.Affixes.{parts_ne}
use messiah_fx_prod.Numbers.{Floats}
use messiah_fx_prod.Redis.{
  Redis, IsServer, Command, delete, set_ex, rpush, ltrim, incr, expire, trim,
}
use messiah_fx_prod.Redis.Trim.{trim-trim_append}
use messiah_fx_prod.Executor.Settings.{Settings}
use messiah_fx_prod.Executor.Outcome.Keys.{losses_key, degraded_key, edge_outcomes_key, edge_ttl}
use messiah_fx_prod.Executor.Outcome.Edge.{outcome}
use messiah_fx_prod.Executor.Outcome.Apart.{
  Statistic, IsApart, Statistic-Leaves, Leaves, Leaves-run, set_ex-Leaves, delete-Leaves,
}
use messiah_fx_prod.Executor.Outcome.Standing.{Standing, IsShown}

losses-IsApart : IsApart "strategy:consecutive_losses:"
losses-IsApart = record {
  not_preferred = refl;
  not_queue = refl;
  not_win_rate = refl;
  not_decayed = refl;
  not_avg_win = refl;
  not_avg_loss = refl;
  not_cum_pnl = refl;
  not_peak_pnl = refl;
  not_drawdown = refl;
}

degraded-IsApart : IsApart "strategy:degraded:"
degraded-IsApart = record {
  not_preferred = refl;
  not_queue = refl;
  not_win_rate = refl;
  not_decayed = refl;
  not_avg_win = refl;
  not_avg_loss = refl;
  not_cum_pnl = refl;
  not_peak_pnl = refl;
  not_drawdown = refl;
}

outcomes-IsApart : IsApart "edge:outcomes:"
outcomes-IsApart = record {
  not_preferred = refl;
  not_queue = refl;
  not_win_rate = refl;
  not_decayed = refl;
  not_avg_win = refl;
  not_avg_loss = refl;
  not_cum_pnl = refl;
  not_peak_pnl = refl;
  not_drawdown = refl;
}

map-append_one :
    {A B : Type 0} (f : A → B) (xs : List A) (x : A) → map f (xs ++ x ∷ []) ≡ map f xs ++ f x ∷ []
map-append_one f [] x = refl
map-append_one f (y ∷ xs) x = ap (λ ys. f y ∷ ys) (map-append_one f xs x)

module _ (strategy : String) where
  losses_ne_degraded : (losses_key strategy =ˢ degraded_key strategy) ≡ false
  losses_ne_degraded =
      parts_ne "strategy:consecutive_losses:" "strategy:degraded:" strategy strategy refl

  degraded_ne_losses : (degraded_key strategy =ˢ losses_key strategy) ≡ false
  degraded_ne_losses =
      parts_ne "strategy:degraded:" "strategy:consecutive_losses:" strategy strategy refl

  outcomes_ne_losses : (edge_outcomes_key strategy =ˢ losses_key strategy) ≡ false
  outcomes_ne_losses =
      parts_ne "edge:outcomes:" "strategy:consecutive_losses:" strategy strategy refl

  outcomes_ne_degraded : (edge_outcomes_key strategy =ˢ degraded_key strategy) ≡ false
  outcomes_ne_degraded = parts_ne "edge:outcomes:" "strategy:degraded:" strategy strategy refl

  losses_ne_outcomes : (losses_key strategy =ˢ edge_outcomes_key strategy) ≡ false
  losses_ne_outcomes =
      parts_ne "strategy:consecutive_losses:" "edge:outcomes:" strategy strategy refl

  degraded_ne_outcomes : (degraded_key strategy =ˢ edge_outcomes_key strategy) ≡ false
  degraded_ne_outcomes = parts_ne "strategy:degraded:" "edge:outcomes:" strategy strategy refl

module _ {fl : Floats} {r : Redis fl} (laws : IsServer r) (settings : Settings fl)
    (strategy : String) where
  -- The new outcome is in the window.
  pub adds_outcome :
      (a : Standing) (won : Bool) (s : r.S)
      → IsShown settings r strategy a s
      → IsShown settings r strategy
          (record a { outcomes = a.outcomes ++ won ∷ [] })
          (r.run (expire (edge_outcomes_key strategy) edge_ttl) (
            r.run
              (ltrim (edge_outcomes_key strategy) settings.edge_monitor_window)
              (r.run (rpush (edge_outcomes_key strategy) (outcome won)) s)))
  adds_outcome a won s h =
      let key = edge_outcomes_key strategy in
      let n = settings.edge_monitor_window in
      let s1 = r.run (rpush key (outcome won)) s in
      let s2 = r.run (ltrim key n) s1 in
      let same : (key =ˢ key) ≡ true = (eq_iff _ _).1 refl in
      let pushed : r.list_at key s1 ≡ trim n (map outcome a.outcomes) ++ outcome won ∷ [] =
        laws.list-run _ _ s ∙ rw (same, h.shows_outcomes) refl in
      let trimmed : r.list_at key s2
          ≡ trim n (trim n (map outcome a.outcomes) ++ outcome won ∷ []) =
        laws.list-run _ _ s1 ∙ rw (same, pushed) refl in
      record {
        shows_losses = rw (laws.text-run (expire key edge_ttl) (losses_key strategy) s2 refl) (
            rw (laws.text-run (ltrim key n) (losses_key strategy) s1 refl) (
              rw (laws.text-run (rpush key (outcome won)) (losses_key strategy) s refl)
                h.shows_losses));
        shows_degraded =
            laws.text-run _ _ s2 refl
            ∙ (laws.text-run _ _ s1 refl ∙ (laws.text-run _ _ s refl ∙ h.shows_degraded));
        shows_outcomes =
            laws.list-run _ _ s2
            ∙ (trimmed
                ∙ (trim-trim_append n (map outcome a.outcomes) (outcome won)
                    ∙ ap (trim n) (sym (map-append_one outcome a.outcomes won))));
      }

  -- A command that leaves the three keys alone.
  leaving-IsShown :
      (a : Standing) (c : Command fl) (s : r.S)
      → Leaves c (losses_key strategy)
      → Leaves c (degraded_key strategy)
      → Leaves c (edge_outcomes_key strategy)
      → IsShown settings r strategy a s
      → IsShown settings r strategy a (r.run c s)
  leaving-IsShown a c s on_losses on_degraded on_outcomes h = record {
    shows_losses = rw (Leaves-run laws c _ on_losses s).0 h.shows_losses;
    shows_degraded = rw (Leaves-run laws c _ on_degraded s).0 h.shows_degraded;
    shows_outcomes = rw (Leaves-run laws c _ on_outcomes s).1 h.shows_outcomes;
  }

  pub Statistic-IsShown :
      (a : Standing) (c : Command fl)
      → Statistic fl strategy c
      → (s : r.S) → IsShown settings r strategy a s
      → IsShown settings r strategy a (r.run c s)
  Statistic-IsShown a c statistic s h =
      leaving-IsShown a c s (Statistic-Leaves strategy _ strategy losses-IsApart c statistic)
        (Statistic-Leaves strategy _ strategy degraded-IsApart c statistic)
        (Statistic-Leaves strategy _ strategy outcomes-IsApart c statistic) h

  -- The flag of degradation is set.
  pub degrades :
      (a : Standing) (n : ℕ) (s : r.S)
      → IsShown settings r strategy a s
      → IsShown settings r strategy
          (record a { degraded = some "1" })
          (r.run (set_ex (degraded_key strategy) "1" n) s)
  degrades a n s h =
      let on_losses : Leaves {fl = fl} (set_ex (degraded_key strategy) "1" n)
          (losses_key strategy) =
        set_ex-Leaves _ _ (losses_ne_degraded strategy) "1" n in
      let on_outcomes : Leaves {fl = fl} (set_ex (degraded_key strategy) "1" n)
          (edge_outcomes_key strategy) =
        set_ex-Leaves _ _ (outcomes_ne_degraded strategy) "1" n in
      let same : (degraded_key strategy =ˢ degraded_key strategy) ≡ true = (eq_iff _ _).1 refl in
      record {
        shows_losses = rw (Leaves-run laws _ _ on_losses s).0 h.shows_losses;
        shows_degraded = laws.text-run _ _ s refl ∙ rw same refl;
        shows_outcomes = rw (Leaves-run laws _ _ on_outcomes s).1 h.shows_outcomes;
      }

  -- The counter and the flag go.
  pub clears :
      (a : Standing) (s : r.S)
      → IsShown settings r strategy a s
      → IsShown settings r strategy
          (record a { losses = 0; degraded = none })
          (r.run (delete (degraded_key strategy)) (r.run (delete (losses_key strategy)) s))
  clears a s h =
      let same : (losses_key strategy =ˢ losses_key strategy) ≡ true = (eq_iff _ _).1 refl in
      let same2 : (degraded_key strategy =ˢ degraded_key strategy) ≡ true = (eq_iff _ _).1 refl in
      let s1 = r.run (delete (losses_key strategy)) s in
      let on_losses : Leaves {fl = fl} (delete (degraded_key strategy)) (losses_key strategy) =
        delete-Leaves _ _ (losses_ne_degraded strategy) in
      let on_outcomes1 : Leaves {fl = fl} (delete (losses_key strategy))
          (edge_outcomes_key strategy) =
        delete-Leaves _ _ (outcomes_ne_losses strategy) in
      let on_outcomes2 : Leaves {fl = fl} (delete (degraded_key strategy))
          (edge_outcomes_key strategy) =
        delete-Leaves _ _ (outcomes_ne_degraded strategy) in
      let gone : r.text_at (losses_key strategy) s1 ≡ none =
        laws.text-run _ _ s refl ∙ rw same refl in
      record {
        shows_losses = inl ((Leaves-run laws _ _ on_losses s1).0 ∙ gone, refl);
        shows_degraded = laws.text-run _ _ s1 refl ∙ rw same2 refl;
        shows_outcomes =
            (Leaves-run laws _ _ on_outcomes2 s1).1
            ∙ ((Leaves-run laws _ _ on_outcomes1 s).1 ∙ h.shows_outcomes);
      }

  -- One more loss.
  pub counts_loss :
      (a : Standing) (s : r.S)
      → IsShown settings r strategy a s
      → (r.count_reply (losses_key strategy) s ≡ some (pos (a.losses + 1)))
        × IsShown settings r strategy
            (record a { losses = a.losses + 1 })
            (r.run (expire (losses_key strategy) edge_ttl) (r.run (incr (losses_key strategy)) s))
  counts_loss a s h =
      let s1 = r.run (incr (losses_key strategy)) s in
      let counted = laws.count-run (losses_key strategy) s a.losses h.shows_losses in
      let same_degraded : r.text_at (degraded_key strategy) s1
          ≡ r.text_at (degraded_key strategy) s =
        laws.text-run _ _ s (degraded_ne_losses strategy) in
      (
        counted.0,
        record {
          shows_losses = inr (laws.text-run _ _ s1 refl ∙ counted.1);
          shows_degraded = laws.text-run _ _ s1 refl ∙ (same_degraded ∙ h.shows_degraded);
          shows_outcomes = laws.list-run _ _ s1 ∙ (laws.list-run _ _ s ∙ h.shows_outcomes);
        },
      )
