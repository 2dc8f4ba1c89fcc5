-- ===== src/Gateway/Control/Switches.antt =====
-- services/gateway/app/routes/control.py: the start and the stop of the bot reach every strategy.
use Prim.Native.String.{◌++◌}
use messiah_fx_prod.Prelude.{
  String, Bool, true, false, ◌≡◌, refl, ◌∙◌, ap, Option, some, List, [], ◌∷◌, inl, inr, Bool-cases,
  ◌=ˢ◌, eq_iff,
}
use messiah_fx_prod.Prelude.Dict.{Dict, lookup, contains}
use messiah_fx_prod.Numbers.{Floats}
use messiah_fx_prod.RedisKeys
use messiah_fx_prod.Redis.{
  Redis, IsServer, Exec, World, Command, after, send, ◌>>◌, set, hset, audit, risk_event,
  text_after, counts,
}
use messiah_fx_prod.Redis.Keeps.{HasField, Spares, HasField-run}
use messiah_fx_prod.Gateway.Control.{
  Caller, actor_of, write_halt, hset_all, bot_start, bot_stop, sorted_strategies, toggle_flag,
  stop_details,
}

-- What a switch leaves for a strategy: the bot is told, and the field has a value.
pub record IsSwitched {fl : Floats} (r : Redis fl) (halt strategy f v : String) (m : Exec r Unit)
    (w : World r) : Type 0 where
  pub returns : (m w).0 ≡ some tt
  pub halt_flag : r.text_at RedisKeys.halt (m w).1.server ≡ some halt
  pub has_field : HasField r (RedisKeys.strategy_state strategy) f v (m w).1.server

module _ {fl : Floats} {r : Redis fl} (laws : IsServer r) (caller : Caller) (now : String) where
  module _ (m : Dict String) (strategy f v : String) (present : lookup f m ≡ some v) where
    -- The hash of any strategy gets the field.
    hset_keeps :
        (j : String) (s : r.S)
        → HasField r (RedisKeys.strategy_state strategy) f v s
        → HasField r
            (RedisKeys.strategy_state strategy)
            f
            v
            (r.run (hset (RedisKeys.strategy_state j) m) s)
    hset_keeps j s h =
        laws.field-run (hset (RedisKeys.strategy_state j) m) _ f s refl
        ∙ elim (Bool-cases (RedisKeys.strategy_state strategy =ˢ RedisKeys.strategy_state j)) [
          | inl same ↦ rw (same, present) refl
          | inr other ↦ rw other h
        ]

    hset_sets :
        (s : r.S)
        → HasField r
            (RedisKeys.strategy_state strategy)
            f
            v
            (r.run (hset (RedisKeys.strategy_state strategy) m) s)
    hset_sets s =
        let same : (RedisKeys.strategy_state strategy =ˢ RedisKeys.strategy_state strategy) ≡ true =
          (eq_iff _ _).1 refl in
        laws.field-run (hset (RedisKeys.strategy_state strategy) m) _ f s refl
        ∙ rw (same, present) refl

    hset_all-keeps :
        (strategies : List String) (w : World r)
        → HasField r (RedisKeys.strategy_state strategy) f v w.server
        → HasField r
            (RedisKeys.strategy_state strategy)
            f
            v
            (hset_all {r = r} caller now m strategies w).1.server
    unfolding hset_all
    hset_all-keeps [] w h = h
    hset_all-keeps (j ∷ strategies) w h = hset_all-keeps strategies _ (hset_keeps j w.server h)

    hset_all-sets :
        (strategies : List String) (w : World r)
        → contains strategy strategies ≡ true
        → HasField r
            (RedisKeys.strategy_state strategy)
            f
            v
            (hset_all {r = r} caller now m strategies w).1.server
    unfolding hset_all
    hset_all-sets [] w h = cc h
    hset_all-sets (j ∷ strategies) w h = elim (Bool-cases (strategy =ˢ j)) [
      | inl same ↦
          let here : HasField r (RedisKeys.strategy_state strategy) f v
              (r.run (hset (RedisKeys.strategy_state j) m) w.server) =
            rw ((eq_iff strategy j).0 same)
              (rw ((eq_iff strategy j).0 same) at hset_sets w.server) in
          hset_all-keeps strategies _ here
      | inr other ↦ hset_all-sets strategies _ (rw other at h)
    ]

  hset_all-returns :
      (m : Dict String) (strategies : List String) (w : World r)
      → (hset_all {r = r} caller now m strategies w).0 ≡ some tt
  unfolding hset_all
  hset_all-returns m [] w = refl
  hset_all-returns m (j ∷ strategies) w = hset_all-returns m strategies _

  hset_all-halt :
      (m : Dict String) (strategies : List String) (w : World r)
      → r.text_at RedisKeys.halt (hset_all {r = r} caller now m strategies w).1.server
        ≡ r.text_at RedisKeys.halt w.server
  unfolding hset_all
  hset_all-halt m [] w = refl
  hset_all-halt m (j ∷ strategies) w =
      hset_all-halt m strategies _
      ∙ laws.text-run (hset (RedisKeys.strategy_state j) m) RedisKeys.halt w.server refl

  write_halt_flag :
      (halt reason : String) (w : World r)
      → r.text_at RedisKeys.halt (write_halt {r = r} caller now halt reason w).1.server ≡ some halt
  write_halt_flag halt reason w =
      laws.text-run (hset RedisKeys.risk_state _) RedisKeys.halt _ refl
      ∙ laws.text-run (set RedisKeys.halt halt) RedisKeys.halt w.server refl

  -- The commands that tell of a switch leave it as it is.
  told-IsSwitched :
      (halt strategy f v : String) (c : Command fl) (w : World r)
      → ((old : Option String) → text_after c RedisKeys.halt old ≡ old)
      → counts c RedisKeys.halt ≡ false
      → Spares c (RedisKeys.strategy_state strategy) f
      → r.text_at RedisKeys.halt w.server ≡ some halt
      → HasField r (RedisKeys.strategy_state strategy) f v w.server
      → IsSwitched r halt strategy f v (send c) w
  told-IsSwitched halt strategy f v c w same not_counted spared h k = record {
    returns = refl;
    halt_flag = laws.text-run c RedisKeys.halt w.server not_counted ∙ (same _ ∙ h);
    has_field = HasField-run r laws _ f v c spared w.server k;
  }

  after-returns :
      {A : Type 0} (f : Unit → Exec r A) (o : Option (Unit {0}) × World r)
      → o.0 ≡ some tt
      → after f o ≡ f tt o.1
  after-returns f o e = ap (λ p. after f (p, o.1)) e

  transfer-IsSwitched :
      (halt strategy f v : String) (m n : Exec r Unit) (w w1 : World r)
      → m w ≡ n w1
      → IsSwitched r halt strategy f v n w1
      → IsSwitched r halt strategy f v m w
  transfer-IsSwitched halt strategy f v m n w w1 e h = record {
    returns = ap (λ p. p.0) e ∙ h.returns;
    halt_flag = ap (λ p. r.text_at RedisKeys.halt p.1.server) e ∙ h.halt_flag;
    has_field =
        ap (λ p. lookup f (r.hash_at (RedisKeys.strategy_state strategy) p.1.server)) e
        ∙ h.has_field;
  }

  -- What both switches do: the halt, the loop over the strategies, and commands that tell of it.
  switch-IsSwitched :
      (halt reason strategy f v : String) (m : Dict String) (c : Command fl) (w : World r)
      → lookup f m ≡ some v
      → contains strategy sorted_strategies ≡ true
      → ((old : Option String) → text_after c RedisKeys.halt old ≡ old)
      → counts c RedisKeys.halt ≡ false
      → Spares c (RedisKeys.strategy_state strategy) f
      → IsSwitched r halt strategy f v
          (λ u.
            after
              (λ t. send c)
              (hset_all {r = r} caller now m sorted_strategies
                (write_halt caller now halt reason u).1))
          w
  switch-IsSwitched halt reason strategy f v m c w present known same not_counted spared =
      let w1 = (write_halt {r = r} caller now halt reason w).1 in
      let looped = hset_all {r = r} caller now m sorted_strategies w1 in
      transfer-IsSwitched halt strategy f v _ (send c) w looped.1
        (after-returns (λ t. send c) looped (hset_all-returns m sorted_strategies w1))
        (told-IsSwitched halt strategy f v c looped.1 same not_counted spared
          (hset_all-halt m sorted_strategies w1 ∙ write_halt_flag halt reason w)
          (hset_all-sets m strategy f v present sorted_strategies w1 known))

  -- On a server that keeps the documented effect of its commands: when a caller who is let in starts
  -- the bot, the halt is lifted, and every strategy is enabled, in the mode that was asked for.
  pub bot_start-IsSwitched :
      (started_by actor strategy : String) (paper_mode : Bool) (w : World r)
      → actor_of caller started_by ≡ some actor
      → contains strategy sorted_strategies ≡ true
      → IsSwitched r "0" strategy "enabled" "1" (bot_start caller now started_by paper_mode) w
        × IsSwitched r "0" strategy "paper_mode"
            (toggle_flag paper_mode)
            (bot_start caller now started_by paper_mode)
            w
  unfolding bot_start
  bot_start-IsSwitched started_by actor strategy paper_mode w e known = rw e (
    switch-IsSwitched "0" "" strategy "enabled" "1" _ (audit _ _) w refl known (λ old. refl) refl
        (refl, λ old. refl),
    switch-IsSwitched "0" "" strategy "paper_mode" _ _ (audit _ _) w refl known (λ old. refl) refl
        (refl, λ old. refl),
  )

  -- On a server that keeps the documented effect of its commands: when a caller who is let in stops
  -- the bot, the halt is set, and no strategy is enabled.
  pub bot_stop-IsSwitched :
      (stopped_by actor reason strategy : String) (w : World r)
      → actor_of caller stopped_by ≡ some actor
      → contains strategy sorted_strategies ≡ true
      → IsSwitched r "1" strategy "enabled" "0" (bot_stop caller now stopped_by reason) w
  unfolding bot_stop
  bot_stop-IsSwitched stopped_by actor reason strategy w e known =
      let m = ("enabled", "0") ∷ ("last_updated", now) ∷ [] in
      let w1 = (write_halt {r = r} caller now "1" reason w).1 in
      let looped = hset_all {r = r} caller now m sorted_strategies w1 in
      let told_by : Command fl = audit "bot.stopped" (stop_details actor reason) in
      let risk : Command fl = risk_event ("Bot stopped by " ++ actor ++ ": " ++ reason) in
      let told =
        told-IsSwitched "1" strategy "enabled" "0" told_by looped.1 (λ old. refl) refl
          (refl, λ old. refl) (hset_all-halt m sorted_strategies w1 ∙ write_halt_flag "1" reason w)
          (hset_all-sets m strategy "enabled" "0" refl sorted_strategies w1 known) in
      transfer-IsSwitched "1" strategy "enabled" "0" _ (send risk) w
        (send {r = r} told_by looped.1).1
        (rw e (
          after-returns (λ t. send told_by >> send risk) looped
            (hset_all-returns m sorted_strategies w1)))
        (told-IsSwitched "1" strategy "enabled" "0" risk _ (λ old. refl) refl (refl, λ old. refl)
          told.halt_flag told.has_field)
