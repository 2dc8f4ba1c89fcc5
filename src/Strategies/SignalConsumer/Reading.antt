-- ===== src/Strategies/SignalConsumer/Reading.antt =====
-- services/strategy/app/signal_consumer.py: what is read of an entry and of the server, case by case.
use messiah_fx_prod.Prelude.{
  String, Bool, true, false, ◌≡◌, refl, ◌⊎◌, inl, inr, Option, none, some, Bool-cases, Option-cases,
  if◌then◌else◌,
}
use messiah_fx_prod.Prelude.Text.{lower, strip}
use messiah_fx_prod.Prelude.Dict.{contains, lookup}
use messiah_fx_prod.Numbers.{Floats}
use messiah_fx_prod.Payload.{Payload, Value, null, flag, num, array, text, object, get_or, truthy}
use messiah_fx_prod.Redis.{Redis}
use messiah_fx_prod.Strategies.Base.{is_text, is_halted, get_strategy_state, is_on_cooldown}
use messiah_fx_prod.Strategies.SignalConsumer.{
  Context, Signal, known_strategies, normalise_symbol, split_symbol, lower_value, signal_of,
  read_signal, too_old, is_stale, is_refused,
}
use messiah_fx_prod.Strategies.SignalConsumer.Promise.{
  IsNoText, IsRead, IsNameless, IsNoDate, IsOld, IsFresh, IsAdmitted, IsBlocked,
}

module _ {fl : Floats} where
  lower_value-cases :
      (v : Value fl)
      → ((lower_value v ≡ none) × IsNoText v)
        ⊎ ((s : String) × (v ≡ text s) × (lower_value v ≡ some (lower s)))
  lower_value-cases (text s) = inr (s, refl, refl)
  lower_value-cases null = inl (refl, λ s h. cc h)
  lower_value-cases (flag b) = inl (refl, λ s h. cc h)
  lower_value-cases (num x) = inl (refl, λ s h. cc h)
  lower_value-cases (array xs) = inl (refl, λ s h. cc h)
  lower_value-cases (object d) = inl (refl, λ s h. cc h)

  signal_of-none :
      (a b c : Option String) (content : Payload fl)
      → (a ≡ none) ⊎ (b ≡ none) ⊎ (c ≡ none)
      → signal_of a b c content ≡ none
  signal_of-none none b c content h = refl
  signal_of-none (some a) none c content h = refl
  signal_of-none (some a) (some b) none content h = refl
  signal_of-none (some a) (some b) (some c) content (inl h) = absurd (cc h)
  signal_of-none (some a) (some b) (some c) content (inr (inl h)) = absurd (cc h)
  signal_of-none (some a) (some b) (some c) content (inr (inr h)) = absurd (cc h)

  pub read_signal-cases :
      (content : Payload fl)
      → ((read_signal content ≡ none) × IsNameless content)
        ⊎ ((x : Signal fl) × (read_signal content ≡ some x) × IsRead content x)
  unfolding read_signal
  read_signal-cases content = elim (lower_value-cases (get_or "strategy" (text "") content)) [
    | inl (bad, no_text) ↦ inl (signal_of-none _ _ _ content (inl bad), inl no_text)
    | inr (strategy, has_strategy, a) ↦
        elim (lower_value-cases (get_or "venue" (text "binance") content)) [
          | inl (bad, no_text) ↦
              inl (signal_of-none _ _ _ content (inr (inl bad)), inr (inl no_text))
          | inr (venue, has_venue, b) ↦
              elim (lower_value-cases (get_or "action" (text "alert") content)) [
                | inl (bad, no_text) ↦
                    inl (signal_of-none _ _ _ content (inr (inr bad)), inr (inr no_text))
                | inr (action, has_action, c) ↦ inr (
                  _,
                  rw (a, b, c) refl,
                  record {
                    strategy = strategy;
                    venue = venue;
                    action = action;
                    has_strategy = has_strategy;
                    has_venue = has_venue;
                    has_action = has_action;
                    says = refl;
                  },
                )
              ]
        ]
  ]

  text_age :
      (ctx : Context fl) (s : String)
      → truthy {fl = fl} (text s) ≡ true
      → ((too_old ctx (ctx.age s) ≡ true) × IsOld ctx (text s))
        ⊎ ((too_old ctx (ctx.age s) ≡ false) × IsFresh ctx (text s))
  text_age ctx s dated = elim (Option-cases (ctx.age s)) [
    | inl unread ↦ inr (rw unread refl, inr (s, refl, inl unread))
    | inr (age, is_age) ↦ elim (Bool-cases (fl.lt (fl.of_int ctx.tv_signal_max_age_seconds) age)) [
      | inl old ↦ inl (rw (is_age, old) refl, (s, refl, dated, age, is_age, old))
      | inr young ↦ inr (rw (is_age, young) refl, inr (s, refl, inr (age, is_age, young)))
    ]
  ]

  abbrev pub IsAged : Context fl → Value fl → Option Bool → Type 0
  IsAged ctx received answer =
      ((answer ≡ none) × IsNoDate received)
      ⊎ ((answer ≡ some true) × IsOld ctx received)
      ⊎ ((answer ≡ some false) × IsFresh ctx received)

  no_text-IsAged :
      (ctx : Context fl) (received : Value fl)
      → IsNoText received
      → IsAged ctx received (if truthy received then none else some false)
  no_text-IsAged ctx received no_text = elim (Bool-cases (truthy received)) [
    | inl dated ↦ inl (rw dated refl, (no_text, dated))
    | inr undated ↦ inr (inr (rw undated refl, inl undated))
  ]

  pub is_stale-IsAged :
      (ctx : Context fl) (received : Value fl) → IsAged ctx received (is_stale ctx received)
  is_stale-IsAged ctx (text s) = elim (Bool-cases (truthy {fl = fl} (text s))) [
    | inr undated ↦ inr (inr (rw undated refl, inl undated))
    | inl dated ↦ elim (text_age ctx s dated) [
      | inl (old, is_old) ↦ inr (inl (rw (dated, old) refl, is_old))
      | inr (young, is_fresh) ↦ inr (inr (rw (dated, young) refl, is_fresh))
    ]
  ]
  is_stale-IsAged ctx null = no_text-IsAged ctx null (λ s h. cc h)
  is_stale-IsAged ctx (flag b) = no_text-IsAged ctx (flag b) (λ s h. cc h)
  is_stale-IsAged ctx (num x) = no_text-IsAged ctx (num x) (λ s h. cc h)
  is_stale-IsAged ctx (array xs) = no_text-IsAged ctx (array xs) (λ s h. cc h)
  is_stale-IsAged ctx (object d) = no_text-IsAged ctx (object d) (λ s h. cc h)

  pub normalise_symbol-cases :
      (ctx : Context fl) (v : Value fl) (venue : String)
      → ((normalise_symbol ctx v venue ≡ none) × IsNoText v)
        ⊎ ((s : String) × (v ≡ text s)
            × (normalise_symbol ctx v venue ≡ some (split_symbol (ctx.upper (strip s)) venue)))
  normalise_symbol-cases ctx (text s) venue = inr (s, refl, refl)
  normalise_symbol-cases ctx null venue = inl (refl, λ s h. cc h)
  normalise_symbol-cases ctx (flag b) venue = inl (refl, λ s h. cc h)
  normalise_symbol-cases ctx (num x) venue = inl (refl, λ s h. cc h)
  normalise_symbol-cases ctx (array xs) venue = inl (refl, λ s h. cc h)
  normalise_symbol-cases ctx (object d) venue = inl (refl, λ s h. cc h)

module _ {fl : Floats} (r : Redis fl) where
  pub is_refused-cases :
      (strategy_type : String) (s : r.S)
      → ((is_refused r strategy_type s ≡ true) × IsBlocked r strategy_type s)
        ⊎ ((is_refused r strategy_type s ≡ false) × IsAdmitted r strategy_type s)
  unfolding is_refused
  is_refused-cases strategy_type s = elim (Bool-cases (is_halted r s)) [
    | inl halted ↦ inl (rw halted refl, inl halted)
    | inr running ↦ elim (Bool-cases (contains strategy_type known_strategies)) [
      | inr unknown ↦ inl (rw (running, unknown) refl, inr (inl unknown))
      | inl known ↦
          elim (Bool-cases
            (is_text "1" (lookup "enabled" (get_strategy_state r strategy_type s)))) [
              | inr disabled ↦ inl (rw (running, known, disabled) refl, inr (inr (inl disabled)))
              | inl enabled ↦ elim (Bool-cases (is_on_cooldown r strategy_type s)) [
                | inl cooling ↦
                    inl (rw (running, known, enabled, cooling) refl, inr (inr (inr cooling)))
                | inr ready ↦ inr (
                  rw (running, known, enabled, ready) refl,
                  record {
                    running = running;
                    known = known;
                    enabled = enabled;
                    no_cooldown = ready;
                  },
                )
              ]
            ]
    ]
  ]
