-- ===== src/Strategies/SignalConsumer/Admission.antt =====
-- services/strategy/app/signal_consumer.py: which signals reach a strategy, and which are acknowledged.
use messiah_fx_prod.Prelude.{
  String, Bool, true, false, ◌≡◌, refl, ap, ◌⊎◌, inl, inr, Option, none, some, ◌=ˢ◌, eq_iff,
  Bool-cases,
}
use messiah_fx_prod.Prelude.Text.{strip}
use messiah_fx_prod.Prelude.Dict.{Dict, contains}
use messiah_fx_prod.Numbers.{Floats}
use messiah_fx_prod.Payload.{
  Payload, Value, null, flag, num, array, text, object, no_fields, get, get_or,
}
use messiah_fx_prod.Redis.{Redis, World, Exec, send, xack}
use messiah_fx_prod.Strategies.Base.{is_text, get_strategy_state}
use messiah_fx_prod.Strategies.SignalConsumer.{
  Context, Signal, Strategies, known_strategies, split_symbol, read_signal, run_strategy, returned,
  launch, dispatch_data, dispatch_loaded, dispatch, acknowledge, handle,
}
use messiah_fx_prod.Strategies.SignalConsumer.Symbols.{split_symbol-IsNormal}
use messiah_fx_prod.Strategies.SignalConsumer.Promise.{
  HasContent, IsFresh, IsAdmitted, IsCall, IsSettled, IsHandled,
}
use messiah_fx_prod.Strategies.SignalConsumer.Reading.{
  read_signal-cases, is_stale-IsAged, normalise_symbol-cases, is_refused-cases,
}

module _ {fl : Floats} {r : Redis fl} where
  run_strategy-IsCall :
      (to : Strategies r) (x : Signal fl) (symbol : String) (state : Dict String)
      → contains x.strategy_type known_strategies ≡ true
      → IsCall to x symbol state (run_strategy to x symbol state)
  unfolding run_strategy
  run_strategy-IsCall to x symbol state known =
      elim (Bool-cases (x.strategy_type =ˢ "funding_arb")) [
        | inl funding ↦ rw funding (inl ((eq_iff x.strategy_type "funding_arb").0 funding, refl))
        | inr f ↦ elim (Bool-cases (x.strategy_type =ˢ "stat_arb")) [
          | inl stat ↦ rw (f, stat) (inr (inl ((eq_iff x.strategy_type "stat_arb").0 stat, refl)))
          | inr s ↦ elim (Bool-cases (x.strategy_type =ˢ "swing")) [
            | inl swing ↦
                rw (f, s, swing) (inr (inr (inl ((eq_iff x.strategy_type "swing").0 swing, refl))))
            | inr w ↦ elim (Bool-cases (x.strategy_type =ˢ "breakout")) [
              | inl breakout ↦
                  rw (f, s, w, breakout)
                    (inr (inr (inr (inl ((eq_iff x.strategy_type "breakout").0 breakout, refl)))))
              | inr b ↦ elim (Bool-cases (x.strategy_type =ˢ "mean_reversion_scalp")) [
                | inl reversion ↦
                    rw (f, s, w, b, reversion)
                      (inr (
                        inr (
                          inr (
                            inr (
                              inl (
                                (eq_iff x.strategy_type "mean_reversion_scalp").0 reversion,
                                refl,
                              ))))))
                | inr m ↦ elim (Bool-cases (x.strategy_type =ˢ "momentum")) [
                  | inl momentum ↦
                      rw (f, s, w, b, m, momentum)
                        (inr (
                          inr (
                            inr
                              (inr (inr ((eq_iff x.strategy_type "momentum").0 momentum, refl))))))
                  | inr none_of_them ↦ absurd (cc (rw (f, s, w, b, m, none_of_them) at known))
                ]
              ]
            ]
          ]
        ]
      ]

  -- What becomes of a call in the try block, and of its answer in the loop.
  returned-cases :
      (call : Exec r Bool) (w : World r)
      → ((answer : Bool) × ((call w).0 ≡ some answer)
          × (returned (call w) ≡ (some true, (call w).1)))
        ⊎ (((call w).0 ≡ none) × (returned (call w) ≡ (some false, (call w).1)))
  returned-cases call w = by_result (call w)
    where
      by_result :
          (out : Option Bool × World r)
          → ((answer : Bool) × (out.0 ≡ some answer) × (returned out ≡ (some true, out.1)))
            ⊎ ((out.0 ≡ none) × (returned out ≡ (some false, out.1)))
      by_result (none, v) = inr (refl, refl)
      by_result (some answer, v) = inl (answer, refl, refl)

  module _ (ctx : Context fl) (to : Strategies r) where
    abbrev pub IsDispatched : Signal fl → Value fl → World r → Option Bool × World r → Type 0
    IsDispatched = IsSettled ctx to (λ v. (some true, v)) (λ v. (some false, v)) (λ v. (none, v))

    launch-IsDispatched :
        (x : Signal fl) (received : Value fl) (w : World r)
        → IsFresh ctx received
        → IsAdmitted r x.strategy_type w.server
        → IsDispatched x received w (launch ctx to x w)
    unfolding launch
    launch-IsDispatched x received w fresh admitted =
        elim (normalise_symbol-cases ctx x.tv_symbol x.venue) [
          | inl (bad, no_text) ↦ rw bad (inl (refl, inl no_text))
          | inr (s, is_text, normal) ↦
              let symbol : String = split_symbol (ctx.upper (strip s)) x.venue in
              let state = get_strategy_state r x.strategy_type w.server in
              rw normal (
                inr (
                  inr (record {
                    symbol = symbol;
                    call = run_strategy to x symbol state;
                    fresh = fresh;
                    admitted = admitted;
                    is_symbol = (s, is_text, split_symbol-IsNormal (ctx.upper (strip s)) x.venue);
                    is_call = run_strategy-IsCall to x symbol state admitted.known;
                    ends = returned-cases (run_strategy to x symbol state) w;
                  })))
        ]

    -- A content that holds a signal is settled.
    pub dispatch_data-IsDispatched :
        (content : Payload fl) (x : Signal fl) (w : World r)
        → read_signal content ≡ some x
        → IsDispatched x (get_or "received_at" (text "") content) w (dispatch_data ctx to content w)
    dispatch_data-IsDispatched content x w reads =
        let received = get_or "received_at" (text "") content in
        elim (is_stale-IsAged ctx received) [
          | inl (bad, no_date) ↦ rw (reads, bad) (inl (refl, inr no_date))
          | inr (inl (stale, is_old)) ↦ rw (reads, stale) (inr (inl (refl, inl is_old)))
          | inr (inr (fresh, is_fresh)) ↦ elim (is_refused-cases r x.strategy_type w.server) [
            | inl (refused, blocked) ↦ rw (reads, fresh, refused) (inr (inl (refl, inr blocked)))
            | inr (open_to, admitted) ↦
                rw (reads, fresh, open_to) (launch-IsDispatched x received w is_fresh admitted)
          ]
        ]

    content-IsHandled :
        (message content : Payload fl) (w : World r)
        → HasContent message content
        → IsHandled ctx to
            (λ v. (some true, v))
            (λ v. (some false, v))
            (λ v. (none, v))
            message
            w
            (dispatch_data ctx to content w)
    content-IsHandled message content w has = elim (read_signal-cases content) [
      | inl (bad, nameless) ↦ rw bad (inl (refl, inr (content, has, nameless)))
      | inr (x, reads, is_read) ↦
          inr (inr (content, x, has, is_read, dispatch_data-IsDispatched content x w reads))
    ]

    dispatch-IsHandled :
        (message : Payload fl) (w : World r)
        → IsHandled ctx to
            (λ v. (some true, v))
            (λ v. (some false, v))
            (λ v. (none, v))
            message
            w
            (dispatch ctx to message w)
    unfolding dispatch
    dispatch-IsHandled message w = by_payload (get "payload" message) refl
      where
        by_payload :
            (loaded : Option (Value fl))
            → get "payload" message ≡ loaded
            → IsHandled ctx to
                (λ v. (some true, v))
                (λ v. (some false, v))
                (λ v. (none, v))
                message
                w
                (dispatch_loaded ctx to loaded w)
        by_payload none e = content-IsHandled message no_fields w (inr (e, refl))
        by_payload (some (object content)) e = content-IsHandled message content w (inl e)
        by_payload (some (text s)) e = inr (inl (refl, (s, e)))
        by_payload (some null) e = inl (refl, inl (null, e, (λ s h. cc h), (λ d h. cc h)))
        by_payload (some (flag b)) e = inl (refl, inl (flag b, e, (λ s h. cc h), (λ d h. cc h)))
        by_payload (some (num x)) e = inl (refl, inl (num x, e, (λ s h. cc h), (λ d h. cc h)))
        by_payload (some (array xs)) e = inl (refl, inl (array xs, e, (λ s h. cc h), (λ d h. cc h)))

    module _ (group msg_id : String) where
      abbrev pub IsAnswered : Signal fl → Value fl → World r → Option {0} Unit × World r → Type 0
      IsAnswered =
          IsSettled ctx to (send (xack "signals:tradingview" group msg_id)) (λ v. (some tt, v))
            (λ v. (some tt, v))

      -- The loop acknowledges an entry that was dispatched and no other.
      pub settled-IsAnswered :
          (x : Signal fl) (received : Value fl) (w : World r) (out : Option Bool × World r)
          → IsDispatched x received w out
          → IsAnswered x received w (acknowledge group msg_id out)
      settled-IsAnswered x received w out (inl (raised, why)) =
          inl (ap (acknowledge group msg_id) raised, why)
      settled-IsAnswered x received w out (inr (inl (discarded, why))) =
          inr (inl (ap (acknowledge group msg_id) discarded, why))
      settled-IsAnswered x received w out (inr (inr run)) = inr (
          inr (record {
            symbol = run.symbol;
            call = run.call;
            fresh = run.fresh;
            admitted = run.admitted;
            is_symbol = run.is_symbol;
            is_call = run.is_call;
            ends = elim run.ends [
              | inl (answer, returns, e) ↦ inl (answer, returns, ap (acknowledge group msg_id) e)
              | inr (raises, e) ↦ inr (raises, ap (acknowledge group msg_id) e)
            ];
          }))

      -- An entry of signals:tradingview is acknowledged with nothing else sent if its payload is no JSON,
      -- or its signal is too old, or there is a halt, or the strategy that it names is unknown, not
      -- enabled or on cooldown. It stays pending with nothing sent if its payload is no dict, or its
      -- strategy, venue, action or symbol is no text, or its date is neither empty nor a text. In every
      -- other case the run_from_signal of the strategy with its name is called once, with the symbol
      -- normalised: the entry is acknowledged after that returns, whatever it answers, and stays pending
      -- where it raises. Whichever case holds, its conditions do.
      pub handle-IsHandled :
          (message : Payload fl) (w : World r)
          → IsHandled ctx to
              (send (xack "signals:tradingview" group msg_id))
              (λ v. (some tt, v))
              (λ v. (some tt, v))
              message
              w
              (handle ctx to group msg_id message w)
      unfolding handle
      handle-IsHandled message w = elim (dispatch-IsHandled message w) [
        | inl (raised, why) ↦ inl (ap (acknowledge group msg_id) raised, why)
        | inr (inl (broken, why)) ↦ inr (inl (ap (acknowledge group msg_id) broken, why))
        | inr (inr (content, x, has, is_read, settled)) ↦
            inr (inr (content, x, has, is_read, settled-IsAnswered x _ w _ settled))
      ]
