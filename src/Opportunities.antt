-- ===== src/Opportunities.antt =====
-- shared/mezna_shared/schemas/opportunity.py and services/strategy/app/publisher.py: the opportunities
-- that strategies publish. How pydantic dumps a float and a time is a parameter.
pub mod Published
use messiah_fx_prod.Prelude.{
  String, Bool, true, false, ◌&&◌, not, Option, none, some, List, [], ◌∷◌, if◌then◌else◌,
}
use messiah_fx_prod.Prelude.Dict.{contains}
use messiah_fx_prod.Numbers.{Floats, num_zero}
use messiah_fx_prod.Payload.{Payload, Value, null, flag, text, object, no_fields, field}
use messiah_fx_prod.RedisKeys
use messiah_fx_prod.StreamNames
use messiah_fx_prod.Redis.{Redis, Exec, Command, send, xadd}

pub record Pydantic (fl : Floats) : Type 0 where
  -- the JSON of a float, and of a time that isoformat gives as a text
  pub dump_float : fl.F → Value fl
  pub dump_time : String → String

-- The raw signal is the JSON that is dumped of it.
pub record Opportunity (fl : Floats) : Type 0 where
  pub strategy_type : String
  pub venue : String
  pub source : String
  pub symbol_primary : String
  pub symbol_secondary : Option String
  pub detected_at : String
  pub latency_profile : String
  pub spread : Option fl.F
  pub z_score : Option fl.F
  pub funding_rate : Option fl.F
  pub expected_return_bps : Option fl.F
  pub fee_cost_bps : Option fl.F
  pub net_edge_bps : Option fl.F
  pub paper_mode : Bool
  pub raw_signal : Option (Payload fl)

abbrev pub is_positive_or_none : (fl : Floats) → Option fl.F → Bool
is_positive_or_none fl none = true
is_positive_or_none fl (some v) = not (fl.le v (num_zero fl))

-- `str(opp.net_edge_bps)`
abbrev pub show_or_none : (fl : Floats) → Option fl.F → String
show_or_none fl none = "None"
show_or_none fl (some x) = fl.show x

abbrev or_empty : Option String → String
or_empty none = ""
or_empty (some s) = s

module _ {fl : Floats} where
  -- The patterns of the fields, and the validator of the net edge.
  abbrev pub is_valid : Opportunity fl → Bool
  is_valid opp =
      contains opp.strategy_type ("funding_arb" ∷ "stat_arb" ∷ "swing" ∷ [])
      && contains opp.venue ("binance" ∷ "oanda" ∷ "cross" ∷ "mt5" ∷ [])
      && contains opp.source ("internal" ∷ "tradingview" ∷ [])
      && contains opp.latency_profile ("relaxed" ∷ "standard" ∷ "fast" ∷ [])
      && is_positive_or_none fl opp.net_edge_bps

  -- `OpportunityCreate(...)`, `none` for a ValidationError
  unfoldable pub create : Opportunity fl → Option (Opportunity fl)
  create opp = if is_valid opp then some opp else none

  abbrev optional_text : Option String → Value fl
  optional_text none = null
  optional_text (some s) = text s

  abbrev optional_object : Option (Payload fl) → Value fl
  optional_object none = null
  optional_object (some d) = object d

  module _ (pyd : Pydantic fl) where
    abbrev pub float_or_null : Option fl.F → Value fl
    float_or_null none = null
    float_or_null (some x) = pyd.dump_float x

    -- `opp.model_dump_json()`
    abbrev pub model_dump : Opportunity fl → Payload fl
    model_dump opp = field "strategy_type" (text opp.strategy_type) (
        field "venue" (text opp.venue) (
          field "source" (text opp.source) (
            field "symbol_primary" (text opp.symbol_primary) (
              field "symbol_secondary" (optional_text opp.symbol_secondary) (
                field "detected_at" (text (pyd.dump_time opp.detected_at)) (
                  field "latency_profile" (text opp.latency_profile) (
                    field "spread" (float_or_null opp.spread) (
                      field "z_score" (float_or_null opp.z_score) (
                        field "funding_rate" (float_or_null opp.funding_rate) (
                          field "expected_return_bps" (float_or_null opp.expected_return_bps) (
                            field "fee_cost_bps" (float_or_null opp.fee_cost_bps) (
                              field "net_edge_bps" (float_or_null opp.net_edge_bps) (
                                field "paper_mode" (flag opp.paper_mode) (
                                  field "raw_signal" (optional_object opp.raw_signal)
                                    no_fields))))))))))))))

    abbrev pub stream_entry : String → Opportunity fl → Payload fl
    stream_entry id opp = field StreamNames.opportunity_id (text id) (
        field StreamNames.strategy_type (text opp.strategy_type) (
          field StreamNames.venue (text opp.venue) (
            field StreamNames.symbol_primary (text opp.symbol_primary) (
              field StreamNames.symbol_secondary (text (or_empty opp.symbol_secondary)) (
                field StreamNames.net_edge_bps (text (show_or_none fl opp.net_edge_bps)) (
                  field StreamNames.ai_score (text "") (
                    field StreamNames.ai_timeout (text "false") (
                      field StreamNames.paper_mode
                        (text (if opp.paper_mode then "true" else "false"))
                        (field StreamNames.detected_at (text opp.detected_at)
                          (field StreamNames.payload (object (model_dump opp)) no_fields))))))))))

    abbrev pub publish_command : String → Opportunity fl → Command fl
    publish_command id opp = xadd RedisKeys.signals_opportunities (stream_entry id opp)

    -- The id is the UUID that is drawn.
    unfoldable pub publish_opportunity : {r : Redis fl} → String → Opportunity fl → Exec r Unit
    publish_opportunity id opp = send (publish_command id opp)
