-- ===== src/Opportunities/Published.antt =====
-- services/strategy/app/publisher.py and services/ai-filter/app/consumer.py: what is published can be
-- scored, so it is forwarded.
use messiah_fx_prod.Prelude.{String, ◌≡◌, refl, inl, Option, none, some}
use messiah_fx_prod.Numbers.{Floats}
use messiah_fx_prod.RedisKeys
use messiah_fx_prod.Redis.{Redis, World, send, xadd, xack, ◌>>◌}
use messiah_fx_prod.Opportunities.{Opportunity, Pydantic, float_or_null, model_dump, stream_entry}
use messiah_fx_prod.AiFilter.{Python, Score}
use messiah_fx_prod.AiFilter.Prompt.{Client}
use messiah_fx_prod.AiFilter.Consumer.{approved_entry, handle}
use messiah_fx_prod.AiFilter.Forwarding.{IsNumeric, IsScorable, IsResult, handle-forwards}

module _ {fl : Floats} (pyd : Pydantic fl) (dumps : (x : fl.F) → IsNumeric (pyd.dump_float x)) where
  float_or_null-IsNumeric : (o : Option fl.F) → IsNumeric (float_or_null pyd o)
  float_or_null-IsNumeric none = inl refl
  float_or_null-IsNumeric (some x) = dumps x

  model_dump-IsScorable : (opp : Opportunity fl) → IsScorable (model_dump pyd opp)
  model_dump-IsScorable opp = record {
    symbol = opp.symbol_primary;
    has_symbol = refl;
    funding = float_or_null-IsNumeric opp.funding_rate;
    z = float_or_null-IsNumeric opp.z_score;
  }

  -- Where pydantic dumps a float as a number or as null: with or without a client, whatever the client
  -- answers, the AI filter forwards the entry of a published opportunity once, with its fields and those
  -- of a result, and then acknowledges it.
  pub stream_entry-forwards :
      {r : Redis fl} (py : Python fl) (client : Option (Client fl)) (now msg_id id : String)
      (opp : Opportunity fl) (w : World r)
      → (result : Score) × IsResult client result
        × (handle py client now msg_id (stream_entry pyd id opp) w
            ≡ (send (
                    xadd RedisKeys.signals_approved
                      (approved_entry (stream_entry pyd id opp) (model_dump pyd opp) result now))
                  >> send (xack RedisKeys.signals_opportunities "ai-filter" msg_id))
                w)
  stream_entry-forwards py client now msg_id id opp w =
      handle-forwards py client now msg_id (stream_entry pyd id opp) (model_dump pyd opp) w refl
        (model_dump-IsScorable opp)
