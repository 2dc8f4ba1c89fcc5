-- ===== src/RedisKeys.antt =====
-- shared/mezna_shared/redis_client.py, class RedisKeys: the keys that the services share.
use Prim.Native.String.{String, ◌++◌}

abbrev pub risk_state : String
risk_state = "risk:state"

abbrev pub halt : String
halt = "risk:halt"

abbrev pub cooldown : String → String
cooldown strategy_type = "risk:cooldown:" ++ strategy_type

abbrev pub strategy_state : String → String
strategy_state strategy_type = "strategy:state:" ++ strategy_type

abbrev pub signals_approved : String
signals_approved = "signals:approved"

abbrev pub signals_rejected : String
signals_rejected = "signals:rejected"

abbrev pub signals_execution_queue : String
signals_execution_queue = "signals:execution_queue"

abbrev pub execution_result : String → String
execution_result client_order_id = "execution:result:" ++ client_order_id

abbrev pub notification_queue : String
notification_queue = "notifications:queue"

abbrev pub signals_opportunities : String
signals_opportunities = "signals:opportunities"

abbrev pub signals_tv : String
signals_tv = "signals:tradingview"
