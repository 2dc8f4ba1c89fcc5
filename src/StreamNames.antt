-- ===== src/StreamNames.antt =====
-- shared/mezna_shared/redis_client.py, class StreamNames: the fields of a stream entry.
use Prim.Native.String.{String}

abbrev pub opportunity_id : String
opportunity_id = "opportunity_id"

abbrev pub strategy_type : String
strategy_type = "strategy_type"

abbrev pub symbol_primary : String
symbol_primary = "symbol_primary"

abbrev pub payload : String
payload = "payload"

abbrev pub venue : String
venue = "venue"

abbrev pub symbol_secondary : String
symbol_secondary = "symbol_secondary"

abbrev pub net_edge_bps : String
net_edge_bps = "net_edge_bps"

abbrev pub ai_score : String
ai_score = "ai_score"

abbrev pub ai_timeout : String
ai_timeout = "ai_timeout"

abbrev pub paper_mode : String
paper_mode = "paper_mode"

abbrev pub detected_at : String
detected_at = "detected_at"
