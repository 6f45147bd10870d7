-- ===== src/Signals.antt =====
-- src/otlp_client/signals.py: signal identity and the OTLP/HTTP path table.
use asyncio_otlp_client.Base.{Str, text}

pub data SignalKind : Type 0 where
  metrics logs traces profiles : SignalKind

unfoldable pub http_path : SignalKind → Str
http_path metrics = text "/v1/metrics"
http_path logs = text "/v1/logs"
http_path traces = text "/v1/traces"
http_path profiles = text "/v1development/profiles"

-- The value of the `StrEnum`, which is what an f-string prints.
unfoldable pub kind_name : SignalKind → Str
kind_name metrics = text "metrics"
kind_name logs = text "logs"
kind_name traces = text "traces"
kind_name profiles = text "profiles"
