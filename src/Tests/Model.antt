-- ===== src/Tests/Model.antt =====
-- The flag word of a link, and the status of a span.
use Prim.Native.Nat.{bit_and}
use asyncio_otlp_client.Base.{◌≡◌, true, false, some}
use asyncio_otlp_client.Model.Builders.{span_flags, read_flags, read_flags-span_flags}

read_flags-span_flags_example :
    (read_flags (span_flags true (some false)) ≡ (true, some false))
    × (bit_and (span_flags true (some false)) 0xff ≡ 1)
read_flags-span_flags_example = read_flags-span_flags true (some false)
