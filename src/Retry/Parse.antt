-- ===== src/Retry/Parse.antt =====
-- `parse_retry_after` on every header.
use asyncio_otlp_client.Base.{◌≡◌, false, Option, some, Str, arith}
use asyncio_otlp_client.Base.Int.{pos}
use asyncio_otlp_client.Floats.{Floats, IsOrder}
use asyncio_otlp_client.Retry.Defs.{parse_retry_after}

module _ (R : Floats) (order : IsOrder R) where
  open R use {F, lt, of_int}

  -- Whatever the header says, a wait that is read from it is not below zero, if `<` is irreflexive and
  -- asymmetric.
  pub parse_retry_after-not_negative :
      (strip : Str → Str) (parse_date : Str → Option F) (value : Str) (now_wall seconds : F)
      → parse_retry_after R strip parse_date value now_wall ≡ some seconds
      → lt seconds (of_int (pos 0)) ≡ false
  unfolding parse_retry_after
  parse_retry_after-not_negative strip parse_date value now_wall seconds h =
      ground (arith, order.irrefl (of_int (pos 0)), order.asymm (of_int (pos 0)) seconds)
