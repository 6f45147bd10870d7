-- ===== src/Outcomes.antt =====
-- src/otlp_client/outcomes.py: the result of one export attempt.
use asyncio_otlp_client.Base.{ℕ, Bool, false, ◌||◌, Option, none, some, Str, ◌==◌}
use asyncio_otlp_client.Base.Int.{ℤ}

-- `rejected` is whatever integer the collector wrote, negative ones included.
pub record PartialSuccess : Type 0 where
  pub rejected : ℤ
  pub message : Str

-- `F` is the type of floats.
pub data ExportOutcome (F : Type 0) : Type 0 where
  success : ExportOutcome F
  partial_success : PartialSuccess → ExportOutcome F
  retryable : (status : Option ℕ) (message : Str) (retry_after : Option F) → ExportOutcome F
  permanent : (status : Option ℕ) (message : Str) → ExportOutcome F

-- `status in (401, 403)`
unfoldable pub is_auth_status : Option ℕ → Bool
is_auth_status none = false
is_auth_status (some s) = s == 401 || s == 403

unfoldable pub is_credential_rejection : {F : Type 0} → ExportOutcome F → Bool
unfolding is_auth_status
is_credential_rejection success = false
is_credential_rejection (partial_success p) = false
is_credential_rejection (retryable s m r) = false
is_credential_rejection (permanent s m) = is_auth_status s

-- What an export returns to its caller: `Success | PartialSuccess`.
pub data Accepted : Type 0 where
  all_accepted : Accepted
  some_rejected : PartialSuccess → Accepted
