-- ===== src/Tests/Client.antt =====
-- Exports against a collector that rejects the first token it sees.
use asyncio_otlp_client.Base.{
  ℕ, ◌+◌, ◌≤◌, ◌≡◌, refl, none, some, [], ◌∷◌, Str, text, ok, if◌then◌else◌, ◌==◌, ap, sym,
}
use asyncio_otlp_client.Base.Int.{pos}
use asyncio_otlp_client.Base.Dict.{lookup, last_value, merge, insert}
use asyncio_otlp_client.Signals.{logs}
use asyncio_otlp_client.Outcomes.{success, permanent, all_accepted, is_credential_rejection}
use asyncio_otlp_client.Retry.Defs.{with_retry}
use asyncio_otlp_client.Model.Common.{end}
use asyncio_otlp_client.Config.Defs.{headers_for, override, Headers}
use asyncio_otlp_client.Client.Seams.{Encoder, Transport, CredentialProvider, Envelopes, of_logs}
use asyncio_otlp_client.Client.Defs.{OtlpClient, new_client, request_headers}
use asyncio_otlp_client.Client.Exports.{export, conclude}
use asyncio_otlp_client.Client.Reauth.{IsCounted, export_invalidates_once}
use asyncio_otlp_client.Client.Requests.{request_headers-lookup, export_reauthenticates}
use asyncio_otlp_client.Tests.Samples.{ticks, World, fresh, hooks}
use asyncio_otlp_client.Tests.Config.{configured}

-- A payload of as many bytes as there are envelopes.
abbrev pub encoder : Encoder ℕ
encoder = record {
  content_type = text "application/json";
  encode = λ envelopes. ok (0 ∷ []);
  decode_response = λ kind body. ok none;
}

-- A collector that wants a new token.
abbrev transport : Transport World ℕ
transport = record {
  send = λ kind payload h w. (
    ok (if w.invalidations == 0 then permanent (some 401) [] else success),
    record w { tries = w.tries + 1 },
  );
  aclose = λ w. (ok tt, w);
}

abbrev fresh_token : Headers
fresh_token = (text "Authorization", text "t") ∷ []

abbrev provider : CredentialProvider World
provider = record {
  headers = λ kind w. (ok fresh_token, w);
  invalidate = λ kind w. (ok tt, record w { invalidations = w.invalidations + 1 });
}

abbrev client : OtlpClient World ℕ
client = new_client configured transport encoder (some provider) none none hooks

abbrev plain : OtlpClient World ℕ
plain = new_client configured transport encoder none none none hooks

abbrev pub envelopes : Envelopes ℕ
envelopes = of_logs (
    record {
      resource = record { attributes = end; dropped_attributes_count = pos 0 };
      scope_logs = [];
    }
    ∷ [])

client-IsCounted : IsCounted client (λ w. w.invalidations)
unfolding new_client
client-IsCounted = record {
  send_count = λ kind payload h w. refl;
  headers_count = λ p kind w e.
      let same : provider ≡ p = cc in
      ap (λ (q : CredentialProvider World). (q.headers kind w).1.invalidations) (sym same);
  invalidate_count = λ p kind w e.
      let same : provider ≡ p = cc in
      ap (λ (q : CredentialProvider World). (q.invalidate kind w).1.invalidations) (sym same);
  sleep_count = λ d w. refl;
  clock_count = λ w. refl;
  jitter_count = λ w. refl;
}

-- The first send is rejected with 401, the token is renewed, and the second send is accepted.
export-renews :
    export ticks client 9 envelopes fresh
    ≡ (ok all_accepted, record fresh { tries = 2; invalidations = 1 })
unfolding export new_client with_retry is_credential_rejection
export-renews = refl

export_invalidates_once_example :
    (export ticks client 9 envelopes fresh).1.invalidations ≤ fresh.invalidations + 1
export_invalidates_once_example =
    export_invalidates_once ticks client (λ w. w.invalidations) client-IsCounted 9 envelopes fresh

export_reauthenticates_example :
    export ticks client 1 envelopes fresh
    ≡ (conclude {F = ℕ} logs success, record fresh { tries = 2; invalidations = 1 })
unfolding new_client request_headers merge headers_for override insert is_credential_rejection
export_reauthenticates_example =
    export_reauthenticates ticks client 0 envelopes (0 ∷ []) 5 provider fresh_token fresh_token
      (permanent (some 401) []) success fresh fresh fresh (record fresh { tries = 1 })
      (record fresh { tries = 1; invalidations = 1 })
      (record fresh { tries = 1; invalidations = 1 })
      (record fresh { tries = 2; invalidations = 1 }) refl refl refl refl refl refl refl refl refl
      refl refl

request_headers-lookup_example :
    (h : Headers) × (request_headers client logs fresh ≡ (ok h, fresh))
    × ((key : Str)
        → lookup key h ≡ elim (last_value key fresh_token) [
          | some v ↦ some v
          | none ↦ lookup key (headers_for configured logs)
        ])
unfolding new_client
request_headers-lookup_example =
    request_headers-lookup client provider logs fresh_token fresh fresh refl refl
