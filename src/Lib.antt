-- ===== src/Lib.antt =====
-- The asyncio OTLP client: a Python library that exports metrics, logs and traces to an OpenTelemetry
-- collector. Applications call `OTLPClient` for one export, or submit records to a `BatchProcessor`,
-- which queues them and exports each queue as a batch through the client. The client wraps records in
-- envelopes, lets an encoder turn them into a payload, resolves the headers of the request from the
-- configuration and a credential provider, and sends the payload through a transport. A send gives an
-- outcome; the retry engine sends again after a retryable one, inside a budget of time.
--
-- Files and the sources that they model (paths from the root of the repository):
--   Signals, Outcomes, Base/Errors   src/otlp_client/signals.py, outcomes.py, errors.py
--   Model/Common, Logs, Metrics, Traces, Builders   src/otlp_client/model/*.py: the dataclasses, and
--     log_record, gauge, sum_, span, data_point_flags and span_flags
--   Config/Defs    src/otlp_client/config.py: OTLPConfig, __post_init__, endpoint_for, headers_for,
--     timeout_for, compression_for; Config/Parse: the parsers of single variables; Config/Env: from_env
--   Retry/Defs     src/otlp_client/retry.py: RetryPolicy, parse_retry_after, with_retry
--   Client/Defs, Client/Exports   src/otlp_client/client.py: OTLPClient, its exports, _headers and
--     _export with the closures resolve and attempt; Client/Seams: the protocols of encoding/base.py,
--     transport/base.py and credentials.py as the records Encoder, Transport and CredentialProvider
--   Http/Defs      src/otlp_client/transport/http.py: HTTPTransport.send and aclose;
--     Http/Tls: _build_ssl_context
--   Grpc/Defs      src/otlp_client/transport/grpc.py: GRPCTransport.send and aclose, _classify, _pushback;
--     Grpc/Open: _target and the checks of create; Grpc/Create: _read_credentials and create
--   Encoding/Json  src/otlp_client/encoding/primitives.py and json.py: Tree has the JSON values and
--     omit_empty, Common the attributes, resources and scopes, Logs, Traces, Points and Metrics the
--     functions of the signals, Encoder the class JSONEncoder
--   Encoding/Proto src/otlp_client/encoding/protobuf.py: Messages and Points have the messages, as the
--     keyword arguments that the generated classes are given, and Encoder the class ProtobufEncoder
--   Encoding/Reader  no code of the repository, but a description of OTLP/JSON: how a collector reads a
--     document as a message, a field that is missing having its default
--   Credentials/Defs, Credentials/Reply   src/otlp_client/credentials.py: BearerToken, BasicAuth and
--     OAuth2ClientCredentials with its cache; Reply: what _refresh makes of a response;
--     Credentials/System: one provider among tasks, as a relation between states
--   Client/Create  src/otlp_client/client.py: _build_encoder and create
--   Processor/Defs, Processor/Flush   src/otlp_client/processor.py: the state of BatchProcessor,
--     _submit, flush, _export_batch, _log_export_failure, a round of _run, __aexit__
--   Processor/System   the processor among other tasks, as a relation between states; Processor/Wake: the
--     processor while its background task waits
--   Delivery       how the parts meet in an export over HTTP: Batch has _export_batch of processor.py with
--     the client, Export the client with an encoder and the transport; Collector is no code of the
--     repository, but how a collector reads a request, by the path of its URL and its headers
-- Tests holds runs at concrete inputs. Base holds lists, texts, dicts and Python's `int` over the
-- native numbers; Effects holds code that acts on a world, with its rules in Effects/Hoare (what a run
-- ensures of its end) and Effects/Keeps (what it keeps).
--
-- Python's `float` is the parameter `Floats`: the operations that the package uses, with no law but
-- those that a theorem names. The callables that the source injects (op, sleep, monotonic, jitter) and
-- the members of the three protocols act on a world `W`, of which nothing is assumed but what a
-- theorem names. Functions of urllib.parse, email.utils, gzip, base64, json, aiohttp and grpcio are
-- parameters as well, and so are SerializeToString and FromString of the protobuf messages. An
-- exception is the value `raised e` of a result; `cancelled` stands for asyncio.CancelledError.
--
-- What happens during an await: in Processor/Flush the reply to an export carries the events of other
-- tasks (submissions, the closing) that ran before it; in Processor/System every step is what one task
-- does between two awaits, so a path is an interleaving. The lock of `flush` is the phase of a system:
-- a flush starts only when none is running. `__aexit__` is modelled for a background task that waits
-- or that is in an export, and no other flush running.
--
-- A message of Encoding/Proto is the tree of keyword arguments that the generated classes are given. That
-- a class refuses an argument, as a `ValueError` for an integer out of the range of its field, is in the
-- parameters serialize_metrics, serialize_logs and serialize_traces, which stand for construction with
-- SerializeToString. So where metrics have a bool as the value of a point after a number that is out of
-- range, the model raises the `TypeError` of the one and the code the `ValueError` of the other.
--
-- Fuel: `retry_loop` alone takes fuel, one unit for a round of `while True`; without it the loop ends
-- in `stuck`, which is no result. Every round but the last one sleeps, so fuel above the number of
-- sleeps that the budget leaves is enough. All other functions are structural. Integers are
-- unbounded, as in Python.
--
-- A lock of asyncio and the awaits of OAuth2ClientCredentials are effects after which the cache may have
-- been changed by other tasks; a theorem names what it assumes of them. In Credentials/System a step is
-- what one task does of `headers` between two awaits, the lock is a flag, and a task that waits for it
-- may take it at any time while it is free.
--
-- Not modelled: how sessions are made, and the files that a TLS context reads; the generated protobuf
-- classes; the wait of the background loop for its event or the flush interval; an overflow of `multiplier ** attempt`, and other exceptions of float
-- arithmetic; the quotes of `repr` in messages of OTLPConfigError; a TypeError for an attribute value
-- of another type than AnyValue.
pub mod Base
pub mod Signals
pub mod Outcomes
pub mod Model
pub mod Config
pub mod Effects
pub mod Floats
pub mod Retry
pub mod Client
pub mod Processor
pub mod Encoding
pub mod Credentials
pub mod Http
pub mod Grpc
pub mod Delivery
pub mod Tests
