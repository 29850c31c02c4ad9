-- ===== src/Tunnel/Client.antt =====
-- The state of `TunnelClient` of packages/tunnel/src/client.ts, with the WebSockets of
-- ClientRAWebSocket.ts that it keeps, its configuration, and what it does to the outside.
pub mod Binding
pub mod Attest
pub mod Exchange
pub mod Send
pub mod Socket
pub mod Platform
pub mod Handle
pub mod Request
pub mod Step
pub mod Secured
pub mod Response
pub mod Crossing
pub mod Closing
pub mod Queue
use teekit.Common.{ℕ, ◌≡◌, Bool, Option, List, Text, length}
use teekit.Result.{Result, Fault}
use teekit.Bytes.{Bytes}
use teekit.Packages.{Certificate}
use teekit.Dict.{Dict}
use teekit.Quote.Parse.{TdxQuote, SgxQuote}
use teekit.Measurements.{Config}
use teekit.Tdx
use teekit.Sgx
use teekit.Sev.Report.{SevSnpReport}
use teekit.Sev.Config.{SevSnpVerifyConfig, KeyInput, SevSnpMeasurements}
use teekit.Intel.Defs.{Env}
use teekit.Tunnel.Crypto.{Noble}
use teekit.Tunnel.Server.{Url}
use teekit.Tunnel.Message.{Cbor, Content, HeaderValue, VerifierData, KxAnnounce}

pub record ReportBindingData : Type 0 where
  pub runtime_data : Option Bytes
  pub verifier_data : Option VerifierData
  pub vcek_cert : Option Text
  pub ask_cert : Option Text
  pub ark_cert : Option Text

-- `SgxQuote | TdxQuote`, or the report of SEV-SNP, each in its own field of the client
pub data Evidence : Type 0 where
  tdx_quote : TdxQuote → Evidence
  sgx_quote : SgxQuote → Evidence
  sevsnp_report : SevSnpReport → Evidence

-- The public fields of a client that the key exchange sets. `evidence` is `quote` and
-- `sevsnpReport`, of which one is set.
pub record Channel : Type 0 where
  pub evidence : Option Evidence
  pub server_x25519_public_key : Option Bytes
  pub symmetric_key : Option Bytes
  pub report_binding_data : Option ReportBindingData

pub record TdxClientConfig : Type 0 where
  pub measurements : Option Tdx.MeasurementConfig
  pub custom_verify_quote : Option (TdxQuote → Result Bool)

pub record SgxClientConfig : Type 0 where
  pub measurements : Option Sgx.MeasurementConfig
  pub custom_verify_quote : Option (SgxQuote → Result Bool)
  pub allow_debug_enclaves : Bool

-- `sevsnpVerifyConfig`: `SevSnpVerifyConfig` without certificates and measurements
pub record SevOptions : Type 0 where
  pub pinned_ark_certs : Option (List Certificate)
  pub crls : List Bytes
  pub date : Option ℕ
  pub vcek_public_key : Option KeyInput
  pub allow_debug : Bool
  pub max_vmpl : Option ℕ
  pub enforce_smt_policy : Bool
  pub verify_tcb : Option (SevSnpReport → Result Bool)

pub record SevSnpClientConfig : Type 0 where
  pub measurements : Option (Config SevSnpMeasurements SevSnpReport)
  pub custom_verify_quote : Option (SevSnpReport → Result Bool)
  pub options : SevOptions

pub data Mode : Type 0 where
  tdx : TdxClientConfig → Mode
  sgx : SgxClientConfig → Mode
  sevsnp : SevSnpClientConfig → Mode

-- `TunnelClientConfig`. The callback `x25519Binding` gets the client, of which it sees the fields
-- of the key exchange.
pub record TunnelClientConfig : Type 0 where
  pub mode : Mode
  pub x25519_binding : Option (Channel → Result Bool)

-- What a `server_kx` handler has the verifiers check, by the client's configuration.
pub data Task : Type 0 where
  verifying_tdx : TdxClientConfig → Task
  verifying_sgx : SgxClientConfig → Task
  verifying_sevsnp : SevSnpClientConfig → SevSnpVerifyConfig → Task

-- What the verifiers have accepted, parsed, with the configuration that it is still to meet.
pub data VerifiedQuote : Type 0 where
  verified_tdx : TdxClientConfig → TdxQuote → VerifiedQuote
  verified_sgx : SgxClientConfig → SgxQuote → VerifiedQuote
  verified_sevsnp : SevSnpClientConfig → SevSnpReport → VerifiedQuote

-- The variables of a `server_kx` handler that has drawn and sealed a key.
pub record Opening : Type 0 where
  pub message : KxAnnounce
  pub verified : VerifiedQuote
  pub symmetric_key : Bytes
  pub sealed : Bytes

-- A `server_kx` handler where it waits: for the verifiers, for the callbacks and measurements, or for
-- the binding, whose check has read the client's fields and answers so.
pub data Attestation : Type 0 where
  verifying : KxAnnounce → Task → Attestation
  validating : Opening → Attestation
  checking : Opening → (answer : Result (Unit {0})) → Attestation

pub data ReadyState : Type 0 where
  connecting open_state closing closed : ReadyState

-- `ClientRAMockWebSocket`, without `bufferedAmount`.
pub record MockWebSocket : Type 0 where
  pub ready_state : ReadyState
  pub message_queue : List Content

-- The calls that build `Headers`, in order.
pub data HeaderCall : Type 0 where
  append_header set_header : (name value : Text) → HeaderCall

-- The arguments of `new Response`.
pub record SyntheticResponse : Type 0 where
  pub body : Option Content
  pub status : ℕ
  pub status_text : Text
  pub headers : List HeaderCall

-- The message of an `Error`: of one that the modelled code makes, or a text.
pub data Reason : Type 0 where
  fault : Fault → Reason
  text : Text → Reason

-- What the client does to the outside: it opens the control socket, sends on it or closes it;
-- settles the promise of a connection or of a request; dispatches an event on a mock socket; sets
-- the timer that reconnects; or a handler throws.
pub data Effect : Type 0 where
  control_opened : Effect
  control_sent : Bytes → Effect
  control_closed : (code : ℕ) → (reason : Text) → Effect
  connection_resolved : Effect
  connection_rejected : Reason → Effect
  request_resolved : (request_id : Text) → SyntheticResponse → Effect
  request_rejected : (request_id : Text) → Reason → Effect
  socket_opened : (connection_id : Text) → Effect
  socket_closed : (connection_id : Text) → (code : ℕ) → (reason : Text) → Effect
  socket_failed : (connection_id : Text) → Reason → Effect
  socket_message : (connection_id : Text) → Content → Effect
  reconnect_scheduled : Effect
  thrown : Fault → Effect

-- A pending request goes by its id, which names the two functions that settle its promise, and a
-- mock socket by its connection id. The last six fields stand for the runtime: the mock sockets that
-- live on, the `server_kx` handlers that wait, by a number, with the next number; the handler that
-- has set the keys of the channel last, if they are still there; the random values drawn, and what
-- has been done in the event that is handled, the latest first.
pub record Client : Type 0 where
  pub origin : Text
  pub config : TunnelClientConfig
  pub ws : Option ReadyState
  pub channel : Channel
  pub pending_requests : List Text
  pub web_socket_connections : List Text
  pub connection_promise : Bool
  pub closed : Bool
  pub mocks : Dict Text MockWebSocket
  pub attestations : Dict ℕ Attestation
  pub next_attestation : ℕ
  pub key_holder : Option ℕ
  pub draws : ℕ
  pub effects : List Effect

-- What the client imports: the codec, the ciphers, the verifiers' environment with the built-in
-- roots of AMD, URLs, and random values.
pub record ClientRuntime : Type 0 where
  pub cbor : Cbor
  pub noble : Noble
  pub env : Env
  pub default_amd_ark_certs : List Certificate
  pub parse_url : Text → Option Url
  pub random_key : ℕ → Bytes
  pub random_secret_key : ℕ → Bytes
  pub random_nonce : ℕ → Bytes
  pub length-random_key : (draw : ℕ) → length (random_key draw) ≡ 32
  pub length-random_nonce : (draw : ℕ) → length (random_nonce draw) ≡ 24
