-- ===== src/Tunnel/Message.antt =====
-- packages/tunnel/src/types.ts: the messages of the control channel and of the tunnel in it.
use teekit.Common.{ℕ, ◌≡◌, Option, List, Text}
use teekit.Result.{Result, ok}
use teekit.Bytes.{Bytes}

-- `string | Uint8Array`
pub data Content : Type 0 where
  string : Text → Content
  bytes : Bytes → Content

pub data DataType : Type 0 where
  string_data arraybuffer_data : DataType

-- `Record<string, string>`
abbrev pub Headers : Type 0
Headers = List (Text × Text)

pub record VerifierNonce : Type 0 where
  pub val : Option Bytes
  pub iat : Option Bytes

-- `VerifierNonce | Uint8Array`: of Intel, and the plain nonce of SEV-SNP
pub data VerifierData : Type 0 where
  intel : VerifierNonce → VerifierData
  plain : Bytes → VerifierData

pub record SevSnpData : Type 0 where
  pub vcek_cert : Text
  pub ask_cert : Option Text
  pub ark_cert : Option Text

pub record HttpRequest : Type 0 where
  pub request_id : Text
  pub method : Text
  pub url : Text
  pub headers : Headers
  pub body : Option Text

-- `string | string[]`
pub data HeaderValue : Type 0 where
  one : Text → HeaderValue
  many : List Text → HeaderValue

pub record HttpResponse : Type 0 where
  pub request_id : Text
  pub status : ℕ
  pub status_text : Text
  pub headers : List (Text × HeaderValue)
  pub body : Content
  pub error : Option Text

pub data EventType : Type 0 where
  open_event close_event error_event : EventType

pub record ServerEvent : Type 0 where
  pub connection_id : Text
  pub event_type : EventType
  pub code : Option ℕ
  pub reason : Option Text
  pub error : Option Text

pub record KxAnnounce : Type 0 where
  pub x25519_public_key : Bytes
  pub quote : Bytes
  pub runtime_data : Option Bytes
  pub verifier_data : Option VerifierData
  pub sev_snp_data : Option SevSnpData

-- A decoded value, by its `type`: each message with its fields, and `other` for what is no object,
-- or an object of no such type.
pub data Message : Type 0 where
  http_request : HttpRequest → Message
  http_response : HttpResponse → Message
  ws_connect : (connection_id url : Text) → List Text → Message
  ws_close : (connection_id : Text) → Option ℕ → Option Text → Message
  ws_message : (connection_id : Text) → Content → DataType → Message
  ws_event : ServerEvent → Message
  server_kx : KxAnnounce → Message
  client_kx : (sealed_symmetric_key : Bytes) → Message
  client_kx_ready : Message
  enc : (nonce ciphertext : Bytes) → Message
  other : Message

-- `encode` and `decode` of the package cbor-x, where decoding may throw.
pub record Cbor : Type 0 where
  pub encode : Message → Bytes
  pub decode : Bytes → Result Message
  pub decode_encode : (message : Message) → decode (encode message) ≡ ok message
