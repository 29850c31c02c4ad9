-- ===== src/Tunnel/Server.antt =====
-- The state of `TunnelServer` of packages/tunnel/src/server.ts, with the mock WebSockets of
-- ServerRAWebSocket.ts that it keeps, and what it does to the outside.
pub mod Send
pub mod Mock
pub mod Request
pub mod Quote
pub mod Handle
pub mod Close
pub mod Sweep
pub mod Race
pub mod Step
pub mod Rules
pub mod Frame
pub mod Tracked
pub mod Keep
pub mod Invariant
pub mod Protected
pub mod Handshake
pub mod Loop
pub mod Removal
pub mod Cleanup
use teekit.Common.{ℕ, ◌≡◌, Bool, Option, List, Text, length}
use teekit.Result.{Result, Fault}
use teekit.Bytes.{Bytes}
use teekit.Dict.{Dict}
use teekit.Tunnel.Crypto.{Noble}
use teekit.Tunnel.Message.{Cbor, Content, Headers, VerifierData, SevSnpData}

pub data ReadyState : Type 0 where
  connecting open_state closing closed : ReadyState

-- `ServerRAMockWebSocket`: the closures that the server gives it name the connection and the
-- control socket.
pub record MockWebSocket : Type 0 where
  pub ready_state : ReadyState
  pub connection_id : Text
  pub control_ws : ℕ
  pub extra_context : Option ℕ

pub record Connection : Type 0 where
  pub mock_ws : ℕ
  pub control_ws : ℕ

pub record Liveness : Type 0 where
  pub is_alive : Bool
  pub last_activity_ms : ℕ

pub record Keypair : Type 0 where
  pub public_key : Bytes
  pub private_key : Bytes

-- A request as the application gets it.
pub record AppRequest : Type 0 where
  pub method : Text
  pub url : Text
  pub headers : Headers
  pub body : Option Text

-- What the server does to the outside: it sends to a control socket, closes, pings or terminates
-- it; it tells the application of a connection, a message, or the end of one, or gives it a request
-- with the environment of the socket; or a promise that nobody waits for is rejected.
pub data Effect : Type 0 where
  sent : (control_ws : ℕ) → Bytes → Effect
  control_closed : (control_ws code : ℕ) → Effect
  pinged terminated : (control_ws : ℕ) → Effect
  connected : (mock_ws : ℕ) → Effect
  delivered : (mock_ws : ℕ) → Content → Effect
  mock_closed : (mock_ws code : ℕ) → Text → Effect
  requested : (control_ws : ℕ) → (request_id : Text) → AppRequest → Option ℕ → Effect
  rejected : Fault → Effect

-- Control sockets and mock sockets are objects, and go by numbers. The last four fields stand for
-- the runtime: the objects that live on, the numbers given out and the random values drawn, the time
-- of the event that is handled, and what has been done in it, the latest first.
pub record Server : Type 0 where
  pub is_hono : Bool
  pub quote : Option Bytes
  pub verifier_data : Option VerifierData
  pub runtime_data : Option Bytes
  pub sev_snp_data : Option SevSnpData
  pub keypair : Option Keypair
  pub key_ready : Bool
  pub heartbeat_timeout : ℕ
  pub wss_clients : List ℕ
  pub control_clients : List ℕ
  pub sockets : Dict Text Connection
  pub symmetric_keys : Dict ℕ Bytes
  pub liveness : Dict ℕ Liveness
  pub envs : Dict ℕ ℕ
  pub extra_contexts : Dict ℕ ℕ
  pub mocks : Dict ℕ MockWebSocket
  pub next_mock : ℕ
  pub draws : ℕ
  pub now : ℕ
  pub effects : List Effect

-- `new URL(url, "http://localhost")`, of which the parts are read; `port` is empty for the default.
pub record Url : Type 0 where
  pub protocol : Text
  pub host : Text
  pub port : Text

-- What the server imports: the codec, the ciphers, URLs, and random nonces.
pub record Runtime : Type 0 where
  pub cbor : Cbor
  pub noble : Noble
  pub parse_url : Text → Option Url
  pub random_nonce : ℕ → Bytes
  pub length-random_nonce : (draw : ℕ) → length (random_nonce draw) ≡ 24
