-- ===== src/Tunnel/Server/Handle.antt =====
-- `#handleControlMessage` of packages/tunnel/src/server.ts and the handlers of tunneled WebSockets,
-- with the tests of packages/tunnel/src/typeguards.ts that they use.
use teekit.Common.{ℕ, ◌+◌, true, false, ◌&&◌, Option, none, some, Bool, Text, codes, if◌then◌else◌}
use teekit.Result.{ok, err, stuck, not_initialized}
use teekit.Bytes.{Bytes}
use teekit.Dict.{number_key, text_key, get, has, set, delete}
use teekit.Tunnel.Crypto.{crypto_box_seal_open}
use teekit.Tunnel.Message.{
  Message, Content, http_request, ws_connect, ws_close, ws_message, ws_event, client_kx, enc,
  EventType, open_event, error_event,
}
use teekit.Tunnel.Server.{Server, Keypair, MockWebSocket, open_state, rejected, Runtime}
use teekit.Tunnel.Server.Send.{emit, touch, try_send, decrypt_envelope_for_socket}
use teekit.Tunnel.Server.Mock.{emit_message, emit_close, add_client, delete_client}
use teekit.Tunnel.Server.Request.{handle_tunnel_http_request}

-- `isControlChannelKXConfirm`, with the field that is read next
unfoldable pub kx_confirm : Message → Option Bytes
kx_confirm (client_kx sealed) = some sealed
kx_confirm _ = none

-- `isControlChannelEncryptedMessage`, with the fields
unfoldable pub encrypted_message : Message → Option (Bytes × Bytes)
encrypted_message (enc nonce ciphertext) = some (nonce, ciphertext)
encrypted_message _ = none

abbrev is_missing {ℓ} : {A : Type ℓ} → Option A → Bool
is_missing none = true
is_missing (some value) = false

-- A new mock socket, tracked under the connection id and made known to the application.
unfoldable pub track_connection : ℕ → Text → Server → Server
unfolding add_client
track_connection control_ws connection_id s =
    let mock : MockWebSocket = record {
      ready_state = open_state;
      connection_id = connection_id;
      control_ws = control_ws;
      extra_context = get control_ws s.extra_contexts;
    } in
    add_client s.next_mock (record s {
      mocks = set s.next_mock mock s.mocks;
      next_mock = s.next_mock + 1;
      sockets =
          set connection_id (record { mock_ws = s.next_mock; control_ws = control_ws }) s.sockets;
    })

unfoldable pub handle_tunnel_web_socket_message : Text → Content → Server → Server
handle_tunnel_web_socket_message connection_id content s = elim (get connection_id s.sockets) [
  | none ↦ s
  | some connection ↦ emit_message connection.mock_ws content s
]

unfoldable pub handle_tunnel_web_socket_close : Text → Option ℕ → Option Text → Server → Server
unfolding delete_client
handle_tunnel_web_socket_close connection_id code reason s = elim (get connection_id s.sockets) [
  | none ↦ s
  | some connection ↦
      let told = delete_client connection.mock_ws (emit_close connection.mock_ws code reason s) in
      record told { sockets = delete connection_id told.sockets }
]

module _ (rt : Runtime) where
  abbrev connection_event : Text → EventType → Option Text → Message
  connection_event connection_id event_type error = ws_event (record {
    connection_id = connection_id;
    event_type = event_type;
    code = none;
    reason = none;
    error = error;
  })

  unfoldable pub handle_tunnel_web_socket_connect : ℕ → Text → Server → Server
  unfolding track_connection
  handle_tunnel_web_socket_connect control_ws connection_id s =
      if s.is_hono && is_missing (get control_ws s.extra_contexts)
      then try_send rt control_ws
          (connection_event connection_id error_event
            (some (codes "Missing Hono context for WebSocket connection")))
          s
      else try_send rt control_ws (connection_event connection_id open_event none)
          (track_connection control_ws connection_id s)

  -- A message that was decrypted.
  unfoldable pub dispatch : ℕ → Message → Server → Server
  dispatch control_ws (http_request r) s = handle_tunnel_http_request rt control_ws r s
  dispatch control_ws (ws_connect connection_id url protocols) s =
      handle_tunnel_web_socket_connect control_ws connection_id s
  dispatch control_ws (ws_message connection_id content data_type) s =
      handle_tunnel_web_socket_message connection_id content s
  dispatch control_ws (ws_close connection_id code reason) s =
      handle_tunnel_web_socket_close connection_id code reason s
  dispatch control_ws _ s = s

  -- A sealed key is taken once.
  unfoldable pub confirm_key : ℕ → Keypair → Bytes → Server → Server
  confirm_key control_ws keys sealed s =
      if has control_ws s.symmetric_keys
      then s
      else elim (crypto_box_seal_open rt.noble sealed keys.public_key keys.private_key) [
        | ok opened ↦ record s { symmetric_keys = set control_ws opened s.symmetric_keys }
        | err fault ↦ s
        | stuck ↦ s
      ]

  unfoldable pub receive_encrypted : ℕ → (nonce ciphertext : Bytes) → Server → Server
  receive_encrypted control_ws nonce ciphertext s =
      elim (decrypt_envelope_for_socket rt control_ws nonce ciphertext s) [
        | ok message ↦ dispatch control_ws message s
        | err fault ↦ s
        | stuck ↦ s
      ]

  unfoldable pub receive : ℕ → Keypair → Message → Server → Server
  unfolding confirm_key
  receive control_ws keys message s = elim (kx_confirm message) [
    | some sealed ↦ confirm_key control_ws keys sealed s
    | none ↦
        if has control_ws s.symmetric_keys
        then (elim (encrypted_message message) [
          | none ↦ s
          | some (nonce, ciphertext) ↦ receive_encrypted control_ws nonce ciphertext s
        ])
        else s
  ]

  unfoldable pub handle_control_message : ℕ → Bytes → Server → Server
  unfolding touch
  handle_control_message control_ws bytes s =
      let live = touch control_ws s in
      elim (rt.cbor.decode bytes) [
        | err fault ↦ live
        | stuck ↦ live
        | ok message ↦ elim live.keypair [
          | none ↦ emit (rejected not_initialized) live
          | some keys ↦ receive control_ws keys message live
        ]
      ]
