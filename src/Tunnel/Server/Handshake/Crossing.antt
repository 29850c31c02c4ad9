-- ===== src/Tunnel/Server/Handshake/Crossing.antt =====
-- Which connection a tunneled message reaches: `#handleTunnelWebSocketMessage` of
-- packages/tunnel/src/server.ts goes by the connection id alone.
use teekit.Common.{ℕ, ◌≡◌, refl, ap, ◌∙◌, arith, some, ◌∷◌, Text}
use teekit.Result.{ok}
use teekit.Bytes.{Bytes}
use teekit.Dict.{number_key, text_key, get}
use teekit.Tunnel.Message.{Content, DataType, ws_message, enc}
use teekit.Tunnel.Server.{
  Server, Connection, Keypair, MockWebSocket, Runtime, open_state, delivered,
}
use teekit.Tunnel.Server.Send.{touch, decrypt_envelope_for_socket}
use teekit.Tunnel.Server.Mock.{emit_message}
use teekit.Tunnel.Server.Handle.{dispatch, handle_control_message, handle_tunnel_web_socket_message}
use teekit.Tunnel.Server.Frame.{touch-SameCore}
use teekit.Tunnel.Server.Handshake.{received-envelope}

touch-effects : (control_ws : ℕ) (s : Server) → (touch control_ws s).effects ≡ s.effects
unfolding touch
touch-effects control_ws s = ground arith

message-delivered :
    (id : Text) (content : Content) (c : Connection) (m : MockWebSocket) (s : Server)
    → get id s.sockets ≡ some c
    → get c.mock_ws s.mocks ≡ some m
    → m.ready_state ≡ open_state
    → (handle_tunnel_web_socket_message id content s).effects
      ≡ delivered c.mock_ws content ∷ s.effects
unfolding handle_tunnel_web_socket_message emit_message
message-delivered id content c m s found there live =
    rw (found, handle_tunnel_web_socket_message) (rw (there, emit_message) (rw live refl))

module _ (rt : Runtime) where
  -- An envelope that a control socket's key opens to a ws_message is delivered to the open mock
  -- socket of the connection that it names, whichever control socket that connection is of.
  pub message-crosses :
      (control_ws : ℕ) (bytes nonce ciphertext key : Bytes) (id : Text) (content : Content)
      (data_type : DataType) (c : Connection) (m : MockWebSocket) (keys : Keypair) (s : Server)
      → s.keypair ≡ some keys
      → get control_ws s.symmetric_keys ≡ some key
      → rt.cbor.decode bytes ≡ ok (enc nonce ciphertext)
      → decrypt_envelope_for_socket rt control_ws nonce ciphertext s
        ≡ ok (ws_message id content data_type)
      → get id s.sockets ≡ some c
      → get c.mock_ws s.mocks ≡ some m
      → m.ready_state ≡ open_state
      → (handle_control_message rt control_ws bytes s).effects
        ≡ delivered c.mock_ws content ∷ s.effects
  unfolding dispatch
  message-crosses control_ws bytes nonce ciphertext key id content data_type c m keys s ready held
        decoded opens found there live =
      let core = touch-SameCore control_ws s in
      let found' : get id (touch control_ws s).sockets ≡ some c = ap (get id) core.0 ∙ found in
      let there' : get c.mock_ws (touch control_ws s).mocks ≡ some m =
        ap (get c.mock_ws) core.1 ∙ there in
      rw
        (received-envelope rt control_ws bytes nonce ciphertext key
          (ws_message id content data_type) keys s ready held decoded opens)
        (message-delivered id content c m (touch control_ws s) found' there' live
          ∙ ap (λ l. delivered c.mock_ws content ∷ l) (touch-effects control_ws s))
