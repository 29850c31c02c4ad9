-- ===== src/Tunnel/Client/Closing.antt =====
-- A `ClientRAMockWebSocket` of packages/tunnel/src/ClientRAWebSocket.ts after `close`.
use teekit.Common.{ℕ, ◌≡◌, ◌⊎◌, inl, inr, refl, false, Option, some, Text}
use teekit.Dict.{text_key, get, member}
use teekit.Dict.Laws.{member-remove_self}
use teekit.Tunnel.Message.{ServerEvent, ws_event}
use teekit.Tunnel.Client.{Client, MockWebSocket, connecting, open_state, closing, ClientRuntime}
use teekit.Tunnel.Client.Socket.{set_mock, unregister_web_socket_tunnel, send_close, socket_close}
use teekit.Tunnel.Client.Handle.{handle_decrypted}

module _ (rt : ClientRuntime) where
  handle_decrypted-unregistered :
      (event : ServerEvent) (c : Client)
      → member event.connection_id c.web_socket_connections ≡ false
      → handle_decrypted rt (ws_event event) c ≡ c
  unfolding handle_decrypted
  handle_decrypted-unregistered event c unknown = rw (unknown, handle_decrypted) refl

  -- No event of the server reaches a socket that the application has closed while it was connecting
  -- or open: it is told of no end of the connection.
  pub socket_close-Deaf :
      (event : ServerEvent) (code : Option ℕ) (reason : Option Text) (c : Client)
      (m : MockWebSocket)
      → get event.connection_id c.mocks ≡ some m
      → (m.ready_state ≡ connecting) ⊎ (m.ready_state ≡ open_state)
      → handle_decrypted rt (ws_event event) (socket_close rt event.connection_id code reason c)
        ≡ socket_close rt event.connection_id code reason c
  unfolding socket_close unregister_web_socket_tunnel
  socket_close-Deaf event code reason c m found alive =
      let id = event.connection_id in
      let told =
        send_close rt id code reason (set_mock id (record m { ready_state = closing }) c) in
      let deaf =
        handle_decrypted-unregistered event (unregister_web_socket_tunnel id told)
          (member-remove_self id told.web_socket_connections) in
      elim alive [
        | inl early ↦ rw (found, socket_close, early) deaf
        | inr later ↦ rw (found, socket_close, later) deaf
      ]
