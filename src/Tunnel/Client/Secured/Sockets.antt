-- ===== src/Tunnel/Client/Secured/Sockets.antt =====
-- What a mock socket of packages/tunnel/src/ClientRAWebSocket.ts sends on the control socket.
use teekit.Common.{ℕ, ◌≡◌, inl, inr, Option, [], ◌∷◌, ◌++◌, Text, codes, Option-cases}
use teekit.Result.{Result, ok, err, websocket_not_open}
use teekit.Dict.{text_key, get}
use teekit.Tunnel.Message.{Content, ServerEvent, EventType, open_event, close_event, error_event}
use teekit.Tunnel.Client.{
  Client, ReadyState, connecting, open_state, closing, closed, MockWebSocket, text, ClientRuntime,
}
use teekit.Tunnel.Client.Attest.Keyed.{ok_injective}
use teekit.Tunnel.Client.Socket.{
  code_or, text_or, set_mock, unregister_web_socket_tunnel, handle_error, send_data, socket_send,
  send_close, socket_close, open_socket, close_socket, handle_tunnel_event,
}
use teekit.Tunnel.Client.Secured.{IsSafe, flush-IsSafe, send_close-IsSafe, send_data-IsSafe}

module _ (rt : ClientRuntime) (start : Client) where
  pub open_socket-IsSafe :
      (id : Text) (m : MockWebSocket) (c : Client)
      → IsSafe rt start c
      → IsSafe rt start (open_socket rt id m c)
  unfolding open_socket
  open_socket-IsSafe id m c safe =
      let opened : MockWebSocket = record { ready_state = open_state; message_queue = [] } in
      let flushed = flush-IsSafe rt start id m.message_queue (set_mock id opened c) safe in
      (flushed.0, (tt, flushed.1))

  pub handle_tunnel_event-IsSafe :
      (event : ServerEvent) (c : Client)
      → IsSafe rt start c
      → IsSafe rt start (handle_tunnel_event rt event c)
  unfolding handle_tunnel_event close_socket unregister_web_socket_tunnel handle_error
  handle_tunnel_event-IsSafe event c safe = elim (Option-cases (get event.connection_id c.mocks)) [
    | inl absent ↦ rw (absent, handle_tunnel_event) safe
    | inr (m, found) ↦ rw (found, handle_tunnel_event) (by_type m event.event_type)
  ]
    where
      by_type :
          (m : MockWebSocket) (kind : EventType)
          → IsSafe rt start (elim kind [
            | open_event ↦ open_socket rt event.connection_id m c
            | close_event ↦
                close_socket rt event.connection_id m
                  (code_or event.code 1000)
                  (text_or event.reason [])
                  c
            | error_event ↦
                handle_error event.connection_id
                  (text (text_or event.error (codes "WebSocket error")))
                  c
          ])
      by_type m open_event = open_socket-IsSafe event.connection_id m c safe
      by_type m close_event = (safe.0, (tt, safe.1))
      by_type m error_event = (safe.0, (tt, safe.1))

  pub socket_close-IsSafe :
      (id : Text) (code : Option ℕ) (reason : Option Text) (c : Client)
      → IsSafe rt start c
      → IsSafe rt start (socket_close rt id code reason c)
  unfolding socket_close unregister_web_socket_tunnel
  socket_close-IsSafe id code reason c safe = elim (Option-cases (get id c.mocks)) [
    | inl absent ↦ rw (absent, socket_close) safe
    | inr (m, found) ↦ rw (found, socket_close) (by_state m m.ready_state)
  ]
    where
      by_state :
          (m : MockWebSocket) (state : ReadyState)
          → IsSafe rt start (
              let told = unregister_web_socket_tunnel id (
                send_close rt id code reason
                  (set_mock id (record m { ready_state = closing }) c)) in
              elim state [ connecting ↦ told | open_state ↦ told | _ ↦ c ])
      by_state m connecting = send_close-IsSafe rt start id code reason (set_mock id _ c) safe
      by_state m open_state = send_close-IsSafe rt start id code reason (set_mock id _ c) safe
      by_state m closing = safe
      by_state m closed = safe

  pub socket_send-IsSafe :
      (id : Text) (content : Content) (c : Client) {d : Client}
      → IsSafe rt start c
      → socket_send rt id content c ≡ ok d
      → IsSafe rt start d
  unfolding socket_send
  socket_send-IsSafe id content c {d} safe e = elim (Option-cases (get id c.mocks)) [
    | inl absent ↦ rw (← ok_injective (rw (absent, socket_send) at e)) safe
    | inr (m, found) ↦ by_state m m.ready_state (rw (found, socket_send) at e)
  ]
    where
      by_state :
          (m : MockWebSocket) (state : ReadyState)
          → ◌≡◌ {A = Result Client}
              (elim state [
                | connecting ↦
                    ok
                      (set_mock id (record m { message_queue = m.message_queue ++ content ∷ [] }) c)
                | open_state ↦ ok (send_data rt id content c)
                | _ ↦ err websocket_not_open
              ])
              (ok d)
          → IsSafe rt start d
      by_state m connecting h = rw (← ok_injective h) safe
      by_state m open_state h = rw (← ok_injective h) (send_data-IsSafe rt start id content c safe)
      by_state m closing h = cc
      by_state m closed h = cc
