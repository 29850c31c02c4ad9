-- ===== src/Tunnel/Server/Mock.antt =====
-- `ServerRAMockWebSocket` and `ServerRAMockWebSocketServer` of
-- packages/tunnel/src/ServerRAWebSocket.ts, and the closures that
-- `#handleTunnelWebSocketConnect` of server.ts passes to them. A listener of the application that
-- calls back is an event of its own.
use teekit.Common.{ℕ, Bool, true, false, ◌||◌, Option, none, some, [], Text, if◌then◌else◌}
use teekit.Dict.{number_key, get, set, add, remove}
use teekit.Tunnel.Message.{
  Message, Content, string, bytes, DataType, string_data, arraybuffer_data, ws_message, ws_event,
  close_event,
}
use teekit.Tunnel.Server.{
  Server, MockWebSocket, ReadyState, open_state, closing, closed, delivered, mock_closed, connected,
  Runtime,
}
use teekit.Tunnel.Server.Send.{emit, try_send}

abbrev pub is_open : ReadyState → Bool
is_open open_state = true
is_open _ = false

abbrev pub is_closed : ReadyState → Bool
is_closed closed = true
is_closed _ = false

abbrev pub is_closing : ReadyState → Bool
is_closing closing = true
is_closing _ = false

abbrev pub or_else {ℓ} : {A : Type ℓ} → Option A → A → A
or_else none default = default
or_else (some value) default = value

unfoldable pub set_ready_state : ℕ → ReadyState → MockWebSocket → Server → Server
set_ready_state mock state m s = record s {
  mocks = set mock (record m { ready_state = state }) s.mocks;
}

unfoldable pub emit_message : ℕ → Content → Server → Server
emit_message mock content s = elim (get mock s.mocks) [
  | none ↦ s
  | some m ↦ if is_open m.ready_state then emit (delivered mock content) s else s
]

unfoldable pub emit_close : ℕ → Option ℕ → Option Text → Server → Server
unfolding set_ready_state
emit_close mock code reason s = elim (get mock s.mocks) [
  | none ↦ s
  | some m ↦
      if is_closed m.ready_state
      then s
      else emit (mock_closed mock (or_else code 1000) (or_else reason []))
          (set_ready_state mock closed m s)
]

unfoldable pub add_client : ℕ → Server → Server
add_client mock s = emit (connected mock) (record s { wss_clients = add mock s.wss_clients })

unfoldable pub delete_client : ℕ → Server → Server
delete_client mock s = record s { wss_clients = remove mock s.wss_clients }

abbrev data_type : Content → DataType
data_type (string text) = string_data
data_type (bytes b) = arraybuffer_data

abbrev pub closing_event : MockWebSocket → Option ℕ → Option Text → Message
closing_event m code reason = ws_event (record {
  connection_id = m.connection_id;
  event_type = close_event;
  code = code;
  reason = reason;
  error = none;
})

module _ (rt : Runtime) where
  -- The application sends to the client.
  unfoldable pub mock_send : ℕ → Content → Server → Server
  mock_send mock content s = elim (get mock s.mocks) [
    | none ↦ s
    | some m ↦
        if is_open m.ready_state
        then try_send rt m.control_ws (ws_message m.connection_id content (data_type content)) s
        else s
  ]

  -- The application closes a connection.
  unfoldable pub mock_close : ℕ → Option ℕ → Option Text → Server → Server
  mock_close mock code reason s = elim (get mock s.mocks) [
    | none ↦ s
    | some m ↦
        if is_closing m.ready_state || is_closed m.ready_state
        then s
        else emit_close mock code reason (
            try_send rt m.control_ws (closing_event m code reason)
              (set_ready_state mock closing m s))
  ]
