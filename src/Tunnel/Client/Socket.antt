-- ===== src/Tunnel/Client/Socket.antt =====
-- `ClientRAMockWebSocket` of packages/tunnel/src/ClientRAWebSocket.ts. A listener of the application that
-- calls back is an event of its own.
use teekit.Common.{
  ℕ, ◌+◌, ◌-◌, ◌*◌, ◌||◌, Option, none, some, List, [], ◌∷◌, ◌++◌, Text, codes, list_eq, ◌==◌,
  if◌then◌else◌,
}
use teekit.Result.{
  Result, ok, err, stuck, ◌>>=◌, ◌>>◌, require, websocket_not_open, port_mismatch,
  tunnel_not_connected, invalid_url,
}
use teekit.Dict.{text_key, get, set, add, remove}
use teekit.Intel.Defs.{is_empty}
use teekit.Tunnel.Message.{
  Content, string, bytes, DataType, string_data, arraybuffer_data, ws_connect, ws_message, ws_close,
  ServerEvent, open_event, close_event, error_event,
}
use teekit.Tunnel.Server.{Url}
use teekit.Tunnel.Client.{
  Client, MockWebSocket, connecting, open_state, closing, closed, Reason, fault, text,
  socket_opened, socket_closed, socket_failed, socket_message, ClientRuntime,
}
use teekit.Tunnel.Client.Binding.{present_or}
use teekit.Tunnel.Client.Send.{emit, is_open, send}

-- `code || default`: zero is none.
abbrev pub code_or : Option ℕ → ℕ → ℕ
code_or none default = default
code_or (some code) default = if code == 0 then default else code

-- `text || default`: the empty text is none.
abbrev pub text_or : Option Text → Text → Text
text_or none default = default
text_or (some given) default = if is_empty given then default else given

abbrev pub data_type : Content → DataType
data_type (string t) = string_data
data_type (bytes b) = arraybuffer_data

-- `Number(port)` of a decimal number.
unfoldable pub number_from : ℕ → Text → ℕ
number_from value [] = value
number_from value (digit ∷ digits) = number_from (10 * value + (digit - b'0')) digits

-- `url.port ? Number(url.port) : …`
unfoldable pub port_or : Url → ℕ → ℕ
unfolding number_from
port_or url default = if is_empty url.port then default else number_from 0 url.port

unfoldable pub get_origin_port : Url → ℕ
get_origin_port url = port_or url (if list_eq url.protocol (codes "https:") then 443 else 80)

unfoldable pub target_port : Url → ℕ
target_port url = port_or url (
    if list_eq url.protocol (codes "wss:") || list_eq url.protocol (codes "https:")
    then 443
    else 80)

abbrev pub set_mock : Text → MockWebSocket → Client → Client
set_mock id m c = record c { mocks = set id m c.mocks }

unfoldable pub register_web_socket_tunnel : Text → Client → Client
register_web_socket_tunnel id c = record c {
  web_socket_connections = add id c.web_socket_connections;
}

unfoldable pub unregister_web_socket_tunnel : Text → Client → Client
unregister_web_socket_tunnel id c = record c {
  web_socket_connections = remove id c.web_socket_connections;
}

unfoldable pub handle_error : Text → Reason → Client → Client
handle_error id reason c = emit (socket_failed id reason) c

-- What a `try` around a call that sends leaves: its new state, or the `catch`.
abbrev pub caught : Result Client → Client → (Reason → Client) → Client
caught (ok c') c handler = c'
caught (err e) c handler = handler (fault e)
caught stuck c handler = c

-- The constructor up to the call of `connect`.
unfoldable pub new_socket : Text → Client → Client
unfolding register_web_socket_tunnel
new_socket id c =
    register_web_socket_tunnel id
      (set_mock id (record { ready_state = connecting; message_queue = [] }) c)

module _ (rt : ClientRuntime) where
  -- `connect` after the tunnel's connection; no protocols are the empty list.
  unfoldable pub try_connect : Text → (url : Text) → List Text → Client → Result Client
  try_connect id url protocols c = do
    origin ← present_or (rt.parse_url c.origin) (err invalid_url)
    target ← present_or (rt.parse_url url) (err invalid_url)
    require (get_origin_port origin == target_port target) port_mismatch
    require (is_open c.ws) tunnel_not_connected
    send rt (ws_connect id url protocols) c

  unfoldable pub connect : Text → (url : Text) → List Text → Client → Client
  unfolding handle_error try_connect
  connect id url protocols c =
      caught (try_connect id url protocols c) c (λ reason. handle_error id reason c)

  -- `send` of a socket that is open.
  unfoldable pub send_data : Text → Content → Client → Client
  unfolding handle_error
  send_data id content c =
      caught
        (require (is_open c.ws) tunnel_not_connected
          >> send rt (ws_message id content (data_type content)) c)
        c (λ reason. handle_error id reason c)

  unfoldable pub socket_send : Text → Content → Client → Result Client
  unfolding send_data
  socket_send id content c = elim (get id c.mocks) [
    | none ↦ ok c
    | some m ↦ elim m.ready_state [
      | connecting ↦
          ok (set_mock id (record m { message_queue = m.message_queue ++ content ∷ [] }) c)
      | open_state ↦ ok (send_data id content c)
      | _ ↦ err websocket_not_open
    ]
  ]

  -- `if (open) this.ra.send(closeMessage)`, and what it throws is logged.
  unfoldable pub send_close : Text → Option ℕ → Option Text → Client → Client
  send_close id code reason c =
      if is_open c.ws then caught (send rt (ws_close id code reason) c) c (λ e. c) else c

  unfoldable pub socket_close : Text → Option ℕ → Option Text → Client → Client
  unfolding send_close unregister_web_socket_tunnel
  socket_close id code reason c = elim (get id c.mocks) [
    | none ↦ c
    | some m ↦
        let told =
          unregister_web_socket_tunnel id
            (send_close id code reason (set_mock id (record m { ready_state = closing }) c)) in
        elim m.ready_state [ connecting ↦ told | open_state ↦ told | _ ↦ c ]
  ]

  -- `while (queue.length > 0) this.send(queue.shift())`, of the whole queue
  unfoldable pub flush : Text → List Content → Client → Client
  unfolding send_data
  flush id [] c = c
  flush id (content ∷ queue) c = flush id queue (send_data id content c)

  unfoldable pub open_socket : Text → MockWebSocket → Client → Client
  unfolding flush
  open_socket id m c = emit (socket_opened id) (
      flush id m.message_queue
        (set_mock id (record { ready_state = open_state; message_queue = [] }) c))

  unfoldable pub close_socket : Text → MockWebSocket → ℕ → Text → Client → Client
  unfolding unregister_web_socket_tunnel
  close_socket id m code reason c =
      unregister_web_socket_tunnel id
        (emit (socket_closed id code reason) (set_mock id (record m { ready_state = closed }) c))

  unfoldable pub handle_tunnel_event : ServerEvent → Client → Client
  unfolding open_socket close_socket handle_error
  handle_tunnel_event event c = elim (get event.connection_id c.mocks) [
    | none ↦ c
    | some m ↦ elim event.event_type [
      | open_event ↦ open_socket event.connection_id m c
      | close_event ↦
          close_socket event.connection_id m (code_or event.code 1000) (text_or event.reason []) c
      | error_event ↦
          handle_error event.connection_id (text (text_or event.error (codes "WebSocket error"))) c
    ]
  ]

unfoldable pub handle_tunnel_message : Text → Content → Client → Client
handle_tunnel_message id content c = emit (socket_message id content) c
