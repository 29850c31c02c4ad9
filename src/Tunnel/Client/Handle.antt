-- ===== src/Tunnel/Client/Handle.antt =====
-- The handlers of `ensureConnection` of packages/tunnel/src/client.ts but for `server_kx`, and `close`.
use teekit.Common.{
  ℕ, Bool, true, false, not, ◌||◌, Option, none, some, List, [], ◌∷◌, Text, codes, if◌then◌else◌,
}
use teekit.Result.{Result, ok, err, stuck, Fault, tunnel_disconnected, tunnel_closed, type_error}
use teekit.Bytes.{Bytes}
use teekit.Dict.{text_key, member, remove}
use teekit.Intel.Defs.{is_empty, or_else}
use teekit.Tunnel.Message.{
  Message, server_kx, client_kx_ready, enc, http_response, ws_event, ws_message, HttpResponse,
  ServerEvent, EventType, close_event, error_event,
}
use teekit.Tunnel.Client.{
  Client, ReadyState, connecting, open_state, closed, fault, text, SyntheticResponse,
  control_opened, control_sent, control_closed, connection_rejected, request_resolved,
  request_rejected, reconnect_scheduled, thrown, ClientRuntime,
}
use teekit.Tunnel.Client.Exchange.{on_server_kx}
use teekit.Tunnel.Client.Platform.{rebuild_response}
use teekit.Tunnel.Client.Send.{emit, is_open, decrypt_envelope}
use teekit.Tunnel.Client.Socket.{code_or, text_or, handle_tunnel_event, handle_tunnel_message}

unfoldable pub ensure_connection : Client → Client
ensure_connection c =
    if c.closed || is_open c.ws || c.connection_promise
    then c
    else emit control_opened (record c { ws = some connecting; connection_promise = true })

-- The timers of `onclose` and `onerror`.
unfoldable pub reconnect : Client → Client
unfolding ensure_connection
reconnect c = if c.closed then c else ensure_connection c

unfoldable pub reject_all : Fault → List Text → Client → Client
reject_all e [] c = c
reject_all e (id ∷ ids) c = reject_all e ids (emit (request_rejected id (fault e)) c)

-- `for (const [, pending] of this.pendingRequests) pending.reject(…)` and `clear()`
unfoldable pub reject_pending : Fault → Client → Client
unfolding reject_all
reject_pending e c = record (reject_all e c.pending_requests c) { pending_requests = [] }

unfoldable pub drop_symmetric_key : Client → Client
drop_symmetric_key c = record c {
  channel = record c.channel { symmetric_key = none };
  key_holder = none;
}

abbrev pub event_for : EventType → Option ℕ → Option Text → Option Text → Text → ServerEvent
event_for kind code reason error id = record {
  connection_id = id;
  event_type = kind;
  code = code;
  reason = reason;
  error = error;
}

unfoldable pub settle : Text → Result SyntheticResponse → Client → Client
settle id (ok response) c = emit (request_resolved id response) c
settle id (err e) c = emit (thrown e) c
settle id stuck c = c

unfoldable pub handle_tunnel_response : HttpResponse → Client → Client
unfolding rebuild_response settle
handle_tunnel_response response c =
    let id = response.request_id in
    let known = record c { pending_requests = remove id c.pending_requests } in
    let error = text_or response.error [] in
    if not (member id c.pending_requests)
    then c
    else if not (is_empty error)
    then emit (request_rejected id (text error)) known
    else settle id (rebuild_response response) known

abbrev pub is_connecting : Option ReadyState → Bool
is_connecting (some connecting) = true
is_connecting _ = false

unfoldable pub close_control : ℕ → Text → Client → Client
close_control code reason c =
    if is_open c.ws || is_connecting c.ws then emit (control_closed code reason) c else c

module _ (rt : ClientRuntime) where
  unfoldable pub on_open : Client → Client
  on_open c = elim c.ws [
    | none ↦ emit (thrown type_error) c
    | some state ↦
        emit (control_sent (rt.cbor.encode client_kx_ready)) (record c { ws = some open_state })
  ]

  unfoldable pub tell_all : (Text → ServerEvent) → List Text → Client → Client
  unfolding handle_tunnel_event
  tell_all event [] c = c
  tell_all event (id ∷ ids) c = tell_all event ids (handle_tunnel_event rt (event id) c)

  -- All tunneled sockets are told that the connection is closed, and forgotten.
  unfoldable pub tell_closed : Option ℕ → Option Text → Client → Client
  unfolding tell_all
  tell_closed code reason c =
      let told = tell_all (event_for close_event code reason none) c.web_socket_connections c in
      record told { web_socket_connections = [] }

  unfoldable pub on_close : Option ℕ → Option Text → Client → Client
  unfolding tell_closed reject_pending drop_symmetric_key
  on_close code reason c =
      let lost = record c {
        connection_promise = false;
        ws = elim c.ws [ none ↦ none | some state ↦ some closed ];
      } in
      emit reconnect_scheduled (
        drop_symmetric_key (
          reject_pending tunnel_disconnected (
            tell_closed (some (or_else code 1006)) (some (or_else reason (codes "tunnel closed")))
              lost)))

  -- A client that is closed and has no open socket returns before the promise is rejected.
  unfoldable pub on_error : (message : Option Text) → Client → Client
  unfolding tell_all
  on_error message c =
      let error = text_or message (codes "Tunnel error") in
      let told =
        tell_all (event_for error_event none none (some error)) c.web_socket_connections
          (record c { connection_promise = false }) in
      let rejecting = emit (connection_rejected (text (codes "WebSocket connection failed"))) in
      if is_open told.ws
      then rejecting told
      else if told.closed
      then told
      else rejecting (emit reconnect_scheduled told)

  unfoldable pub handle_decrypted : Message → Client → Client
  unfolding handle_tunnel_message handle_tunnel_response
  handle_decrypted (http_response response) c = handle_tunnel_response response c
  handle_decrypted (ws_event event) c =
      if member event.connection_id c.web_socket_connections
      then handle_tunnel_event rt event c
      else c
  handle_decrypted (ws_message id content kind) c =
      if member id c.web_socket_connections then handle_tunnel_message id content c else c
  handle_decrypted _ c = c

  unfoldable pub on_encrypted : Result Message → Client → Client
  unfolding handle_decrypted
  on_encrypted (ok payload) c = handle_decrypted payload c
  on_encrypted (err e) c = emit (thrown e) c
  on_encrypted stuck c = c

  unfoldable pub handle_decoded : Message → Client → Client
  unfolding on_server_kx on_encrypted
  handle_decoded (server_kx message) c = on_server_kx message c
  handle_decoded (enc nonce ciphertext) c = on_encrypted (decrypt_envelope rt nonce ciphertext c) c
  handle_decoded _ c = c

  unfoldable pub on_message : Bytes → Client → Client
  unfolding handle_decoded
  on_message bytes c = elim (rt.cbor.decode bytes) [
    | ok message ↦ handle_decoded message c
    | err e ↦ c
    | stuck ↦ c
  ]

  unfoldable pub close : Option ℕ → Option Text → Client → Client
  unfolding reject_pending tell_closed drop_symmetric_key close_control
  close code reason c =
      let given_code = code_or code 1000 in
      let given_reason = text_or reason (codes "client closed") in
      if c.closed
      then c
      else record (drop_symmetric_key (
          close_control given_code given_reason (
            tell_closed (some given_code) (some given_reason)
              (reject_pending tunnel_closed (record c { closed = true }))))) {
                ws = none;
                connection_promise = false;
              }
