-- ===== src/Tunnel/Server/Protected/Handlers.antt =====
-- The handlers of control messages send nothing but envelopes (packages/tunnel/src/server.ts).
use teekit.Common.{ℕ, ◌≡◌, arith, Option, some, Text, Option-cases, inl, inr}
use teekit.Bytes.{Bytes}
use teekit.Dict.{number_key, text_key, Dict, get}
use teekit.Tunnel.Message.{
  Message, Content, HttpRequest, http_request, ws_connect, ws_close, ws_message,
}
use teekit.Tunnel.Server.{Server, Keypair, Runtime, closing}
use teekit.Tunnel.Server.Send.{touch, try_send}
use teekit.Tunnel.Server.Mock.{mock_send, mock_close, closing_event, set_ready_state}
use teekit.Tunnel.Server.Request.{handle_tunnel_http_request}
use teekit.Tunnel.Server.Handle
use teekit.Tunnel.Server.Rules.{if_keeps, option_keeps, receive_rule, handle_rule}
use teekit.Tunnel.Server.Protected.{
  IsSafe, IsQuiet, try_send-IsQuiet, emit_close-IsQuiet, emit_message-IsQuiet,
}

module _ (rt : Runtime) (keys : Dict ℕ Bytes) where
  connect-IsQuiet :
      (control_ws : ℕ) (connection_id : Text) (s : Server)
      → IsSafe rt keys s
      → IsQuiet rt keys (Handle.handle_tunnel_web_socket_connect rt control_ws connection_id s)
  unfolding Handle.handle_tunnel_web_socket_connect Handle.track_connection
  connect-IsQuiet control_ws connection_id s (same, quiet) =
      if_keeps (IsQuiet rt keys) _ _ _ (try_send-IsQuiet rt keys control_ws _ s (same, quiet)) (
        try_send-IsQuiet rt keys control_ws _ (Handle.track_connection control_ws connection_id s)
          (same, (tt, quiet)))

  message-IsQuiet :
      (connection_id : Text) (content : Content) (s : Server)
      → IsQuiet rt keys s
      → IsQuiet rt keys (Handle.handle_tunnel_web_socket_message connection_id content s)
  unfolding Handle.handle_tunnel_web_socket_message
  message-IsQuiet connection_id content s quiet =
      option_keeps (IsQuiet rt keys) (get connection_id s.sockets) _ s
        (λ c e. emit_message-IsQuiet rt keys c.mock_ws content s quiet) quiet

  close-IsQuiet :
      (connection_id : Text) (code : Option ℕ) (reason : Option Text) (s : Server)
      → IsQuiet rt keys s
      → IsQuiet rt keys (Handle.handle_tunnel_web_socket_close connection_id code reason s)
  unfolding Handle.handle_tunnel_web_socket_close
  close-IsQuiet connection_id code reason s quiet =
      option_keeps (IsQuiet rt keys) (get connection_id s.sockets) _ s
        (λ c e. emit_close-IsQuiet rt keys c.mock_ws code reason s quiet) quiet

  request-IsQuiet :
      (control_ws : ℕ) (r : HttpRequest) (s : Server)
      → IsSafe rt keys s
      → IsQuiet rt keys (handle_tunnel_http_request rt control_ws r s)
  unfolding handle_tunnel_http_request
  request-IsQuiet control_ws r s (same, quiet) = elim (Option-cases (rt.parse_url r.url)) [
    | inl bad ↦
        rw (bad, handle_tunnel_http_request) (try_send-IsQuiet rt keys control_ws _ s (same, quiet))
    | inr (url, good) ↦ rw (good, handle_tunnel_http_request) (tt, quiet)
  ]

  dispatch-IsQuiet :
      (control_ws : ℕ) (message : Message) (s : Server)
      → IsSafe rt keys s
      → IsQuiet rt keys (Handle.dispatch rt control_ws message s)
  unfolding Handle.dispatch
  dispatch-IsQuiet control_ws (http_request r) s safe = request-IsQuiet control_ws r s safe
  dispatch-IsQuiet control_ws (ws_connect id url protocols) s safe =
      connect-IsQuiet control_ws id s safe
  dispatch-IsQuiet control_ws (ws_message id content data_type) s safe =
      message-IsQuiet id content s safe.1
  dispatch-IsQuiet control_ws (ws_close id code reason) s safe =
      close-IsQuiet id code reason s safe.1
  dispatch-IsQuiet control_ws _ s safe = safe.1

  touch-IsSafe :
      (control_ws : ℕ) (s : Server) → IsSafe rt keys s → IsSafe rt keys (touch control_ws s)
  unfolding touch
  touch-IsSafe control_ws s safe = ground arith

  pub handle_control_message-IsQuiet :
      (control_ws : ℕ) (bytes : Bytes) (s : Server) (keypair : Keypair)
      → s.keypair ≡ some keypair
      → IsSafe rt keys s
      → IsQuiet rt keys (Handle.handle_control_message rt control_ws bytes s)
  handle_control_message-IsQuiet control_ws bytes s keypair ready safe =
      let live = touch-IsSafe control_ws s safe in
      handle_rule rt (IsQuiet rt keys) control_ws s bytes keypair ready live.1 (λ message e.
        receive_rule rt (IsQuiet rt keys) control_ws (touch control_ws s) keypair message live.1
          (λ sealed opened absent confirm o. live.1)
          (λ nonce ciphertext key payload held envelope o.
            dispatch-IsQuiet control_ws payload (touch control_ws s) live))

  pub mock_send-IsQuiet :
      (mock : ℕ) (content : Content) (s : Server)
      → IsSafe rt keys s
      → IsQuiet rt keys (mock_send rt mock content s)
  unfolding mock_send
  mock_send-IsQuiet mock content s safe =
      option_keeps (IsQuiet rt keys) (get mock s.mocks) _ s
        (λ m e.
          if_keeps (IsQuiet rt keys) _ _ _ (try_send-IsQuiet rt keys m.control_ws _ s safe) safe.1)
        safe.1

  pub mock_close-IsQuiet :
      (mock : ℕ) (code : Option ℕ) (reason : Option Text) (s : Server)
      → IsSafe rt keys s
      → IsQuiet rt keys (mock_close rt mock code reason s)
  unfolding mock_close set_ready_state
  mock_close-IsQuiet mock code reason s safe =
      option_keeps (IsQuiet rt keys) (get mock s.mocks) _ s
        (λ m e. if_keeps (IsQuiet rt keys) _ _ _ safe.1 (
          let shut = set_ready_state mock closing m s in
          emit_close-IsQuiet rt keys mock code reason
            (try_send rt m.control_ws (closing_event m code reason) shut)
            (try_send-IsQuiet rt keys m.control_ws (closing_event m code reason) shut safe)))
        safe.1
