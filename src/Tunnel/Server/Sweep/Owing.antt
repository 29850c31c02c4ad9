-- ===== src/Tunnel/Server/Sweep/Owing.antt =====
-- What leaves the answer to a ping owing (packages/tunnel/src/server.ts): messages, of the socket itself
-- too, count as activity alone.
use teekit.Common.{
  ℕ, ◌+◌, ◌≡◌, sym, ap, ◌∙◌, arith, Option, Text, Option-cases, Bool-cases, inl, inr, ◌==◌, ==_iff,
  false_is_true,
}
use mathlib.Core.Path.{subst}
use teekit.Result.{Result, ok, err, stuck, ◌>>=◌}
use teekit.Bytes.{Bytes}
use teekit.Dict.{number_key, text_key, get}
use teekit.Dict.Laws.{get-set_self, get-set_ne}
use teekit.Tunnel.Message.{Message, HttpRequest, http_request, ws_connect, ws_close, ws_message}
use teekit.Tunnel.Server.{Server, Liveness, Runtime, sent}
use teekit.Tunnel.Server.Send.{emit, touch, try_send, send_encrypted, encrypt_for_socket}
use teekit.Tunnel.Server.Mock.{emit_close, emit_message}
use teekit.Tunnel.Server.Request.{handle_tunnel_http_request}
use teekit.Tunnel.Server.Handle
use teekit.Tunnel.Server.Quote.{}
use teekit.Tunnel.Server.Sweep.Heartbeat.{IsUnanswered}
use teekit.Tunnel.Server.Step.{}
use teekit.Tunnel.Server.Rules.{if_keeps, option_keeps, receive_rule, handle_rule}
use teekit.Tunnel.Server.Loop.{emit_close-rest}
use teekit.Tunnel.Server.Tracked.{IsTracked}

module _ (v : ℕ) where
  pub same-IsUnanswered :
      (s t : Server) → get v t.liveness ≡ get v s.liveness → IsUnanswered v s → IsUnanswered v t
  same-IsUnanswered s t e (l, found, silent) = (l, e ∙ found, silent)

  -- A message of the socket itself, or to it, counts as activity and not as an answer.
  touch_self-IsUnanswered : (s : Server) → IsUnanswered v s → IsUnanswered v (touch v s)
  unfolding touch
  touch_self-IsUnanswered s (l, found, silent) =
      let l' : Liveness = record l { last_activity_ms = s.now } in
      rw (found, touch) (l', get-set_self v l' s.liveness, silent)

  touch-IsUnanswered :
      (control_ws : ℕ) (s : Server) → IsUnanswered v s → IsUnanswered v (touch control_ws s)
  unfolding touch
  touch-IsUnanswered control_ws s (l, found, silent) = elim (Bool-cases (control_ws == v)) [
    | inl same ↦
        subst (λ (w : ℕ). IsUnanswered v (touch w s)) (sym ((==_iff control_ws v).0 same))
          (touch_self-IsUnanswered s (l, found, silent))
    | inr apart ↦
        option_keeps (IsUnanswered v) (get control_ws s.liveness) _ s
          (λ l' e. (
            l,
            get-set_ne v control_ws (record l' { last_activity_ms = s.now }) s.liveness
                  (λ same. false_is_true apart ((==_iff control_ws v).1 same))
                ∙ found,
            silent,
          ))
          (l, found, silent)
  ]

  pub emit_close-IsUnanswered :
      (mock : ℕ) (code : Option ℕ) (reason : Option Text) (s : Server)
      → IsUnanswered v s
      → IsUnanswered v (emit_close mock code reason s)
  emit_close-IsUnanswered mock code reason s h =
      same-IsUnanswered s (emit_close mock code reason s)
        (ap (get v) ((emit_close-rest mock code reason s).1)) h

  module _ (rt : Runtime) where
    sent-IsUnanswered :
        (control_ws : ℕ) (r : Result Message) (s : Server)
        → IsUnanswered v s
        → IsUnanswered v
            (elim (r >>= λ env. ok (
              touch control_ws
                (emit (sent control_ws (rt.cbor.encode env)) (record s { draws = s.draws + 1 })))) [
                  | ok t ↦ t
                  | err fault ↦ s
                  | stuck ↦ s
                ])
    sent-IsUnanswered control_ws (ok env) s h =
        touch-IsUnanswered control_ws
          (emit (sent control_ws (rt.cbor.encode env)) (record s { draws = s.draws + 1 })) h
    sent-IsUnanswered control_ws (err e) s h = h
    sent-IsUnanswered control_ws stuck s h = h

    pub try_send-IsUnanswered :
        (control_ws : ℕ) (payload : Message) (s : Server)
        → IsUnanswered v s
        → IsUnanswered v (try_send rt control_ws payload s)
    unfolding try_send send_encrypted
    try_send-IsUnanswered control_ws payload s h =
        sent-IsUnanswered control_ws (encrypt_for_socket rt control_ws payload s) s h

    request-IsUnanswered :
        (control_ws : ℕ) (r : HttpRequest) (s : Server)
        → IsUnanswered v s
        → IsUnanswered v (handle_tunnel_http_request rt control_ws r s)
    unfolding handle_tunnel_http_request
    request-IsUnanswered control_ws r s h = elim (Option-cases (rt.parse_url r.url)) [
      | inl bad ↦ rw (bad, handle_tunnel_http_request) (try_send-IsUnanswered control_ws _ s h)
      | inr (url, good) ↦ rw (good, handle_tunnel_http_request) h
    ]

    dispatch-IsUnanswered :
        (control_ws : ℕ) (message : Message) (s : Server)
        → IsUnanswered v s
        → IsUnanswered v (Handle.dispatch rt control_ws message s)
    unfolding Handle.dispatch Handle.handle_tunnel_web_socket_connect Handle.track_connection
        Handle.handle_tunnel_web_socket_message Handle.handle_tunnel_web_socket_close emit_message
    dispatch-IsUnanswered control_ws (http_request r) s h = request-IsUnanswered control_ws r s h
    dispatch-IsUnanswered control_ws (ws_connect id url protocols) s h =
        if_keeps (IsUnanswered v) _ _ _ (try_send-IsUnanswered control_ws _ s h)
          (try_send-IsUnanswered control_ws _ (Handle.track_connection control_ws id s) h)
    dispatch-IsUnanswered control_ws (ws_message id content data_type) s h =
        same-IsUnanswered s (Handle.dispatch rt control_ws (ws_message id content data_type) s)
          (ground arith) h
    dispatch-IsUnanswered control_ws (ws_close id code reason) s h =
        option_keeps (IsUnanswered v) (get id s.sockets) _ s
          (λ c e. emit_close-IsUnanswered c.mock_ws code reason s h) h
    dispatch-IsUnanswered control_ws _ s h = h

    pub received-IsUnanswered :
        (control_ws : ℕ) (bytes : Bytes) (s : Server)
        → IsTracked s
        → IsUnanswered v s
        → IsUnanswered v (Handle.handle_control_message rt control_ws bytes s)
    received-IsUnanswered control_ws bytes s w h =
        let (keys, ready) = w.ready in
        let live = touch control_ws s in
        let owed : IsUnanswered v live = touch-IsUnanswered control_ws s h in
        handle_rule rt (IsUnanswered v) control_ws s bytes keys ready owed (λ message decoded.
          receive_rule rt (IsUnanswered v) control_ws live keys message owed
            (λ sealed opened absent confirm opens. owed)
            (λ nonce ciphertext k payload there envelope opens.
              dispatch-IsUnanswered control_ws payload live owed))
