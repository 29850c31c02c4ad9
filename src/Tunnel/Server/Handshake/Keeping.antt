-- ===== src/Tunnel/Server/Handshake/Keeping.antt =====
-- A key that is set stays until its socket is gone (packages/tunnel/src/server.ts).
use teekit.Common.{
  ℕ, ◌≡◌, ◌≢◌, ap, ◌∙◌, arith, true, false, Option, none, some, List, [], ◌∷◌, Text, Option-cases,
  Bool-cases, inl, inr, ◌==◌, ==_iff,
}
use teekit.Bytes.{Bytes}
use teekit.Dict.{number_key, text_key, Dict, get, member}
use teekit.Dict.Laws.{get-set_ne, get-delete}
use teekit.Tunnel.Message.{
  Message, HttpRequest, http_request, http_response, ws_connect, ws_close, ws_message,
}
use teekit.Tunnel.Server.{Server, Keypair, ReadyState, Runtime, closing}
use teekit.Tunnel.Server.Send.{touch, try_send}
use teekit.Tunnel.Server.Mock.{
  emit_close, emit_message, mock_send, mock_close, closing_event, set_ready_state, or_else,
  is_closed,
}
use teekit.Tunnel.Server.Request.{handle_tunnel_http_request, respond, response_of}
use teekit.Tunnel.Server.Handle
use teekit.Tunnel.Server.Quote.{
  QuoteData, intel_quote, sev_snp_quote, begin_quote, finish_quote, announce, send_server_kx,
  quote_settled, on_hono_open, on_express_control_connection,
}
use teekit.Tunnel.Server.Sweep.{
  on_pong, ping_client, ping_clients, drop_key, drop_keys, heartbeat_sweep,
}
use teekit.Tunnel.Server.Step.{
  Event, first_quote, opened, settled, received, ponged, lost, swept, app_sent, app_closed,
  answered, handle, step,
}
use teekit.Tunnel.Server.Rules.{if_keeps, option_keeps, receive_rule, handle_rule}
use teekit.Tunnel.Server.Frame.{try_send-symmetric_keys}
use teekit.Tunnel.Server.Loop.{emit_close-rest}
use teekit.Tunnel.Server.Tracked.{IsTracked}
use teekit.Tunnel.Server.Cleanup.{on_close-Forgets}

-- Neither is the socket lost, nor does a sweep find it closed or not among the clients.
abbrev pub SparesSocket : ℕ → (clients : List ℕ) → Event → Type 0
SparesSocket v clients (lost control_ws) = v ≢ control_ws
SparesSocket v clients (swept tracked ready_state) =
    (is_closed (ready_state v) ≡ false) × (member v (or_else tracked clients) ≡ true)
SparesSocket v clients _ = Unit {0}

module _ (v : ℕ) (key : Bytes) where
  abbrev Holds : Server → Type 0
  Holds s = get v s.symmetric_keys ≡ some key

  try_send-Holds :
      (rt : Runtime) (control_ws : ℕ) (payload : Message) (s : Server)
      → Holds s
      → Holds (try_send rt control_ws payload s)
  try_send-Holds rt control_ws payload s h = rw (try_send-symmetric_keys rt control_ws payload s) h

  emit_close-Holds :
      (mock : ℕ) (code : Option ℕ) (reason : Option Text) (s : Server)
      → Holds s
      → Holds (emit_close mock code reason s)
  emit_close-Holds mock code reason s h = rw ((emit_close-rest mock code reason s).0) h

  touch-Holds : (control_ws : ℕ) (s : Server) → Holds s → Holds (touch control_ws s)
  unfolding touch
  touch-Holds control_ws s h = ground arith

  ping_client-Holds : (control_ws : ℕ) (s : Server) → Holds s → Holds (ping_client control_ws s)
  unfolding ping_client
  ping_client-Holds control_ws s h = ground arith

  ping_clients-Holds : (clients : List ℕ) (s : Server) → Holds s → Holds (ping_clients clients s)
  unfolding ping_clients
  ping_clients-Holds [] s h = h
  ping_clients-Holds (control_ws ∷ clients) s h =
      ping_clients-Holds clients (ping_client control_ws s) (ping_client-Holds control_ws s h)

  module _ (clients : List ℕ) (ready_state : ℕ → ReadyState)
      (alive : is_closed (ready_state v) ≡ false) (known : member v clients ≡ true) where
    drop_key-Holds :
        (control_ws : ℕ) (s : Server) → Holds s → Holds (drop_key clients ready_state control_ws s)
    unfolding drop_key
    drop_key-Holds control_ws s h = elim (Bool-cases (control_ws == v)) [
      | inl same ↦
          let place : control_ws ≡ v = (==_iff control_ws v).0 same in
          rw (place, drop_key) (rw (alive, known) h)
      | inr apart ↦ ground (arith, get-delete v control_ws s.symmetric_keys)
    ]

    drop_keys-Holds :
        (entries : Dict ℕ Bytes) (s : Server)
        → Holds s
        → Holds (drop_keys clients ready_state entries s)
    unfolding drop_keys
    drop_keys-Holds [] s h = h
    drop_keys-Holds ((control_ws, k) ∷ entries) s h =
        drop_keys-Holds entries (drop_key clients ready_state control_ws s)
          (drop_key-Holds control_ws s h)

  module _ (rt : Runtime) where
    request-Holds :
        (control_ws : ℕ) (r : HttpRequest) (s : Server)
        → Holds s
        → Holds (handle_tunnel_http_request rt control_ws r s)
    unfolding handle_tunnel_http_request
    request-Holds control_ws r s h = elim (Option-cases (rt.parse_url r.url)) [
      | inl bad ↦ rw (bad, handle_tunnel_http_request) (try_send-Holds rt control_ws _ s h)
      | inr (url, good) ↦ rw (good, handle_tunnel_http_request) h
    ]

    dispatch-Holds :
        (control_ws : ℕ) (message : Message) (s : Server)
        → Holds s
        → Holds (Handle.dispatch rt control_ws message s)
    unfolding Handle.dispatch Handle.handle_tunnel_web_socket_connect Handle.track_connection
        Handle.handle_tunnel_web_socket_message Handle.handle_tunnel_web_socket_close emit_message
    dispatch-Holds control_ws (http_request r) s h = request-Holds control_ws r s h
    dispatch-Holds control_ws (ws_connect id url protocols) s h =
        if_keeps Holds _ _ _ (try_send-Holds rt control_ws _ s h)
          (try_send-Holds rt control_ws _ (Handle.track_connection control_ws id s) h)
    dispatch-Holds control_ws (ws_message id content data_type) s h = ground arith
    dispatch-Holds control_ws (ws_close id code reason) s h =
        option_keeps Holds (get id s.sockets) _ s
          (λ c e. emit_close-Holds c.mock_ws code reason s h) h
    dispatch-Holds control_ws _ s h = h

    received-Holds :
        (control_ws : ℕ) (bytes : Bytes) (s : Server)
        → IsTracked s
        → Holds s
        → Holds (Handle.handle_control_message rt control_ws bytes s)
    received-Holds control_ws bytes s w h =
        let (keys, ready) = w.ready in
        let live = touch control_ws s in
        let held : Holds live = touch-Holds control_ws s h in
        handle_rule rt Holds control_ws s bytes keys ready held (λ message decoded.
          receive_rule rt Holds control_ws live keys message held
            (λ sealed opened absent confirm opens.
              get-set_ne v control_ws opened live.symmetric_keys
                (λ same. cc (ap (λ (i : ℕ). get i live.symmetric_keys) same))
              ∙ held)
            (λ nonce ciphertext k payload there envelope opens.
              dispatch-Holds control_ws payload live held))

    send_server_kx-Holds :
        (control_ws : ℕ) (keys : Keypair) (s : Server)
        → Holds s
        → Holds (send_server_kx rt control_ws keys s)
    unfolding send_server_kx announce begin_quote
    send_server_kx-Holds control_ws keys s h = ground arith

    settled-Holds :
        (control_ws : ℕ) (fetched : Option QuoteData) (s : Server)
        → Holds s
        → Holds (quote_settled rt control_ws fetched s)
    unfolding quote_settled announce finish_quote
    settled-Holds control_ws none s h = ground arith
    settled-Holds control_ws (some (intel_quote quote verifier_data runtime_data)) s h =
        ground arith
    settled-Holds control_ws (some (sev_snp_quote quote certs salt)) s h = ground arith

    handle-Holds :
        (event : Event) (s : Server)
        → IsTracked s
        → SparesSocket v s.control_clients event
        → Holds s
        → Holds (handle rt event s)
    unfolding handle respond on_hono_open on_express_control_connection heartbeat_sweep on_pong
        mock_send mock_close set_ready_state finish_quote
    handle-Holds (first_quote (intel_quote quote verifier_data runtime_data)) s w spared h = h
    handle-Holds (first_quote (sev_snp_quote quote certs salt)) s w spared h = h
    handle-Holds (opened control_ws env context keys) s w spared h =
        if_keeps Holds s.is_hono (on_hono_open rt control_ws env context keys s)
          (on_express_control_connection rt control_ws keys s)
          (send_server_kx-Holds control_ws keys _ h) (send_server_kx-Holds control_ws keys _ h)
    handle-Holds (settled control_ws fetched) s w spared h = settled-Holds control_ws fetched s h
    handle-Holds (received control_ws bytes) s w spared h = received-Holds control_ws bytes s w h
    handle-Holds (ponged control_ws) s w spared h = ground arith
    handle-Holds (lost control_ws) s w spared h =
        (on_close-Forgets control_ws s w).keys v spared ∙ h
    handle-Holds (swept tracked ready_state) s w spared h =
        let clients = or_else tracked s.control_clients in
        let asked = ping_clients clients s in
        drop_keys-Holds clients ready_state spared.0 spared.1 asked.symmetric_keys asked
          (ping_clients-Holds clients s h)
    handle-Holds (app_sent mock content) s w spared h =
        option_keeps Holds (get mock s.mocks) _ s
          (λ m e. if_keeps Holds _ _ _ (try_send-Holds rt m.control_ws _ s h) h) h
    handle-Holds (app_closed mock code reason) s w spared h =
        option_keeps Holds (get mock s.mocks) _ s
          (λ m e. if_keeps Holds _ _ _ h (
            let shut = set_ready_state mock closing m s in
            emit_close-Holds mock code reason
              (try_send rt m.control_ws (closing_event m code reason) shut)
              (try_send-Holds rt m.control_ws (closing_event m code reason) shut h)))
          h
    handle-Holds (answered control_ws request_id answer) s w spared h =
        try_send-Holds rt control_ws (http_response (response_of request_id answer)) s h

    -- The key of a socket is changed by no event, unless the socket is lost, or a sweep finds it
    -- closed or not among the clients: neither by another client_kx nor by what the application does.
    pub step-Holds :
        (now : ℕ) (event : Event) (s : Server)
        → IsTracked s
        → SparesSocket v s.control_clients event
        → get v s.symmetric_keys ≡ some key
        → get v (step rt now event s).symmetric_keys ≡ some key
    unfolding step
    step-Holds now event s w spared h =
        handle-Holds event (record s { now = now; effects = [] })
          (record { unique = w.unique; owned = w.owned; fresh = w.fresh; ready = w.ready }) spared h
