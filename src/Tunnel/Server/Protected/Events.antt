-- ===== src/Tunnel/Server/Protected/Events.antt =====
-- Whatever happens to a `TunnelServer`, it sends nothing in the clear but its announcement
-- (packages/tunnel/src/server.ts).
use teekit.Common.{
  ℕ, ◌≡◌, refl, arith, Option, none, some, List, [], ◌∷◌, All, Text, Option-cases, inl, inr, ◌==◌,
  if◌then◌else◌,
}
use teekit.Bytes.{Bytes}
use teekit.Dict.{number_key, text_key, Dict}
use teekit.Tunnel.Message.{http_response}
use teekit.Tunnel.Server.{Server, Connection, Keypair, ReadyState, Runtime, control_closed}
use teekit.Tunnel.Server.Send.{emit}
use teekit.Tunnel.Server.Mock.{or_else}
use teekit.Tunnel.Server.Request.{respond, response_of}
use teekit.Tunnel.Server.Quote.{
  QuoteData, intel_quote, sev_snp_quote, begin_quote, finish_quote, announce, kx_announce,
  send_server_kx, quote_settled, on_hono_open, on_express_control_connection,
}
use teekit.Tunnel.Server.Close.{close_connection, close_connections, forget_socket, on_close}
use teekit.Tunnel.Server.Sweep.{
  on_pong, ping_client, ping_clients, drop_key, drop_keys, heartbeat_sweep,
}
use teekit.Tunnel.Server.Step.{
  Event, first_quote, opened, settled, received, ponged, lost, swept, app_sent, app_closed,
  answered, handle, step,
}
use teekit.Tunnel.Server.Rules.{if_keeps}
use teekit.Tunnel.Server.Tracked.{IsTracked}
use teekit.Tunnel.Server.Protected.{
  IsProtected, IsSafe, IsQuiet, try_send-IsQuiet, emit_close-IsQuiet,
}
use teekit.Tunnel.Server.Protected.Handlers.{
  handle_control_message-IsQuiet, mock_send-IsQuiet, mock_close-IsQuiet,
}

module _ (rt : Runtime) (keys : Dict ℕ Bytes) where
  announce-IsQuiet :
      (control_ws : ℕ) (s : Server) → IsQuiet rt keys s → IsQuiet rt keys (announce rt control_ws s)
  unfolding announce
  announce-IsQuiet control_ws s quiet = elim (Option-cases (kx_announce s)) [
    | inl missing ↦ rw (missing, announce) (tt, quiet)
    | inr (kx, there) ↦ rw (there, announce) (inl (kx, refl), quiet)
  ]

  send_server_kx-IsQuiet :
      (control_ws : ℕ) (keypair : Keypair) (s : Server)
      → IsQuiet rt keys s
      → IsQuiet rt keys (send_server_kx rt control_ws keypair s)
  unfolding send_server_kx
  send_server_kx-IsQuiet control_ws keypair s quiet =
      if_keeps (IsQuiet rt keys) s.key_ready (announce rt control_ws s) (begin_quote keypair s)
        (announce-IsQuiet control_ws s quiet) quiet

  finish_quote-effects :
      (fetched : QuoteData) (s : Server) → (finish_quote fetched s).effects ≡ s.effects
  unfolding finish_quote
  finish_quote-effects (intel_quote quote verifier_data runtime_data) s = refl
  finish_quote-effects (sev_snp_quote quote certs salt) s = refl

  settled-IsQuiet :
      (control_ws : ℕ) (fetched : Option QuoteData) (s : Server)
      → IsQuiet rt keys s
      → IsQuiet rt keys (quote_settled rt control_ws fetched s)
  unfolding quote_settled
  settled-IsQuiet control_ws none s quiet =
      announce-IsQuiet control_ws (emit (control_closed control_ws 1011) s) (tt, quiet)
  settled-IsQuiet control_ws (some fetched) s quiet =
      announce-IsQuiet control_ws (finish_quote fetched s)
        (rw (finish_quote-effects fetched s) quiet)

  close_connection-IsQuiet :
      (control_ws : ℕ) (c : Connection) (s : Server)
      → IsQuiet rt keys s
      → IsQuiet rt keys (close_connection control_ws c s)
  unfolding close_connection
  close_connection-IsQuiet control_ws c s quiet = emit_close-IsQuiet rt keys c.mock_ws _ _ s quiet

  close_connections-IsQuiet :
      (control_ws : ℕ) (entries : Dict Text Connection) (s : Server)
      → IsQuiet rt keys s
      → IsQuiet rt keys (close_connections control_ws entries s)
  unfolding close_connections
  close_connections-IsQuiet control_ws [] s quiet = quiet
  close_connections-IsQuiet control_ws ((id, c) ∷ entries) s quiet =
      let mine = c.control_ws == control_ws in
      let shut = close_connection control_ws c s in
      close_connections-IsQuiet control_ws entries (if mine then shut else s) (
        if_keeps (IsQuiet rt keys) mine shut s (close_connection-IsQuiet control_ws c s quiet)
          quiet)

  ping_client-IsQuiet :
      (control_ws : ℕ) (s : Server) → IsQuiet rt keys s → IsQuiet rt keys (ping_client control_ws s)
  unfolding ping_client
  ping_client-IsQuiet control_ws s quiet = ground arith

  ping_clients-IsQuiet :
      (clients : List ℕ) (s : Server) → IsQuiet rt keys s → IsQuiet rt keys (ping_clients clients s)
  unfolding ping_clients
  ping_clients-IsQuiet [] s quiet = quiet
  ping_clients-IsQuiet (control_ws ∷ clients) s quiet =
      ping_clients-IsQuiet clients (ping_client control_ws s)
        (ping_client-IsQuiet control_ws s quiet)

  drop_key-IsQuiet :
      (clients : List ℕ) (ready_state : ℕ → ReadyState) (control_ws : ℕ) (s : Server)
      → IsQuiet rt keys s
      → IsQuiet rt keys (drop_key clients ready_state control_ws s)
  unfolding drop_key
  drop_key-IsQuiet clients ready_state control_ws s quiet = ground arith

  drop_keys-IsQuiet :
      (clients : List ℕ) (ready_state : ℕ → ReadyState) (entries : Dict ℕ Bytes) (s : Server)
      → IsQuiet rt keys s
      → IsQuiet rt keys (drop_keys clients ready_state entries s)
  unfolding drop_keys
  drop_keys-IsQuiet clients ready_state [] s quiet = quiet
  drop_keys-IsQuiet clients ready_state ((control_ws, key) ∷ entries) s quiet =
      drop_keys-IsQuiet clients ready_state entries (drop_key clients ready_state control_ws s)
        (drop_key-IsQuiet clients ready_state control_ws s quiet)

module _ (rt : Runtime) where
  handle-IsQuiet :
      (event : Event) (s : Server)
      → IsTracked s
      → IsSafe rt s.symmetric_keys s
      → IsQuiet rt s.symmetric_keys (handle rt event s)
  unfolding handle respond on_hono_open on_express_control_connection on_close heartbeat_sweep
      on_pong
  handle-IsQuiet (first_quote fetched) s w safe =
      rw (finish_quote-effects rt s.symmetric_keys fetched s) safe.1
  handle-IsQuiet (opened control_ws env context keypair) s w safe =
      if_keeps (IsQuiet rt s.symmetric_keys) s.is_hono
        (on_hono_open rt control_ws env context keypair s)
        (on_express_control_connection rt control_ws keypair s)
        (send_server_kx-IsQuiet rt s.symmetric_keys control_ws keypair _ safe.1)
        (send_server_kx-IsQuiet rt s.symmetric_keys control_ws keypair _ safe.1)
  handle-IsQuiet (settled control_ws fetched) s w safe =
      settled-IsQuiet rt s.symmetric_keys control_ws fetched s safe.1
  handle-IsQuiet (received control_ws bytes) s w safe =
      let (keypair, ready) = w.ready in
      handle_control_message-IsQuiet rt s.symmetric_keys control_ws bytes s keypair ready safe
  handle-IsQuiet (ponged control_ws) s w safe = ground arith
  handle-IsQuiet (lost control_ws) s w safe =
      close_connections-IsQuiet rt s.symmetric_keys control_ws s.sockets
        (forget_socket control_ws s) safe.1
  handle-IsQuiet (swept tracked ready_state) s w safe =
      let clients = or_else tracked s.control_clients in
      let asked = ping_clients clients s in
      drop_keys-IsQuiet rt s.symmetric_keys clients ready_state asked.symmetric_keys asked
        (ping_clients-IsQuiet rt s.symmetric_keys clients s safe.1)
  handle-IsQuiet (app_sent mock content) s w safe =
      mock_send-IsQuiet rt s.symmetric_keys mock content s safe
  handle-IsQuiet (app_closed mock code reason) s w safe =
      mock_close-IsQuiet rt s.symmetric_keys mock code reason s safe
  handle-IsQuiet (answered control_ws request_id answer) s w safe =
      try_send-IsQuiet rt s.symmetric_keys control_ws
        (http_response (response_of request_id answer)) s safe

  -- Whatever the event, each message that the server sends over a control socket is its
  -- announcement, or an envelope whose ciphertext is made under the key that it has for that socket
  -- before the event.
  pub step-IsProtected :
      (now : ℕ) (event : Event) (s : Server)
      → IsTracked s
      → All (IsProtected rt s.symmetric_keys) (step rt now event s).effects
  unfolding step
  step-IsProtected now event s w =
      handle-IsQuiet event (record s { now = now; effects = [] })
        (record { unique = w.unique; owned = w.owned; fresh = w.fresh; ready = w.ready }) (refl, tt)
