-- ===== src/Tunnel/Server/Sweep/Silence.antt =====
-- A socket that does not answer a ping is terminated (`#heartbeatSweep` of packages/tunnel/src/server.ts).
use teekit.Common.{ℕ, ◌≡◌, ◌≢◌, ap, ◌∙◌, arith, true, Option, none, some, List, [], inl, inr, ◌⊎◌}
use teekit.Dict.{number_key, text_key, get, set, member}
use teekit.Dict.Laws.{get-set_ne, get-delete_ne}
use teekit.Tunnel.Message.{http_response}
use teekit.Tunnel.Server.{Server, Liveness, Keypair, ReadyState, Runtime, terminated, closing}
use teekit.Tunnel.Server.Send.{try_send}
use teekit.Tunnel.Server.Mock.{mock_send, mock_close, closing_event, set_ready_state}
use teekit.Tunnel.Server.Request.{respond, response_of}
use teekit.Tunnel.Server.Quote.{
  QuoteData, intel_quote, sev_snp_quote, begin_quote, finish_quote, announce, send_server_kx,
  quote_settled, on_hono_open, on_express_control_connection,
}
use teekit.Tunnel.Server.Close.{on_close, forget_socket}
use teekit.Tunnel.Server.Sweep.{on_pong}
use teekit.Tunnel.Server.Sweep.Laws.{survives}
use teekit.Tunnel.Server.Sweep.Heartbeat.{HasEffect, IsUnanswered, sweep-asked, sweep-dead}
use teekit.Tunnel.Server.Step.{
  Event, first_quote, opened, settled, received, ponged, lost, swept, app_sent, app_closed,
  answered, handle, step,
}
use teekit.Tunnel.Server.Rules.{if_keeps, option_keeps}
use teekit.Tunnel.Server.Loop.{close_connections-Told}
use teekit.Tunnel.Server.Tracked.{IsTracked}
use teekit.Tunnel.Server.Invariant.{step-IsTracked}
use teekit.Tunnel.Server.Sweep.Owing.{
  same-IsUnanswered, emit_close-IsUnanswered, try_send-IsUnanswered, received-IsUnanswered,
}

-- The event is neither a pong, the opening nor the loss of the socket, nor a sweep.
abbrev pub IsQuiet : ℕ → Event → Type 0
IsQuiet v (ponged control_ws) = control_ws ≢ v
IsQuiet v (opened control_ws env context keys) = control_ws ≢ v
IsQuiet v (lost control_ws) = control_ws ≢ v
IsQuiet v (swept tracked ready_state) = ⊥
IsQuiet v _ = Unit {0}

-- What a server reaches by such events.
module _ (rt : Runtime) (v : ℕ) (start : Server) where
  pub data Meanwhile : Server → Type 0 where
    at_once : Meanwhile start
    later :
        {s : Server} (now : ℕ) (event : Event)
        → IsQuiet v event
        → Meanwhile s
        → Meanwhile (step rt now event s)

module _ (v : ℕ) (rt : Runtime) where
  send_server_kx-liveness :
      (control_ws : ℕ) (keys : Keypair) (s : Server)
      → (send_server_kx rt control_ws keys s).liveness ≡ s.liveness
  unfolding send_server_kx announce begin_quote
  send_server_kx-liveness control_ws keys s = ground arith

  settled-liveness :
      (control_ws : ℕ) (fetched : Option QuoteData) (s : Server)
      → (quote_settled rt control_ws fetched s).liveness ≡ s.liveness
  unfolding quote_settled announce finish_quote
  settled-liveness control_ws none s = ground arith
  settled-liveness control_ws (some (intel_quote quote verifier_data runtime_data)) s = ground arith
  settled-liveness control_ws (some (sev_snp_quote quote certs salt)) s = ground arith

  opened-IsUnanswered :
      (control_ws env context : ℕ) (keys : Keypair) (s : Server)
      → control_ws ≢ v
      → IsUnanswered v s
      → IsUnanswered v (handle rt (opened control_ws env context keys) s)
  unfolding handle on_hono_open on_express_control_connection
  opened-IsUnanswered control_ws env context keys s apart h =
      let live : Liveness = record { is_alive = true; last_activity_ms = s.now } in
      if_keeps (IsUnanswered v) s.is_hono (on_hono_open rt control_ws env context keys s)
        (on_express_control_connection rt control_ws keys s)
        (same-IsUnanswered v s (on_hono_open rt control_ws env context keys s)
          (ap (get v) (send_server_kx-liveness control_ws keys _)) h)
        (same-IsUnanswered v s (on_express_control_connection rt control_ws keys s)
          (ap (get v) (send_server_kx-liveness control_ws keys _)
            ∙ get-set_ne v control_ws live s.liveness apart)
          h)

  lost-IsUnanswered :
      (control_ws : ℕ) (s : Server)
      → control_ws ≢ v
      → IsUnanswered v s
      → IsUnanswered v (on_close control_ws s)
  unfolding on_close forget_socket
  lost-IsUnanswered control_ws s apart h =
      let told = close_connections-Told control_ws s.sockets (forget_socket control_ws s) in
      same-IsUnanswered v s (on_close control_ws s)
        (ap (get v) told.liveness ∙ get-delete_ne v control_ws s.liveness apart) h

  ponged-IsUnanswered :
      (control_ws : ℕ) (s : Server)
      → control_ws ≢ v
      → IsUnanswered v s
      → IsUnanswered v (on_pong control_ws s)
  unfolding on_pong
  ponged-IsUnanswered control_ws s apart h =
      let live : Liveness = record { is_alive = true; last_activity_ms = s.now } in
      option_keeps (IsUnanswered v) (get control_ws s.liveness) _ s
        (λ l e.
          same-IsUnanswered v s (record s { liveness = set control_ws live s.liveness })
            (get-set_ne v control_ws live s.liveness apart) h)
        h

  handle-IsUnanswered :
      (event : Event) (s : Server)
      → IsTracked s
      → IsQuiet v event
      → IsUnanswered v s
      → IsUnanswered v (handle rt event s)
  unfolding handle respond mock_send mock_close set_ready_state finish_quote
  handle-IsUnanswered (first_quote (intel_quote quote verifier_data runtime_data)) s w quiet h = h
  handle-IsUnanswered (first_quote (sev_snp_quote quote certs salt)) s w quiet h = h
  handle-IsUnanswered (opened control_ws env context keys) s w quiet h =
      opened-IsUnanswered control_ws env context keys s quiet h
  handle-IsUnanswered (settled control_ws fetched) s w quiet h =
      same-IsUnanswered v s (quote_settled rt control_ws fetched s)
        (ap (get v) (settled-liveness control_ws fetched s)) h
  handle-IsUnanswered (received control_ws bytes) s w quiet h =
      received-IsUnanswered v rt control_ws bytes s w h
  handle-IsUnanswered (ponged control_ws) s w quiet h = ponged-IsUnanswered control_ws s quiet h
  handle-IsUnanswered (lost control_ws) s w quiet h = lost-IsUnanswered control_ws s quiet h
  handle-IsUnanswered (swept tracked ready_state) s w quiet h = absurd quiet
  handle-IsUnanswered (app_sent mock content) s w quiet h =
      option_keeps (IsUnanswered v) (get mock s.mocks) _ s
        (λ m e. if_keeps (IsUnanswered v) _ _ _ (try_send-IsUnanswered v rt m.control_ws _ s h) h) h
  handle-IsUnanswered (app_closed mock code reason) s w quiet h =
      option_keeps (IsUnanswered v) (get mock s.mocks) _ s
        (λ m e. if_keeps (IsUnanswered v) _ _ _ h (
          let shut = set_ready_state mock closing m s in
          emit_close-IsUnanswered v mock code reason
            (try_send rt m.control_ws (closing_event m code reason) shut)
            (try_send-IsUnanswered v rt m.control_ws (closing_event m code reason) shut h)))
        h
  handle-IsUnanswered (answered control_ws request_id answer) s w quiet h =
      try_send-IsUnanswered v rt control_ws (http_response (response_of request_id answer)) s h

  Meanwhile-IsTracked :
      (start : Server) {s : Server} → IsTracked start → Meanwhile rt v start s → IsTracked s
  Meanwhile-IsTracked start w at_once = w
  Meanwhile-IsTracked start w (later {s} now event quiet m) =
      step-IsTracked rt now event s (Meanwhile-IsTracked start w m)

  Meanwhile-IsUnanswered :
      (start : Server) {s : Server}
      → IsTracked start
      → IsUnanswered v start
      → Meanwhile rt v start s
      → IsUnanswered v s
  unfolding step
  Meanwhile-IsUnanswered start w h at_once = h
  Meanwhile-IsUnanswered start w h (later {s} now event quiet m) =
      let t = Meanwhile-IsTracked start w m in
      handle-IsUnanswered event (record s { now = now; effects = [] })
        (record { unique = t.unique; owned = t.owned; fresh = t.fresh; ready = t.ready }) quiet
        (Meanwhile-IsUnanswered start w h m)

-- A client whose liveness is known, and that is not closed and among the clients when a sweep ends,
-- is terminated by this sweep, or else by the next, if it is still among the clients and has not
-- answered the ping: whatever else is between the two, the client's own messages and all that other
-- sockets and the application do included, but for the opening or the loss of the client itself.
pub swept-terminates :
    (rt : Runtime) (v now next : ℕ) (clients clients' : List ℕ)
    (ready_state ready_state' : ℕ → ReadyState) (s u : Server) {l : Liveness}
    → IsTracked s
    → get v s.liveness ≡ some l
    → survives clients ready_state v ≡ true
    → member v clients' ≡ true
    → Meanwhile rt v (step rt now (swept (some clients) ready_state) s) u
    → HasEffect (terminated v) (step rt now (swept (some clients) ready_state) s).effects
      ⊎ HasEffect (terminated v) (step rt next (swept (some clients') ready_state') u).effects
unfolding step handle
swept-terminates rt v now next clients clients' ready_state ready_state' s u w found kept there m =
    let start : Server = record s { now = now; effects = [] } in
    elim (sweep-asked v clients ready_state start found kept) [
      | inl ended ↦ inl ended
      | inr owed ↦
          let t = step rt now (swept (some clients) ready_state) s in
          let tracked = step-IsTracked rt now (swept (some clients) ready_state) s w in
          inr (
            sweep-dead v clients' ready_state' (record u { now = next; effects = [] })
              (Meanwhile-IsUnanswered v rt t tracked owed m) there)
    ]
