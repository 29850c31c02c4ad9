-- ===== src/Tunnel/Server/Invariant.antt =====
-- The maps of a `TunnelServer` fit together in every state that it can reach
-- (packages/tunnel/src/server.ts).
use teekit.Common.{ℕ, refl, arith, Bool, true, Option, none, some, List, [], ◌∷◌}
use teekit.Bytes.{Bytes}
use teekit.Dict.{number_key, Dict, get, set, add}
use teekit.Tunnel.Server.{Server, Keypair, ReadyState, Runtime, control_closed}
use teekit.Tunnel.Server.Send.{emit}
use teekit.Tunnel.Server.Mock.{or_else}
use teekit.Tunnel.Server.Request.{respond}
use teekit.Tunnel.Server.Rules.{if_keeps}
use teekit.Tunnel.Server.Quote.{
  QuoteData, intel_quote, sev_snp_quote, begin_quote, finish_quote, announce, send_server_kx,
  quote_settled, on_hono_open, on_express_control_connection,
}
use teekit.Tunnel.Server.Sweep.{
  on_pong, ping_client, ping_clients, drop_key, drop_keys, heartbeat_sweep,
}
use teekit.Tunnel.Server.Step.{
  Event, first_quote, opened, settled, received, ponged, lost, swept, app_sent, app_closed,
  answered, handle, step, Reach, here, next, new_server,
}
use teekit.Tunnel.Server.Frame.{SameCore, SameCore-trans}
use teekit.Tunnel.Server.Tracked.{IsTracked, IsTracked-same}
use teekit.Tunnel.Server.Keep.{
  try_send-IsTracked, handle_control_message-IsTracked, mock_send-IsTracked, mock_close-IsTracked,
}
use teekit.Tunnel.Server.Cleanup.{on_close-IsTracked}

ping_client-SameCore : (control_ws : ℕ) (s : Server) → SameCore s (ping_client control_ws s)
unfolding ping_client
ping_client-SameCore control_ws s = ground arith

ping_clients-SameCore : (clients : List ℕ) (s : Server) → SameCore s (ping_clients clients s)
unfolding ping_clients
ping_clients-SameCore [] s = (refl, refl, refl, refl, refl)
ping_clients-SameCore (control_ws ∷ clients) s =
    SameCore-trans s (ping_client control_ws s) (ping_clients clients (ping_client control_ws s))
      (ping_client-SameCore control_ws s) (ping_clients-SameCore clients (ping_client control_ws s))

module _ (clients : List ℕ) (ready_state : ℕ → ReadyState) where
  drop_key-SameCore :
      (control_ws : ℕ) (s : Server) → SameCore s (drop_key clients ready_state control_ws s)
  unfolding drop_key
  drop_key-SameCore control_ws s = ground arith

  drop_keys-SameCore :
      (keys : Dict ℕ Bytes) (s : Server) → SameCore s (drop_keys clients ready_state keys s)
  unfolding drop_keys
  drop_keys-SameCore [] s = (refl, refl, refl, refl, refl)
  drop_keys-SameCore ((control_ws, key) ∷ keys) s =
      SameCore-trans s (drop_key clients ready_state control_ws s)
        (drop_keys clients ready_state keys (drop_key clients ready_state control_ws s))
        (drop_key-SameCore control_ws s)
        (drop_keys-SameCore keys (drop_key clients ready_state control_ws s))

sweep-SameCore :
    (tracked : Option (List ℕ)) (ready_state : ℕ → ReadyState) (s : Server)
    → SameCore s (heartbeat_sweep tracked ready_state s)
unfolding heartbeat_sweep
sweep-SameCore tracked ready_state s =
    let clients = or_else tracked s.control_clients in
    let asked = ping_clients clients s in
    SameCore-trans s asked (drop_keys clients ready_state asked.symmetric_keys asked)
      (ping_clients-SameCore clients s)
      (drop_keys-SameCore clients ready_state asked.symmetric_keys asked)

on_pong-SameCore : (control_ws : ℕ) (s : Server) → SameCore s (on_pong control_ws s)
unfolding on_pong
on_pong-SameCore control_ws s = ground arith

finish_quote-SameCore : (fetched : QuoteData) (s : Server) → SameCore s (finish_quote fetched s)
unfolding finish_quote
finish_quote-SameCore (intel_quote quote verifier_data runtime_data) s =
    (refl, refl, refl, refl, refl)
finish_quote-SameCore (sev_snp_quote quote certs salt) s = (refl, refl, refl, refl, refl)

begin_quote-IsTracked : (keys : Keypair) (s : Server) → IsTracked s → IsTracked (begin_quote keys s)
unfolding begin_quote
begin_quote-IsTracked keys s w = record {
  unique = w.unique;
  owned = w.owned;
  fresh = w.fresh;
  ready = (keys, refl);
}

module _ (rt : Runtime) where
  announce-IsTracked :
      (control_ws : ℕ) (s : Server) → IsTracked s → IsTracked (announce rt control_ws s)
  unfolding announce
  announce-IsTracked control_ws s = IsTracked-same s (announce rt control_ws s) (ground arith)

  send_server_kx-IsTracked :
      (control_ws : ℕ) (keys : Keypair) (s : Server)
      → IsTracked s
      → IsTracked (send_server_kx rt control_ws keys s)
  unfolding send_server_kx
  send_server_kx-IsTracked control_ws keys s w =
      if_keeps IsTracked s.key_ready _ _ (announce-IsTracked control_ws s w)
        (begin_quote-IsTracked keys s w)

  opened-IsTracked :
      (control_ws env context : ℕ) (keys : Keypair) (s : Server)
      → IsTracked s
      → IsTracked (handle rt (opened control_ws env context keys) s)
  unfolding handle on_hono_open on_express_control_connection
  opened-IsTracked control_ws env context keys s w =
      let hono : Server = record s {
        control_clients = add control_ws s.control_clients;
        envs = set control_ws env s.envs;
        extra_contexts = set control_ws context s.extra_contexts;
      } in
      let express : Server = record s {
        control_clients = add control_ws s.control_clients;
        liveness = set control_ws (record { is_alive = true; last_activity_ms = s.now }) s.liveness;
      } in
      if_keeps IsTracked s.is_hono (send_server_kx rt control_ws keys hono)
        (send_server_kx rt control_ws keys express)
        (send_server_kx-IsTracked control_ws keys hono
          (record { unique = w.unique; owned = w.owned; fresh = w.fresh; ready = w.ready }))
        (send_server_kx-IsTracked control_ws keys express
          (record { unique = w.unique; owned = w.owned; fresh = w.fresh; ready = w.ready }))

  settled-IsTracked :
      (control_ws : ℕ) (fetched : Option QuoteData) (s : Server)
      → IsTracked s
      → IsTracked (quote_settled rt control_ws fetched s)
  unfolding quote_settled
  settled-IsTracked control_ws none s w =
      announce-IsTracked control_ws (emit (control_closed control_ws 1011) s)
        (record { unique = w.unique; owned = w.owned; fresh = w.fresh; ready = w.ready })
  settled-IsTracked control_ws (some fetched) s w =
      announce-IsTracked control_ws (finish_quote fetched s)
        (IsTracked-same s (finish_quote fetched s) (finish_quote-SameCore fetched s) w)

  handle-IsTracked : (event : Event) (s : Server) → IsTracked s → IsTracked (handle rt event s)
  unfolding handle respond
  handle-IsTracked (first_quote fetched) s w =
      IsTracked-same s (finish_quote fetched s) (finish_quote-SameCore fetched s) w
  handle-IsTracked (opened control_ws env context keys) s w =
      opened-IsTracked control_ws env context keys s w
  handle-IsTracked (settled control_ws fetched) s w = settled-IsTracked control_ws fetched s w
  handle-IsTracked (received control_ws bytes) s w =
      handle_control_message-IsTracked rt control_ws bytes s w
  handle-IsTracked (ponged control_ws) s w =
      IsTracked-same s (on_pong control_ws s) (on_pong-SameCore control_ws s) w
  handle-IsTracked (lost control_ws) s w = on_close-IsTracked control_ws s w
  handle-IsTracked (swept tracked ready_state) s w =
      IsTracked-same s (heartbeat_sweep tracked ready_state s)
        (sweep-SameCore tracked ready_state s) w
  handle-IsTracked (app_sent mock content) s w = mock_send-IsTracked rt mock content s w
  handle-IsTracked (app_closed mock code reason) s w = mock_close-IsTracked rt mock code reason s w
  handle-IsTracked (answered control_ws request_id answer) s w =
      try_send-IsTracked rt control_ws _ s w

  -- Every event keeps the invariant of the maps.
  pub step-IsTracked :
      (now : ℕ) (event : Event) (s : Server) → IsTracked s → IsTracked (step rt now event s)
  unfolding step
  step-IsTracked now event s w =
      handle-IsTracked event (record s { now = now; effects = [] })
        (record { unique = w.unique; owned = w.owned; fresh = w.fresh; ready = w.ready })

  -- In every state that a new server reaches, no connection id stands twice in `sockets`; each
  -- connection has a mock socket that `wss` knows and that belongs to its id and its control socket;
  -- no mock socket has a number that is still to be given out; and the server has a key pair.
  pub Reach-IsTracked :
      (is_hono : Bool) (keys : Keypair) (timeout : ℕ) {s : Server}
      → Reach rt (new_server is_hono keys timeout) s
      → IsTracked s
  unfolding new_server get
  Reach-IsTracked is_hono keys timeout here = record {
    unique = tt;
    owned = tt;
    fresh = λ x m e. cc;
    ready = (keys, refl);
  }
  Reach-IsTracked is_hono keys timeout (next now event r) =
      step-IsTracked now event _ (Reach-IsTracked is_hono keys timeout r)
