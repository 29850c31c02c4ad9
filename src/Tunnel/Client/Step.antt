-- ===== src/Tunnel/Client/Step.antt =====
-- The events of a `TunnelClient` of packages/tunnel/src/client.ts, and the states that it reaches.
use teekit.Common.{ℕ, false, Option, none, List, [], Text}
use teekit.Result.{Result, ok, err, stuck}
use teekit.Bytes.{Bytes}
use teekit.Tunnel.Message.{Content}
use teekit.Tunnel.Client.{Client, TunnelClientConfig, Reason, ClientRuntime}
use teekit.Tunnel.Client.Socket.{new_socket, connect, handle_error, socket_send, socket_close}
use teekit.Tunnel.Client.Exchange.{on_verified, on_validated, on_bound}
use teekit.Tunnel.Client.Handle.{
  ensure_connection, reconnect, on_open, on_close, on_error, on_message, close,
}
use teekit.Tunnel.Client.Request.{Resource, RequestInit, fetch, timed_out}

-- A call of the application, a continuation after a connection, an event of the control socket, or
-- a timer.
pub data Event : Type 0 where
  ensured reconnecting control_open : Event
  control_close : Option ℕ → Option Text → Event
  control_error : (message : Option Text) → Event
  control_message : Bytes → Event
  fetched : (request_id : Text) → Resource → RequestInit → Event
  request_timed_out : (request_id : Text) → Event
  socket_created : (connection_id : Text) → Event
  socket_connects : (connection_id url : Text) → List Text → Event
  socket_unconnected : (connection_id : Text) → Reason → Event
  socket_sends : (connection_id : Text) → Content → Event
  socket_closes : (connection_id : Text) → Option ℕ → Option Text → Event
  attestation_verified attestation_validated attestation_bound : (attestation : ℕ) → Event
  client_closes : Option ℕ → Option Text → Event

-- What is thrown to the application leaves the client as it is.
abbrev pub or_unchanged : Result Client → Client → Client
or_unchanged (ok c') c = c'
or_unchanged (err e) c = c
or_unchanged stuck c = c

unfoldable pub handle : ClientRuntime → Event → Client → Client
handle rt ensured c = ensure_connection c
handle rt reconnecting c = reconnect c
handle rt control_open c = on_open rt c
handle rt (control_close code reason) c = on_close rt code reason c
handle rt (control_error message) c = on_error rt message c
handle rt (control_message bytes) c = on_message rt bytes c
handle rt (fetched id resource options) c = or_unchanged (fetch rt id resource options c) c
handle rt (request_timed_out id) c = timed_out id c
handle rt (socket_created id) c = ensure_connection (new_socket id c)
handle rt (socket_connects id url protocols) c = connect rt id url protocols c
handle rt (socket_unconnected id reason) c = handle_error id reason c
handle rt (socket_sends id content) c = or_unchanged (socket_send rt id content c) c
handle rt (socket_closes id code reason) c = socket_close rt id code reason c
handle rt (attestation_verified id) c = on_verified rt id c
handle rt (attestation_validated id) c = on_validated rt id c
handle rt (attestation_bound id) c = on_bound rt id c
handle rt (client_closes code reason) c = close rt code reason c

-- One event; its effects alone are in the new state.
unfoldable pub step : ClientRuntime → Event → Client → Client
unfolding handle
step rt event c = handle rt event (record c { effects = [] })

-- `new TunnelClient(origin, config)`
unfoldable pub new_client : (origin : Text) → TunnelClientConfig → Client
new_client origin config = record {
  origin = origin;
  config = config;
  ws = none;
  channel = record {
    evidence = none;
    server_x25519_public_key = none;
    symmetric_key = none;
    report_binding_data = none;
  };
  pending_requests = [];
  web_socket_connections = [];
  connection_promise = false;
  closed = false;
  mocks = [];
  attestations = [];
  next_attestation = 0;
  key_holder = none;
  draws = 0;
  effects = [];
}

-- What the client reaches by events.
module _ (rt : ClientRuntime) (start : Client) where
  pub data Reach : Client → Type 0 where
    here : Reach start
    next : {c : Client} (event : Event) → Reach c → Reach (step rt event c)
