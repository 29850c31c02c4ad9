-- ===== src/Tunnel/Server/Step.antt =====
-- The events of a `TunnelServer` (packages/tunnel/src/server.ts) and what it does in each.
use teekit.Common.{ℕ, false, Bool, Option, none, List, [], Text, if◌then◌else◌}
use teekit.Bytes.{Bytes}
use teekit.Tunnel.Message.{Content}
use teekit.Tunnel.Server.{Server, Keypair, ReadyState, Runtime}
use teekit.Tunnel.Server.Mock.{mock_send, mock_close}
use teekit.Tunnel.Server.Request.{Answer, respond}
use teekit.Tunnel.Server.Quote.{
  QuoteData, begin_quote, finish_quote, quote_settled, on_hono_open, on_express_control_connection,
}
use teekit.Tunnel.Server.Handle.{handle_control_message}
use teekit.Tunnel.Server.Close.{on_close}
use teekit.Tunnel.Server.Sweep.{on_pong, heartbeat_sweep}

pub data Event : Type 0 where
  -- the quote that the constructor asked for has arrived
  first_quote : QuoteData → Event
  -- a control connection is opened, with the key pair that is generated if there is no quote yet
  opened : (control_ws env extra_context : ℕ) → Keypair → Event
  -- the quote that a connection waits for
  settled : (control_ws : ℕ) → Option QuoteData → Event
  received : (control_ws : ℕ) → Bytes → Event
  ponged : (control_ws : ℕ) → Event
  lost : (control_ws : ℕ) → Event
  swept : (tracked : Option (List ℕ)) → (ℕ → ReadyState) → Event
  -- the application sends on a mock socket, closes one, or answers a request
  app_sent : (mock : ℕ) → Content → Event
  app_closed : (mock : ℕ) → Option ℕ → Option Text → Event
  answered : (control_ws : ℕ) → (request_id : Text) → Answer → Event

module _ (rt : Runtime) where
  unfoldable pub handle : Event → Server → Server
  handle (first_quote fetched) s = finish_quote fetched s
  handle (opened control_ws env extra_context keys) s =
      if s.is_hono
      then on_hono_open rt control_ws env extra_context keys s
      else on_express_control_connection rt control_ws keys s
  handle (settled control_ws fetched) s = quote_settled rt control_ws fetched s
  handle (received control_ws bytes) s = handle_control_message rt control_ws bytes s
  handle (ponged control_ws) s = on_pong control_ws s
  handle (lost control_ws) s = on_close control_ws s
  handle (swept tracked ready_state) s = heartbeat_sweep tracked ready_state s
  handle (app_sent mock content) s = mock_send rt mock content s
  handle (app_closed mock code reason) s = mock_close rt mock code reason s
  handle (answered control_ws request_id answer) s = respond rt control_ws request_id answer s

  -- One event, at a time.
  unfoldable pub step : ℕ → Event → Server → Server
  step now event s = handle event (record s { now = now; effects = [] })

  pub data Reach (start : Server) : Server → Type 0 where
    here : Reach start start
    next : {s : Server} (now : ℕ) (event : Event) → Reach start s → Reach start (step now event s)

-- The constructor, which asks for a quote for its first key pair at once.
unfoldable pub new_server : Bool → Keypair → (heartbeat_timeout : ℕ) → Server
unfolding begin_quote
new_server is_hono keys heartbeat_timeout = begin_quote keys (record {
  is_hono = is_hono;
  quote = none;
  verifier_data = none;
  runtime_data = none;
  sev_snp_data = none;
  keypair = none;
  key_ready = false;
  heartbeat_timeout = heartbeat_timeout;
  wss_clients = [];
  control_clients = [];
  sockets = [];
  symmetric_keys = [];
  liveness = [];
  envs = [];
  extra_contexts = [];
  mocks = [];
  next_mock = 0;
  draws = 0;
  now = 0;
  effects = [];
})
