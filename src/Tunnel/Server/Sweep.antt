-- ===== src/Tunnel/Server/Sweep.antt =====
-- `#heartbeatSweep` of packages/tunnel/src/server.ts, and the "pong" listener. Only a server for
-- Express has the timer; its sockets can be pinged and terminated.
pub mod Laws
pub mod Heartbeat
pub mod Owing
pub mod Silence
use teekit.Common.{
  ℕ, ◌-◌, Bool, true, false, not, ◌||◌, Option, none, some, List, [], ◌∷◌, map, ltb, if◌then◌else◌,
}
use teekit.Bytes.{Bytes}
use teekit.Dict.{number_key, Dict, get, set, delete, member}
use teekit.Tunnel.Server.{Server, Liveness, ReadyState, pinged, terminated}
use teekit.Tunnel.Server.Send.{emit}
use teekit.Tunnel.Server.Mock.{is_closed, or_else}

unfoldable pub on_pong : ℕ → Server → Server
on_pong control_ws s = elim (get control_ws s.liveness) [
  | none ↦ s
  | some l ↦ record s {
    liveness = set control_ws (record { is_alive = true; last_activity_ms = s.now }) s.liveness;
  }
]

-- A socket that has not answered the last ping, or was silent for too long.
unfoldable pub is_dead : Liveness → Server → Bool
is_dead l s = not l.is_alive || ltb s.heartbeat_timeout (s.now - l.last_activity_ms)

unfoldable pub ping_client : ℕ → Server → Server
unfolding is_dead
ping_client control_ws s = elim (get control_ws s.liveness) [
  | none ↦ emit (pinged control_ws) (record s {
    liveness = set control_ws (record { is_alive = true; last_activity_ms = s.now }) s.liveness;
  })
  | some l ↦
      if is_dead l s
      then emit (terminated control_ws) s
      else emit (pinged control_ws)
          (record s { liveness = set control_ws (record l { is_alive = false }) s.liveness })
]

unfoldable pub ping_clients : List ℕ → Server → Server
ping_clients [] s = s
ping_clients (control_ws ∷ clients) s = ping_clients clients (ping_client control_ws s)

-- The keys whose socket is closed, or not among the clients.
unfoldable pub drop_key : (clients : List ℕ) → (ℕ → ReadyState) → ℕ → Server → Server
drop_key clients ready_state control_ws s =
    if is_closed (ready_state control_ws) || not (member control_ws clients)
    then record s {
      symmetric_keys = delete control_ws s.symmetric_keys;
      liveness = delete control_ws s.liveness;
    }
    else s

unfoldable pub drop_keys : (clients : List ℕ) → (ℕ → ReadyState) → Dict ℕ Bytes → Server → Server
unfolding drop_key
drop_keys clients ready_state [] s = s
drop_keys clients ready_state ((control_ws, key) ∷ entries) s =
    drop_keys clients ready_state entries (drop_key clients ready_state control_ws s)

-- `tracked` are the clients of the WebSocket server, if there is one, and `ready_state` the states of
-- the sockets at the time.
unfoldable pub heartbeat_sweep : (tracked : Option (List ℕ)) → (ℕ → ReadyState) → Server → Server
heartbeat_sweep tracked ready_state s =
    let clients = or_else tracked s.control_clients in
    let asked = ping_clients clients s in drop_keys clients ready_state asked.symmetric_keys asked
