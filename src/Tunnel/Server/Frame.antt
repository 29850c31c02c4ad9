-- ===== src/Tunnel/Server/Frame.antt =====
-- What sending over a control socket leaves alone (packages/tunnel/src/server.ts).
use teekit.Common.{ℕ, ◌≡◌, ◌∙◌, arith}
use teekit.Dict.{number_key}
use teekit.Tunnel.Message.{Message}
use teekit.Tunnel.Server.{Server, Runtime}
use teekit.Tunnel.Server.Send.{touch, send_encrypted, try_send}

-- The maps of connections and mock sockets, the clients, and the key pair.
abbrev pub SameCore : Server → Server → Type 0
SameCore s t =
    (t.sockets ≡ s.sockets)
    × (t.mocks ≡ s.mocks)
    × (t.wss_clients ≡ s.wss_clients)
    × (t.next_mock ≡ s.next_mock)
    × (t.keypair ≡ s.keypair)

pub SameCore-trans : (s t u : Server) → SameCore s t → SameCore t u → SameCore s u
SameCore-trans s t u (a, b, c, d, e) (a', b', c', d', e') = (a' ∙ a, b' ∙ b, c' ∙ c, d' ∙ d, e' ∙ e)

pub touch-SameCore : (control_ws : ℕ) (s : Server) → SameCore s (touch control_ws s)
unfolding touch
touch-SameCore control_ws s = ground arith

module _ (rt : Runtime) where
  pub try_send-SameCore :
      (control_ws : ℕ) (payload : Message) (s : Server)
      → SameCore s (try_send rt control_ws payload s)
  unfolding try_send send_encrypted
  try_send-SameCore control_ws payload s = ground (arith)

  pub try_send-symmetric_keys :
      (control_ws : ℕ) (payload : Message) (s : Server)
      → (try_send rt control_ws payload s).symmetric_keys ≡ s.symmetric_keys
  unfolding try_send send_encrypted
  try_send-symmetric_keys control_ws payload s = ground arith
