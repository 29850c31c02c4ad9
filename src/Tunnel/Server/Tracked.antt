-- ===== src/Tunnel/Server/Tracked.antt =====
-- The invariant of the maps of a `TunnelServer` (packages/tunnel/src/server.ts).
use teekit.Common.{
  ℕ, ◌<◌, ◌≡◌, refl, ap, arith, true, Option, some, List, All, Text, Bool-cases, Option-cases, inl,
  inr, ==_iff, ◌==◌,
}
use teekit.Dict.{number_key, text_key, Dict, get, set, member}
use teekit.Dict.Laws.{get-set}
use teekit.Dict.Keys.{IsUnique}
use teekit.Dict.Entries.{All-imp}
use teekit.Tunnel.Server.{Server, Connection, MockWebSocket, Keypair, ReadyState, closed}
use teekit.Tunnel.Server.Mock.{is_closed, set_ready_state, emit_close}
use teekit.Tunnel.Server.Frame.{SameCore}

abbrev pub Mocks : Type 0
Mocks = Dict ℕ MockWebSocket

-- A tracked connection has a mock socket, which the application knows, and which belongs to the
-- same connection and control socket.
abbrev pub Owned : Mocks → List ℕ → Text × Connection → Type 0
Owned mocks clients e =
    (m : MockWebSocket) × (get e.1.mock_ws mocks ≡ some m)
    × (m.connection_id ≡ e.0)
    × (m.control_ws ≡ e.1.control_ws)
    × (member e.1.mock_ws clients ≡ true)

abbrev pub IsFresh : Mocks → ℕ → Type 0
IsFresh mocks next = (x : ℕ) (m : MockWebSocket) → get x mocks ≡ some m → x < next

pub record IsTracked (s : Server) : Type 0 where
  pub unique : IsUnique s.sockets
  pub owned : All (Owned s.mocks s.wss_clients) s.sockets
  pub fresh : IsFresh s.mocks s.next_mock
  pub ready : (keys : Keypair) × (s.keypair ≡ some keys)

pub IsTracked-same : (s t : Server) → SameCore s t → IsTracked s → IsTracked t
IsTracked-same s t (sockets, mocks, clients, next, keypair) w = record {
  unique = rw sockets w.unique;
  owned = rw (sockets, mocks, clients) w.owned;
  fresh = rw (mocks, next) w.fresh;
  ready = rw keypair w.ready;
}

-- Mock sockets change their ready state alone.
abbrev pub KeepsMock : Mocks → Mocks → ℕ → Type 0
KeepsMock mocks mocks' x =
    ((m : MockWebSocket)
      → get x mocks ≡ some m
      → (m' : MockWebSocket) × (get x mocks' ≡ some m')
        × (m'.connection_id ≡ m.connection_id)
        × (m'.control_ws ≡ m.control_ws))
    × ((m' : MockWebSocket) → get x mocks' ≡ some m' → (m : MockWebSocket) × (get x mocks ≡ some m))

abbrev pub Keeps : Mocks → Mocks → Type 0
Keeps mocks mocks' = (x : ℕ) → KeepsMock mocks mocks' x

pub Keeps-refl : (mocks : Mocks) → Keeps mocks mocks
Keeps-refl mocks x = (λ m e. (m, e, refl, refl), λ m e. (m, e))

pub Keeps-trans : (a b c : Mocks) → Keeps a b → Keeps b c → Keeps a c
Keeps-trans a b c f g x = (
  λ m e. let (n, e', i, j) = (f x).0 m e in let (o, e'', i', j') = (g x).0 n e' in (o, e'', cc, cc),
  λ o e. let (n, e') = (g x).1 o e in (f x).1 n e',
)

Keeps-set :
    (mock : ℕ) (state : ReadyState) (m : MockWebSocket) (mocks : Mocks)
    → get mock mocks ≡ some m
    → Keeps mocks (set mock (record m { ready_state = state }) mocks)
Keeps-set mock state m mocks e x = elim (Bool-cases (mock == x)) [
  | inl same ↦
      let place : mock ≡ x = (==_iff mock x).0 same in
      (
        λ n f.
            let one : m ≡ n = ground (arith, ap (λ (i : ℕ). get i mocks) place) in
            (
              record m { ready_state = state },
              rw (get-set x mock (record m { ready_state = state }) mocks, same),
              rw one refl,
              rw one refl,
            ),
        λ n f. (m, rw (← place) e),
      )
  | inr other ↦ (
    λ n f. (n, rw (get-set x mock (record m { ready_state = state }) mocks, other) f, refl, refl),
    λ n f. (n, ground (arith, get-set x mock (record m { ready_state = state }) mocks)),
  )
]

pub Owned-Keeps :
    (mocks mocks' : Mocks) (clients : List ℕ) (e : Text × Connection)
    → Keeps mocks mocks'
    → Owned mocks clients e
    → Owned mocks' clients e
Owned-Keeps mocks mocks' clients e keeps (m, found, id, ws, known) =
    let (m', found', id', ws') = (keeps e.1.mock_ws).0 m found in (m', found', cc, cc, known)

pub IsFresh-Keeps :
    (mocks mocks' : Mocks) (next : ℕ)
    → Keeps mocks mocks'
    → IsFresh mocks next
    → IsFresh mocks' next
IsFresh-Keeps mocks mocks' next keeps fresh x m e = let (n, f) = (keeps x).1 m e in fresh x n f

-- The end of a connection changes mock sockets alone.
abbrev pub SameButMocks : Server → Server → Type 0
SameButMocks s t =
    (t.sockets ≡ s.sockets)
    × Keeps s.mocks t.mocks
    × (t.wss_clients ≡ s.wss_clients)
    × (t.next_mock ≡ s.next_mock)
    × (t.keypair ≡ s.keypair)

pub emit_close-SameButMocks :
    (mock : ℕ) (code : Option ℕ) (reason : Option Text) (s : Server)
    → SameButMocks s (emit_close mock code reason s)
unfolding emit_close
emit_close-SameButMocks mock code reason s = elim (Option-cases (get mock s.mocks)) [
  | inl missing ↦ rw (missing, emit_close) (refl, Keeps-refl s.mocks, refl, refl, refl)
  | inr (m, found) ↦ elim (Bool-cases (is_closed m.ready_state)) [
    | inl already ↦ rw (found, emit_close, already) (refl, Keeps-refl s.mocks, refl, refl, refl)
    | inr live ↦
        rw (found, emit_close, live) (refl, Keeps-set mock closed m s.mocks found, refl, refl, refl)
  ]
]

pub IsTracked-mocks : (s t : Server) → SameButMocks s t → IsTracked s → IsTracked t
IsTracked-mocks s t (sockets, keeps, clients, next, keypair) w = record {
  unique = rw sockets w.unique;
  owned =
      rw (sockets, clients)
        (All-imp (Owned s.mocks s.wss_clients) (Owned t.mocks s.wss_clients) s.sockets
          (λ e. Owned-Keeps s.mocks t.mocks s.wss_clients e keeps) w.owned);
  fresh = rw next (IsFresh-Keeps s.mocks t.mocks s.next_mock keeps w.fresh);
  ready = rw keypair w.ready;
}

pub set_ready_state-IsTracked :
    (mock : ℕ) (state : ReadyState) (m : MockWebSocket) (s : Server)
    → get mock s.mocks ≡ some m
    → IsTracked s
    → IsTracked (set_ready_state mock state m s)
unfolding set_ready_state
set_ready_state-IsTracked mock state m s found =
    IsTracked-mocks s (set_ready_state mock state m s)
      (refl, Keeps-set mock state m s.mocks found, refl, refl, refl)
