-- ===== src/Tunnel/Server/Loop.antt =====
-- The loop by which a `TunnelServer` closes the connections of a control socket that is lost
-- (packages/tunnel/src/server.ts).
use teekit.Common.{
  ℕ, ◌≡◌, ◌≢◌, refl, sym, ap, ◌∙◌, arith, true, false, Option, none, some, [], ◌∷◌, List, All, Text,
  codes, Bool-cases, Option-cases, false_is_true, inl, inr, ◌==◌, ==_iff,
}
use mathlib.Core.Path.{subst}
use teekit.Dict.{number_key, Dict, get, member, remove}
use teekit.Dict.Laws.{
  get-set, get-set_ne, get-delete_ne, get-delete-none, member-remove, member-remove_ne,
}
use teekit.Tunnel.Server.{Server, Connection, MockWebSocket, closed}
use teekit.Tunnel.Server.Mock.{is_closed, emit_close}
use teekit.Tunnel.Server.Close.{close_connection, close_connections}
use teekit.Tunnel.Server.Tracked.{Mocks, Keeps, Keeps-refl, Keeps-trans, emit_close-SameButMocks}

-- The mock socket is closed, if it is there.
abbrev pub IsShut : ℕ → Mocks → Type 0
IsShut x mocks = (m : MockWebSocket) → get x mocks ≡ some m → is_closed m.ready_state ≡ true

emit_close-shuts :
    (mock : ℕ) (code : Option ℕ) (reason : Option Text) (s : Server)
    → IsShut mock (emit_close mock code reason s).mocks
unfolding emit_close
emit_close-shuts mock code reason s m found = elim (Option-cases (get mock s.mocks)) [
  | inl missing ↦ absurd (cc (rw (missing, emit_close) at found))
  | inr (o, there) ↦ elim (Bool-cases (is_closed o.ready_state)) [
    | inl already ↦ ground (arith, get-set mock mock (record o { ready_state = closed }) s.mocks)
    | inr live ↦ ground (arith, get-set mock mock (record o { ready_state = closed }) s.mocks)
  ]
]

emit_close-get_ne :
    (x mock : ℕ) (code : Option ℕ) (reason : Option Text) (s : Server)
    → mock ≢ x
    → get x (emit_close mock code reason s).mocks ≡ get x s.mocks
unfolding emit_close
emit_close-get_ne x mock code reason s apart = elim (Option-cases (get mock s.mocks)) [
  | inl missing ↦ rw (missing, emit_close) refl
  | inr (o, there) ↦ elim (Bool-cases (is_closed o.ready_state)) [
    | inl already ↦ rw (there, emit_close) (rw already refl)
    | inr live ↦
        rw (there, emit_close)
          (rw live (get-set_ne x mock (record o { ready_state = closed }) s.mocks apart))
  ]
]

pub emit_close-IsShut :
    (x mock : ℕ) (code : Option ℕ) (reason : Option Text) (s : Server)
    → IsShut x s.mocks
    → IsShut x (emit_close mock code reason s).mocks
emit_close-IsShut x mock code reason s before = elim (Bool-cases (mock == x)) [
  | inl same ↦
      subst (λ (y : ℕ). IsShut y (emit_close mock code reason s).mocks) ((==_iff mock x).0 same)
        (emit_close-shuts mock code reason s)
  | inr apart ↦ λ m found. before m (
      sym (emit_close-get_ne x mock code reason s (λ h. false_is_true apart ((==_iff mock x).1 h)))
      ∙ found)
]

-- What the loop does to the state, for the entries that it goes over.
pub record Told (control_ws : ℕ) (entries : Dict Text Connection) (s t : Server) : Type 0 where
  pub sockets : t.sockets ≡ s.sockets
  pub next_mock : t.next_mock ≡ s.next_mock
  pub keypair : t.keypair ≡ s.keypair
  pub liveness : t.liveness ≡ s.liveness
  pub control_clients : t.control_clients ≡ s.control_clients
  pub extra_contexts : t.extra_contexts ≡ s.extra_contexts
  pub mocks : Keeps s.mocks t.mocks
  pub shut : (x : ℕ) → IsShut x s.mocks → IsShut x t.mocks
  pub clients :
      (x : ℕ)
      → All (λ e. e.1.control_ws ≡ control_ws → e.1.mock_ws ≢ x) entries
      → member x t.wss_clients ≡ member x s.wss_clients
  pub gone : (x : ℕ) → member x s.wss_clients ≡ false → member x t.wss_clients ≡ false
  pub ended :
      All
        (λ e.
          e.1.control_ws ≡ control_ws
          → IsShut e.1.mock_ws t.mocks × (member e.1.mock_ws t.wss_clients ≡ false))
        entries
  pub keys : (v : ℕ) → v ≢ control_ws → get v t.symmetric_keys ≡ get v s.symmetric_keys
  pub keyless : get control_ws s.symmetric_keys ≡ none → get control_ws t.symmetric_keys ≡ none

Told-refl : (control_ws : ℕ) (s : Server) → Told control_ws [] s s
Told-refl control_ws s = record {
  sockets = refl;
  next_mock = refl;
  keypair = refl;
  liveness = refl;
  control_clients = refl;
  extra_contexts = refl;
  mocks = Keeps-refl s.mocks;
  shut = λ x h. h;
  clients = λ x h. refl;
  gone = λ x h. h;
  ended = tt;
  keys = λ v h. refl;
  keyless = λ h. h;
}

pub emit_close-rest :
    (mock : ℕ) (code : Option ℕ) (reason : Option Text) (s : Server)
    → let t = emit_close mock code reason s in
      (t.symmetric_keys ≡ s.symmetric_keys)
      × (t.liveness ≡ s.liveness)
      × (t.control_clients ≡ s.control_clients)
      × (t.extra_contexts ≡ s.extra_contexts)
unfolding emit_close
emit_close-rest mock code reason s = ground arith

member-remove-false :
    (x y : ℕ) (members : List ℕ)
    → (y ≢ x → member x members ≡ false)
    → member x (remove y members) ≡ false
member-remove-false x y members h = elim (Bool-cases (y == x)) [
  | inl same ↦ rw (member-remove x y members, same) refl
  | inr apart ↦
      rw (member-remove x y members, apart) (h (λ e. false_is_true apart ((==_iff y x).1 e)))
]

Told-close :
    (control_ws : ℕ) (id : Text) (c : Connection) (entries : Dict Text Connection) (s t : Server)
    → c.control_ws ≡ control_ws
    → Told control_ws entries (close_connection control_ws c s) t
    → Told control_ws ((id, c) ∷ entries) s t
unfolding close_connection
Told-close control_ws id c entries s t mine w =
    let code = some 1006 in
    let reason = some (codes "tunnel closed") in
    let told = emit_close c.mock_ws code reason s in
    let same = emit_close-SameButMocks c.mock_ws code reason s in
    let (keys, liveness, clients, contexts) = emit_close-rest c.mock_ws code reason s in
    let known : (x : ℕ) → member x told.wss_clients ≡ member x s.wss_clients =
      λ x. ap (member x) same.2 in
    record {
      sockets = w.sockets ∙ same.0;
      next_mock = w.next_mock ∙ same.3;
      keypair = w.keypair ∙ same.4;
      liveness = w.liveness ∙ liveness;
      control_clients = w.control_clients ∙ clients;
      extra_contexts = w.extra_contexts ∙ contexts;
      mocks = Keeps-trans s.mocks told.mocks t.mocks same.1 w.mocks;
      shut = λ x h. w.shut x (emit_close-IsShut x c.mock_ws code reason s h);
      clients = λ x h.
          w.clients x h.1 ∙ (member-remove_ne x c.mock_ws told.wss_clients (h.0 mine) ∙ known x);
      gone = λ x h. w.gone x (member-remove-false x c.mock_ws told.wss_clients (λ a. known x ∙ h));
      ended = (
        λ h. (
          w.shut c.mock_ws (emit_close-shuts c.mock_ws code reason s),
          w.gone c.mock_ws
              (member-remove-false c.mock_ws c.mock_ws told.wss_clients (λ a. absurd (a refl))),
        ),
        w.ended,
      );
      keys = λ v h.
          w.keys v h
          ∙ (get-delete_ne v c.control_ws told.symmetric_keys (λ e. h (sym e ∙ mine))
              ∙ ap (get v) keys);
      keyless = λ h. w.keyless (
          get-delete-none control_ws c.control_ws told.symmetric_keys
            (ap (get control_ws) keys ∙ h));
    }

Told-skip :
    (control_ws : ℕ) (id : Text) (c : Connection) (entries : Dict Text Connection) (s t : Server)
    → c.control_ws ≢ control_ws
    → Told control_ws entries s t
    → Told control_ws ((id, c) ∷ entries) s t
Told-skip control_ws id c entries s t apart w = record {
  sockets = w.sockets;
  next_mock = w.next_mock;
  keypair = w.keypair;
  liveness = w.liveness;
  control_clients = w.control_clients;
  extra_contexts = w.extra_contexts;
  mocks = w.mocks;
  shut = w.shut;
  clients = λ x h. w.clients x h.1;
  gone = w.gone;
  ended = (λ e. absurd (apart e), w.ended);
  keys = w.keys;
  keyless = w.keyless;
}

pub close_connections-Told :
    (control_ws : ℕ) (entries : Dict Text Connection) (s : Server)
    → Told control_ws entries s (close_connections control_ws entries s)
unfolding close_connections
close_connections-Told control_ws [] s = Told-refl control_ws s
close_connections-Told control_ws ((id, c) ∷ entries) s =
    elim (Bool-cases (c.control_ws == control_ws)) [
      | inl mine ↦ rw mine (
          Told-close control_ws id c entries s _ ((==_iff c.control_ws control_ws).0 mine)
            (close_connections-Told control_ws entries (close_connection control_ws c s)))
      | inr apart ↦ rw apart (
          Told-skip control_ws id c entries s _
            (λ e. false_is_true apart ((==_iff c.control_ws control_ws).1 e))
            (close_connections-Told control_ws entries s))
    ]
