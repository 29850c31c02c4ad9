-- ===== src/Tunnel/Server/Cleanup.antt =====
-- What a lost control socket leaves behind in a `TunnelServer`: `#onHonoClose` and the "close"
-- listener of packages/tunnel/src/server.ts.
use teekit.Common.{
  ℕ, ◌≡◌, ◌≢◌, sym, ap, ◌∙◌, arith, true, false, false_is_true, none, some, All, Text,
}
use teekit.Dict.{text_key, number_key, get, member}
use teekit.Dict.Laws.{get-delete_self, get-delete_ne, member-remove_self}
use teekit.Dict.Entries.{All-get, All-imp, All-and}
use teekit.Tunnel.Server.{Server, Connection, MockWebSocket}
use teekit.Tunnel.Server.Close.{on_close, forget_socket, close_connections, to_remove, delete_all}
use teekit.Tunnel.Server.Tracked.{Owned, Owned-Keeps, IsFresh-Keeps, IsTracked}
use teekit.Tunnel.Server.Loop.{IsShut, Told, close_connections-Told}
use teekit.Tunnel.Server.Removal.{
  All-delete_all, delete_all-IsUnique, get-delete_all, to_remove-All, to_remove-others,
}

-- The mock socket of a connection of another control socket is not that of `x`, if `x` is mine.
distinct_mocks :
    (s : Server) (e d : Text × Connection)
    → Owned s.mocks s.wss_clients e
    → Owned s.mocks s.wss_clients d
    → d.1.control_ws ≢ e.1.control_ws
    → e.1.mock_ws ≢ d.1.mock_ws
distinct_mocks s e d (o, found, id, ws, known) (o', found', id', ws', known') apart same =
    let one : o ≡ o' = ground (arith, ap (λ (i : ℕ). get i s.mocks) same) in
    apart (sym ws' ∙ (sym (ap (λ (m : MockWebSocket). m.control_ws) one) ∙ ws))

-- What the loss of a control socket makes of the state `s`.
pub record Forgets (control_ws : ℕ) (s t : Server) : Type 0 where
  pub key : get control_ws t.symmetric_keys ≡ none
  pub liveness : get control_ws t.liveness ≡ none
  pub context : get control_ws t.extra_contexts ≡ none
  pub client : member control_ws t.control_clients ≡ false
  pub connections : All (λ e. e.1.control_ws ≢ control_ws) t.sockets
  pub ended :
      (id : Text) (c : Connection)
      → get id s.sockets ≡ some c
      → c.control_ws ≡ control_ws
      → IsShut c.mock_ws t.mocks × (member c.mock_ws t.wss_clients ≡ false)
  pub others :
      (id : Text) (c : Connection)
      → get id s.sockets ≡ some c
      → c.control_ws ≢ control_ws
      → get id t.sockets ≡ some c
  pub keys : (v : ℕ) → v ≢ control_ws → get v t.symmetric_keys ≡ get v s.symmetric_keys

module _ (control_ws : ℕ) (s : Server) (w : IsTracked s) where
  abbrev looped : Server
  looped = close_connections control_ws s.sockets (forget_socket control_ws s)

  told : Told control_ws s.sockets (forget_socket control_ws s) looped
  told = close_connections-Told control_ws s.sockets (forget_socket control_ws s)

  -- The mock socket of another control socket's connection is none of those that are closed.
  others :
      (e : Text × Connection)
      → Owned s.mocks s.wss_clients e
      → e.1.control_ws ≢ control_ws
      → All (λ d. d.1.control_ws ≡ control_ws → d.1.mock_ws ≢ e.1.mock_ws) s.sockets
  others e mine apart =
      All-imp (Owned s.mocks s.wss_clients) _ s.sockets
        (λ d theirs at. distinct_mocks s d e theirs mine (λ h. apart (h ∙ at))) w.owned

  -- What is kept belongs to another control socket, and its mock socket is still known.
  kept :
      All
        (λ e. Owned looped.mocks looped.wss_clients e × (e.1.control_ws ≢ control_ws))
        (delete_all (to_remove control_ws s.sockets) s.sockets)
  unfolding forget_socket
  kept =
      All-delete_all
        (λ e.
          (e.1.control_ws ≡ control_ws → member e.0 (to_remove control_ws s.sockets) ≡ true)
          × Owned s.mocks s.wss_clients e)
        _ (to_remove control_ws s.sockets) s.sockets
        (λ e out (listed, (m, found, id, ws, known)).
          let apart : e.1.control_ws ≢ control_ws = λ at. false_is_true out (listed at) in
          (
            Owned-Keeps s.mocks looped.mocks looped.wss_clients e told.mocks (
              m,
              found,
              id,
              ws,
              told.clients e.1.mock_ws (others e (m, found, id, ws, known) apart) ∙ known,
            ),
            apart,
          ))
        (All-and _ _ s.sockets (to_remove-All control_ws s.sockets) w.owned)

  pub on_close-IsTracked : IsTracked (on_close control_ws s)
  unfolding on_close
  on_close-IsTracked = record {
    unique =
        rw told.sockets (delete_all-IsUnique (to_remove control_ws s.sockets) s.sockets w.unique);
    owned = rw told.sockets (
        All-imp _ (Owned looped.mocks looped.wss_clients)
          (delete_all (to_remove control_ws s.sockets) s.sockets) (λ e h. h.0) kept);
    fresh = rw told.next_mock (IsFresh-Keeps s.mocks looped.mocks s.next_mock told.mocks w.fresh);
    ready = rw told.keypair w.ready;
  }

  -- When a control socket is lost, the server has no key, no liveness, no context and no connection
  -- left for it; the mock socket of each connection that it had is closed and is no client of the
  -- mock server any more; connections and keys of other control sockets stay as they are.
  pub on_close-Forgets : Forgets control_ws s (on_close control_ws s)
  unfolding on_close
  on_close-Forgets = record {
    key = told.keyless (get-delete_self control_ws s.symmetric_keys);
    liveness = rw told.liveness (get-delete_self control_ws s.liveness);
    context = rw told.extra_contexts (get-delete_self control_ws s.extra_contexts);
    client = rw told.control_clients (member-remove_self control_ws s.control_clients);
    connections = rw told.sockets (
        All-imp _ (λ e. e.1.control_ws ≢ control_ws)
          (delete_all (to_remove control_ws s.sockets) s.sockets) (λ e h. h.1) kept);
    ended = λ id c found mine.
        All-get
          (λ e.
            e.1.control_ws ≡ control_ws
            → IsShut e.1.mock_ws looped.mocks × (member e.1.mock_ws looped.wss_clients ≡ false))
          id s.sockets told.ended found mine;
    others = λ id c found apart. rw told.sockets (
        get-delete_all id (to_remove control_ws s.sockets) s.sockets
          (to_remove-others id control_ws c s.sockets w.unique found apart)
        ∙ found);
    keys = λ v apart.
        told.keys v apart ∙ get-delete_ne v control_ws s.symmetric_keys (λ e. apart (sym e));
  }
