-- ===== src/Tunnel/Server/Sweep/Laws.antt =====
-- What a sweep of `TunnelServer` forgets and whom it terminates (packages/tunnel/src/server.ts).
use teekit.Common.{
  ℕ, ◌≡◌, refl, ap, ◌∙◌, arith, Bool, true, false, not, ◌&&◌, ◌||◌, Option, none, List, [], ◌∷◌,
  Bool-cases, inl, inr, ◌==◌, ==_iff, if◌then◌else◌,
}
use teekit.Bytes.{Bytes}
use teekit.Dict.{number_key, Dict, get, member}
use teekit.Dict.Laws.{get-delete}
use teekit.Tunnel.Server.{Server, ReadyState}
use teekit.Tunnel.Server.Mock.{is_closed, or_else}
use teekit.Tunnel.Server.Sweep.{ping_client, ping_clients, drop_key, drop_keys, heartbeat_sweep}

-- The keys that a sweep keeps.
abbrev pub survives : List ℕ → (ℕ → ReadyState) → ℕ → Bool
survives clients ready_state v = not (is_closed (ready_state v) || not (member v clients))

ping_client-keys :
    (control_ws : ℕ) (s : Server) → (ping_client control_ws s).symmetric_keys ≡ s.symmetric_keys
unfolding ping_client
ping_client-keys control_ws s = ground arith

ping_clients-keys :
    (clients : List ℕ) (s : Server) → (ping_clients clients s).symmetric_keys ≡ s.symmetric_keys
unfolding ping_clients
ping_clients-keys [] s = refl
ping_clients-keys (control_ws ∷ clients) s =
    ping_clients-keys clients (ping_client control_ws s) ∙ ping_client-keys control_ws s

module _ (clients : List ℕ) (ready_state : ℕ → ReadyState) where
  drop_key-get :
      (v control_ws : ℕ) (s : Server)
      → get v (drop_key clients ready_state control_ws s).symmetric_keys ≡ (
          if control_ws == v && not (survives clients ready_state v)
          then none
          else get v s.symmetric_keys)
  unfolding drop_key
  drop_key-get v control_ws s =
      ground (arith, get-delete v control_ws s.symmetric_keys, ==_iff control_ws v)

  drop_keys-kept :
      (v : ℕ) (entries : Dict ℕ Bytes) (s : Server)
      → survives clients ready_state v ≡ true
      → get v (drop_keys clients ready_state entries s).symmetric_keys ≡ get v s.symmetric_keys
  unfolding drop_keys
  drop_keys-kept v [] s kept = refl
  drop_keys-kept v ((control_ws, key) ∷ entries) s kept =
      drop_keys-kept v entries (drop_key clients ready_state control_ws s) kept
      ∙ ground (arith, drop_key-get v control_ws s)

  drop_keys-none :
      (v : ℕ) (entries : Dict ℕ Bytes) (s : Server)
      → get v s.symmetric_keys ≡ none
      → get v (drop_keys clients ready_state entries s).symmetric_keys ≡ none
  unfolding drop_keys
  drop_keys-none v [] s absent = absent
  drop_keys-none v ((control_ws, key) ∷ entries) s absent =
      drop_keys-none v entries (drop_key clients ready_state control_ws s)
        (ground (arith, drop_key-get v control_ws s))

  drop_keys-dropped :
      (v : ℕ) (entries : Dict ℕ Bytes) (s : Server)
      → survives clients ready_state v ≡ false
      → (get v entries ≡ none → get v s.symmetric_keys ≡ none)
      → get v (drop_keys clients ready_state entries s).symmetric_keys ≡ none
  unfolding drop_keys get
  drop_keys-dropped v [] s gone listed = listed refl
  drop_keys-dropped v ((control_ws, key) ∷ entries) s gone listed =
      drop_keys-dropped v entries (drop_key clients ready_state control_ws s) gone
        (λ e. ground (arith, drop_key-get v control_ws s, ==_iff control_ws v))

-- After a sweep exactly those keys are left whose socket is not closed and is among the clients: of
-- the WebSocket server if there is one, else of the server itself.
pub heartbeat_sweep-keys :
    (v : ℕ) (tracked : Option (List ℕ)) (ready_state : ℕ → ReadyState) (s : Server)
    → get v (heartbeat_sweep tracked ready_state s).symmetric_keys ≡ (
        if survives (or_else tracked s.control_clients) ready_state v
        then get v s.symmetric_keys
        else none)
unfolding heartbeat_sweep
heartbeat_sweep-keys v tracked ready_state s =
    let clients = or_else tracked s.control_clients in
    let asked = ping_clients clients s in
    elim (Bool-cases (survives clients ready_state v)) [
      | inl kept ↦ rw kept (
          drop_keys-kept clients ready_state v asked.symmetric_keys asked kept
          ∙ ap (get v) (ping_clients-keys clients s))
      | inr gone ↦
          rw gone (drop_keys-dropped clients ready_state v asked.symmetric_keys asked gone (λ e. e))
    ]
