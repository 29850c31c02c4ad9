-- ===== src/Tunnel/Server/Sweep/Heartbeat.antt =====
-- What a sweep does to a socket that is silent (`#heartbeatSweep` of packages/tunnel/src/server.ts).
use teekit.Common.{
  ℕ, ◌≡◌, ◌≢◌, refl, ◌∙◌, arith, true, false, some, List, [], ◌∷◌, Bool-cases, Option-cases,
  false_is_true, inl, inr, ◌==◌, ==_iff, ◌⊎◌,
}
use teekit.Bytes.{Bytes}
use teekit.Dict.{number_key, Dict, get, set, member}
use teekit.Dict.Laws.{get-set_self, get-set_ne, get-delete}
use teekit.Tunnel.Server.{Server, Liveness, ReadyState, Effect, terminated, pinged}
use teekit.Tunnel.Server.Sweep.{
  is_dead, ping_client, ping_clients, drop_key, drop_keys, heartbeat_sweep,
}
use teekit.Tunnel.Server.Sweep.Laws.{survives}
use teekit.Tunnel.Server.Send.{emit}
use teekit.Tunnel.Server.Rules.{if_keeps}

abbrev pub HasEffect : Effect → List Effect → Type 0
HasEffect e [] = ⊥
HasEffect e (x ∷ effects) = (x ≡ e) ⊎ HasEffect e effects

-- The last ping of the socket has no answer yet.
abbrev pub IsUnanswered : ℕ → Server → Type 0
IsUnanswered v s = (l : Liveness) × (get v s.liveness ≡ some l) × (l.is_alive ≡ false)

abbrev ask : ℕ → Liveness → Server → Server
ask w l s = emit (pinged w) (record s { liveness = set w l s.liveness })

ping_rule :
    (P : Server → Type 0) (w : ℕ) (s : Server)
    → ((l : Liveness) → P (ask w l s))
    → P (emit (terminated w) s)
    → P (ping_client w s)
unfolding ping_client
ping_rule P w s asked dead = elim (Option-cases (get w s.liveness)) [
  | inl new ↦ rw (new, ping_client) (asked (record { is_alive = true; last_activity_ms = s.now }))
  | inr (l, found) ↦
      rw (found, ping_client)
        (if_keeps P (is_dead l s) (emit (terminated w) s) (ask w (record l { is_alive = false }) s)
          dead (asked (record l { is_alive = false })))
]

module _ (v : ℕ) where
  abbrev IsEnded : Server → Type 0
  IsEnded s = HasEffect (terminated v) s.effects

  -- What was done stays done.
  ping_client-IsEnded : (w : ℕ) (s : Server) → IsEnded s → IsEnded (ping_client w s)
  ping_client-IsEnded w s h = ping_rule IsEnded w s (λ l. inr h) (inr h)

  ping_clients-IsEnded :
      (clients : List ℕ) (s : Server) → IsEnded s → IsEnded (ping_clients clients s)
  unfolding ping_clients
  ping_clients-IsEnded [] s h = h
  ping_clients-IsEnded (w ∷ clients) s h =
      ping_clients-IsEnded clients (ping_client w s) (ping_client-IsEnded w s h)

  ping_client-others :
      (w : ℕ) (s : Server) → w ≢ v → get v (ping_client w s).liveness ≡ get v s.liveness
  ping_client-others w s apart =
      ping_rule (λ t. get v t.liveness ≡ get v s.liveness) w s
        (λ l. get-set_ne v w l s.liveness apart) refl

  ping_client-dead : (s : Server) → IsUnanswered v s → IsEnded (ping_client v s)
  unfolding ping_client is_dead
  ping_client-dead s (l, found, silent) = rw (found, ping_client) (rw silent (inl refl))

  ping_client-asked :
      (s : Server) {l : Liveness}
      → get v s.liveness ≡ some l
      → IsEnded (ping_client v s) ⊎ IsUnanswered v (ping_client v s)
  unfolding ping_client
  ping_client-asked s {l} found = elim (Bool-cases (is_dead l s)) [
    | inl dead ↦ rw (found, ping_client) (rw dead (inl (inl refl)))
    | inr alive ↦
        let l' : Liveness = record l { is_alive = false } in
        rw (found, ping_client) (rw alive (inr (l', get-set_self v l' s.liveness, refl)))
  ]

  -- A socket that owes an answer is terminated when its turn comes.
  ping_clients-dead :
      (clients : List ℕ) (s : Server)
      → IsUnanswered v s
      → member v clients ≡ true
      → IsEnded (ping_clients clients s)
  unfolding ping_clients member
  ping_clients-dead [] s owed there = cc
  ping_clients-dead (w ∷ clients) s (l, found, silent) there = elim (Bool-cases (w == v)) [
    | inl same ↦
        let e : w ≡ v = (==_iff w v).0 same in
        ping_clients-IsEnded clients (ping_client w s)
          (rw e (ping_client-dead s (l, found, silent)))
    | inr apart ↦
        ping_clients-dead clients (ping_client w s)
          (l, ping_client-others w s (λ e. false_is_true apart ((==_iff w v).1 e)) ∙ found, silent)
          (rw apart at there)
  ]

  ping_clients-owed :
      (clients : List ℕ) (s : Server)
      → IsUnanswered v s
      → IsEnded (ping_clients clients s) ⊎ IsUnanswered v (ping_clients clients s)
  unfolding ping_clients
  ping_clients-owed [] s owed = inr owed
  ping_clients-owed (w ∷ clients) s (l, found, silent) = elim (Bool-cases (w == v)) [
    | inl same ↦
        let e : w ≡ v = (==_iff w v).0 same in
        inl (
          ping_clients-IsEnded clients (ping_client w s)
            (rw e (ping_client-dead s (l, found, silent))))
    | inr apart ↦
        ping_clients-owed clients (ping_client w s)
          (l, ping_client-others w s (λ e. false_is_true apart ((==_iff w v).1 e)) ∙ found, silent)
  ]

  ping_clients-asked :
      (clients : List ℕ) (s : Server) {l : Liveness}
      → get v s.liveness ≡ some l
      → member v clients ≡ true
      → IsEnded (ping_clients clients s) ⊎ IsUnanswered v (ping_clients clients s)
  unfolding ping_clients member
  ping_clients-asked [] s found there = cc
  ping_clients-asked (w ∷ clients) s found there = elim (Bool-cases (w == v)) [
    | inl same ↦
        let e : w ≡ v = (==_iff w v).0 same in
        elim (ping_client-asked s found) [
          | inl ended ↦ inl (ping_clients-IsEnded clients (ping_client w s) (rw e ended))
          | inr owed ↦ ping_clients-owed clients (ping_client w s) (rw e owed)
        ]
    | inr apart ↦
        ping_clients-asked clients (ping_client w s)
          (ping_client-others w s (λ e. false_is_true apart ((==_iff w v).1 e)) ∙ found)
          (rw apart at there)
  ]

  module _ (clients : List ℕ) (ready_state : ℕ → ReadyState) where
    drop_key-effects : (w : ℕ) (s : Server) → (drop_key clients ready_state w s).effects ≡ s.effects
    unfolding drop_key
    drop_key-effects w s = ground arith

    drop_key-liveness :
        (w : ℕ) (s : Server)
        → survives clients ready_state v ≡ true
        → get v (drop_key clients ready_state w s).liveness ≡ get v s.liveness
    unfolding drop_key
    drop_key-liveness w s kept = ground (arith, get-delete v w s.liveness, ==_iff w v)

    drop_keys-effects :
        (entries : Dict ℕ Bytes) (s : Server)
        → (drop_keys clients ready_state entries s).effects ≡ s.effects
    unfolding drop_keys
    drop_keys-effects [] s = refl
    drop_keys-effects ((w, key) ∷ entries) s =
        drop_keys-effects entries (drop_key clients ready_state w s) ∙ drop_key-effects w s

    drop_keys-liveness :
        (entries : Dict ℕ Bytes) (s : Server)
        → survives clients ready_state v ≡ true
        → get v (drop_keys clients ready_state entries s).liveness ≡ get v s.liveness
    unfolding drop_keys
    drop_keys-liveness [] s kept = refl
    drop_keys-liveness ((w, key) ∷ entries) s kept =
        drop_keys-liveness entries (drop_key clients ready_state w s) kept
        ∙ drop_key-liveness w s kept

pub sweep-asked :
    (v : ℕ) (clients : List ℕ) (ready_state : ℕ → ReadyState) (s : Server) {l : Liveness}
    → get v s.liveness ≡ some l
    → survives clients ready_state v ≡ true
    → let t = heartbeat_sweep (some clients) ready_state s in
      HasEffect (terminated v) t.effects ⊎ IsUnanswered v t
unfolding heartbeat_sweep
sweep-asked v clients ready_state s found kept =
    let asked = ping_clients clients s in
    let there : member v clients ≡ true = ground arith in
    elim (ping_clients-asked v clients s found there) [
      | inl ended ↦
          inl (rw (drop_keys-effects v clients ready_state asked.symmetric_keys asked) ended)
      | inr (l', found', silent) ↦ inr (
        l',
        drop_keys-liveness v clients ready_state asked.symmetric_keys asked kept ∙ found',
        silent,
      )
    ]

pub sweep-dead :
    (v : ℕ) (clients : List ℕ) (ready_state : ℕ → ReadyState) (s : Server)
    → IsUnanswered v s
    → member v clients ≡ true
    → HasEffect (terminated v) (heartbeat_sweep (some clients) ready_state s).effects
unfolding heartbeat_sweep
sweep-dead v clients ready_state s owed there =
    let asked = ping_clients clients s in
    rw (drop_keys-effects v clients ready_state asked.symmetric_keys asked)
      (ping_clients-dead v clients s owed there)
