-- ===== src/Tunnel/Client/Secured/Sound.antt =====
-- What holds of the waiting `server_kx` handlers of a `TunnelClient` (packages/tunnel/src/client.ts).
use teekit.Common.{
  ℕ, ◌≡◌, sym, ◌∙◌, Option, none, some, inl, inr, ◌==◌, ==_iff, Bool-cases, false_is_true,
}
use teekit.Result.{ok}
use teekit.Bytes.{Bytes}
use teekit.Dict.{number_key, Dict, get, set, delete}
use teekit.Dict.Laws.{get-set_self, get-set_ne, get-delete_self, get-delete_ne}
use teekit.Tunnel.Client.{
  Channel, TunnelClientConfig, Attestation, verifying, validating, checking, Opening, Task,
  ClientRuntime,
}
use teekit.Tunnel.Message.{KxAnnounce}
use teekit.Tunnel.Client.Binding.{binding_data}
use teekit.Tunnel.Client.Attest.{task_of, validate, require_strategies, check_bound}
use teekit.Tunnel.Client.Attest.Verified.{IsVerified}
use teekit.Tunnel.Client.Secured.{IsSealed}

pub some_injective : {A : Type 0} {a b : A} → some a ≡ some b → a ≡ b
some_injective e = cc

module _ (rt : ClientRuntime) (config : TunnelClientConfig) where
  -- The verifiers have accepted the evidence, and the key is drawn and sealed.
  abbrev pub IsReady : Opening → Type 0
  IsReady o =
      IsVerified rt config.mode o.message o.verified
      × IsSealed rt o
      × (require_strategies o.verified ≡ ok tt)

  -- `symmetric_key` and `server_key` are the fields of the client, set last by `holder`.
  module _ (symmetric_key server_key : Option Bytes) (holder : Option ℕ) where
    -- The fields of a handler that was the last to set them are its own.
    abbrev pub IsOwn : ℕ → Opening → Type 0
    IsOwn id o =
        holder ≡ some id
        → (symmetric_key ≡ some o.symmetric_key) × (server_key ≡ some o.message.x25519_public_key)

    -- A check that succeeds did so with fields that were the handler's own, if they still are.
    abbrev pub IsChecked : ℕ → Opening → Type 0
    IsChecked id o =
        (checked : Channel) × IsReady o
        × (validate rt o.verified ≡ ok tt)
        × (check_bound rt config.x25519_binding o.verified checked ≡ ok tt)
        × (holder ≡ some id
            → (symmetric_key ≡ some o.symmetric_key)
              × (checked.server_x25519_public_key ≡ some o.message.x25519_public_key))

    abbrev pub IsStageSound : ℕ → Attestation → Type 0
    IsStageSound id (verifying message task) = task_of config.mode (binding_data message) ≡ ok task
    IsStageSound id (validating o) = IsReady o × IsOwn id o
    IsStageSound id (checking o answer) = answer ≡ ok tt → IsChecked id o

    abbrev pub AreSound : Dict ℕ Attestation → Type 0
    AreSound attestations =
        (id : ℕ) (a : Attestation) → get id attestations ≡ some a → IsStageSound id a

    pub set-AreSound :
        (id : ℕ) (a : Attestation) (attestations : Dict ℕ Attestation)
        → AreSound attestations
        → IsStageSound id a
        → AreSound (set id a attestations)
    set-AreSound id a attestations all_sound new j b found = elim (Bool-cases (id == j)) [
      | inl same ↦
          let e : id ≡ j = (==_iff id j).0 same in
          let now : a ≡ b =
            some_injective (sym (get-set_self id a attestations) ∙ (rw (← e) at found)) in
          rw (← e, ← now) new
      | inr apart ↦ all_sound j b (
          sym (get-set_ne j id a attestations (λ e. false_is_true apart ((==_iff id j).1 e)))
          ∙ found)
    ]

    pub delete-AreSound :
        (id : ℕ) (attestations : Dict ℕ Attestation)
        → AreSound attestations
        → AreSound (delete id attestations)
    delete-AreSound id attestations all_sound j b found = elim (Bool-cases (id == j)) [
      | inl same ↦
          let e : id ≡ j = (==_iff id j).0 same in
          let gone : none ≡ some b = sym (get-delete_self id attestations) ∙ (rw (← e) at found) in
          absurd (cc)
      | inr apart ↦ all_sound j b (
          sym (get-delete_ne j id attestations (λ e. false_is_true apart ((==_iff id j).1 e)))
          ∙ found)
    ]

  -- Other fields concern those handlers alone that wait for the verifiers.
  module _ (symmetric_key server_key symmetric_key' server_key' : Option Bytes)
      (holder holder' : Option ℕ) where
    stage-moved :
        (id : ℕ) (a : Attestation)
        → (holder' ≡ some id
            → (message : KxAnnounce) × (task : Task) × (a ≡ verifying message task))
        → IsStageSound symmetric_key server_key holder id a
        → IsStageSound symmetric_key' server_key' holder' id a
    stage-moved id (verifying message task) early sound = sound
    stage-moved id (validating o) early (ready, own) =
        (ready, λ h. let (message, task, e) = early h in absurd (cc))
    stage-moved id (checking o answer) early sound = λ yes.
        let (checked, ready, valid, bound, own) = sound yes in
        (checked, ready, valid, bound, λ h. let (message, task, e) = early h in absurd (cc))

    pub moved-AreSound :
        (attestations : Dict ℕ Attestation)
        → ((id : ℕ)
            → holder' ≡ some id
            → (message : KxAnnounce) × (task : Task) × (get id attestations
                ≡ some (verifying message task)))
        → AreSound symmetric_key server_key holder attestations
        → AreSound symmetric_key' server_key' holder' attestations
    moved-AreSound attestations early all_sound id a found =
        stage-moved id a
          (λ h.
            let (message, task, e) = early id h in (message, task, some_injective (sym found ∙ e)))
          (all_sound id a found)
