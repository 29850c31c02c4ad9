-- ===== src/Tunnel/Client/Secured/Stages.antt =====
-- The steps of a `server_kx` handler of packages/tunnel/src/client.ts keep the waiting handlers sound, and
-- send nothing but the answer.
use teekit.Common.{ℕ, ◌+◌, ◌≡◌, refl, sym, ap, ◌∙◌, some, inl, inr, All, Bool-cases, Option-cases}
use teekit.Result.{Result, ok, err, stuck, Fault, ◌>>=◌, >>=-eq-ok}
use teekit.Bytes.{Bytes}
use teekit.Dict.{number_key, get}
use teekit.Intel.Defs.{is_empty}
use teekit.Tunnel.Crypto.{crypto_box_seal}
use teekit.Tunnel.Message.{KxAnnounce}
use teekit.Tunnel.Client.{
  Client, Attestation, verifying, validating, checking, Opening, Task, VerifiedQuote, verified_tdx,
  verified_sgx, verified_sevsnp, ClientRuntime,
}
use teekit.Tunnel.Client.Binding.{binding_data}
use teekit.Tunnel.Client.Attest.{
  task_of, verify_task, require_strategies, validate, require_nonce, check_bound,
}
use teekit.Tunnel.Client.Attest.Keyed.{ok_injective}
use teekit.Tunnel.Client.Attest.Verified.{IsVerified}
use teekit.Tunnel.Client.Exchange.{
  reject_connection, end_attestation, proceed, begin_attestation, on_server_kx, check_now,
  after_keys, set_keys, draw_keys, on_verified, on_validated,
}
use teekit.Tunnel.Client.Secured.{IsSecured, IsSealed}
use teekit.Tunnel.Client.Secured.Sound.{
  some_injective, IsReady, IsOwn, IsStageSound, AreSound, set-AreSound, delete-AreSound,
  moved-AreSound,
}

-- All waiting handlers are sound.
abbrev pub IsSound : ClientRuntime → Client → Type 0
IsSound rt c =
    AreSound rt c.config c.channel.symmetric_key c.channel.server_x25519_public_key c.key_holder
      c.attestations

module _ (rt : ClientRuntime) (start : Client) where
  abbrev pub IsGood : Client → Type 0
  IsGood c = IsSound rt c × All (IsSecured rt start) c.effects

  abbrev IsSoundIn : Client → ℕ → Attestation → Type 0
  IsSoundIn c =
      IsStageSound rt c.config c.channel.symmetric_key c.channel.server_x25519_public_key
        c.key_holder

  pub end_attestation-IsGood :
      (id : ℕ) (e : Fault) (c : Client) → IsGood c → IsGood (end_attestation id e c)
  unfolding end_attestation reject_connection
  end_attestation-IsGood id e c (sound, quiet) =
      (delete-AreSound rt c.config _ _ _ id c.attestations sound, (tt, quiet))

  proceed-IsGood :
      (id : ℕ) (r : Result Attestation) (c : Client)
      → ((a : Attestation) → r ≡ ok a → IsSoundIn c id a)
      → IsGood c
      → IsGood (proceed id r c)
  unfolding proceed
  proceed-IsGood id (ok a) c new (sound, quiet) =
      (set-AreSound rt c.config _ _ _ id a c.attestations sound (new a refl), quiet)
  proceed-IsGood id (err e) c new good = end_attestation-IsGood id e c good
  proceed-IsGood id stuck c new good = good

  begin_attestation-IsGood :
      (message : KxAnnounce) (r : Result Task) (c : Client)
      → r ≡ task_of c.config.mode (binding_data message)
      → IsGood c
      → IsGood (begin_attestation message r c)
  unfolding begin_attestation reject_connection
  begin_attestation-IsGood message (ok task) c is_task (sound, quiet) = (
    set-AreSound rt c.config _ _ _ c.next_attestation (verifying message task) c.attestations sound
        (sym is_task),
    quiet,
  )
  begin_attestation-IsGood message (err e) c is_task (sound, quiet) = (sound, (tt, quiet))
  begin_attestation-IsGood message stuck c is_task good = good

  pub on_server_kx-IsGood :
      (message : KxAnnounce) (c : Client) → IsGood c → IsGood (on_server_kx message c)
  unfolding on_server_kx reject_connection
  on_server_kx-IsGood message c (sound, quiet) = elim (Bool-cases (is_empty message.quote)) [
    | inl empty ↦ rw (empty, on_server_kx) (sound, (tt, quiet))
    | inr full ↦
        rw (full, on_server_kx)
          (begin_attestation-IsGood message _
            (record c {
              channel = record c.channel { report_binding_data = some (binding_data message) };
            })
            refl (sound, quiet))
  ]

  -- The binding is checked with the fields of now.
  check_now-checking :
      (o : Opening) (c : Client) {a : Attestation}
      → check_now rt o c ≡ ok a
      → a ≡ checking o (check_bound rt c.config.x25519_binding o.verified c.channel)
  unfolding check_now
  check_now-checking o c e =
      let (u, e0, e1) =
        >>=-eq-ok (require_nonce c.config.x25519_binding o.verified c.channel) _ e in
      sym (ok_injective e1)

  check_now-IsSoundIn :
      (id : ℕ) (o : Opening) (c : Client)
      → IsReady rt c.config o
      → validate rt o.verified ≡ ok tt
      → IsOwn rt c.config c.channel.symmetric_key c.channel.server_x25519_public_key c.key_holder id
          o
      → (a : Attestation) → check_now rt o c ≡ ok a
      → IsSoundIn c id a
  check_now-IsSoundIn id o c ready valid own a e =
      rw (check_now-checking o c e) (λ bound. (c.channel, ready, valid, bound, own))

  after_keys-IsSoundIn :
      (id : ℕ) (v : VerifiedQuote) (o : Opening) (c : Client)
      → o.verified ≡ v
      → IsVerified rt c.config.mode o.message o.verified
      → IsSealed rt o
      → IsOwn rt c.config c.channel.symmetric_key c.channel.server_x25519_public_key c.key_holder id
          o
      → (a : Attestation) → after_keys rt v o c ≡ ok a
      → IsSoundIn c id a
  unfolding after_keys validate require_strategies
  after_keys-IsSoundIn id (verified_sevsnp config report) o c is_v verified seals own a e =
      check_now-IsSoundIn id o c (verified, seals, rw is_v refl) (rw is_v refl) own a e
  after_keys-IsSoundIn id (verified_tdx config q) o c is_v verified seals own a e =
      let (u, met, e1) = >>=-eq-ok (require_strategies (verified_tdx config q)) _ e in
      rw (← ok_injective e1) ((verified, seals, ap require_strategies is_v ∙ met), own)
  after_keys-IsSoundIn id (verified_sgx config q) o c is_v verified seals own a e =
      let (u, met, e1) = >>=-eq-ok (require_strategies (verified_sgx config q)) _ e in
      rw (← ok_injective e1) ((verified, seals, ap require_strategies is_v ∙ met), own)

  set_keys-IsGood :
      (id : ℕ) (message : KxAnnounce) (task : Task) (v : VerifiedQuote) (draw : ℕ)
      (sealing : Result Bytes) (c : Client)
      → get id c.attestations ≡ some (verifying message task)
      → IsVerified rt c.config.mode message v
      → crypto_box_seal rt.noble
          (rt.random_secret_key draw)
          (rt.random_key draw)
          message.x25519_public_key
        ≡ sealing
      → IsGood c
      → IsGood (set_keys rt id message v (rt.random_key draw) sealing c)
  unfolding set_keys
  set_keys-IsGood id message task v draw (ok sealed) c waiting verified seals (sound, quiet) =
      let keyed : Client = record c {
        channel = record c.channel {
          server_x25519_public_key = some message.x25519_public_key;
          symmetric_key = some (rt.random_key draw);
        };
        key_holder = some id;
      } in
      let o : Opening = record {
        message = message;
        verified = v;
        symmetric_key = rt.random_key draw;
        sealed = sealed;
      } in
      let moved : IsSound rt keyed =
        moved-AreSound rt c.config c.channel.symmetric_key c.channel.server_x25519_public_key
          (some (rt.random_key draw)) (some message.x25519_public_key) c.key_holder (some id)
          c.attestations
          (λ j h.
            let same : id ≡ j = some_injective h in
            (message, task, ap (λ (i : ℕ). get i c.attestations) (sym same) ∙ waiting))
          sound in
      proceed-IsGood id (after_keys rt v o keyed) keyed
        (after_keys-IsSoundIn id v o keyed refl verified (draw, refl, seals) (λ h. (refl, refl)))
        (moved, quiet)
  set_keys-IsGood id message task v draw (err e) c waiting verified seals good =
      end_attestation-IsGood id e c good
  set_keys-IsGood id message task v draw stuck c waiting verified seals good = good

  draw_keys-IsGood :
      (id : ℕ) (message : KxAnnounce) (task : Task) (r : Result VerifiedQuote) (c : Client)
      → get id c.attestations ≡ some (verifying message task)
      → verify_task rt task message.quote ≡ r
      → IsGood c
      → IsGood (draw_keys rt id message r c)
  unfolding draw_keys
  draw_keys-IsGood id message task (ok v) c waiting verifies good =
      set_keys-IsGood id message task v c.draws _ (record c { draws = c.draws + 1 }) waiting
        (task, good.0 id (verifying message task) waiting, verifies) refl good
  draw_keys-IsGood id message task (err e) c waiting verifies good =
      end_attestation-IsGood id e c good
  draw_keys-IsGood id message task stuck c waiting verifies good = good

  pub on_verified-IsGood : (id : ℕ) (c : Client) → IsGood c → IsGood (on_verified rt id c)
  unfolding on_verified
  on_verified-IsGood id c good = elim (Option-cases (get id c.attestations)) [
    | inl gone ↦ rw (gone, on_verified) good
    | inr (a, found) ↦ rw (found, on_verified) (by_stage a found)
  ]
    where
      by_stage :
          (a : Attestation)
          → get id c.attestations ≡ some a
          → IsGood (elim (some a) [
            | some (verifying message task) ↦
                draw_keys rt id message (verify_task rt task message.quote) c
            | _ ↦ c
          ])
      by_stage (verifying message task) found = draw_keys-IsGood id message task _ c found refl good
      by_stage (validating o) found = good
      by_stage (checking o answer) found = good

  validated-IsSoundIn :
      (id : ℕ) (o : Opening) (c : Client)
      → IsSoundIn c id (validating o)
      → (a : Attestation) → (validate rt o.verified >>= λ u. check_now rt o c) ≡ ok a
      → IsSoundIn c id a
  validated-IsSoundIn id o c (ready, own) a e =
      let (u, valid, e1) = >>=-eq-ok (validate rt o.verified) _ e in
      check_now-IsSoundIn id o c ready valid own a e1

  pub on_validated-IsGood : (id : ℕ) (c : Client) → IsGood c → IsGood (on_validated rt id c)
  unfolding on_validated
  on_validated-IsGood id c good = elim (Option-cases (get id c.attestations)) [
    | inl gone ↦ rw (gone, on_validated) good
    | inr (a, found) ↦ rw (found, on_validated) (by_stage a found)
  ]
    where
      by_stage :
          (a : Attestation)
          → get id c.attestations ≡ some a
          → IsGood (elim (some a) [
            | some (validating o) ↦ proceed id (validate rt o.verified >>= λ u. check_now rt o c) c
            | _ ↦ c
          ])
      by_stage (validating o) found =
          proceed-IsGood id (validate rt o.verified >>= λ u. check_now rt o c) c
            (validated-IsSoundIn id o c (good.0 id (validating o) found)) good
      by_stage (verifying message task) found = good
      by_stage (checking o answer) found = good
