-- ===== src/Tunnel/Client/Exchange.antt =====
-- The handling of a `server_kx` by `onmessage` of packages/tunnel/src/client.ts. The handler of each
-- such message runs on its own, and is cut where it waits, so that others and all other events come
-- between; what it reads from the client's fields after a wait may be another's.
use teekit.Common.{ℕ, ◌+◌, false, some, if◌then◌else◌}
use teekit.Result.{Result, ok, err, stuck, ◌>>=◌, ◌>>◌, Fault, empty_quote}
use teekit.Bytes.{Bytes}
use teekit.Dict.{number_key, get, set, delete}
use teekit.Intel.Defs.{is_empty}
use teekit.Tunnel.Crypto.{crypto_box_seal}
use teekit.Tunnel.Message.{KxAnnounce, client_kx}
use teekit.Tunnel.Client.{
  Client, Attestation, verifying, validating, checking, Opening, Task, VerifiedQuote,
  verified_sevsnp, fault, connection_resolved, connection_rejected, ClientRuntime,
}
use teekit.Tunnel.Client.Binding.{binding_data}
use teekit.Tunnel.Client.Attest.{
  task_of, verify_task, require_strategies, validate, require_nonce, check_bound, evidence_of,
}
use teekit.Tunnel.Client.Send.{emit, send}

abbrev pub set_attestation : ℕ → Attestation → Client → Client
set_attestation id a c = record c { attestations = set id a c.attestations }

unfoldable pub reject_connection : Fault → Client → Client
reject_connection e c =
    emit (connection_rejected (fault e)) (record c { connection_promise = false })

-- `catch (e) { this.connectionPromise = null; reject(…) }`, and the handler ends.
unfoldable pub end_attestation : ℕ → Fault → Client → Client
unfolding reject_connection
end_attestation id e c = reject_connection e (record c { attestations = delete id c.attestations })

-- The next wait of a handler, or what it throws.
unfoldable pub proceed : ℕ → Result Attestation → Client → Client
unfolding end_attestation
proceed id (ok a) c = set_attestation id a c
proceed id (err e) c = end_attestation id e c
proceed id stuck c = c

unfoldable pub begin_attestation : KxAnnounce → Result Task → Client → Client
unfolding reject_connection
begin_attestation message (ok task) c =
    set_attestation c.next_attestation (verifying message task)
      (record c { next_attestation = c.next_attestation + 1 })
begin_attestation message (err e) c = reject_connection e c
begin_attestation message stuck c = c

-- A handler up to its first wait.
unfoldable pub on_server_kx : KxAnnounce → Client → Client
unfolding begin_attestation
on_server_kx message c =
    let data_ = binding_data message in
    let announced = record c { channel = record c.channel { report_binding_data = some data_ } } in
    if is_empty message.quote
    then reject_connection empty_quote c
    else begin_attestation message (task_of c.config.mode data_) announced

unfoldable pub opened_channel : Result Client → Client → Client
opened_channel (ok sent) c = emit connection_resolved (record sent { connection_promise = false })
opened_channel (err e) c =
    emit (connection_rejected (fault e)) (record c { connection_promise = false })
opened_channel stuck c = c

module _ (rt : ClientRuntime) where
  -- The call of the binding check, which reads the fields as they are now.
  unfoldable pub check_now : Opening → Client → Result Attestation
  unfolding require_nonce
  check_now o c = do
    require_nonce c.config.x25519_binding o.verified c.channel
    ok (checking o (check_bound rt c.config.x25519_binding o.verified c.channel))

  -- From the keys to the next wait: for SEV-SNP that is the binding check.
  unfoldable pub after_keys : VerifiedQuote → Opening → Client → Result Attestation
  unfolding check_now
  after_keys (verified_sevsnp config report) o c = check_now o c
  after_keys v o c = require_strategies v >>= λ u. ok (validating o)

  unfoldable pub set_keys : ℕ → KxAnnounce → VerifiedQuote → Bytes → Result Bytes → Client → Client
  unfolding proceed end_attestation after_keys
  set_keys id message v symmetric_key (ok sealed) c =
      let keyed = record c {
        channel = record c.channel {
          server_x25519_public_key = some message.x25519_public_key;
          symmetric_key = some symmetric_key;
        };
        key_holder = some id;
      } in
      proceed id
        (after_keys v
          (record {
            message = message;
            verified = v;
            symmetric_key = symmetric_key;
            sealed = sealed;
          })
          keyed)
        keyed
  set_keys id message v symmetric_key (err e) c = end_attestation id e c
  set_keys id message v symmetric_key stuck c = c

  -- The keys are drawn, the symmetric one is sealed for the message's, and both are set.
  unfoldable pub draw_keys : ℕ → KxAnnounce → Result VerifiedQuote → Client → Client
  unfolding set_keys end_attestation
  draw_keys id message (ok v) c =
      let symmetric_key = rt.random_key c.draws in
      set_keys id message v symmetric_key
        (crypto_box_seal rt.noble (rt.random_secret_key c.draws) symmetric_key
          message.x25519_public_key)
        (record c { draws = c.draws + 1 })
  draw_keys id message (err e) c = end_attestation id e c
  draw_keys id message stuck c = c

  -- The verifiers have answered.
  unfoldable pub on_verified : ℕ → Client → Client
  unfolding draw_keys
  on_verified id c = elim (get id c.attestations) [
    | some (verifying message task) ↦ draw_keys id message (verify_task rt task message.quote) c
    | _ ↦ c
  ]

  -- The callback and the measurements have answered.
  unfoldable pub on_validated : ℕ → Client → Client
  unfolding proceed check_now
  on_validated id c = elim (get id c.attestations) [
    | some (validating o) ↦ proceed id (validate rt o.verified >>= λ u. check_now o c) c
    | _ ↦ c
  ]

  unfoldable pub answer_kx : ℕ → Opening → Result (Unit {0}) → Client → Client
  unfolding opened_channel end_attestation
  answer_kx id o (ok u) c =
      let attested = record c {
        channel = record c.channel { evidence = some (evidence_of o.verified) };
        attestations = delete id c.attestations;
      } in
      opened_channel (send rt (client_kx o.sealed) attested) attested
  answer_kx id o (err e) c = end_attestation id e c
  answer_kx id o stuck c = c

  -- The binding check has answered: the key that this handler has sealed is sent.
  unfoldable pub on_bound : ℕ → Client → Client
  unfolding answer_kx
  on_bound id c = elim (get id c.attestations) [
    | some (checking o answer) ↦ answer_kx id o answer c
    | _ ↦ c
  ]
