-- ===== src/Tunnel/Client/Secured/Answer.antt =====
-- What the handler of a `server_kx` of packages/tunnel/src/client.ts sends when it ends.
use teekit.Common.{ℕ, ◌≡◌, refl, some, inl, inr, Bool-cases, Option-cases}
use teekit.Result.{Result, ok, err, stuck}
use teekit.Dict.{number_key, get, delete}
use teekit.Tunnel.Message.{client_kx}
use teekit.Tunnel.Server.Handle.{kx_confirm}
use teekit.Tunnel.Client.{
  Client, control_sent, Attestation, verifying, validating, checking, Opening, ClientRuntime,
}
use teekit.Tunnel.Client.Attest.{evidence_of}
use teekit.Tunnel.Client.Attest.Verified.{checks-IsTrusted}
use teekit.Tunnel.Client.Send.{is_open, send}
use teekit.Tunnel.Client.Exchange.{opened_channel, answer_kx, on_bound}
use teekit.Tunnel.Client.Secured.{IsSecured}
use teekit.Tunnel.Client.Secured.Sound.{delete-AreSound}
use teekit.Tunnel.Client.Secured.Stages.{IsGood, end_attestation-IsGood}

module _ (rt : ClientRuntime) (start : Client) where
  opened_channel-IsGood :
      (o : Opening) (attested : Client)
      → IsSecured rt start (control_sent (rt.cbor.encode (client_kx o.sealed)))
      → IsGood rt start attested
      → IsGood rt start (opened_channel (send rt (client_kx o.sealed) attested) attested)
  unfolding opened_channel send kx_confirm
  opened_channel-IsGood o attested secured (sound, quiet) =
      elim (Bool-cases (is_open attested.ws)) [
        | inl up ↦ rw (up, send) (sound, (tt, (secured, quiet)))
        | inr down ↦ rw (down, send) (sound, (tt, quiet))
      ]

module _ (rt : ClientRuntime) (start : Client) (good : IsGood rt start start) where
  answer_kx-IsGood :
      (id : ℕ) (o : Opening) (answer : Result (Unit {0}))
      → get id start.attestations ≡ some (checking o answer)
      → IsGood rt start (answer_kx rt id o answer start)
  unfolding answer_kx
  answer_kx-IsGood id o (ok u) found =
      let (checked, (verified, seals, met), valid, bound, own) =
        good.0 id (checking o (ok u)) found refl in
      let trusted =
        checks-IsTrusted rt start.config.mode start.config.x25519_binding o.message o.verified
          checked verified met valid bound in
      opened_channel-IsGood rt start o
        (record start {
          channel = record start.channel { evidence = some (evidence_of o.verified) };
          attestations = delete id start.attestations;
        })
        (inr (inr (id, o, checked, found, refl, seals, trusted, own)))
        (delete-AreSound rt start.config _ _ _ id start.attestations good.0, good.1)
  answer_kx-IsGood id o (err e) found = end_attestation-IsGood rt start id e start good
  answer_kx-IsGood id o stuck found = good

  pub on_bound-IsGood : (id : ℕ) → IsGood rt start (on_bound rt id start)
  unfolding on_bound
  on_bound-IsGood id = elim (Option-cases (get id start.attestations)) [
    | inl gone ↦ rw (gone, on_bound) good
    | inr (a, found) ↦ rw (found, on_bound) (by_stage a found)
  ]
    where
      by_stage :
          (a : Attestation)
          → get id start.attestations ≡ some a
          → IsGood rt start (elim (some a) [
            | some (checking o answer) ↦ answer_kx rt id o answer start
            | _ ↦ start
          ])
      by_stage (checking o answer) found = answer_kx-IsGood id o answer found
      by_stage (verifying message task) found = good
      by_stage (validating o) found = good
