-- ===== src/Tunnel/Client/Send.antt =====
-- `send`, `#encryptPayload` and `#decryptEnvelope` of packages/tunnel/src/client.ts.
use teekit.Common.{◌+◌, Bool, true, false, Option, none, some, ◌∷◌, if◌then◌else◌}
use teekit.Result.{
  Result, ok, err, ◌>>=◌, encryption_not_ready, missing_symmetric_key, not_connected,
}
use teekit.Bytes.{Bytes}
use teekit.Tunnel.Crypto.{crypto_secretbox_easy, crypto_secretbox_open_easy}
use teekit.Tunnel.Message.{Message, enc}
use teekit.Tunnel.Server.Handle.{kx_confirm}
use teekit.Tunnel.Client.{Client, ReadyState, open_state, Effect, control_sent, ClientRuntime}
use teekit.Tunnel.Client.Binding.{present_or}

abbrev pub emit : Effect → Client → Client
emit effect c = record c { effects = effect ∷ c.effects }

-- `this.ws && this.ws.readyState === WebSocket.OPEN`
abbrev pub is_open : Option ReadyState → Bool
is_open (some open_state) = true
is_open _ = false

module _ (rt : ClientRuntime) where
  unfoldable pub encrypt_payload : Message → Client → Result Message
  encrypt_payload payload c = do
    key ← present_or c.channel.symmetric_key (err missing_symmetric_key)
    let nonce = rt.random_nonce c.draws
    ciphertext ← crypto_secretbox_easy rt.noble (rt.cbor.encode payload) nonce key
    ok (enc nonce ciphertext)

  unfoldable pub decrypt_envelope : (nonce ciphertext : Bytes) → Client → Result Message
  decrypt_envelope nonce ciphertext c = do
    key ← present_or c.channel.symmetric_key (err missing_symmetric_key)
    plaintext ← crypto_secretbox_open_easy rt.noble ciphertext nonce key
    rt.cbor.decode plaintext

  unfoldable pub send_envelope : Message → Client → Result Client
  send_envelope message c = do
    key ← present_or c.channel.symmetric_key (err encryption_not_ready)
    envelope ← encrypt_payload message c
    ok (emit (control_sent (rt.cbor.encode envelope)) (record c { draws = c.draws + 1 }))

  unfoldable pub send : Message → Client → Result Client
  unfolding send_envelope
  send message c =
      if is_open c.ws
      then elim (kx_confirm message) [
        | some sealed ↦ ok (emit (control_sent (rt.cbor.encode message)) c)
        | none ↦ send_envelope message c
      ]
      else err not_connected
