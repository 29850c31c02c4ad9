-- ===== src/Tunnel/Server/Send.antt =====
-- `sendEncrypted`, `#encryptForSocket` and `#decryptEnvelopeForSocket` of
-- packages/tunnel/src/server.ts.
use teekit.Common.{ℕ, ◌+◌, none, some, ◌∷◌}
use teekit.Result.{Result, ok, err, stuck, ◌>>=◌, missing_symmetric_key}
use teekit.Bytes.{Bytes}
use teekit.Dict.{number_key, get, set}
use teekit.Tunnel.Crypto.{crypto_secretbox_easy, crypto_secretbox_open_easy}
use teekit.Tunnel.Message.{Message, enc}
use teekit.Tunnel.Server.{Server, Effect, sent, Runtime}

abbrev pub emit : Effect → Server → Server
emit effect s = record s { effects = effect ∷ s.effects }

-- `if (l) l.lastActivityMs = Date.now()`
unfoldable pub touch : ℕ → Server → Server
touch control_ws s = elim (get control_ws s.liveness) [
  | none ↦ s
  | some l ↦ record s {
    liveness = set control_ws (record l { last_activity_ms = s.now }) s.liveness;
  }
]

unfoldable pub key_of : ℕ → Server → Result Bytes
key_of control_ws s = elim (get control_ws s.symmetric_keys) [
  | none ↦ err missing_symmetric_key
  | some key ↦ ok key
]

module _ (rt : Runtime) where
  unfoldable pub encrypt_for_socket : ℕ → Message → Server → Result Message
  encrypt_for_socket control_ws payload s = do
    key ← key_of control_ws s
    let nonce = rt.random_nonce s.draws
    ciphertext ← crypto_secretbox_easy rt.noble (rt.cbor.encode payload) nonce key
    ok (enc nonce ciphertext)

  unfoldable pub decrypt_envelope_for_socket :
      ℕ → (nonce ciphertext : Bytes) → Server → Result Message
  decrypt_envelope_for_socket control_ws nonce ciphertext s = do
    key ← key_of control_ws s
    plaintext ← crypto_secretbox_open_easy rt.noble ciphertext nonce key
    rt.cbor.decode plaintext

  unfoldable pub send_encrypted : ℕ → Message → Server → Result Server
  unfolding touch encrypt_for_socket
  send_encrypted control_ws payload s = do
    env ← encrypt_for_socket control_ws payload s
    let drawn = record s { draws = s.draws + 1 }
    ok (touch control_ws (emit (sent control_ws (rt.cbor.encode env)) drawn))

  -- `try { this.sendEncrypted(…) } catch (e) { console.error(…) }`
  unfoldable pub try_send : ℕ → Message → Server → Server
  try_send control_ws payload s = elim (send_encrypted control_ws payload s) [
    | ok s' ↦ s'
    | err fault ↦ s
    | stuck ↦ s
  ]
