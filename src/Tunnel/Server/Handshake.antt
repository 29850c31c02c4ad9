-- ===== src/Tunnel/Server/Handshake.antt =====
-- The key of a control socket (`#handleControlMessage` of packages/tunnel/src/server.ts): nothing
-- happens before it is set, and it is set once.
pub mod Keeping
pub mod Crossing
use teekit.Common.{
  ℕ, ◌≡◌, ◌≢◌, refl, sym, ap, ◌∙◌, arith, true, ◌⊎◌, Option, none, some, [], ◌∷◌, Text,
  Option-cases, inl, inr,
}
use teekit.Result.{ok}
use teekit.Bytes.{Bytes}
use teekit.Dict.{number_key, get, has, set}
use teekit.Dict.Laws.{has_of_get}
use teekit.Tunnel.Crypto.{crypto_box_seal_open}
use teekit.Tunnel.Message.{
  Message, http_request, http_response, ws_connect, ws_close, ws_message, ws_event, server_kx,
  client_kx, client_kx_ready, enc, other,
}
use teekit.Tunnel.Server.{Server, Keypair, Runtime}
use teekit.Tunnel.Server.Send.{touch, key_of, decrypt_envelope_for_socket}
use teekit.Tunnel.Server.Frame.{touch-SameCore}
use teekit.Tunnel.Server.Handle.{
  kx_confirm, encrypted_message, handle_control_message, receive, receive_encrypted, dispatch,
}
use teekit.Tunnel.Server.Rules.{receive_rule, handle_rule}
use teekit.Tunnel.Server.Tracked.{IsTracked}

kx_confirm-inverse :
    (message : Message) {sealed : Bytes}
    → kx_confirm message ≡ some sealed
    → message ≡ client_kx sealed
unfolding kx_confirm
kx_confirm-inverse (client_kx sealed) e = cc
kx_confirm-inverse (http_request r) e = cc
kx_confirm-inverse _ e = cc

touch-keys : (control_ws : ℕ) (s : Server) → (touch control_ws s).symmetric_keys ≡ s.symmetric_keys
unfolding touch
touch-keys control_ws s = ground arith

-- The socket has shown a sign of life and no more, or it has got the key of its own client_kx.
abbrev pub IsKxOrNothing : Runtime → ℕ → Bytes → Server → Server → Type 0
IsKxOrNothing rt control_ws bytes s t =
    (t ≡ touch control_ws s)
    ⊎ ((keys : Keypair) × (sealed opened : Bytes) × (s.keypair ≡ some keys)
        × (rt.cbor.decode bytes ≡ ok (client_kx sealed))
        × (crypto_box_seal_open rt.noble sealed keys.public_key keys.private_key ≡ ok opened)
        × (t ≡ record (touch control_ws s) {
          symmetric_keys = set control_ws opened s.symmetric_keys;
        }))

module _ (rt : Runtime) where
  -- A message on a socket that has no key changes nothing but the time of its last activity, unless
  -- it is a client_kx whose box the server's private key opens; then the content becomes the key of
  -- this socket, and nothing else changes.
  pub received-unkeyed :
      (control_ws : ℕ) (bytes : Bytes) (s : Server)
      → IsTracked s
      → get control_ws s.symmetric_keys ≡ none
      → IsKxOrNothing rt control_ws bytes s (handle_control_message rt control_ws bytes s)
  received-unkeyed control_ws bytes s w unkeyed =
      let (keys, ready) = w.ready in
      let live = touch control_ws s in
      let P = IsKxOrNothing rt control_ws bytes s in
      handle_rule rt P control_ws s bytes keys ready (inl refl) (λ message decoded.
        receive_rule rt P control_ws live keys message (inl refl)
          (λ sealed opened absent confirm opens. inr (
            keys,
            sealed,
            opened,
            ready,
            decoded ∙ ap ok (kx_confirm-inverse message confirm),
            opens,
            ap (λ k. record live { symmetric_keys = set control_ws opened k })
                (touch-keys control_ws s),
          ))
          (λ nonce ciphertext key payload held envelope opens.
            absurd (cc (touch-keys control_ws s))))

  decrypt-touch :
      (control_ws other_ws : ℕ) (nonce ciphertext : Bytes) (s : Server)
      → decrypt_envelope_for_socket rt control_ws nonce ciphertext (touch other_ws s)
        ≡ decrypt_envelope_for_socket rt control_ws nonce ciphertext s
  unfolding decrypt_envelope_for_socket key_of
  decrypt-touch control_ws other_ws nonce ciphertext s = rw (touch-keys other_ws s) refl

  receive_encrypted-opened :
      (control_ws : ℕ) (nonce ciphertext : Bytes) (payload : Message) (s : Server)
      → decrypt_envelope_for_socket rt control_ws nonce ciphertext s ≡ ok payload
      → receive_encrypted rt control_ws nonce ciphertext s ≡ dispatch rt control_ws payload s
  unfolding receive_encrypted
  receive_encrypted-opened control_ws nonce ciphertext payload s opens =
      rw (opens, receive_encrypted) refl

  -- An envelope that the key of its socket opens is dispatched.
  pub received-envelope :
      (control_ws : ℕ) (bytes nonce ciphertext key : Bytes) (payload : Message) (keys : Keypair)
      (s : Server)
      → s.keypair ≡ some keys
      → get control_ws s.symmetric_keys ≡ some key
      → rt.cbor.decode bytes ≡ ok (enc nonce ciphertext)
      → decrypt_envelope_for_socket rt control_ws nonce ciphertext s ≡ ok payload
      → handle_control_message rt control_ws bytes s
        ≡ dispatch rt control_ws payload (touch control_ws s)
  unfolding handle_control_message receive kx_confirm encrypted_message
  received-envelope control_ws bytes nonce ciphertext key payload keys s ready held decoded opens =
      let live = touch control_ws s in
      let there : has control_ws live.symmetric_keys ≡ true =
        has_of_get control_ws live.symmetric_keys
          (ap (get control_ws) (touch-keys control_ws s) ∙ held) in
      let found : live.keypair ≡ some keys = (touch-SameCore control_ws s).4 ∙ ready in
      rw (decoded, handle_control_message)
        (rw found (
          rw there (
            receive_encrypted-opened control_ws nonce ciphertext payload live
              (decrypt-touch control_ws control_ws nonce ciphertext s ∙ opens))))
