-- ===== src/Tunnel/Client/Crossing.antt =====
-- A message of `TunnelClient` (packages/tunnel/src/client.ts) at the `TunnelServer` (server.ts).
use teekit.Common.{ℕ, ◌+◌, ◌≡◌, refl, true, none, some, length}
use teekit.Result.{ok}
use teekit.Bytes.{Bytes}
use teekit.Dict.{number_key, get}
use teekit.Tunnel.Crypto.Seal.{secretbox_open-secretbox}
use teekit.Tunnel.Message.{Message, enc}
use teekit.Tunnel.Server.{Server, Keypair, Runtime}
use teekit.Tunnel.Server.Send.{touch, key_of, decrypt_envelope_for_socket}
use teekit.Tunnel.Server.Handle.{kx_confirm, handle_control_message, dispatch}
use teekit.Tunnel.Server.Handshake.{received-envelope}
use teekit.Tunnel.Client.{Client, control_sent, ClientRuntime}
use teekit.Tunnel.Client.Send.{emit, is_open, encrypt_payload, send_envelope, send}

module _ (rt : Runtime) (client_rt : ClientRuntime) (same_cbor : client_rt.cbor ≡ rt.cbor)
    (same_noble : client_rt.noble ≡ rt.noble) where
  -- A message that an open client sends under its symmetric key is dispatched, as it was sent, by a
  -- server that has the same key for the control socket, if both use the same codec and ciphers.
  pub send-crosses :
      (payload : Message) (c : Client) (control_ws : ℕ) (s : Server) (keys : Keypair) (key : Bytes)
      → is_open c.ws ≡ true
      → kx_confirm payload ≡ none
      → c.channel.symmetric_key ≡ some key
      → length key ≡ 32
      → s.keypair ≡ some keys
      → get control_ws s.symmetric_keys ≡ some key
      → (bytes : Bytes) × (send client_rt payload c
          ≡ ok (emit (control_sent bytes) (record c { draws = c.draws + 1 })))
        × (handle_control_message rt control_ws bytes s
            ≡ dispatch rt control_ws payload (touch control_ws s))
  unfolding send send_envelope encrypt_payload decrypt_envelope_for_socket key_of
  send-crosses payload c control_ws s keys key up other held len ready known =
      let salt = client_rt.random_nonce c.draws in
      let plain = rt.cbor.encode payload in
      let (ciphertext, sealed, opened) =
        secretbox_open-secretbox rt.noble plain salt key (client_rt.length-random_nonce c.draws)
          len in
      let bytes = rt.cbor.encode (enc salt ciphertext) in
      let opens : decrypt_envelope_for_socket rt control_ws salt ciphertext s ≡ ok payload =
        rw (known, key_of, opened, decrypt_envelope_for_socket) (rt.cbor.decode_encode payload) in
      (
        bytes,
        rw (up, send, other, held, same_cbor, same_noble, sealed) refl,
        received-envelope rt control_ws bytes salt ciphertext key payload keys s ready known
            (rt.cbor.decode_encode (enc salt ciphertext)) opens,
      )
