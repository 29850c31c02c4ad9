-- ===== src/Tunnel/Server/Protected.antt =====
-- What a `TunnelServer` sends over a control socket (packages/tunnel/src/server.ts).
pub mod Handlers
pub mod Events
use teekit.Common.{
  ℕ, ◌+◌, ◌≡◌, refl, ap, arith, ◌⊎◌, Bool, true, false, Option, none, some, List, [], ◌∷◌, All,
  Text, Option-cases, Bool-cases, inl, inr, if◌then◌else◌,
}
use mathlib.Core.Path.{subst}
use teekit.Result.{ok, >>=-eq-ok}
use teekit.Bytes.{Bytes}
use teekit.Dict.{number_key, Dict, get, set, add}
use teekit.Tunnel.Crypto.{crypto_secretbox_easy}
use teekit.Tunnel.Message.{
  Message, Content, HttpRequest, KxAnnounce, http_request, http_response, ws_connect, ws_close,
  ws_message, ws_event, server_kx, client_kx, client_kx_ready, enc, other,
}
use teekit.Tunnel.Server.{
  Server, Connection, Keypair, ReadyState, Effect, sent, control_closed, pinged, terminated,
  connected, delivered, mock_closed, requested, rejected, Runtime, closing,
}
use teekit.Tunnel.Server.Send.{emit, touch, send_encrypted, encrypt_for_socket, key_of, try_send}
use teekit.Tunnel.Server.Mock.{
  emit_close, emit_message, mock_send, mock_close, closing_event, set_ready_state, or_else,
  delete_client,
}
use teekit.Tunnel.Server.Request.{Answer, respond, handle_tunnel_http_request}
use teekit.Tunnel.Server.Rules.{if_keeps, option_keeps, try_send_rule, receive_rule, handle_rule}
use teekit.Tunnel.Server.Frame.{try_send-symmetric_keys}

-- The announcement of the server's key, or an envelope under the key of the socket.
abbrev pub IsProtected : Runtime → Dict ℕ Bytes → Effect → Type 0
IsProtected rt keys (sent control_ws bytes) =
    ((kx : KxAnnounce) × (bytes ≡ rt.cbor.encode (server_kx kx)))
    ⊎ ((key nonce ciphertext : Bytes) × (payload : Message) × (get control_ws keys ≡ some key)
        × (crypto_secretbox_easy rt.noble (rt.cbor.encode payload) nonce key ≡ ok ciphertext)
        × (bytes ≡ rt.cbor.encode (enc nonce ciphertext)))
IsProtected rt keys _ = Unit {0}

module _ (rt : Runtime) (keys : Dict ℕ Bytes) where
  -- So far all was protected, and the keys are those at the start of the event.
  abbrev pub IsSafe : Server → Type 0
  IsSafe s = (s.symmetric_keys ≡ keys) × All (IsProtected rt keys) s.effects

  abbrev pub IsQuiet : Server → Type 0
  IsQuiet s = All (IsProtected rt keys) s.effects

  pub touch-effects : (control_ws : ℕ) (s : Server) → (touch control_ws s).effects ≡ s.effects
  unfolding touch
  touch-effects control_ws s = ground arith

  get_of_key :
      (control_ws : ℕ) (s : Server) {key : Bytes}
      → key_of control_ws s ≡ ok key
      → get control_ws s.symmetric_keys ≡ some key
  unfolding key_of
  get_of_key control_ws s e = ground arith

  -- An envelope for a socket is made under its key.
  encrypt-inverse :
      (control_ws : ℕ) (payload : Message) (s : Server) {env : Message}
      → encrypt_for_socket rt control_ws payload s ≡ ok env
      → (key ciphertext : Bytes) × (get control_ws s.symmetric_keys ≡ some key)
        × (crypto_secretbox_easy rt.noble (rt.cbor.encode payload) (rt.random_nonce s.draws) key
            ≡ ok ciphertext)
        × (env ≡ enc (rt.random_nonce s.draws) ciphertext)
  unfolding encrypt_for_socket
  encrypt-inverse control_ws payload s e =
      let (key, held, rest) = >>=-eq-ok (key_of control_ws s) _ e in
      let (ciphertext, boxed, last) =
        >>=-eq-ok
          (crypto_secretbox_easy rt.noble (rt.cbor.encode payload) (rt.random_nonce s.draws) key) _
          rest in
      (key, ciphertext, get_of_key control_ws s held, boxed, cc)

  send-IsQuiet :
      (control_ws : ℕ) (payload : Message) (s t : Server)
      → IsSafe s
      → send_encrypted rt control_ws payload s ≡ ok t
      → IsQuiet t
  unfolding send_encrypted
  send-IsQuiet control_ws payload s t (same, quiet) e =
      let (env, made, rest) = >>=-eq-ok (encrypt_for_socket rt control_ws payload s) _ e in
      let (key, ciphertext, held, boxed, shape) = encrypt-inverse control_ws payload s made in
      let drawn : Server =
        emit (sent control_ws (rt.cbor.encode env)) (record s { draws = s.draws + 1 }) in
      let result : touch control_ws drawn ≡ t = cc in
      rw (← result, touch-effects control_ws drawn)
        (
          inr (
            key,
            rt.random_nonce s.draws,
            ciphertext,
            payload,
            subst (λ (k : Dict ℕ Bytes). get control_ws k ≡ some key) same held,
            boxed,
            ap rt.cbor.encode shape,
          ),
          quiet,
        )

  pub try_send-IsQuiet :
      (control_ws : ℕ) (payload : Message) (s : Server)
      → IsSafe s
      → IsQuiet (try_send rt control_ws payload s)
  try_send-IsQuiet control_ws payload s safe =
      try_send_rule rt IsQuiet control_ws s payload (λ t. send-IsQuiet control_ws payload s t safe)
        safe.1

  -- The end of a connection is no message to a control socket.
  pub emit_close-IsQuiet :
      (mock : ℕ) (code : Option ℕ) (reason : Option Text) (s : Server)
      → IsQuiet s
      → IsQuiet (emit_close mock code reason s)
  unfolding emit_close
  emit_close-IsQuiet mock code reason s quiet = ground arith

  pub emit_message-IsQuiet :
      (mock : ℕ) (content : Content) (s : Server)
      → IsQuiet s
      → IsQuiet (emit_message mock content s)
  unfolding emit_message
  emit_message-IsQuiet mock content s quiet = ground arith
