-- ===== src/Tunnel/Client/Secured.antt =====
-- What the functions of packages/tunnel/src/client.ts and ClientRAWebSocket.ts send on the control
-- socket.
pub mod Sockets
pub mod Handlers
pub mod Calls
pub mod Sound
pub mod Stages
pub mod Answer
pub mod Events
use teekit.Common.{
  ℕ, ◌+◌, ◌≡◌, ◌⊎◌, inl, inr, refl, sym, ap, ◌∙◌, Bool, true, false, Option, none, some, List, [],
  ◌∷◌, ◌++◌, All, Text, codes, Bool-cases, Option-cases,
}
use teekit.Result.{
  Result, ok, err, stuck, Fault, require, >>=-eq-ok, require-eq-ok, ◌>>=◌, ◌>>◌,
  encryption_not_ready, missing_symmetric_key, tunnel_not_connected, invalid_url,
  websocket_not_open,
}
use teekit.Bytes.{Bytes}
use teekit.Dict.{text_key, get}
use teekit.Dict.{number_key, Dict, get}
use teekit.Tunnel.Crypto.{crypto_secretbox_easy, crypto_box_seal}
use teekit.Tunnel.Message.{
  Message, Content, ServerEvent, EventType, open_event, close_event, error_event, KxAnnounce,
  client_kx_ready, client_kx, enc, ws_connect, ws_message, ws_close,
}
use teekit.Tunnel.Server.Handle.{kx_confirm}
use teekit.Tunnel.Client.{
  TunnelClientConfig, Attestation, checking, Opening, Client, Channel, TunnelClientConfig,
  ReadyState, connecting, open_state, closing, closed, MockWebSocket, Reason, text, Effect,
  control_sent, ClientRuntime,
}
use teekit.Tunnel.Client.Binding.{present_or, binding_data}
use teekit.Tunnel.Client.Attest.Keyed.{ok_injective, present_or-ok}
use teekit.Tunnel.Client.Attest.Verified.{IsTrusted}
use teekit.Tunnel.Client.Send.{emit, is_open, encrypt_payload, send_envelope, send}
use teekit.Tunnel.Client.Socket.{
  code_or, text_or, data_type, set_mock, unregister_web_socket_tunnel, handle_error, caught,
  get_origin_port, target_port, try_connect, connect, send_data, socket_send, send_close,
  socket_close, flush, open_socket, close_socket, handle_tunnel_event,
}

-- A payload in an envelope under the key.
abbrev pub IsEnveloped : ClientRuntime → Option Bytes → Bytes → Type 0
IsEnveloped rt held bytes =
    (key nonce ciphertext : Bytes) × (payload : Message) × (held ≡ some key)
    × (crypto_secretbox_easy rt.noble (rt.cbor.encode payload) nonce key ≡ ok ciphertext)
    × (bytes ≡ rt.cbor.encode (enc nonce ciphertext))

-- The symmetric key of a handler is drawn for it and sealed for the announced key.
abbrev pub IsSealed : ClientRuntime → Opening → Type 0
IsSealed rt o =
    (draw : ℕ) × (o.symmetric_key ≡ rt.random_key draw)
    × (crypto_box_seal rt.noble (rt.random_secret_key draw) o.symmetric_key
          o.message.x25519_public_key
        ≡ ok o.sealed)

-- The answer to an announcement: the evidence is trusted with the fields `checked` that the client had
-- when the binding was checked. As long as no other announcement has replaced the keys, the client's
-- symmetric key is the sealed one, and the public key that was checked is the announced one.
abbrev pub IsOpening : ClientRuntime → Client → Bytes → Type 0
IsOpening rt start bytes =
    (id : ℕ) × (o : Opening) × (checked : Channel) × (get id start.attestations
      ≡ some (checking o (ok tt)))
    × (bytes ≡ rt.cbor.encode (client_kx o.sealed))
    × IsSealed rt o
    × IsTrusted rt start.config.mode start.config.x25519_binding o.message.quote
        (binding_data o.message) checked o.verified
    × (start.key_holder ≡ some id
        → (start.channel.symmetric_key ≡ some o.symmetric_key)
          × (checked.server_x25519_public_key ≡ some o.message.x25519_public_key))

-- What is sent in an event that starts in `start`.
abbrev pub IsSecured : ClientRuntime → Client → Effect → Type 0
IsSecured rt start (control_sent bytes) =
    (bytes ≡ rt.cbor.encode client_kx_ready)
    ⊎ (IsEnveloped rt start.channel.symmetric_key bytes ⊎ IsOpening rt start bytes)
IsSecured rt start _ = Unit {0}

-- The fields that the key exchange sets and reads.
pub record Core : Type 0 where
  pub config : TunnelClientConfig
  pub channel : Channel
  pub attestations : Dict ℕ Attestation
  pub key_holder : Option ℕ

abbrev pub core : Client → Core
core c = record {
  config = c.config;
  channel = c.channel;
  attestations = c.attestations;
  key_holder = c.key_holder;
}

module _ (rt : ClientRuntime) (start : Client) where
  -- So far all was secured, and the key exchange is where it was at the start of the event.
  abbrev pub IsSafe : Client → Type 0
  IsSafe c = (core c ≡ core start) × All (IsSecured rt start) c.effects

  send_envelope-IsSafe :
      (message : Message) (c : Client) {d : Client}
      → IsSafe c
      → send_envelope rt message c ≡ ok d
      → IsSafe d
  unfolding send_envelope encrypt_payload
  send_envelope-IsSafe message c {d} (same, secured) e =
      let missing = present_or c.channel.symmetric_key (err encryption_not_ready) in
      let (key, held, e1) = >>=-eq-ok missing _ e in
      let (envelope, enveloped, e2) = >>=-eq-ok (encrypt_payload rt message c) _ e1 in
      let again = present_or c.channel.symmetric_key (err missing_symmetric_key) in
      let (key', held', e3) = >>=-eq-ok again _ enveloped in
      let nonce = rt.random_nonce c.draws in
      let sealing = crypto_secretbox_easy rt.noble (rt.cbor.encode message) nonce key' in
      let (ciphertext, sealed, e4) = >>=-eq-ok sealing _ e3 in
      let has_key : start.channel.symmetric_key ≡ some key' =
        sym (ap (λ (k : Core). k.channel.symmetric_key) same) ∙ present_or-ok _ (λ h. cc) held' in
      let bytes_same = ap rt.cbor.encode (sym (ok_injective e4)) in
      rw (← ok_injective e2)
        (same, (inr (inl (key', nonce, ciphertext, message, has_key, sealed, bytes_same)), secured))

  pub send-IsSafe :
      (message : Message) (c : Client) {d : Client}
      → kx_confirm message ≡ none
      → IsSafe c
      → send rt message c ≡ ok d
      → IsSafe d
  unfolding send
  send-IsSafe message c {d} other safe e = elim (Bool-cases (is_open c.ws)) [
    | inl up ↦ send_envelope-IsSafe message c safe (rw (up, send, other) at e)
    | inr down ↦ absurd (cc (rw (down, send) at e))
  ]

  pub caught-IsSafe :
      (r : Result Client) (c : Client) (handler : Reason → Client)
      → ((d : Client) → r ≡ ok d → IsSafe d)
      → IsSafe c
      → ((reason : Reason) → IsSafe (handler reason))
      → IsSafe (caught r c handler)
  caught-IsSafe (ok d) c handler done safe failed = done d refl
  caught-IsSafe (err e) c handler done safe failed = failed _
  caught-IsSafe stuck c handler done safe failed = safe

  pub send_data-IsSafe :
      (id : Text) (content : Content) (c : Client) → IsSafe c → IsSafe (send_data rt id content c)
  unfolding send_data handle_error kx_confirm
  send_data-IsSafe id content c safe =
      let message = ws_message id content (data_type content) in
      caught-IsSafe (require (is_open c.ws) tunnel_not_connected >> send rt message c) c
        (λ reason. handle_error id reason c)
        (λ d e.
          let (up, e1) = require-eq-ok (is_open c.ws) tunnel_not_connected _ e in
          send-IsSafe message c refl safe e1)
        safe (λ reason. (safe.0, (tt, safe.1)))

  pub connect-IsSafe :
      (id url : Text) (protocols : List Text) (c : Client)
      → IsSafe c
      → IsSafe (connect rt id url protocols c)
  unfolding connect try_connect handle_error kx_confirm
  connect-IsSafe id url protocols c safe =
      caught-IsSafe (try_connect rt id url protocols c) c (λ reason. handle_error id reason c)
        (λ d e.
          let (origin, parsed, e1) =
            >>=-eq-ok (present_or (rt.parse_url c.origin) (err invalid_url)) _ e in
          let (target, parsed', e2) =
            >>=-eq-ok (present_or (rt.parse_url url) (err invalid_url)) _ e1 in
          let (ports, e3) = require-eq-ok _ _ _ e2 in
          let (up, e4) = require-eq-ok (is_open c.ws) tunnel_not_connected _ e3 in
          send-IsSafe (ws_connect id url protocols) c refl safe e4)
        safe (λ reason. (safe.0, (tt, safe.1)))

  pub send_close-IsSafe :
      (id : Text) (code : Option ℕ) (reason : Option Text) (c : Client)
      → IsSafe c
      → IsSafe (send_close rt id code reason c)
  unfolding send_close kx_confirm
  send_close-IsSafe id code reason c safe = elim (Bool-cases (is_open c.ws)) [
    | inl up ↦
        rw (up, send_close)
          (caught-IsSafe (send rt (ws_close id code reason) c) c (λ r. c)
            (λ d e. send-IsSafe (ws_close id code reason) c refl safe e) safe (λ r. safe))
    | inr down ↦ rw (down, send_close) safe
  ]

  pub flush-IsSafe :
      (id : Text) (queue : List Content) (c : Client) → IsSafe c → IsSafe (flush rt id queue c)
  unfolding flush
  flush-IsSafe id [] c safe = safe
  flush-IsSafe id (content ∷ queue) c safe =
      flush-IsSafe id queue (send_data rt id content c) (send_data-IsSafe id content c safe)
