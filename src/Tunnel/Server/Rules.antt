-- ===== src/Tunnel/Server/Rules.antt =====
-- How a control message comes to change a `TunnelServer`: rules for `#handleControlMessage` of
-- packages/tunnel/src/server.ts.
use teekit.Common.{
  ℕ, ◌≡◌, refl, ◌∙◌, Bool, true, false, Option, none, some, if◌then◌else◌, Bool-cases, Option-cases,
  inl, inr,
}
use teekit.Result.{Result, ok, err, stuck, not_initialized}
use teekit.Bytes.{Bytes}
use teekit.Dict.{number_key, get, has, set}
use teekit.Dict.Laws.{get_of_has, get_of_not_has}
use teekit.Tunnel.Crypto.{crypto_box_seal_open}
use teekit.Tunnel.Message.{Message}
use teekit.Tunnel.Server.{Server, Keypair, rejected, Runtime}
use teekit.Tunnel.Server.Send.{emit, touch, try_send, send_encrypted, decrypt_envelope_for_socket}
use teekit.Tunnel.Server.Frame.{touch-SameCore}
use teekit.Tunnel.Server.Handle.{
  kx_confirm, encrypted_message, confirm_key, receive_encrypted, receive, handle_control_message,
  dispatch,
}

pub if_keeps : (P : Server → Type 0) (b : Bool) (s t : Server) → P s → P t → P (if b then s else t)
if_keeps P true s t p q = p
if_keeps P false s t p q = q

-- What may be done to the state on an attempt that can fail.
pub result_keeps :
    {A : Type 0} (P : Server → Type 0) (r : Result A) (f : A → Server) (s : Server)
    → ((a : A) → r ≡ ok a → P (f a))
    → P s
    → P (elim r [ ok a ↦ f a | err fault ↦ s | stuck ↦ s ])
result_keeps P (ok a) f s good bad = good a refl
result_keeps P (err fault) f s good bad = bad
result_keeps P stuck f s good bad = bad

pub option_keeps :
    {A : Type 0} (P : Server → Type 0) (o : Option A) (f : A → Server) (s : Server)
    → ((a : A) → o ≡ some a → P (f a))
    → P s
    → P (elim o [ none ↦ s | some a ↦ f a ])
option_keeps P none f s good bad = bad
option_keeps P (some a) f s good bad = good a refl

module _ (rt : Runtime) (P : Server → Type 0) (control_ws : ℕ) (s : Server) where
  pub try_send_rule :
      (payload : Message)
      → ((t : Server) → send_encrypted rt control_ws payload s ≡ ok t → P t)
      → P s
      → P (try_send rt control_ws payload s)
  unfolding try_send
  try_send_rule payload good bad =
      result_keeps P (send_encrypted rt control_ws payload s) (λ t. t) s good bad

  -- A message that is opened is dispatched.
  receive_encrypted_rule :
      (nonce ciphertext : Bytes)
      → P s
      → ((payload : Message)
          → decrypt_envelope_for_socket rt control_ws nonce ciphertext s ≡ ok payload
          → P (dispatch rt control_ws payload s))
      → P (receive_encrypted rt control_ws nonce ciphertext s)
  unfolding receive_encrypted
  receive_encrypted_rule nonce ciphertext same dispatched =
      result_keeps P (decrypt_envelope_for_socket rt control_ws nonce ciphertext s)
        (λ payload. dispatch rt control_ws payload s) s dispatched same

  -- The first key of a socket is set, if it can be opened.
  confirm_rule :
      (keys : Keypair) (sealed : Bytes)
      → P s
      → ((opened : Bytes)
          → get control_ws s.symmetric_keys ≡ none
          → crypto_box_seal_open rt.noble sealed keys.public_key keys.private_key ≡ ok opened
          → P (record s { symmetric_keys = set control_ws opened s.symmetric_keys }))
      → P (confirm_key rt control_ws keys sealed s)
  unfolding confirm_key
  confirm_rule keys sealed same keyed = elim (Bool-cases (has control_ws s.symmetric_keys)) [
    | inl old ↦ rw old same
    | inr new ↦ rw new (
        result_keeps P (crypto_box_seal_open rt.noble sealed keys.public_key keys.private_key)
          (λ opened. record s { symmetric_keys = set control_ws opened s.symmetric_keys }) s
          (λ opened. keyed opened (get_of_not_has control_ws s.symmetric_keys new)) same)
  ]

  -- The message leaves the state alone, or seals the first key of its socket, or is decrypted under
  -- the key of its socket and dispatched.
  pub receive_rule :
      (keys : Keypair) (message : Message)
      → P s
      → ((sealed opened : Bytes)
          → get control_ws s.symmetric_keys ≡ none
          → kx_confirm message ≡ some sealed
          → crypto_box_seal_open rt.noble sealed keys.public_key keys.private_key ≡ ok opened
          → P (record s { symmetric_keys = set control_ws opened s.symmetric_keys }))
      → ((nonce ciphertext key : Bytes) (payload : Message)
          → get control_ws s.symmetric_keys ≡ some key
          → encrypted_message message ≡ some (nonce, ciphertext)
          → decrypt_envelope_for_socket rt control_ws nonce ciphertext s ≡ ok payload
          → P (dispatch rt control_ws payload s))
      → P (receive rt control_ws keys message s)
  unfolding receive
  receive_rule keys message same keyed dispatched = elim (Option-cases (kx_confirm message)) [
    | inr (sealed, confirm) ↦
        rw (confirm, receive)
          (confirm_rule keys sealed same (λ opened absent. keyed sealed opened absent confirm))
    | inl plain ↦ elim (Bool-cases (has control_ws s.symmetric_keys)) [
      | inr absent ↦ rw (plain, receive) (rw absent same)
      | inl there ↦ elim (Option-cases (encrypted_message message)) [
        | inl loose ↦ rw (plain, receive) (rw there (rw loose same))
        | inr ((nonce, ciphertext), envelope) ↦
            let (key, held) = get_of_has control_ws s.symmetric_keys there in
            rw (plain, receive)
              (rw there (
                rw envelope (
                  receive_encrypted_rule nonce ciphertext same
                    (λ payload. dispatched nonce ciphertext key payload held envelope))))
      ]
    ]
  ]

  keypair_rule :
      (o : Option Keypair) {keys : Keypair}
      → o ≡ some keys
      → (t : Server) (f : Keypair → Server) → P (f keys)
      → P (elim o [ none ↦ t | some k ↦ f k ])
  keypair_rule none e t f p = absurd (cc)
  keypair_rule (some k) {keys} e t f p = let same : k ≡ keys = cc in rw same p

  -- With a key pair in place, a control message is decoded and received, or nothing happens but that
  -- the socket is known to be alive.
  pub handle_rule :
      (bytes : Bytes) (keys : Keypair)
      → s.keypair ≡ some keys
      → P (touch control_ws s)
      → ((message : Message)
          → rt.cbor.decode bytes ≡ ok message
          → P (receive rt control_ws keys message (touch control_ws s)))
      → P (handle_control_message rt control_ws bytes s)
  unfolding handle_control_message
  handle_rule bytes keys ready same received =
      result_keeps P (rt.cbor.decode bytes) _ (touch control_ws s)
        (λ message e.
          keypair_rule (touch control_ws s).keypair ((touch-SameCore control_ws s).4 ∙ ready)
            (emit (rejected not_initialized) (touch control_ws s))
            (λ k. receive rt control_ws k message (touch control_ws s)) (received message e))
        same
