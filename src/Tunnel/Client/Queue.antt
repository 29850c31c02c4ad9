-- ===== src/Tunnel/Client/Queue.antt =====
-- The queue of a `ClientRAMockWebSocket` of packages/tunnel/src/ClientRAWebSocket.ts, which is sent when
-- the socket opens.
use teekit.Common.{ℕ, ◌+◌, ◌≡◌, refl, ap, ◌∙◌, true, some, List, [], ◌∷◌, Text, length, ==_iff}
use teekit.Bytes.{Bytes}
use teekit.Dict.{text_key}
use teekit.Tunnel.Crypto.{crypto_secretbox_easy}
use teekit.Tunnel.Message.{Content, ws_message, enc}
use teekit.Tunnel.Server.Handle.{kx_confirm}
use teekit.Tunnel.Client.{
  Client, MockWebSocket, open_state, Effect, control_sent, socket_opened, ClientRuntime,
}
use teekit.Tunnel.Client.Send.{emit, is_open, encrypt_payload, send_envelope, send}
use teekit.Tunnel.Client.Socket.{data_type, set_mock, send_data, flush, open_socket}

module _ (rt : ClientRuntime) (id : Text) (key : Bytes) where
  -- The envelope of one message, with the nonce that is drawn for it.
  abbrev pub envelope_of : (draw : ℕ) → Content → Bytes
  envelope_of draw content =
      let salt = rt.random_nonce draw in
      rt.cbor.encode (
        enc salt
          (rt.noble.encrypt key salt (rt.cbor.encode (ws_message id content (data_type content)))))

  -- Each message of the queue, from the first to the last, after what was done before; the latest
  -- effect is the first of the list.
  pub sent_in_order : (draw : ℕ) → List Content → List Effect → List Effect
  sent_in_order draw [] done = done
  sent_in_order draw (content ∷ queue) done =
      sent_in_order (draw + 1) queue (control_sent (envelope_of draw content) ∷ done)

  send_data-sends :
      (content : Content) (c : Client)
      → is_open c.ws ≡ true
      → c.channel.symmetric_key ≡ some key
      → length key ≡ 32
      → send_data rt id content c
        ≡ emit (control_sent (envelope_of c.draws content)) (record c { draws = c.draws + 1 })
  unfolding send_data send send_envelope encrypt_payload kx_confirm crypto_secretbox_easy
  send_data-sends content c up held len =
      rw
        (
          up,
          send_data,
          send,
          held,
          (==_iff (length (rt.random_nonce c.draws)) 24).1 (rt.length-random_nonce c.draws),
          (==_iff (length key) 32).1 len,
        )
        refl

  flush-sends :
      (queue : List Content) (c : Client)
      → is_open c.ws ≡ true
      → c.channel.symmetric_key ≡ some key
      → length key ≡ 32
      → (flush rt id queue c).effects ≡ sent_in_order c.draws queue c.effects
  unfolding flush sent_in_order
  flush-sends [] c up held len = refl
  flush-sends (content ∷ queue) c up held len =
      ap (λ d. (flush rt id queue d).effects) (send_data-sends content c up held len)
      ∙ flush-sends queue
          (emit (control_sent (envelope_of c.draws content)) (record c { draws = c.draws + 1 })) up
          held len

  -- When a socket opens while the tunnel is connected, its queue is sent in order, each message in
  -- an envelope with a nonce of its own, before the application is told.
  pub open_socket-sends :
      (m : MockWebSocket) (c : Client)
      → is_open c.ws ≡ true
      → c.channel.symmetric_key ≡ some key
      → length key ≡ 32
      → (open_socket rt id m c).effects
        ≡ socket_opened id ∷ sent_in_order c.draws m.message_queue c.effects
  unfolding open_socket
  open_socket-sends m c up held len =
      rw
        (flush-sends m.message_queue
          (set_mock id (record { ready_state = open_state; message_queue = [] }) c) up held len)
        refl
