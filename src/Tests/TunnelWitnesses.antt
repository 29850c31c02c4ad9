-- ===== src/Tests/TunnelWitnesses.antt =====
-- The theorems about the tunnel's server at one that runs.
use teekit.Common.{
  ℕ, ◌≡◌, ◌⊎◌, refl, true, false, none, some, [], ◌∷◌, ◌++◌, All, codes, list_eq, if◌then◌else◌,
}
use teekit.Result.{ok}
use teekit.Dict.{number_key, text_key, get, has, set, add, member}
use teekit.Bytes.{Bytes, le_value, le_bytes}
use teekit.Tunnel.Crypto.{
  crypto_box_seal, crypto_box_seal_open, crypto_secretbox_easy, crypto_secretbox_open_easy,
}
use teekit.Tunnel.Crypto.Seal.{seal_open-seal}
use teekit.Tunnel.Message.{string, string_data, ws_message}
use teekit.Tunnel.Server.{Server, MockWebSocket, open_state, delivered, terminated}
use teekit.Tunnel.Server.Send.{touch, try_send, send_encrypted, decrypt_envelope_for_socket, key_of}
use teekit.Tunnel.Server.Quote.{
  intel_quote, finish_quote, begin_quote, announce, kx_announce, send_server_kx,
  on_express_control_connection,
}
use teekit.Tunnel.Server.Handle
use teekit.Tunnel.Server.Close.{on_close}
use teekit.Tunnel.Server.Sweep.{heartbeat_sweep}
use teekit.Tunnel.Server.Sweep.Laws.{survives, heartbeat_sweep-keys}
use teekit.Tunnel.Server.Sweep.Heartbeat.{HasEffect}
use teekit.Tunnel.Server.Sweep.Silence.{Meanwhile, at_once, later, swept-terminates}
use teekit.Tunnel.Server.Step.{step, handle, new_server, opened, lost, swept, here}
use teekit.Tunnel.Server.Tracked.{IsTracked}
use teekit.Tunnel.Server.Invariant.{Reach-IsTracked, step-IsTracked}
use teekit.Tunnel.Server.Cleanup.{Forgets, on_close-Forgets}
use teekit.Tunnel.Server.Protected.{IsProtected}
use teekit.Tunnel.Server.Protected.Events.{step-IsProtected}
use teekit.Tunnel.Server.Handshake.{IsKxOrNothing, received-unkeyed}
use teekit.Tunnel.Server.Handshake.Keeping.{step-Holds}
use teekit.Tunnel.Server.Handshake.Crossing.{message-crosses}
use teekit.Tunnel.Server.Race.{Announces, announce-overlapping}
use teekit.Tests.MessageCodec.{cbor}
use teekit.Tests.Packages.{fill}
use teekit.Tests.TunnelRun.{
  runtime, noble, fresh, session_key, server_keys, connected_server, connected_server-Reach,
  keyed_server, opened_server, kx_event, connect_event, two_clients, second_key, intruding_bytes,
  seal_tag, quoted, cbor_kx,
}

Reach-IsTracked_example : IsTracked connected_server
Reach-IsTracked_example = Reach-IsTracked runtime false server_keys 60000 connected_server-Reach

quoted-IsTracked : IsTracked quoted
quoted-IsTracked =
    step-IsTracked runtime 100 _ fresh (Reach-IsTracked runtime false server_keys 60000 here)

opened-IsTracked : IsTracked opened_server
opened-IsTracked = step-IsTracked runtime 200 _ quoted quoted-IsTracked

keyed-IsTracked : IsTracked keyed_server
keyed-IsTracked = step-IsTracked runtime 300 kx_event opened_server opened-IsTracked

on_close-Forgets_example : Forgets 7 connected_server (on_close 7 connected_server)
on_close-Forgets_example = on_close-Forgets 7 connected_server Reach-IsTracked_example

step-IsProtected_example :
    All
      (IsProtected runtime keyed_server.symmetric_keys)
      (step runtime 400 connect_event keyed_server).effects
step-IsProtected_example = step-IsProtected runtime 400 connect_event keyed_server keyed-IsTracked

keyed : get 7 keyed_server.symmetric_keys ≡ some session_key
unfolding get step handle new_server finish_quote begin_quote announce send_server_kx
    on_express_control_connection Handle.handle_control_message Handle.receive Handle.kx_confirm has
    set touch crypto_box_seal_open kx_announce le_bytes list_eq le_value
keyed = refl

step-Holds_example :
    get 7 (step runtime 400 connect_event keyed_server).symmetric_keys ≡ some session_key
step-Holds_example =
    step-Holds 7 session_key runtime 400 connect_event keyed_server keyed-IsTracked tt keyed

unkeyed : get 7 opened_server.symmetric_keys ≡ none
unfolding get step handle new_server finish_quote begin_quote announce send_server_kx
    on_express_control_connection kx_announce
unkeyed = refl

received-unkeyed_example :
    IsKxOrNothing runtime 7 cbor_kx opened_server
      (Handle.handle_control_message runtime 7 cbor_kx opened_server)
received-unkeyed_example = received-unkeyed runtime 7 cbor_kx opened_server opened-IsTracked unkeyed

announce-overlapping_example :
    let first = intel_quote (1 ∷ []) none none in
    let second = intel_quote (2 ∷ []) none none in
    let pending =
      begin_quote
        (record { public_key = fill 32 4; private_key = fill 32 4 })
        (begin_quote server_keys fresh) in
    Announces
      (finish_quote first pending)
      (record { public_key = fill 32 4; private_key = fill 32 4 })
      first
    × Announces
        (finish_quote first (finish_quote second pending))
        (record { public_key = fill 32 4; private_key = fill 32 4 })
        first
announce-overlapping_example =
    announce-overlapping server_keys (record { public_key = fill 32 4; private_key = fill 32 4 })
      (intel_quote (1 ∷ []) none none) (intel_quote (2 ∷ []) none none) fresh

heartbeat_sweep-keys_example :
    get 7 (heartbeat_sweep (some (7 ∷ [])) (λ v. open_state) keyed_server).symmetric_keys
    ≡ (if survives (7 ∷ []) (λ v. open_state) 7 then get 7 keyed_server.symmetric_keys else none)
heartbeat_sweep-keys_example = heartbeat_sweep-keys 7 (some (7 ∷ [])) (λ v. open_state) keyed_server

live : get 7 opened_server.liveness ≡ some (record { is_alive = true; last_activity_ms = 200 })
unfolding get step handle new_server finish_quote begin_quote announce send_server_kx
    on_express_control_connection kx_announce set
live = refl

surviving : survives (7 ∷ []) (λ v. open_state) 7 ≡ true
unfolding member
surviving = refl

still_there : member {K = ℕ} 7 (7 ∷ []) ≡ true
unfolding member
still_there = refl

abbrev swept_server : Server
swept_server = step runtime 30000 (swept (some (7 ∷ [])) (λ v. open_state)) opened_server

opened_server-IsTracked : IsTracked opened_server
opened_server-IsTracked =
    step-IsTracked runtime 200 (opened 7 0 0 server_keys) quoted quoted-IsTracked

-- Between the sweeps the client sends its key, and the socket 9 is opened and lost.
abbrev busy_server : Server
busy_server =
    step runtime 50000 (lost 9)
      (step runtime 40000 (opened 9 0 0 server_keys) (step runtime 35000 kx_event swept_server))

busy_server-Meanwhile : Meanwhile runtime 7 swept_server busy_server
busy_server-Meanwhile =
    later 50000 (lost 9) (λ e. cc)
      (later 40000 (opened 9 0 0 server_keys) (λ e. cc) (later 35000 kx_event tt at_once))

swept-terminates_example :
    HasEffect (terminated 7) swept_server.effects
    ⊎ HasEffect
        (terminated 7)
        (step runtime 60000 (swept (some (7 ∷ [])) (λ v. open_state)) busy_server).effects
swept-terminates_example =
    swept-terminates runtime 7 30000 60000 (7 ∷ []) (7 ∷ []) (λ v. open_state) (λ v. open_state)
      opened_server busy_server opened_server-IsTracked live surviving still_there
      busy_server-Meanwhile

seal_open-seal_example :
    (sealed : Bytes) × (crypto_box_seal noble (fill 32 2) session_key (noble.public_key (fill 32 3))
      ≡ ok sealed)
    × (crypto_box_seal_open noble sealed (noble.public_key (fill 32 3)) (fill 32 3)
        ≡ ok session_key)
seal_open-seal_example = seal_open-seal noble (fill 32 2) session_key (fill 32 3) refl refl

intruder_keyed : get 8 two_clients.symmetric_keys ≡ some second_key
unfolding get step handle new_server finish_quote begin_quote announce send_server_kx
    on_express_control_connection Handle.handle_control_message Handle.receive
    Handle.receive_encrypted Handle.dispatch Handle.handle_tunnel_web_socket_connect
    Handle.encrypted_message Handle.kx_confirm has set add touch key_of try_send send_encrypted
    decrypt_envelope_for_socket crypto_secretbox_easy crypto_secretbox_open_easy
    crypto_box_seal_open kx_announce le_bytes list_eq le_value
intruder_keyed = refl

connection_there :
    get (codes "c1") two_clients.sockets ≡ some (record { mock_ws = 0; control_ws = 7 })
unfolding get step handle new_server finish_quote begin_quote announce send_server_kx
    on_express_control_connection Handle.handle_control_message Handle.receive
    Handle.receive_encrypted Handle.dispatch Handle.handle_tunnel_web_socket_connect
    Handle.encrypted_message Handle.kx_confirm has set add touch key_of try_send send_encrypted
    decrypt_envelope_for_socket crypto_secretbox_easy crypto_secretbox_open_easy
    crypto_box_seal_open kx_announce le_bytes list_eq le_value
connection_there = refl

abbrev mock_of_c1 : MockWebSocket
mock_of_c1 = record {
  ready_state = open_state;
  connection_id = codes "c1";
  control_ws = 7;
  extra_context = none;
}

mock_there : get 0 two_clients.mocks ≡ some mock_of_c1
unfolding get step handle new_server finish_quote begin_quote announce send_server_kx
    on_express_control_connection Handle.handle_control_message Handle.receive
    Handle.receive_encrypted Handle.dispatch Handle.handle_tunnel_web_socket_connect
    Handle.encrypted_message Handle.kx_confirm has set add touch key_of try_send send_encrypted
    decrypt_envelope_for_socket crypto_secretbox_easy crypto_secretbox_open_easy
    crypto_box_seal_open kx_announce le_bytes list_eq le_value
mock_there = refl

keypair_there : two_clients.keypair ≡ some server_keys
unfolding get step handle new_server finish_quote begin_quote announce send_server_kx
    on_express_control_connection Handle.handle_control_message Handle.receive
    Handle.receive_encrypted Handle.dispatch Handle.handle_tunnel_web_socket_connect
    Handle.encrypted_message Handle.kx_confirm has set add touch key_of try_send send_encrypted
    decrypt_envelope_for_socket crypto_secretbox_easy crypto_secretbox_open_easy
    crypto_box_seal_open kx_announce le_bytes list_eq le_value
keypair_there = refl

intrusion_opens :
    decrypt_envelope_for_socket runtime 8
      (fill 24 0)
      (seal_tag second_key
        ++ cbor.encode (ws_message (codes "c1") (string (codes "hi")) string_data))
      two_clients
    ≡ ok (ws_message (codes "c1") (string (codes "hi")) string_data)
unfolding get step handle new_server finish_quote begin_quote announce send_server_kx
    on_express_control_connection Handle.handle_control_message Handle.receive
    Handle.receive_encrypted Handle.dispatch Handle.handle_tunnel_web_socket_connect
    Handle.encrypted_message Handle.kx_confirm has set add touch key_of try_send send_encrypted
    decrypt_envelope_for_socket crypto_secretbox_easy crypto_secretbox_open_easy
    crypto_box_seal_open kx_announce le_bytes list_eq le_value
intrusion_opens = refl

-- Socket 8 writes to a connection of socket 7.
message-crosses_example :
    (Handle.handle_control_message runtime 8 intruding_bytes two_clients).effects
    ≡ delivered 0 (string (codes "hi")) ∷ two_clients.effects
message-crosses_example =
    message-crosses runtime 8 intruding_bytes (fill 24 0)
      (seal_tag second_key
        ++ cbor.encode (ws_message (codes "c1") (string (codes "hi")) string_data))
      second_key (codes "c1") (string (codes "hi")) string_data
      (record { mock_ws = 0; control_ws = 7 }) mock_of_c1 server_keys two_clients keypair_there
      intruder_keyed refl intrusion_opens connection_there mock_there refl
