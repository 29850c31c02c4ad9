-- ===== src/Tests/ClientWitnesses.antt =====
-- A client of the tunnel that runs, against the quotes and the server of the other tests, and the
-- theorems on it.
use teekit.Common.{◌+◌, ◌≡◌, inr, refl, true, false, none, some, [], ◌∷◌, codes, list_eq}
use teekit.Result.{ok, type_error}
use teekit.Bytes.{Bytes}
use teekit.Measurements.{single, measurements}
use teekit.Tunnel.Message.{
  HttpResponse, ServerEvent, close_event, string, string_data, Message, ws_message, ws_event,
  server_kx,
}
use teekit.Dict.{number_key, text_key, get, member}
use teekit.Tunnel.Server.{Server}
use teekit.Tunnel.Server.Send.{touch}
use teekit.Tunnel.Server.Handle.{kx_confirm, dispatch, handle_control_message}
use teekit.Tunnel.Client.{
  MockWebSocket, connecting, socket_opened, Client, TunnelClientConfig, tdx, ClientRuntime,
  open_state, request_resolved, thrown, control_sent,
}
use teekit.Tunnel.Client.Send.{emit, send}
use teekit.Tunnel.Client.Socket.{socket_close, open_socket}
use teekit.Tunnel.Client.Queue.{sent_in_order, open_socket-sends}
use teekit.Tunnel.Client.Handle.{handle_tunnel_response, handle_decrypted}
use teekit.Tunnel.Client.Platform.{header_calls, synthetic_response}
use teekit.Tunnel.Client.Response.{IsTaken, IsRefused, handle_tunnel_response-answers}
use teekit.Tunnel.Client.Crossing.{send-crosses}
use teekit.Tunnel.Client.Closing.{socket_close-Deaf}
use teekit.Tunnel.Client.Step.{
  control_open, control_message, ensured, attestation_verified, attestation_validated,
  attestation_bound, step, new_client,
}
use teekit.Tests.Packages.{fill, env, root_cert}
use teekit.Tests.Quotes.{tdx_quote}
use teekit.Tests.TdxRun.{tdx_measurements}
use teekit.Tests.MessageCodec.{cbor}
use teekit.Tests.TunnelRun.{noble, length-fill, runtime, session_key, server_keys, fresh}

abbrev client_runtime : ClientRuntime
client_runtime = record {
  cbor = cbor;
  noble = noble;
  env = env;
  default_amd_ark_certs = root_cert ∷ [];
  parse_url = runtime.parse_url;
  random_key = λ draw. fill 32 9;
  random_secret_key = λ draw. fill 32 2;
  random_nonce = λ draw. fill 24 draw;
  length-random_key = λ draw. length-fill 32 9;
  length-random_nonce = λ draw. length-fill 24 draw;
}

abbrev client_config : TunnelClientConfig
client_config = record {
  mode = tdx (record {
    measurements = some (single (measurements tdx_measurements));
    custom_verify_quote = none;
  });
  x25519_binding = some (λ c. ok true);
}

abbrev greeting : Client
greeting =
    step client_runtime control_open
      (step client_runtime ensured (new_client (codes "http://localhost") client_config))

abbrev announcement : Bytes
announcement = cbor.encode (
    server_kx (record {
      x25519_public_key = fill 32 3;
      quote = tdx_quote;
      runtime_data = none;
      verifier_data = none;
      sev_snp_data = none;
    }))

abbrev announced : Client
announced = step client_runtime (control_message announcement) greeting

abbrev keyed : Client
keyed = step client_runtime (attestation_verified 0) announced

abbrev validated : Client
validated = step client_runtime (attestation_validated 0) keyed

abbrev attested : Client
attested = step client_runtime (attestation_bound 0) validated

-- A client that is connected, with a pending request and an open socket.
abbrev connected_client : Client
connected_client = record (new_client (codes "http://localhost") client_config) {
  ws = some open_state;
  channel = record {
    evidence = none;
    server_x25519_public_key = some (fill 32 3);
    symmetric_key = some session_key;
    report_binding_data = none;
  };
  pending_requests = codes "r1" ∷ [];
  web_socket_connections = codes "c1" ∷ [];
  mocks = (codes "c1", record { ready_state = open_state; message_queue = [] }) ∷ [];
}

abbrev not_modified : HttpResponse
not_modified = record {
  request_id = codes "r1";
  status = 304;
  status_text = codes "Not Modified";
  headers = [];
  body = string [];
  error = none;
}

handle_tunnel_response-answers_example :
    (member not_modified.request_id
        (handle_tunnel_response not_modified connected_client).pending_requests
      ≡ false)
    × (IsTaken not_modified
        → (handle_tunnel_response not_modified connected_client).effects
          ≡ request_resolved
              (codes "r1")
              (synthetic_response not_modified (header_calls not_modified.headers))
            ∷ connected_client.effects)
    × (IsRefused not_modified
        → (handle_tunnel_response not_modified connected_client).effects
          ≡ thrown type_error ∷ connected_client.effects)
unfolding member list_eq
handle_tunnel_response-answers_example =
    handle_tunnel_response-answers not_modified connected_client refl refl

abbrev server_close : ServerEvent
server_close = record {
  connection_id = codes "c1";
  event_type = close_event;
  code = some 1000;
  reason = none;
  error = none;
}

socket_close-Deaf_example :
    handle_decrypted client_runtime
      (ws_event server_close)
      (socket_close client_runtime (codes "c1") none none connected_client)
    ≡ socket_close client_runtime (codes "c1") none none connected_client
unfolding get list_eq
socket_close-Deaf_example =
    socket_close-Deaf client_runtime server_close none none connected_client
      (record { ready_state = open_state; message_queue = [] }) refl (inr refl)

abbrev waiting_server : Server
waiting_server = record fresh { keypair = some server_keys; symmetric_keys = (7, session_key) ∷ [] }

abbrev hello : Message
hello = ws_message (codes "c1") (string (codes "hi")) string_data

send-crosses_example :
    (sent_bytes : Bytes) × (send client_runtime hello connected_client
      ≡ ok (
          emit
            (control_sent sent_bytes)
            (record connected_client { draws = connected_client.draws + 1 })))
    × (handle_control_message runtime 7 sent_bytes waiting_server
        ≡ dispatch runtime 7 hello (touch 7 waiting_server))
unfolding kx_confirm get
send-crosses_example =
    send-crosses runtime client_runtime refl refl hello connected_client 7 waiting_server
      server_keys session_key refl refl refl (length-fill 32 9) refl refl

abbrev waiting_socket : MockWebSocket
waiting_socket = record {
  ready_state = connecting;
  message_queue = string (codes "a") ∷ string (codes "b") ∷ [];
}

open_socket-sends_example :
    (open_socket client_runtime (codes "c1") waiting_socket connected_client).effects
    ≡ socket_opened (codes "c1")
      ∷ sent_in_order client_runtime
          (codes "c1")
          session_key
          connected_client.draws
          waiting_socket.message_queue
          connected_client.effects
open_socket-sends_example =
    open_socket-sends client_runtime (codes "c1") session_key waiting_socket connected_client refl
      refl (length-fill 32 9)
