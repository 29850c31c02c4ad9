-- ===== src/Tunnel/Client/Secured/Events.antt =====
-- What each event makes a `TunnelClient` of packages/tunnel/src/client.ts send on its control socket.
use teekit.Common.{refl, sym, none, [], inl, inr, Text}
use mathlib.Core.Path.{subst}
use teekit.Result.{Result, ok, err, stuck}
use teekit.Bytes.{Bytes}
use teekit.Tunnel.Message.{
  Message, http_request, http_response, ws_connect, ws_close, ws_message, ws_event, server_kx,
  client_kx, client_kx_ready, enc, other,
}
use teekit.Dict.{number_key, get}
use teekit.Tunnel.Client.{Client, TunnelClientConfig, ClientRuntime}
use teekit.Tunnel.Client.Socket.{
  socket_send, socket_close, connect, new_socket, register_web_socket_tunnel, handle_error,
}
use teekit.Tunnel.Client.Handle.{
  handle_decoded, on_message, ensure_connection, reconnect, on_open, on_close, on_error, close,
}
use teekit.Tunnel.Client.Request.{fetch, timed_out}
use teekit.Tunnel.Client.Step.{
  Event, ensured, reconnecting, control_open, control_close, control_error, control_message,
  fetched, request_timed_out, socket_created, socket_connects, socket_unconnected, socket_sends,
  socket_closes, attestation_verified, attestation_validated, attestation_bound, client_closes,
  or_unchanged, handle, step, new_client, Reach, here, next,
}
use teekit.Tunnel.Client.Secured.{IsSafe, Core, connect-IsSafe}
use teekit.Tunnel.Client.Secured.Sockets.{socket_close-IsSafe, socket_send-IsSafe}
use teekit.Tunnel.Client.Secured.Handlers.{
  IsKept, ensure_connection-IsSafe, on_close-IsKept, on_error-IsSafe,
}
use teekit.Tunnel.Client.Secured.Calls.{
  close-IsKept, unchanged-IsSafe, fetch-IsSafe, timed_out-IsSafe, on_open-IsSafe, reconnect-IsSafe,
  other_message-IsSafe,
}
use teekit.Tunnel.Client.Secured.Sound.{AreSound, moved-AreSound}
use teekit.Tunnel.Client.Secured.Answer.{on_bound-IsGood}
use teekit.Tunnel.Client.Secured.Stages.{
  IsSound, IsGood, on_server_kx-IsGood, on_verified-IsGood, on_validated-IsGood,
}

abbrev IsSoundCore : ClientRuntime → Core → Type 0
IsSoundCore rt k =
    AreSound rt k.config k.channel.symmetric_key k.channel.server_x25519_public_key k.key_holder
      k.attestations

module _ (rt : ClientRuntime) (start : Client) (good : IsGood rt start start) where
  kept-IsGood : (c : Client) → IsKept rt start c → IsGood rt start c
  kept-IsGood c (inl same, quiet) = (subst (IsSoundCore rt) (sym same) good.0, quiet)
  kept-IsGood c (inr lost, quiet) = (
    subst (IsSoundCore rt) (sym lost) (
        moved-AreSound rt start.config start.channel.symmetric_key
          start.channel.server_x25519_public_key none start.channel.server_x25519_public_key
          start.key_holder none start.attestations (λ id h. absurd (cc)) good.0),
    quiet,
  )

  safe-IsGood : (c : Client) → IsSafe rt start c → IsGood rt start c
  safe-IsGood c (same, quiet) = kept-IsGood c (inl same, quiet)

  safe : IsSafe rt start start
  safe = (refl, good.1)

  decoded-IsGood : (message : Message) → IsGood rt start (handle_decoded rt message start)
  unfolding handle_decoded
  decoded-IsGood (server_kx message) = on_server_kx-IsGood rt start message start good
  decoded-IsGood (enc salt ciphertext) =
      safe-IsGood (handle_decoded rt (enc salt ciphertext) start)
        (other_message-IsSafe rt start (enc salt ciphertext) (λ kx e. cc) safe)
  decoded-IsGood (http_request r) = good
  decoded-IsGood (http_response r) = good
  decoded-IsGood (ws_connect id url protocols) = good
  decoded-IsGood (ws_close id code reason) = good
  decoded-IsGood (ws_message id content kind) = good
  decoded-IsGood (ws_event event) = good
  decoded-IsGood (client_kx sealed) = good
  decoded-IsGood client_kx_ready = good
  decoded-IsGood other = good

  on_message-IsGood : (bytes : Bytes) → IsGood rt start (on_message rt bytes start)
  unfolding on_message
  on_message-IsGood bytes = decoded (rt.cbor.decode bytes)
    where
      decoded :
          (r : Result Message)
          → IsGood rt start (elim r [
            | ok message ↦ handle_decoded rt message start
            | err e ↦ start
            | stuck ↦ start
          ])
      decoded (ok message) = decoded-IsGood message
      decoded (err e) = good
      decoded stuck = good

  handle-IsGood : (event : Event) → IsGood rt start (handle rt event start)
  unfolding handle handle_error new_socket register_web_socket_tunnel
  handle-IsGood ensured =
      safe-IsGood (ensure_connection start) (ensure_connection-IsSafe rt start start safe)
  handle-IsGood reconnecting = safe-IsGood (reconnect start) (reconnect-IsSafe rt start start safe)
  handle-IsGood control_open = safe-IsGood (on_open rt start) (on_open-IsSafe rt start start safe)
  handle-IsGood (control_close code reason) =
      kept-IsGood (on_close rt code reason start) (on_close-IsKept rt start code reason start safe)
  handle-IsGood (control_error message) =
      safe-IsGood (on_error rt message start) (on_error-IsSafe rt start message start safe)
  handle-IsGood (control_message bytes) = on_message-IsGood bytes
  handle-IsGood (fetched id resource options) =
      safe-IsGood (or_unchanged (fetch rt id resource options start) start)
        (fetch-IsSafe rt start id resource options start safe)
  handle-IsGood (request_timed_out id) =
      safe-IsGood (timed_out id start) (timed_out-IsSafe rt start id start safe)
  handle-IsGood (socket_created id) =
      safe-IsGood (ensure_connection (new_socket id start))
        (ensure_connection-IsSafe rt start (new_socket id start) safe)
  handle-IsGood (socket_connects id url protocols) =
      safe-IsGood (connect rt id url protocols start)
        (connect-IsSafe rt start id url protocols start safe)
  handle-IsGood (socket_unconnected id reason) = (good.0, (tt, good.1))
  handle-IsGood (socket_sends id content) =
      safe-IsGood (or_unchanged (socket_send rt id content start) start) (
        unchanged-IsSafe rt start (socket_send rt id content start) start
          (λ d e. socket_send-IsSafe rt start id content start safe e) safe)
  handle-IsGood (socket_closes id code reason) =
      safe-IsGood (socket_close rt id code reason start)
        (socket_close-IsSafe rt start id code reason start safe)
  handle-IsGood (attestation_verified id) = on_verified-IsGood rt start id start good
  handle-IsGood (attestation_validated id) = on_validated-IsGood rt start id start good
  handle-IsGood (attestation_bound id) = on_bound-IsGood rt start good id
  handle-IsGood (client_closes code reason) =
      kept-IsGood (close rt code reason start) (close-IsKept rt start code reason start safe)

module _ (rt : ClientRuntime) (origin : Text) (config : TunnelClientConfig) where
  pub Reach-IsSound : {c : Client} → Reach rt (new_client origin config) c → IsSound rt c
  unfolding step new_client get
  Reach-IsSound here = λ id a found. cc
  Reach-IsSound (next {c} event r) =
      (handle-IsGood rt (record c { effects = [] }) (Reach-IsSound r, tt) event).0
