-- ===== src/Tunnel/Client/Secured/Handlers.antt =====
-- What the handlers of the control socket of packages/tunnel/src/client.ts send on it.
use teekit.Common.{
  ℕ, ◌≡◌, ◌⊎◌, ap, inl, inr, false, not, ◌||◌, Option, none, some, List, [], ◌∷◌, All, Text, codes,
  Bool-cases,
}
use teekit.Result.{Result, ok, err, stuck, Fault, tunnel_disconnected}
use teekit.Dict.{text_key, member, remove}
use teekit.Intel.Defs.{or_else, is_empty}
use teekit.Tunnel.Message.{
  Message, ServerEvent, close_event, error_event, HttpResponse, http_request, http_response,
  ws_connect, ws_close, ws_message, ws_event, server_kx, client_kx, client_kx_ready, enc, other,
}
use teekit.Tunnel.Client.{Client, closed, fault, request_rejected, SyntheticResponse, ClientRuntime}
use teekit.Tunnel.Client.Send.{emit, is_open}
use teekit.Tunnel.Client.Socket.{text_or, handle_tunnel_event, handle_tunnel_message}
use teekit.Tunnel.Client.Platform.{rebuild_response}
use teekit.Tunnel.Client.Handle.{
  ensure_connection, reject_all, reject_pending, drop_symmetric_key, event_for, settle,
  handle_tunnel_response, tell_all, tell_closed, on_close, on_error, handle_decrypted, on_encrypted,
}
use teekit.Tunnel.Client.Secured.{IsSecured, IsSafe, Core, core}
use teekit.Tunnel.Client.Secured.Sockets.{handle_tunnel_event-IsSafe}

abbrev pub dropped : Core → Core
dropped k = record k { channel = record k.channel { symmetric_key = none }; key_holder = none }

module _ (rt : ClientRuntime) (start : Client) where
  -- All was secured, and the key exchange is where it was, or its symmetric key is dropped.
  abbrev pub IsKept : Client → Type 0
  IsKept c =
      ((core c ≡ core start) ⊎ (core c ≡ dropped (core start))) × All (IsSecured rt start) c.effects

  pub ensure_connection-IsSafe :
      (c : Client) → IsSafe rt start c → IsSafe rt start (ensure_connection c)
  unfolding ensure_connection
  ensure_connection-IsSafe c safe =
      elim (Bool-cases (c.closed || is_open c.ws || c.connection_promise)) [
        | inl known ↦ rw (known, ensure_connection) safe
        | inr fresh ↦ rw (fresh, ensure_connection) (safe.0, (tt, safe.1))
      ]

  pub reject_all-IsSafe :
      (e : Fault) (ids : List Text) (c : Client)
      → IsSafe rt start c
      → IsSafe rt start (reject_all e ids c)
  unfolding reject_all
  reject_all-IsSafe e [] c safe = safe
  reject_all-IsSafe e (id ∷ ids) c safe =
      reject_all-IsSafe e ids (emit (request_rejected id (fault e)) c) (safe.0, (tt, safe.1))

  pub reject_pending-IsSafe :
      (e : Fault) (c : Client) → IsSafe rt start c → IsSafe rt start (reject_pending e c)
  unfolding reject_pending
  reject_pending-IsSafe e c safe = reject_all-IsSafe e c.pending_requests c safe

  pub tell_all-IsSafe :
      (event : Text → ServerEvent) (ids : List Text) (c : Client)
      → IsSafe rt start c
      → IsSafe rt start (tell_all rt event ids c)
  unfolding tell_all
  tell_all-IsSafe event [] c safe = safe
  tell_all-IsSafe event (id ∷ ids) c safe =
      tell_all-IsSafe event ids (handle_tunnel_event rt (event id) c)
        (handle_tunnel_event-IsSafe rt start (event id) c safe)

  pub tell_closed-IsSafe :
      (code : Option ℕ) (reason : Option Text) (c : Client)
      → IsSafe rt start c
      → IsSafe rt start (tell_closed rt code reason c)
  unfolding tell_closed
  tell_closed-IsSafe code reason c safe =
      tell_all-IsSafe (event_for close_event code reason none) c.web_socket_connections c safe

  pub on_close-IsKept :
      (code : Option ℕ) (reason : Option Text) (c : Client)
      → IsSafe rt start c
      → IsKept (on_close rt code reason c)
  unfolding on_close drop_symmetric_key
  on_close-IsKept code reason c safe =
      let lost = record c {
        connection_promise = false;
        ws = elim c.ws [ none ↦ none | some state ↦ some closed ];
      } in
      let close_code = some (or_else code 1006) in
      let close_reason = some (or_else reason (codes "tunnel closed")) in
      let told = tell_closed-IsSafe close_code close_reason lost safe in
      let forgotten = tell_closed rt close_code close_reason lost in
      let settled = reject_pending-IsSafe tunnel_disconnected forgotten told in
      (inr (ap dropped settled.0), (tt, settled.1))

  pub on_error-IsSafe :
      (message : Option Text) (c : Client)
      → IsSafe rt start c
      → IsSafe rt start (on_error rt message c)
  unfolding on_error
  on_error-IsSafe message c safe =
      let error = text_or message (codes "Tunnel error") in
      let event = event_for error_event none none (some error) in
      let unpromised = record c { connection_promise = false } in
      let told = tell_all rt event c.web_socket_connections unpromised in
      let quiet : IsSafe rt start told =
        tell_all-IsSafe event c.web_socket_connections unpromised safe in
      elim (Bool-cases (is_open told.ws)) [
        | inl up ↦ rw (up, on_error) (quiet.0, (tt, quiet.1))
        | inr down ↦ elim (Bool-cases told.closed) [
          | inl gone ↦ rw (down, on_error, gone) quiet
          | inr alive ↦ rw (down, on_error, alive) (quiet.0, (tt, (tt, quiet.1)))
        ]
      ]

  pub settle-IsSafe :
      (id : Text) (r : Result SyntheticResponse) (c : Client)
      → IsSafe rt start c
      → IsSafe rt start (settle id r c)
  unfolding settle
  settle-IsSafe id (ok response) c quiet = (quiet.0, (tt, quiet.1))
  settle-IsSafe id (err e) c quiet = (quiet.0, (tt, quiet.1))
  settle-IsSafe id stuck c quiet = quiet

  pub response-IsSafe :
      (response : HttpResponse) (c : Client)
      → IsSafe rt start c
      → IsSafe rt start (handle_tunnel_response response c)
  unfolding handle_tunnel_response
  response-IsSafe response c quiet =
      elim (Bool-cases (not (member response.request_id c.pending_requests))) [
        | inl unknown ↦ rw (unknown, handle_tunnel_response) quiet
        | inr known ↦ elim (Bool-cases (not (is_empty (text_or response.error [])))) [
          | inl failed ↦ rw (known, handle_tunnel_response, failed) (quiet.0, (tt, quiet.1))
          | inr fine ↦
              rw (known, handle_tunnel_response, fine)
                (settle-IsSafe response.request_id (rebuild_response response)
                  (record c { pending_requests = remove response.request_id c.pending_requests })
                  quiet)
        ]
      ]

  pub handle_decrypted-IsSafe :
      (payload : Message) (c : Client)
      → IsSafe rt start c
      → IsSafe rt start (handle_decrypted rt payload c)
  unfolding handle_decrypted handle_tunnel_message
  handle_decrypted-IsSafe (http_response response) c safe = response-IsSafe response c safe
  handle_decrypted-IsSafe (ws_event event) c safe =
      elim (Bool-cases (member event.connection_id c.web_socket_connections)) [
        | inl known ↦
            rw (known, handle_decrypted) (handle_tunnel_event-IsSafe rt start event c safe)
        | inr unknown ↦ rw (unknown, handle_decrypted) safe
      ]
  handle_decrypted-IsSafe (ws_message id content kind) c safe =
      elim (Bool-cases (member id c.web_socket_connections)) [
        | inl known ↦ rw (known, handle_decrypted) (safe.0, (tt, safe.1))
        | inr unknown ↦ rw (unknown, handle_decrypted) safe
      ]
  handle_decrypted-IsSafe (http_request r) c safe = safe
  handle_decrypted-IsSafe (ws_connect id url protocols) c safe = safe
  handle_decrypted-IsSafe (ws_close id code reason) c safe = safe
  handle_decrypted-IsSafe (server_kx kx) c safe = safe
  handle_decrypted-IsSafe (client_kx sealed) c safe = safe
  handle_decrypted-IsSafe client_kx_ready c safe = safe
  handle_decrypted-IsSafe (enc salt ciphertext) c safe = safe
  handle_decrypted-IsSafe other c safe = safe

  pub on_encrypted-IsSafe :
      (r : Result Message) (c : Client) → IsSafe rt start c → IsSafe rt start (on_encrypted rt r c)
  unfolding on_encrypted
  on_encrypted-IsSafe (ok payload) c safe = handle_decrypted-IsSafe payload c safe
  on_encrypted-IsSafe (err e) c safe = (safe.0, (tt, safe.1))
  on_encrypted-IsSafe stuck c safe = safe
