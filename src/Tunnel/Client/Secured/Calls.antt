-- ===== src/Tunnel/Client/Secured/Calls.antt =====
-- What the events of a `TunnelClient` of packages/tunnel/src/client.ts but those of the key exchange send
-- on its control socket.
use teekit.Common.{
  ℕ, ◌≡◌, ◌≢◌, inl, inr, refl, ap, Bool, true, false, ◌||◌, Option, some, Text, codes, Bool-cases,
  Option-cases, if◌then◌else◌,
}
use teekit.Result.{Result, ok, err, stuck, >>=-eq-ok, tunnel_closed}
use teekit.Dict.{text_key, member, add}
use teekit.Tunnel.Message.{
  Message, KxAnnounce, HttpRequest, http_request, http_response, ws_connect, ws_close, ws_message,
  ws_event, server_kx, client_kx, client_kx_ready, enc, other,
}
use teekit.Tunnel.Server.Handle.{kx_confirm}
use teekit.Tunnel.Client.{Client, ClientRuntime}
use teekit.Tunnel.Client.Attest.Keyed.{ok_injective}
use teekit.Tunnel.Client.Send.{is_open, send, decrypt_envelope}
use teekit.Tunnel.Client.Socket.{code_or, text_or}
use teekit.Tunnel.Client.Handle.{
  ensure_connection, reconnect, reject_pending, drop_symmetric_key, on_open, tell_closed,
  handle_decoded, close_control, close, is_connecting,
}
use teekit.Tunnel.Client.Request.{
  Resource, RequestInit, tunnel_request, start_request, reject_unsent, fetch, timed_out,
}
use teekit.Tunnel.Client.Step.{or_unchanged}
use teekit.Tunnel.Client.Secured.{IsSafe, send-IsSafe}
use teekit.Tunnel.Client.Secured.Handlers.{
  IsKept, dropped, ensure_connection-IsSafe, reject_pending-IsSafe, tell_closed-IsSafe,
  on_encrypted-IsSafe,
}

module _ (rt : ClientRuntime) (start : Client) where
  pub close-IsKept :
      (code : Option ℕ) (reason : Option Text) (c : Client)
      → IsSafe rt start c
      → IsKept rt start (close rt code reason c)
  unfolding close drop_symmetric_key close_control
  close-IsKept code reason c safe =
      let rejected =
        reject_pending-IsSafe rt start tunnel_closed (record c { closed = true }) safe in
      let told = reject_pending tunnel_closed (record c { closed = true }) in
      let given_code = code_or code 1000 in
      let given_reason = text_or reason (codes "client closed") in
      let forgotten = tell_closed rt (some given_code) (some given_reason) told in
      let quiet = tell_closed-IsSafe rt start (some given_code) (some given_reason) told rejected in
      elim (Bool-cases c.closed) [
        | inl gone ↦ rw (gone, close) (inl safe.0, safe.1)
        | inr alive ↦ elim (Bool-cases (is_open forgotten.ws || is_connecting forgotten.ws)) [
          | inl up ↦ rw (alive, close, up) (inr (ap dropped quiet.0), (tt, quiet.1))
          | inr down ↦ rw (alive, close, down) (inr (ap dropped quiet.0), quiet.1)
        ]
      ]

  pub start_request-IsSafe :
      (req : HttpRequest) (c : Client)
      → IsSafe rt start c
      → IsSafe rt start (start_request rt req c)
  unfolding start_request kx_confirm
  start_request-IsSafe req c safe =
      let pending = record c { pending_requests = add req.request_id c.pending_requests } in
      sent (send rt (http_request req) pending) pending
        (λ d e. (send-IsSafe rt start (http_request req) pending refl safe e)) safe
    where
      sent :
          (r : Result Client) (pending : Client)
          → ((d : Client) → r ≡ ok d → IsSafe rt start d)
          → IsSafe rt start pending
          → IsSafe rt start (reject_unsent req.request_id r pending)
      sent (ok d) pending done quiet = done d refl
      sent (err e) pending done quiet = (quiet.0, (tt, quiet.1))
      sent stuck pending done quiet = quiet

  pub unchanged-IsSafe :
      (r : Result Client) (c : Client)
      → ((d : Client) → r ≡ ok d → IsSafe rt start d)
      → IsSafe rt start c
      → IsSafe rt start (or_unchanged r c)
  unchanged-IsSafe (ok d) c done quiet = done d refl
  unchanged-IsSafe (err e) c done quiet = quiet
  unchanged-IsSafe stuck c done quiet = quiet

  pub fetch-IsSafe :
      (id : Text) (resource : Resource) (options : RequestInit) (c : Client)
      → IsSafe rt start c
      → IsSafe rt start (or_unchanged (fetch rt id resource options c) c)
  unfolding fetch
  fetch-IsSafe id resource options c safe =
      unchanged-IsSafe (fetch rt id resource options c) c
        (λ d e.
          let (req, is_req, e1) = >>=-eq-ok (tunnel_request rt id resource options) _ e in
          rw (← ok_injective e1) (start_request-IsSafe req c safe))
        safe

  pub timed_out-IsSafe :
      (id : Text) (c : Client) → IsSafe rt start c → IsSafe rt start (timed_out id c)
  unfolding timed_out
  timed_out-IsSafe id c quiet = elim (Bool-cases (member id c.pending_requests)) [
    | inl known ↦ rw (known, timed_out) (quiet.0, (tt, quiet.1))
    | inr unknown ↦ rw (unknown, timed_out) quiet
  ]

  pub on_open-IsSafe : (c : Client) → IsSafe rt start c → IsSafe rt start (on_open rt c)
  unfolding on_open
  on_open-IsSafe c quiet = elim (Option-cases c.ws) [
    | inl gone ↦ rw (gone, on_open) (quiet.0, (tt, quiet.1))
    | inr (state, there) ↦ rw (there, on_open) (quiet.0, (inl refl, quiet.1))
  ]

  pub reconnect-IsSafe : (c : Client) → IsSafe rt start c → IsSafe rt start (reconnect c)
  unfolding reconnect
  reconnect-IsSafe c safe = chosen c.closed
    where
      chosen : (b : Bool) → IsSafe rt start (if b then c else ensure_connection c)
      chosen true = safe
      chosen false = ensure_connection-IsSafe rt start c safe

  pub other_message-IsSafe :
      (message : Message)
      → ((kx : KxAnnounce) → message ≢ server_kx kx)
      → IsSafe rt start start
      → IsSafe rt start (handle_decoded rt message start)
  unfolding handle_decoded
  other_message-IsSafe (server_kx message) apart quiet = absurd (apart message refl)
  other_message-IsSafe (enc salt ciphertext) apart quiet =
      on_encrypted-IsSafe rt start (decrypt_envelope rt salt ciphertext start) start quiet
  other_message-IsSafe (http_request r) apart quiet = quiet
  other_message-IsSafe (http_response r) apart quiet = quiet
  other_message-IsSafe (ws_connect id url protocols) apart quiet = quiet
  other_message-IsSafe (ws_close id code reason) apart quiet = quiet
  other_message-IsSafe (ws_message id content kind) apart quiet = quiet
  other_message-IsSafe (ws_event event) apart quiet = quiet
  other_message-IsSafe (client_kx sealed) apart quiet = quiet
  other_message-IsSafe client_kx_ready apart quiet = quiet
  other_message-IsSafe other apart quiet = quiet
