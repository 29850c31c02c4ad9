-- ===== src/Tunnel/Client/Response.antt =====
-- `#handleTunnelResponse` of packages/tunnel/src/client.ts, and which responses the platform takes.
use teekit.Common.{
  ◌%◌, ◌≡◌, ◌≢◌, ◌≤◌, ◌<◌, ◌⊎◌, inl, inr, refl, arith, true, false, List, [], ◌∷◌, Text, Bool-cases,
}
use native.Mathlib.Nat.{mod-eq_of_lt}
use teekit.Result.{Result, ok, err, stuck, type_error}
use teekit.Dict.{text_key, member, remove}
use teekit.Dict.Laws.{member-remove_self}
use teekit.Tunnel.Message.{HttpResponse}
use teekit.Tunnel.Client.{Client, HeaderCall, SyntheticResponse, request_resolved, thrown}
use teekit.Tunnel.Client.Socket.{text_or}
use teekit.Tunnel.Client.Platform.{
  all_of, is_valid_call, is_reason_phrase, header_calls, build_headers, new_response,
  synthetic_response, rebuild_response,
}
use teekit.Tunnel.Client.Handle.{settle, handle_tunnel_response}

-- The platform takes the status with the body that the client gives it, the status text and all
-- headers.
abbrev pub IsTaken : HttpResponse → Type 0
IsTaken r =
    (200 ≤ r.status)
    × (r.status ≤ 599)
    × (r.status ≢ 205)
    × (r.status ≢ 304)
    × (is_reason_phrase r.status_text ≡ true)
    × (all_of is_valid_call (header_calls r.headers) ≡ true)

-- A header or the status text is invalid, or the status, as a number of 16 bits, is refused.
abbrev pub IsRefused : HttpResponse → Type 0
IsRefused r =
    (r.status % 65536 < 200)
    ⊎ ((599 < r.status % 65536)
        ⊎ ((r.status % 65536 ≡ 205)
            ⊎ ((r.status % 65536 ≡ 304)
                ⊎ ((is_reason_phrase r.status_text ≡ false)
                    ⊎ (all_of is_valid_call (header_calls r.headers) ≡ false)))))

new_response-taken :
    (r : HttpResponse) (calls : List HeaderCall)
    → IsTaken r
    → new_response (synthetic_response r calls) ≡ ok (synthetic_response r calls)
unfolding new_response
new_response-taken r calls (low, high, not_reset, not_cached, phrase, valid) =
    let same : r.status % 65536 ≡ r.status = mod-eq_of_lt (omega arith) in
    rw (phrase, new_response, same) (ground arith)

rebuild_response-taken :
    (r : HttpResponse)
    → IsTaken r
    → rebuild_response r ≡ ok (synthetic_response r (header_calls r.headers))
unfolding rebuild_response build_headers
rebuild_response-taken r (low, high, not_reset, not_cached, phrase, valid) =
    rw (valid, build_headers)
      (new_response-taken r (header_calls r.headers)
        (low, high, not_reset, not_cached, phrase, valid))

rebuild_response-refused : (r : HttpResponse) → IsRefused r → rebuild_response r ≡ err type_error
unfolding rebuild_response build_headers new_response
rebuild_response-refused r refused =
    let calls = header_calls r.headers in
    elim (Bool-cases (all_of is_valid_call calls)) [
      | inr invalid ↦ rw (invalid, build_headers) refl
      | inl valid ↦ elim (Bool-cases (is_reason_phrase r.status_text)) [
        | inr garbled ↦ rw (valid, build_headers, garbled, new_response) (ground arith)
        | inl phrase ↦ rw (valid, build_headers, phrase, new_response) (ground arith)
      ]
    ]

settle-pending_requests :
    (id : Text) (r : Result SyntheticResponse) (c : Client)
    → (settle id r c).pending_requests ≡ c.pending_requests
unfolding settle
settle-pending_requests id (ok response) c = refl
settle-pending_requests id (err e) c = refl
settle-pending_requests id stuck c = refl

-- A response without an error to a pending request ends its being pending. The request is resolved
-- with it if the status is between 200 and 599 and neither 205 nor 304, the status text is a reason
-- phrase, and each header has a valid name and value. The handler throws, and the request is neither
-- resolved nor rejected, if the status text or a header is invalid, or the status, as a number of 16
-- bits, is not between 200 and 599, or is 205 or 304.
pub handle_tunnel_response-answers :
    (response : HttpResponse) (c : Client)
    → member response.request_id c.pending_requests ≡ true
    → text_or response.error [] ≡ []
    → (member response.request_id (handle_tunnel_response response c).pending_requests ≡ false)
      × (IsTaken response
          → (handle_tunnel_response response c).effects
            ≡ request_resolved response.request_id
                (synthetic_response response (header_calls response.headers))
              ∷ c.effects)
      × (IsRefused response
          → (handle_tunnel_response response c).effects ≡ thrown type_error ∷ c.effects)
unfolding handle_tunnel_response settle
handle_tunnel_response-answers response c pending fine =
    let id = response.request_id in
    (
      rw (pending, handle_tunnel_response, fine)
          (rw
            (settle-pending_requests id (rebuild_response response)
              (record c { pending_requests = remove id c.pending_requests }))
            (member-remove_self id c.pending_requests)),
      (λ taken.
          rw (pending, handle_tunnel_response, fine, rebuild_response-taken response taken, settle)
            refl),
      λ refused.
          rw
            (
              pending,
              handle_tunnel_response,
              fine,
              rebuild_response-refused response refused,
              settle,
            )
            refl,
    )
