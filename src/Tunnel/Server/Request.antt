-- ===== src/Tunnel/Server/Request.antt =====
-- Tunneled HTTP requests: `#handleTunnelHttpRequest` and its two continuations in
-- packages/tunnel/src/server.ts, with packages/tunnel/src/utils/server.ts. What the application does
-- with the request is its own; it answers later.
use teekit.Common.{
  ℕ, Bool, true, false, ◌&&◌, not, ◌==◌, Option, none, some, List, [], ◌∷◌, ◌++◌, Text, codes,
  list_eq, to_lower_case, if◌then◌else◌,
}
use teekit.Dict.{text_key, number_key, get, has, set}
use teekit.Tunnel.Message.{
  Content, string, Headers, HeaderValue, one, many, HttpRequest, HttpResponse, http_response,
}
use teekit.Tunnel.Server.{Server, AppRequest, requested, Url, Runtime}
use teekit.Tunnel.Server.Send.{emit, try_send}

-- `new Headers(record)`: names in lower case, values of one name joined.
unfoldable pub append_header : Text → Text → Headers → Headers
append_header name value headers = elim (get name headers) [
  | none ↦ set name value headers
  | some old ↦ set name (old ++ codes ", " ++ value) headers
]

unfoldable pub headers_of : Headers → Headers → Headers
headers_of [] headers = headers
headers_of ((name, value) ∷ entries) headers =
    headers_of entries (append_header (to_lower_case name) value headers)

-- `text.replace(":", "")`
unfoldable pub without_colon : Text → Text
without_colon [] = []
without_colon (c ∷ text) = let rest = without_colon text in if c == b':' then text else c ∷ rest

-- A header that a proxy would set, unless the request has it.
unfoldable pub set_missing : Text → Text → Headers → Headers
set_missing name value headers = if has name headers then headers else set name value headers

abbrev pub is_blank : Text → Bool
is_blank [] = true
is_blank (c ∷ text) = false

unfoldable pub forward_headers : Url → Headers → Headers
unfolding headers_of set_missing without_colon
forward_headers url given =
    let proto =
      set_missing (codes "x-forwarded-proto") (without_colon url.protocol) (headers_of given []) in
    let host = set_missing (codes "x-forwarded-host") url.host proto in
    if is_blank url.port then host else set_missing (codes "x-forwarded-port") url.port host

-- A body is passed on unless the method has none.
unfoldable pub request_body : HttpRequest → Option Text
request_body r =
    if not (list_eq r.method (codes "GET")) && not (list_eq r.method (codes "HEAD"))
    then r.body
    else none

-- For Express the body is what `parseBody` makes of the text.
unfoldable pub app_request : Bool → Url → HttpRequest → AppRequest
app_request true url r = record {
  method = r.method;
  url = r.url;
  headers = forward_headers url r.headers;
  body = request_body r;
}
app_request false url r = record {
  method = r.method;
  url = r.url;
  headers = r.headers;
  body = r.body;
}

unfoldable pub error_response : (request_id message : Text) → HttpResponse
error_response request_id message = record {
  request_id = request_id;
  status = 500;
  status_text = codes "Internal Server Error";
  headers = [];
  body = string [];
  error = some message;
}

unfoldable pub get_status_text : ℕ → Text
get_status_text code =
    if code == 200
    then codes "OK"
    else if code == 201
    then codes "Created"
    else if code == 204
    then codes "No Content"
    else if code == 400
    then codes "Bad Request"
    else if code == 401
    then codes "Unauthorized"
    else if code == 403
    then codes "Forbidden"
    else if code == 404
    then codes "Not Found"
    else if code == 405
    then codes "Method Not Allowed"
    else if code == 500
    then codes "Internal Server Error"
    else if code == 501
    then codes "Not Implemented"
    else if code == 502
    then codes "Bad Gateway"
    else if code == 503
    then codes "Service Unavailable"
    else codes "Unknown"

-- The headers of a `Response`, as `forEach` gives them.
unfoldable pub collect_header : Text → Text → List (Text × HeaderValue) → List (Text × HeaderValue)
collect_header name value headers = elim (get name headers) [
  | none ↦ set name (one value) headers
  | some (one old) ↦ set name (many (old ∷ value ∷ [])) headers
  | some (many old) ↦ set name (many (old ++ value ∷ [])) headers
]

unfoldable pub collect_headers : Headers → List (Text × HeaderValue) → List (Text × HeaderValue)
unfolding collect_header
collect_headers [] headers = headers
collect_headers ((name, value) ∷ entries) headers =
    collect_headers entries (collect_header name value headers)

unfoldable pub with_cookies : List Text → List (Text × HeaderValue) → List (Text × HeaderValue)
with_cookies [] headers = headers
with_cookies (cookie ∷ cookies) headers = set (codes "set-cookie") (many (cookie ∷ cookies)) headers

-- A header as node's response has it; a number comes with its decimal text.
pub data RawHeader : Type 0 where
  text : Text → RawHeader
  texts : List Text → RawHeader
  number : (decimal : Text) → RawHeader
  missing : RawHeader

unfoldable pub sanitize_headers : List (Text × RawHeader) → List (Text × HeaderValue)
sanitize_headers [] = []
sanitize_headers ((name, text value) ∷ headers) = (name, one value) ∷ sanitize_headers headers
sanitize_headers ((name, texts values) ∷ headers) = (name, many values) ∷ sanitize_headers headers
sanitize_headers ((name, number decimal) ∷ headers) = (name, one decimal) ∷ sanitize_headers headers
sanitize_headers ((name, missing) ∷ headers) = sanitize_headers headers

-- What the application answers: a Hono app by a `Response`, with the values of `getSetCookie`; an
-- Express app by its response object; or it throws.
pub data Answer : Type 0 where
  hono_answer :
      (status : ℕ) → (status_text : Text) → Headers → (cookies : List Text) → Content → Answer
  express_answer : (status : ℕ) → (status_text : Text) → List (Text × RawHeader) → Content → Answer
  failure : (message : Text) → Answer

abbrev status_text_or : Text → ℕ → Text
status_text_or given status = if is_blank given then get_status_text status else given

unfoldable pub response_of : Text → Answer → HttpResponse
unfolding get_status_text
response_of request_id (hono_answer status status_text headers cookies body) = record {
  request_id = request_id;
  status = status;
  status_text = status_text_or status_text status;
  headers = with_cookies cookies (collect_headers headers []);
  body = body;
  error = none;
}
response_of request_id (express_answer status status_text headers body) = record {
  request_id = request_id;
  status = status;
  status_text = status_text_or status_text status;
  headers = sanitize_headers headers;
  body = body;
  error = none;
}
response_of request_id (failure message) = error_response request_id message

module _ (rt : Runtime) where
  unfoldable pub handle_tunnel_http_request : ℕ → HttpRequest → Server → Server
  handle_tunnel_http_request control_ws r s = elim (rt.parse_url r.url) [
    | none ↦
        try_send rt control_ws (http_response (error_response r.request_id (codes "Invalid URL"))) s
    | some url ↦
        emit
          (requested control_ws r.request_id (app_request s.is_hono url r) (get control_ws s.envs))
          s
  ]

  unfoldable pub respond : ℕ → Text → Answer → Server → Server
  respond control_ws request_id answer s =
      try_send rt control_ws (http_response (response_of request_id answer)) s
