-- ===== src/Tunnel/Client/Request.antt =====
-- `fetch` of packages/tunnel/src/client.ts: the tunnelled request, its promise and its timeout.
use teekit.Common.{Option, none, some, List, [], ◌∷◌, ◌++◌, Text, codes, if◌then◌else◌}
use teekit.Result.{Result, ok, err, stuck, ◌>>=◌, bad_request_body, request_timeout}
use teekit.Bytes.{Bytes}
use teekit.Dict.{text_key, set, member, add, remove}
use teekit.Tunnel.Message.{Headers, HttpRequest, http_request}
use teekit.Tunnel.Client.{Client, fault, request_rejected, ClientRuntime}
use teekit.Tunnel.Client.Send.{emit, send}
use teekit.Tunnel.Client.Socket.{text_or}

-- `BodyInit`: a string, what has the bytes of a buffer, a stream by its chunks, or none of these.
pub data BodyInit : Type 0 where
  string_body : Text → BodyInit
  buffer_body : Bytes → BodyInit
  stream_body : List Bytes → BodyInit
  other_body : BodyInit

-- `RequestInit`. Headers are their entries, in the order in which each form is read.
pub record RequestInit : Type 0 where
  pub method : Option Text
  pub headers : List (Text × Text)
  pub body : Option BodyInit

-- `RequestInfo | URL`: an address, or a `Request`.
pub data Resource : Type 0 where
  address : (url : Text) → Resource
  request : (url method : Text) → List (Text × Text) → Option BodyInit → Resource

-- `headers[key] = value` for each
unfoldable pub assign_headers : List (Text × Text) → Headers → Headers
assign_headers [] headers = headers
assign_headers ((name, value) ∷ more) headers = assign_headers more (set name value headers)

-- `options?.body ?? otherwise`
abbrev pub body_or : Option BodyInit → Option BodyInit → Option BodyInit
body_or none otherwise = otherwise
body_or (some body) otherwise = some body

unfoldable pub concat_chunks : List Bytes → Bytes
concat_chunks [] = []
concat_chunks (chunk ∷ chunks) = chunk ++ concat_chunks chunks

-- A request whose sending throws is rejected, and stays among the pending ones.
unfoldable pub reject_unsent : Text → Result Client → Client → Client
reject_unsent id (ok sent) c = sent
reject_unsent id (err e) c = emit (request_rejected id (fault e)) c
reject_unsent id stuck c = c

module _ (rt : ClientRuntime) where
  unfoldable pub read_body : Option BodyInit → Result (Option Text)
  unfolding concat_chunks
  read_body none = ok none
  read_body (some (string_body t)) = ok (some t)
  read_body (some (buffer_body b)) = ok (some (rt.env.x509.text_decode b))
  read_body (some (stream_body chunks)) = ok (some (rt.env.x509.text_decode (concat_chunks chunks)))
  read_body (some other_body) = err bad_request_body

  unfoldable pub tunnel_request : (request_id : Text) → Resource → RequestInit → Result HttpRequest
  unfolding assign_headers read_body
  tunnel_request id (address url) options = do
    body ← read_body options.body
    ok (record {
      request_id = id;
      method = text_or options.method (codes "GET");
      url = url;
      headers = assign_headers options.headers [];
      body = body;
    })
  tunnel_request id (request url method headers given) options = do
    body ← read_body (body_or options.body given)
    ok (record {
      request_id = id;
      method = text_or options.method (text_or (some method) (codes "GET"));
      url = url;
      headers = assign_headers options.headers (assign_headers headers []);
      body = body;
    })

  unfoldable pub start_request : HttpRequest → Client → Client
  unfolding reject_unsent
  start_request req c =
      let pending = record c { pending_requests = add req.request_id c.pending_requests } in
      reject_unsent req.request_id (send rt (http_request req) pending) pending

  -- What `fetch` does after the connection: a body that is none of the known ones is thrown.
  unfoldable pub fetch : (request_id : Text) → Resource → RequestInit → Client → Result Client
  unfolding tunnel_request start_request
  fetch id resource options c = do
    req ← tunnel_request id resource options
    ok (start_request req c)

-- The timer of 30 seconds.
unfoldable pub timed_out : Text → Client → Client
timed_out id c =
    if member id c.pending_requests
    then emit (request_rejected id (fault request_timeout))
        (record c { pending_requests = remove id c.pending_requests })
    else c
