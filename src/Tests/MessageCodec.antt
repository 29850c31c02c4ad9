-- ===== src/Tests/MessageCodec.antt =====
-- A stand-in for cbor-x that computes.
use teekit.Common.{ℕ, ◌≡◌, refl, ◌⊎◌, inl, inr, Option, none, some, List, []}
use mathlib.Core.List.{append-nil}
use teekit.Result.{Result, ok, err, bad_cbor}
use teekit.Tunnel.Message.{
  Content, string, bytes, DataType, string_data, arraybuffer_data, HeaderValue, one, many,
  VerifierNonce, VerifierData, intel, plain, SevSnpData, HttpRequest, HttpResponse, EventType,
  open_event, close_event, error_event, ServerEvent, KxAnnounce, Message, http_request,
  http_response, ws_connect, ws_close, ws_message, ws_event, server_kx, client_kx, client_kx_ready,
  enc, other, Cbor,
}
use teekit.Tests.Codec.{Codec, number, unit, pair, sum, mapped, list, option}

abbrev pub text : Codec (List ℕ)
text = list number

abbrev pub content_parts : Content → List ℕ ⊎ List ℕ
content_parts (string x) = inl x
content_parts (bytes x) = inr x

abbrev pub content_of : List ℕ ⊎ List ℕ → Content
content_of (inl x) = string x
content_of (inr x) = bytes x

pub content_of-parts : (x : Content) → content_of (content_parts x) ≡ x
content_of-parts (string x) = refl
content_of-parts (bytes x) = refl

abbrev pub content : Codec Content
content = mapped (sum text text) content_parts content_of content_of-parts

abbrev pub data_type_parts : DataType → Unit {0} ⊎ Unit {0}
data_type_parts string_data = inl tt
data_type_parts arraybuffer_data = inr tt

abbrev pub data_type_of : Unit {0} ⊎ Unit {0} → DataType
data_type_of (inl u) = string_data
data_type_of (inr u) = arraybuffer_data

pub data_type_of-parts : (x : DataType) → data_type_of (data_type_parts x) ≡ x
data_type_of-parts string_data = refl
data_type_of-parts arraybuffer_data = refl

abbrev pub data_type : Codec DataType
data_type = mapped (sum unit unit) data_type_parts data_type_of data_type_of-parts

abbrev pub header_value_parts : HeaderValue → List ℕ ⊎ List (List ℕ)
header_value_parts (one x) = inl x
header_value_parts (many x) = inr x

abbrev pub header_value_of : List ℕ ⊎ List (List ℕ) → HeaderValue
header_value_of (inl x) = one x
header_value_of (inr x) = many x

pub header_value_of-parts : (x : HeaderValue) → header_value_of (header_value_parts x) ≡ x
header_value_of-parts (one x) = refl
header_value_of-parts (many x) = refl

abbrev pub header_value : Codec HeaderValue
header_value =
    mapped (sum text (list text)) header_value_parts header_value_of header_value_of-parts

abbrev pub verifier_nonce_parts : VerifierNonce → ((Option (List ℕ)) × (Option (List ℕ)))
verifier_nonce_parts r = (r.val, r.iat)

abbrev pub verifier_nonce_of : ((Option (List ℕ)) × (Option (List ℕ))) → VerifierNonce
verifier_nonce_of (x0, x1) = record { val = x0; iat = x1 }

pub verifier_nonce_of-parts : (x : VerifierNonce) → verifier_nonce_of (verifier_nonce_parts x) ≡ x
verifier_nonce_of-parts r = refl

abbrev pub verifier_nonce : Codec VerifierNonce
verifier_nonce =
    mapped (pair (option text) (option text)) verifier_nonce_parts verifier_nonce_of
      verifier_nonce_of-parts

abbrev pub verifier_data_parts : VerifierData → VerifierNonce ⊎ List ℕ
verifier_data_parts (intel x) = inl x
verifier_data_parts (plain x) = inr x

abbrev pub verifier_data_of : VerifierNonce ⊎ List ℕ → VerifierData
verifier_data_of (inl x) = intel x
verifier_data_of (inr x) = plain x

pub verifier_data_of-parts : (x : VerifierData) → verifier_data_of (verifier_data_parts x) ≡ x
verifier_data_of-parts (intel x) = refl
verifier_data_of-parts (plain x) = refl

abbrev pub verifier_data : Codec VerifierData
verifier_data =
    mapped (sum verifier_nonce text) verifier_data_parts verifier_data_of verifier_data_of-parts

abbrev pub sev_snp_parts : SevSnpData → ((List ℕ) × ((Option (List ℕ)) × (Option (List ℕ))))
sev_snp_parts r = (r.vcek_cert, (r.ask_cert, r.ark_cert))

abbrev pub sev_snp_of : ((List ℕ) × ((Option (List ℕ)) × (Option (List ℕ)))) → SevSnpData
sev_snp_of (x0, (x1, x2)) = record { vcek_cert = x0; ask_cert = x1; ark_cert = x2 }

pub sev_snp_of-parts : (x : SevSnpData) → sev_snp_of (sev_snp_parts x) ≡ x
sev_snp_of-parts r = refl

abbrev pub sev_snp : Codec SevSnpData
sev_snp =
    mapped (pair text (pair (option text) (option text))) sev_snp_parts sev_snp_of sev_snp_of-parts

abbrev pub request_parts :
    HttpRequest
    → ((List ℕ) × ((List ℕ) × ((List ℕ) × ((List (List ℕ × List ℕ)) × (Option (List ℕ))))))
request_parts r = (r.request_id, (r.method, (r.url, (r.headers, r.body))))

abbrev pub request_of :
    ((List ℕ) × ((List ℕ) × ((List ℕ) × ((List (List ℕ × List ℕ)) × (Option (List ℕ))))))
    → HttpRequest
request_of (x0, (x1, (x2, (x3, x4)))) = record {
  request_id = x0;
  method = x1;
  url = x2;
  headers = x3;
  body = x4;
}

pub request_of-parts : (x : HttpRequest) → request_of (request_parts x) ≡ x
request_of-parts r = refl

abbrev pub request : Codec HttpRequest
request =
    mapped (pair text (pair text (pair text (pair (list (pair text text)) (option text)))))
      request_parts request_of request_of-parts

abbrev pub response_parts :
    HttpResponse
    → ((List ℕ)
        × (ℕ × ((List ℕ) × ((List (List ℕ × HeaderValue)) × (Content × (Option (List ℕ)))))))
response_parts r = (r.request_id, (r.status, (r.status_text, (r.headers, (r.body, r.error)))))

abbrev pub response_of :
    ((List ℕ) × (ℕ × ((List ℕ) × ((List (List ℕ × HeaderValue)) × (Content × (Option (List ℕ)))))))
    → HttpResponse
response_of (x0, (x1, (x2, (x3, (x4, x5))))) = record {
  request_id = x0;
  status = x1;
  status_text = x2;
  headers = x3;
  body = x4;
  error = x5;
}

pub response_of-parts : (x : HttpResponse) → response_of (response_parts x) ≡ x
response_of-parts r = refl

abbrev pub response : Codec HttpResponse
response =
    mapped
      (pair text (
        pair number
          (pair text (pair (list (pair text header_value)) (pair content (option text))))))
      response_parts response_of response_of-parts

abbrev pub event_type_parts : EventType → Unit {0} ⊎ (Unit {0} ⊎ Unit {0})
event_type_parts open_event = inl tt
event_type_parts close_event = inr (inl tt)
event_type_parts error_event = inr (inr tt)

abbrev pub event_type_of : Unit {0} ⊎ (Unit {0} ⊎ Unit {0}) → EventType
event_type_of (inl u) = open_event
event_type_of (inr (inl u)) = close_event
event_type_of (inr (inr u)) = error_event

pub event_type_of-parts : (x : EventType) → event_type_of (event_type_parts x) ≡ x
event_type_of-parts open_event = refl
event_type_of-parts close_event = refl
event_type_of-parts error_event = refl

abbrev pub event_type : Codec EventType
event_type = mapped (sum unit (sum unit unit)) event_type_parts event_type_of event_type_of-parts

abbrev pub server_event_parts :
    ServerEvent → ((List ℕ) × (EventType × ((Option ℕ) × ((Option (List ℕ)) × (Option (List ℕ))))))
server_event_parts r = (r.connection_id, (r.event_type, (r.code, (r.reason, r.error))))

abbrev pub server_event_of :
    ((List ℕ) × (EventType × ((Option ℕ) × ((Option (List ℕ)) × (Option (List ℕ)))))) → ServerEvent
server_event_of (x0, (x1, (x2, (x3, x4)))) = record {
  connection_id = x0;
  event_type = x1;
  code = x2;
  reason = x3;
  error = x4;
}

pub server_event_of-parts : (x : ServerEvent) → server_event_of (server_event_parts x) ≡ x
server_event_of-parts r = refl

abbrev pub server_event : Codec ServerEvent
server_event =
    mapped (pair text (pair event_type (pair (option number) (pair (option text) (option text)))))
      server_event_parts server_event_of server_event_of-parts

abbrev pub announcement_parts :
    KxAnnounce
    → ((List ℕ) × ((List ℕ) × ((Option (List ℕ)) × ((Option VerifierData) × (Option SevSnpData)))))
announcement_parts r =
    (r.x25519_public_key, (r.quote, (r.runtime_data, (r.verifier_data, r.sev_snp_data))))

abbrev pub announcement_of :
    ((List ℕ) × ((List ℕ) × ((Option (List ℕ)) × ((Option VerifierData) × (Option SevSnpData)))))
    → KxAnnounce
announcement_of (x0, (x1, (x2, (x3, x4)))) = record {
  x25519_public_key = x0;
  quote = x1;
  runtime_data = x2;
  verifier_data = x3;
  sev_snp_data = x4;
}

pub announcement_of-parts : (x : KxAnnounce) → announcement_of (announcement_parts x) ≡ x
announcement_of-parts r = refl

abbrev pub announcement : Codec KxAnnounce
announcement =
    mapped
      (pair text (pair text (pair (option text) (pair (option verifier_data) (option sev_snp)))))
      announcement_parts announcement_of announcement_of-parts

abbrev pub message_parts :
    Message
    → (HttpRequest
        ⊎ (HttpResponse
            ⊎ ((List ℕ × (List ℕ × List (List ℕ)))
                ⊎ ((List ℕ × (Option ℕ × Option (List ℕ)))
                    ⊎ ((List ℕ × (Content × DataType))
                        ⊎ (ServerEvent
                            ⊎ (KxAnnounce
                                ⊎ (List ℕ ⊎ (Unit {0} ⊎ ((List ℕ × List ℕ) ⊎ Unit {0}))))))))))
message_parts (http_request r) = inl r
message_parts (http_response r) = inr (inl r)
message_parts (ws_connect i u p) = inr (inr (inl (i, (u, p))))
message_parts (ws_close i c r) = inr (inr (inr (inl (i, (c, r)))))
message_parts (ws_message i c d) = inr (inr (inr (inr (inl (i, (c, d))))))
message_parts (ws_event e) = inr (inr (inr (inr (inr (inl e)))))
message_parts (server_kx k) = inr (inr (inr (inr (inr (inr (inl k))))))
message_parts (client_kx k) = inr (inr (inr (inr (inr (inr (inr (inl k)))))))
message_parts client_kx_ready = inr (inr (inr (inr (inr (inr (inr (inr (inl tt))))))))
message_parts (enc n c) = inr (inr (inr (inr (inr (inr (inr (inr (inr (inl (n, c))))))))))
message_parts other = inr (inr (inr (inr (inr (inr (inr (inr (inr (inr tt)))))))))

abbrev pub message_of :
    (HttpRequest
      ⊎ (HttpResponse
          ⊎ ((List ℕ × (List ℕ × List (List ℕ)))
              ⊎ ((List ℕ × (Option ℕ × Option (List ℕ)))
                  ⊎ ((List ℕ × (Content × DataType))
                      ⊎ (ServerEvent
                          ⊎ (KxAnnounce
                              ⊎ (List ℕ ⊎ (Unit {0} ⊎ ((List ℕ × List ℕ) ⊎ Unit {0}))))))))))
    → Message
message_of (inl r) = http_request r
message_of (inr (inl r)) = http_response r
message_of (inr (inr (inl (i, (u, p))))) = ws_connect i u p
message_of (inr (inr (inr (inl (i, (c, r)))))) = ws_close i c r
message_of (inr (inr (inr (inr (inl (i, (c, d))))))) = ws_message i c d
message_of (inr (inr (inr (inr (inr (inl e)))))) = ws_event e
message_of (inr (inr (inr (inr (inr (inr (inl k))))))) = server_kx k
message_of (inr (inr (inr (inr (inr (inr (inr (inl k)))))))) = client_kx k
message_of (inr (inr (inr (inr (inr (inr (inr (inr (inl u))))))))) = client_kx_ready
message_of (inr (inr (inr (inr (inr (inr (inr (inr (inr (inl (n, c))))))))))) = enc n c
message_of (inr (inr (inr (inr (inr (inr (inr (inr (inr (inr u)))))))))) = other

pub message_of-parts : (x : Message) → message_of (message_parts x) ≡ x
message_of-parts (http_request r) = refl
message_of-parts (http_response r) = refl
message_of-parts (ws_connect i u p) = refl
message_of-parts (ws_close i c r) = refl
message_of-parts (ws_message i c d) = refl
message_of-parts (ws_event e) = refl
message_of-parts (server_kx k) = refl
message_of-parts (client_kx k) = refl
message_of-parts client_kx_ready = refl
message_of-parts (enc n c) = refl
message_of-parts other = refl

abbrev pub message : Codec Message
message =
    mapped
      (sum request (
        sum response (
          sum (pair text (pair text (list text))) (
            sum (pair text (pair (option number) (option text))) (
              sum (pair text (pair content data_type)) (
                sum server_event
                  (sum announcement (sum text (sum unit (sum (pair text text) unit))))))))))
      message_parts message_of message_of-parts

abbrev decoded : Option (Message × List ℕ) → Result Message
decoded none = err bad_cbor
decoded (some (message, rest)) = ok message

pub decode_encode-message : (m : Message) → decoded (message.read (message.write m)) ≡ ok m
decode_encode-message m = rw (← append-nil (message.write m)) (rw (message.read_write m []) refl)

abbrev pub cbor : Cbor
cbor = record {
  encode = message.write;
  decode = λ l. decoded (message.read l);
  decode_encode = decode_encode-message;
}
