-- ===== src/Tests/TunnelRun.antt =====
-- A server of the tunnel that runs: ciphers that compute, and a client's messages.
use teekit.Common.{
  ℕ, zero, suc, ◌+◌, ◌≡◌, refl, arith, false, none, some, List, [], ◌∷◌, ◌++◌, length, take, drop,
  codes, list_eq, list_eq_refl, if◌then◌else◌, take-append, drop-append, length-append,
}
use native.Mathlib.Nat.{add_comm}
use teekit.Result.{Result, ok, err, decryption_failed}
use teekit.Bytes.{Bytes}
use teekit.Dict.{number_key, text_key}
use teekit.Tunnel.Crypto.{Noble}
use teekit.Tunnel.Message.{Message, string, string_data, client_kx, enc, ws_connect, ws_message}
use teekit.Tunnel.Server.{Server, Keypair, Runtime}
use teekit.Tunnel.Server.Quote.{intel_quote}
use teekit.Tunnel.Server.Step.{
  Event, first_quote, opened, received, step, new_server, Reach, here, next,
}
use teekit.Tests.Packages.{fill}
use teekit.Tests.MessageCodec.{cbor}

pub length-fill : (count byte : ℕ) → length (fill count byte) ≡ count
length-fill zero byte = refl
length-fill (suc count) byte = omega (arith, length-fill count byte)

abbrev first : List ℕ → ℕ
first [] = 0
first (x ∷ xs) = x

-- The tag of a ciphertext is the key's first byte, sixteen times.
abbrev pub seal_tag : Bytes → Bytes
seal_tag key = fill 16 (first key)

abbrev open_box : Bytes → Bytes → Bytes → Result Bytes
open_box key nonce ciphertext =
    if list_eq (take 16 ciphertext) (seal_tag key)
    then ok (drop 16 ciphertext)
    else err decryption_failed

pub open_box-seal :
    (key nonce plaintext : Bytes)
    → length key ≡ 32
    → length nonce ≡ 24
    → open_box key nonce (seal_tag key ++ plaintext) ≡ ok plaintext
open_box-seal key nonce plaintext k n =
    let len = length-fill 16 (first key) in
    rw
      (
        take-append 16 (seal_tag key) plaintext len,
        list_eq_refl (seal_tag key),
        drop-append 16 (seal_tag key) plaintext len,
      )
      refl

pub length-seal :
    (key nonce plaintext : Bytes) → length (seal_tag key ++ plaintext) ≡ length plaintext + 16
length-seal key nonce plaintext =
    omega (arith, length-append (seal_tag key) plaintext, length-fill 16 (first key))

pub length-shared :
    (a b : Bytes) {shared : Bytes}
    → ok (fill 32 (first a + first b)) ≡ ok shared
    → length shared ≡ 32
length-shared a b {shared} e =
    let same : fill 32 (first a + first b) ≡ shared = cc in
    rw (← same) (length-fill 32 (first a + first b))

pub shared_comm :
    (a b : Bytes)
    → ◌≡◌ {A = Result Bytes}
        (ok (fill 32 (first a + first (fill 32 (first b)))))
        (ok (fill 32 (first b + first (fill 32 (first a)))))
shared_comm a b = rw (add_comm (first a) (first b)) refl

abbrev pub noble : Noble
noble = record {
  encrypt = λ key nonce plaintext. seal_tag key ++ plaintext;
  decrypt = open_box;
  hsalsa_core = λ constant key nonce. fill 8 (first key);
  public_key = λ secret_key. fill 32 (first secret_key);
  get_shared_secret = λ secret_key public_key. ok (fill 32 (first secret_key + first public_key));
  blake2b = λ input len. fill len (first input);
  decrypt_encrypt = open_box-seal;
  length-encrypt = length-seal;
  length-hsalsa_core = λ constant key nonce. length-fill 8 (first key);
  length-public_key = λ secret_key. length-fill 32 (first secret_key);
  length-blake2b = λ input len. length-fill len (first input);
  length-get_shared_secret = length-shared;
  shared_secret_comm = shared_comm;
}

abbrev pub runtime : Runtime
runtime = record {
  cbor = cbor;
  noble = noble;
  parse_url =
      λ url. some (record { protocol = codes "http:"; host = codes "localhost"; port = [] });
  random_nonce = λ draw. fill 24 draw;
  length-random_nonce = λ draw. length-fill 24 draw;
}

abbrev pub server_keys : Keypair
server_keys = record { public_key = fill 32 3; private_key = fill 32 3 }

abbrev pub session_key : Bytes
session_key = fill 32 9

-- What `crypto_box_seal` makes of the session key with the ephemeral key 2.
abbrev pub sealed_key : Bytes
sealed_key = fill 32 2 ++ fill 16 5 ++ session_key

abbrev pub envelope : Message → Bytes
envelope payload = cbor.encode (enc (fill 24 0) (seal_tag session_key ++ cbor.encode payload))

abbrev pub fresh : Server
fresh = new_server false server_keys 60000

abbrev pub cbor_kx : Bytes
cbor_kx = cbor.encode (client_kx sealed_key)

abbrev pub kx_event : Event
kx_event = received 7 cbor_kx

abbrev pub connect_event : Event
connect_event = received 7 (envelope (ws_connect (codes "c1") (codes "/") []))

abbrev pub quoted : Server
quoted = step runtime 100 (first_quote (intel_quote (1 ∷ 2 ∷ []) none none)) fresh

-- Control socket 7 is open, has its key, and has one connection.
abbrev pub opened_server : Server
opened_server = step runtime 200 (opened 7 0 0 server_keys) quoted

abbrev pub keyed_server : Server
keyed_server = step runtime 300 kx_event opened_server

abbrev pub connected_server : Server
connected_server = step runtime 400 connect_event keyed_server

pub connected_server-Reach : Reach runtime fresh connected_server
connected_server-Reach = next 400 connect_event (
    next 300 kx_event (
      next 200 (opened 7 0 0 server_keys)
        (next 100 (first_quote (intel_quote (1 ∷ 2 ∷ []) none none)) here)))

-- A second control socket, 8, with a key of its own.
abbrev pub second_key : Bytes
second_key = fill 32 6

abbrev pub two_clients : Server
two_clients =
    step runtime 600 (received 8 (cbor.encode (client_kx (fill 32 2 ++ fill 16 5 ++ second_key))))
      (step runtime 500 (opened 8 0 0 server_keys) connected_server)

-- Socket 8 writes to the connection of socket 7.
abbrev pub intruding_bytes : Bytes
intruding_bytes = cbor.encode (
    enc (fill 24 0) (
      seal_tag second_key
      ++ cbor.encode (ws_message (codes "c1") (string (codes "hi")) string_data)))
