-- ===== src/Result.antt =====
-- Results of code that may throw: a value, one of the errors the sources throw, or no result
-- because a loop of the source has not ended within its fuel.
use teekit.Common.{◌≡◌, refl, Bool, true, false}

-- One constructor for each error that the modelled code throws; the comment quotes its message.
pub data Fault : Type 0 where
  -- `new DataView(…)` or a read of it outside its bounds: RangeError
  range_error : Fault
  -- a struct of `restructure` that cannot be decoded
  decode_error : Fault
  -- "parseQuote: Unsupported quote version, only v4 and v5 supported"; "… Unsupported SGX quote
  -- version"; "Unsupported quote version"
  unsupported_version : Fault
  -- "parseQuote: unexpected body_type = 1", "parseQuote: unexpected body_type"
  unexpected_body_type : Fault
  -- "parseSevSnpReport: Report too small."
  report_too_small : Fault
  -- "Expected 64-byte raw ECDSA signature"
  signature_length : Fault
  -- "Unexpected SGX report length"
  report_length : Fault
  -- "missing certdata"
  missing_certdata : Fault
  -- "Failed to parse certificate", or what the certificate decoder throws
  bad_certificate : Fault
  -- "expired cert chain, or not yet valid"
  expired_chain : Fault
  -- "revoked certificate in cert chain"
  revoked_chain : Fault
  -- "invalid cert chain"
  invalid_chain : Fault
  -- "invalid root"
  invalid_root : Fault
  -- "only tdx is supported", "only sgx is supported"
  wrong_tee : Fault
  -- "only ECDSA att_key_type is supported"
  wrong_key_type : Fault
  -- "only PCK cert_data is supported"
  wrong_cert_data : Fault
  -- "invalid qe report signature"
  bad_qe_signature : Fault
  -- "invalid qe report binding"
  bad_qe_binding : Fault
  -- "invalid signature over quote"
  bad_quote_signature : Fault
  -- "Missing QE report"
  missing_qe_report : Fault
  -- "Unexpected attestation public key length"
  key_length : Fault
  -- what WebCrypto rejects with
  crypto_error : Fault
  -- "TCB missing fmspc", "TCB missing pcesvn"
  missing_fmspc missing_pcesvn : Fault
  -- "measurement verification failed"
  measurement_failed : Fault
  -- "Unsupported signature algorithm"
  unsupported_algorithm : Fault
  -- of packages/qvl/src/verifySev.ts: "Debug-enabled guest detected.", "VMPL … exceeds maximum
  -- allowed", "SMT is enabled on platform but policy forbids it", "ARK certificate does not match
  -- any pinned root", "Signature verification failed", "TCB verification failed"
  debug_guest vmpl_exceeded smt_forbidden ark_mismatch signature_failed tcb_failed : Fault
  -- "Failed to fetch TCB info"
  fetch_failed : Fault
  -- "missing verifier_nonce.val", "missing verifier_nonce.iat", "missing userdata"
  missing_nonce missing_issued_at missing_userdata : Fault
  -- a text that is no hexadecimal number
  bad_hex : Fault
  -- "DER: out of bounds", "DER: truncated length", "DER: invalid length", "DER: value out of
  -- bounds"
  der_error : Fault
  -- of packages/tunnel/src/crypto.ts: "… must be … bytes", "decryption failed", "sealed box too
  -- short"
  wrong_length decryption_failed sealed_too_short : Fault
  -- what decodeCbor throws
  bad_cbor : Fault
  -- of packages/tunnel/src/server.ts: "Missing symmetric key for socket", "expected publickey,
  -- privatekey, quote to be set", "Missing Hono context for WebSocket connection"
  missing_symmetric_key not_initialized missing_context : Fault
  -- of packages/tunnel/src/client.ts: "WebSocket not connected", "Encryption not ready: missing
  -- symmetric key", "Tunnel disconnected", "Tunnel closed", "Request timeout"
  not_connected encryption_not_ready tunnel_disconnected tunnel_closed request_timeout : Fault
  -- "Error opening channel: …": empty quote, SEV-SNP mode requires vcek_cert, custom quote
  -- validation failed, refusing to connect to debug enclave, no validation strategy provided
  empty_quote missing_vcek custom_quote_failed debug_enclave no_strategy : Fault
  -- "missing verifier_data", "expected VerifierNonce for Intel TDX, got plain nonce", "missing
  -- x25519 key", binding failed, custom report_data validation failed
  missing_verifier_data plain_nonce missing_x25519_key binding_failed custom_binding_failed : Fault
  -- of packages/tunnel/src/ClientRAWebSocket.ts: "WebSocket is not open", "Port mismatch", and
  -- "Tunnel WebSocket not connected"
  websocket_not_open port_mismatch tunnel_not_connected : Fault
  -- what `new URL` throws; TypeError, of a call on null or of `new Response`; "request body must be
  -- a string, ArrayBuffer, or ReadableStream"
  invalid_url type_error bad_request_body : Fault

pub data Result {ℓ} (A : Type ℓ) : Type ℓ where
  ok : A → Result A
  err : Fault → Result A
  stuck : Result A

-- `if (!test) throw fault`
abbrev pub require : Bool → Fault → Result (Unit {0})
require test fault = elim test [ true ↦ ok tt | false ↦ err fault ]

-- What follows runs only on a value.
infixl 5 ◌>>=◌
abbrev pub ◌>>=◌ {ℓ κ} : {A : Type ℓ} {B : Type κ} → Result A → (A → Result B) → Result B
stuck >>= next = stuck
err fault >>= next = err fault
ok value >>= next = next value

infixl 5 ◌>>◌
abbrev pub ◌>>◌ {κ} : {B : Type κ} → Result (Unit {0}) → Result B → Result B
first >> second = first >>= λ u. second

-- A sequence that ends with a value went on from a value.
pub >>=-eq-ok {ℓ κ} :
    {A : Type ℓ} {B : Type κ} (first : Result A) (next : A → Result B) {b : B}
    → (first >>= next) ≡ ok b
    → (value : A) × (first ≡ ok value) × (next value ≡ ok b)
>>=-eq-ok stuck next e = cc
>>=-eq-ok (err fault) next e = cc
>>=-eq-ok (ok value) next e = (value, refl, e)

pub require-eq-ok {ℓ} :
    {B : Type ℓ} (test : Bool) (fault : Fault) (rest : Result B) {b : B}
    → (require test fault >> rest) ≡ ok b
    → (test ≡ true) × (rest ≡ ok b)
require-eq-ok true fault rest e = (refl, e)
require-eq-ok false fault rest e = cc
