-- ===== src/Intel/Defs.antt =====
-- The parts that packages/qvl/src/verifyTdx.ts and verifySgx.ts share; each has them in its own
-- file, over its own parser.
use teekit.Common.{
  ℕ, Bool, true, false, not, ◌&&◌, ◌||◌, List, [], ◌∷◌, Option, none, some, length, any, Text,
  list_eq, map, ◌==◌, if◌then◌else◌,
}
use teekit.Result.{
  Result, ok, err, stuck, ◌>>=◌, ◌>>◌, require, missing_certdata, expired_chain, revoked_chain,
  invalid_chain, missing_qe_report, key_length,
}
use teekit.Bytes.{Bytes, subarray}
use teekit.Struct.{Restructure}
use teekit.Packages.{Hex, X509, WebCrypto, Certificate}
use teekit.Pem.{extract_pem_certificates}
use teekit.Quote.Signature.{Signature}
use teekit.Chain.{Status, valid, invalid, expired, revoked, PckChain, verify_pck_chain}

-- The packages, the clock and the built-in root certificates.
pub record Env : Type 0 where
  pub restructure : Restructure
  pub hex : Hex
  pub x509 : X509
  pub crypto : WebCrypto
  pub now : ℕ
  pub default_pinned_root_certs : List Certificate

-- What `config.verifyTcb` is called with, apart from the quote.
pub record TcbInput : Type 0 where
  pub fmspc : Text
  pub pce_svn : ℕ
  pub cpu_svn : List ℕ

-- `VerifyConfig`, for a quote type `Q` and a type of measurement configurations. A field that is
-- `undefined`, or a configuration that is, is `none`; no revocation list is the empty list.
pub record VerifyConfig (Q M : Type 0) : Type 0 where
  pub crls : List Bytes
  pub verify_tcb : Option (Q → TcbInput → Result Bool)
  pub pinned_root_certs : Option (List Certificate)
  pub date : Option ℕ
  pub extra_certdata : Option (List Text)
  pub verify_measurements : Option M

abbrev pub or_else {ℓ} : {A : Type ℓ} → Option A → A → A
or_else none default = default
or_else (some a) default = a

abbrev pub is_empty {ℓ} : {A : Type ℓ} → List A → Bool
is_empty [] = true
is_empty (x ∷ xs) = false

abbrev pub is_none {ℓ} : {A : Type ℓ} → Option A → Bool
is_none none = true
is_none (some a) = false

module _ (env : Env) where
  -- The chain of the certificates in the quote, or of the extra ones if the quote holds none.
  unfoldable pub chain_with_fallback :
      List Text → Option (List Text) → ℕ → List Bytes → Result PckChain
  chain_with_fallback certs extra_certdata at_time crls = do
    found ← verify_pck_chain env.hex env.x509 certs (some at_time) crls
    if is_none found.root && is_empty certs
        then elim extra_certdata [
          | none ↦ err missing_certdata
          | some extra ↦ verify_pck_chain env.hex env.x509 extra (some at_time) crls
        ]
        else ok found

  -- The errors for a chain that is not valid.
  unfoldable pub require_valid : Status → Result (Unit {0})
  require_valid expired = err expired_chain
  require_valid revoked = err revoked_chain
  require_valid invalid = err invalid_chain
  require_valid valid = ok tt

  unfoldable pub require_root : Option Certificate → Result Certificate
  require_root none = err invalid_chain
  require_root (some root) = ok root

  -- `computeCertSha256Hex` of packages/qvl/src/utils.ts
  unfoldable pub compute_cert_sha256_hex : Certificate → Text
  compute_cert_sha256_hex cert = env.hex.encode (env.crypto.sha256 cert.raw_data)

  -- `knownRootHashes.has(candidateRootHash)`
  unfoldable pub is_pinned : List Certificate → Certificate → Bool
  is_pinned pinned root =
      any (list_eq (compute_cert_sha256_hex root)) (map compute_cert_sha256_hex pinned)

  -- `catch { return false }`
  unfoldable pub catch_false : Result Bool → Result Bool
  catch_false (ok b) = ok b
  catch_false (err e) = ok false
  catch_false stuck = stuck

  -- The certificates that the QE report's signature is checked with.
  unfoldable pub qe_certificates : Signature → Option (List Text) → List Text
  qe_certificates signature extra_certs =
      let certs = extract_pem_certificates env.x509 signature.cert_data in
      if is_empty certs then or_else extra_certs [] else certs

  -- The leaf's key over the QE report: the chain is walked once more, with no time and no lists.
  unfoldable pub qe_report_signature : Signature → Option (List Text) → Result Bool
  qe_report_signature signature extra_certs =
      if not signature.qe_report_present
      then ok false
      else if is_empty (qe_certificates signature extra_certs)
      then ok false
      else (do
        found ← verify_pck_chain env.hex env.x509 (qe_certificates signature extra_certs) none []
        elim found.chain [
          | [] ↦ ok false
          | pck_leaf_cert ∷ above ↦ catch_false (
              env.crypto.verify_p256_spki pck_leaf_cert.public_key signature.qe_report_signature
                signature.qe_report)
        ])

  -- The attestation key, as it is or with the byte of an uncompressed point in front, and the QE
  -- authentication data, hashed, are the first half of the QE report's report_data.
  unfoldable pub qe_report_binding : Signature → Result Bool
  qe_report_binding signature = do
    require signature.qe_report_present missing_qe_report
    let combined_data =
        env.crypto.concat (signature.attestation_public_key ∷ signature.qe_auth_data ∷ [])
    let uncompressed_data =
        env.crypto.concat
          ((0x04 ∷ []) ∷ signature.attestation_public_key ∷ signature.qe_auth_data ∷ [])
    let report_data_embed = subarray (subarray signature.qe_report 320 384) 0 32
    ok (
        env.crypto.equal (env.crypto.sha256 combined_data) report_data_embed
        || env.crypto.equal (env.crypto.sha256 uncompressed_data) report_data_embed)

  -- The attestation key over the signed region.
  unfoldable pub quote_signature : Signature → Bytes → Result Bool
  quote_signature signature message = do
    let key = signature.attestation_public_key
    require (length key == 64) key_length
    env.crypto.verify_p256_point (subarray key 0 32) (subarray key 32 64) signature.ecdsa_signature
        message
