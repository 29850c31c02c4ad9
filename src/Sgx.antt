-- ===== src/Sgx.antt =====
-- `verifySgx` and its parts, of packages/qvl/src/verifySgx.ts.
pub mod Steps
pub mod Laws
use teekit.Common.{
  ℕ, Bool, true, false, not, ◌&&◌, ◌||◌, List, [], ◌∷◌, Option, none, some, Text, ◌==◌,
  if◌then◌else◌,
}
use teekit.Result.{
  Result, ok, err, ◌>>=◌, ◌>>◌, require, invalid_root, wrong_tee, wrong_key_type, wrong_cert_data,
  bad_qe_signature, bad_qe_binding, bad_quote_signature, missing_fmspc, missing_pcesvn,
  measurement_failed, unsupported_version,
}
use teekit.Bytes.{Bytes}
use teekit.Packages.{Hex}
use teekit.Measurements.{Config, matches_hex, matches_number, check_config}
use teekit.Pem.{extract_pem_certificates}
use teekit.Quote.Header.{version, pce_svn, att_key_type, tee_type}
use teekit.Quote.SgxBody
use teekit.Quote.Region.{get_sgx_signed_region}
use teekit.Quote.Parse.{SgxQuote, parse_sgx_quote}
use teekit.Chain.{PckChain}
use teekit.Intel.Defs.{
  Env, TcbInput, VerifyConfig, or_else, chain_with_fallback, require_valid, require_root, is_pinned,
  qe_report_signature, qe_report_binding, quote_signature,
}

pub record SgxMeasurements : Type 0 where
  pub mr_enclave : Option Text
  pub mr_signer : Option Text
  pub isv_prod_id : Option ℕ
  pub isv_svn : Option ℕ
  pub report_data : Option Text

unfoldable pub matches_measurements : Hex → SgxQuote → SgxMeasurements → Bool
matches_measurements hex quote config =
    matches_hex hex (SgxBody.mr_enclave quote.body) config.mr_enclave
    && matches_hex hex (SgxBody.mr_signer quote.body) config.mr_signer
    && matches_number (SgxBody.isv_prod_id quote.body) config.isv_prod_id
    && matches_number (SgxBody.isv_svn quote.body) config.isv_svn
    && matches_hex hex (SgxBody.report_data quote.body) config.report_data

abbrev pub MeasurementConfig : Type 0
MeasurementConfig = Config SgxMeasurements SgxQuote

unfoldable pub verify_sgx_measurements : Hex → SgxQuote → MeasurementConfig → Result Bool
verify_sgx_measurements hex quote config = check_config (matches_measurements hex) quote config

module _ (env : Env) where
  unfoldable pub verify_sgx_qe_report_signature : Bytes → Option (List Text) → Result Bool
  verify_sgx_qe_report_signature quote_bytes extra_certs = do
    q ← parse_sgx_quote env.restructure quote_bytes
    require (version q.header == 3) unsupported_version
    qe_report_signature env q.signature extra_certs

  unfoldable pub verify_sgx_qe_report_binding : Bytes → Result Bool
  verify_sgx_qe_report_binding quote_bytes = do
    q ← parse_sgx_quote env.restructure quote_bytes
    require (version q.header == 3) unsupported_version
    qe_report_binding env q.signature

  unfoldable pub verify_sgx_quote_signature : Bytes → Result Bool
  verify_sgx_quote_signature quote_bytes = do
    q ← parse_sgx_quote env.restructure quote_bytes
    require (version q.header == 3) unsupported_version
    quote_signature env q.signature (get_sgx_signed_region quote_bytes)

  -- `_verifySgx`: the parsed quote and its certificate chain.
  unfoldable pub verify_sgx_chain :
      Bytes → VerifyConfig SgxQuote MeasurementConfig → Result (SgxQuote × PckChain)
  verify_sgx_chain quote config = do
    q ← parse_sgx_quote env.restructure quote
    let certs = extract_pem_certificates env.x509 q.signature.cert_data
    found ←
        chain_with_fallback env certs config.extra_certdata (or_else config.date env.now)
          config.crls
    ok (q, found)

  -- The TCB callback, if there is one.
  unfoldable pub check_tcb :
      VerifyConfig SgxQuote MeasurementConfig → SgxQuote → TcbInput → Result Bool
  check_tcb config q input = elim config.verify_tcb [ none ↦ ok true | some f ↦ f q input ]

  -- The measurements, if any are expected.
  unfoldable pub check_measurements :
      VerifyConfig SgxQuote MeasurementConfig → SgxQuote → Result Bool
  check_measurements config q = elim config.verify_measurements [
    | none ↦ ok true
    | some m ↦ verify_sgx_measurements env.hex q m
  ]

  -- `pceSvn` of the TCB callback: the header's if the certification data is of type 1.
  unfoldable pub pce_svn_of : SgxQuote → ℕ → ℕ
  pce_svn_of q pcesvn = if q.signature.cert_data_type == 1 then pce_svn q.header else pcesvn

  -- What follows the signatures: the extension values of the leaf, the TCB and the measurements.
  unfoldable pub finish_sgx :
      VerifyConfig SgxQuote MeasurementConfig → SgxQuote → Option Text → Option ℕ → Result Bool
  finish_sgx config q none pcesvn = err missing_fmspc
  finish_sgx config q (some fmspc) none = err missing_pcesvn
  finish_sgx config q (some fmspc) (some pcesvn) = do
    tcb_ok ←
        check_tcb config q (record {
          fmspc = fmspc;
          pce_svn = pce_svn_of q pcesvn;
          cpu_svn = SgxBody.cpu_svn q.body;
        })
    if not tcb_ok then ok false else (do
      measured ← check_measurements config q
      require measured measurement_failed
      ok true)

  -- The checks of the chain's outcome and of the header.
  unfoldable pub check_root_and_header :
      VerifyConfig SgxQuote MeasurementConfig → SgxQuote → PckChain → Result (Unit {0})
  check_root_and_header config q found = do
    require_valid env found.status
    root ← require_root env found.root
    let pinned = or_else config.pinned_root_certs env.default_pinned_root_certs
    require (is_pinned env pinned root) invalid_root
    require (tee_type q.header == 0) wrong_tee
    require (att_key_type q.header == 2) wrong_key_type
    require (q.signature.cert_data_type == 1 || q.signature.cert_data_type == 5) wrong_cert_data

  -- The three signatures of a quote.
  unfoldable pub check_signatures :
      VerifyConfig SgxQuote MeasurementConfig → Bytes → Result (Unit {0})
  check_signatures config quote = do
    qe_signed ← verify_sgx_qe_report_signature quote config.extra_certdata
    require qe_signed bad_qe_signature
    qe_bound ← verify_sgx_qe_report_binding quote
    require qe_bound bad_qe_binding
    signed ← verify_sgx_quote_signature quote
    require signed bad_quote_signature

  unfoldable pub verify_sgx : Bytes → VerifyConfig SgxQuote MeasurementConfig → Result Bool
  verify_sgx quote config = do
    (q, found) ← verify_sgx_chain quote config
    check_root_and_header config q found
    check_signatures config quote
    finish_sgx config q found.fmspc found.pcesvn
