-- ===== src/Tdx.antt =====
-- `verifyTdx` and its parts, of packages/qvl/src/verifyTdx.ts.
pub mod Steps
pub mod Laws
use teekit.Common.{
  ℕ, Bool, true, false, not, ◌&&◌, ◌||◌, List, [], ◌∷◌, Option, none, some, Text, ◌==◌,
  if◌then◌else◌,
}
use teekit.Result.{
  Result, ok, err, ◌>>=◌, ◌>>◌, require, invalid_root, wrong_tee, wrong_key_type, wrong_cert_data,
  bad_qe_signature, bad_qe_binding, bad_quote_signature, missing_fmspc, missing_pcesvn,
  measurement_failed, unsupported_version,
}
use teekit.Bytes.{Bytes}
use teekit.Packages.{Hex}
use teekit.Measurements.{Config, matches_hex, check_config}
use teekit.Pem.{extract_pem_certificates}
use teekit.Quote.Header.{version, att_key_type, tee_type}
use teekit.Quote.TdxBody
use teekit.Quote.TdxBody.{TdxQuoteBody}
use teekit.Quote.Region.{get_tdx10_signed_region, get_tdx15_signed_region}
use teekit.Quote.Parse.{TdxQuote, parse_tdx_quote}
use teekit.Chain.{PckChain}
use teekit.Intel.Defs.{
  Env, TcbInput, VerifyConfig, or_else, chain_with_fallback, require_valid, require_root, is_pinned,
  qe_report_signature, qe_report_binding, quote_signature,
}

pub record TdxMeasurements : Type 0 where
  pub mrtd : Option Text
  pub rtmr0 : Option Text
  pub rtmr1 : Option Text
  pub rtmr2 : Option Text
  pub rtmr3 : Option Text
  pub report_data : Option Text

unfoldable pub matches_measurements : Hex → TdxQuote → TdxMeasurements → Bool
matches_measurements hex quote config =
    matches_hex hex (TdxBody.mr_td quote.body) config.mrtd
    && matches_hex hex (TdxBody.rtmr0 quote.body) config.rtmr0
    && matches_hex hex (TdxBody.rtmr1 quote.body) config.rtmr1
    && matches_hex hex (TdxBody.rtmr2 quote.body) config.rtmr2
    && matches_hex hex (TdxBody.rtmr3 quote.body) config.rtmr3
    && matches_hex hex (TdxBody.report_data quote.body) config.report_data

abbrev pub MeasurementConfig : Type 0
MeasurementConfig = Config TdxMeasurements TdxQuote

unfoldable pub verify_tdx_measurements : Hex → TdxQuote → MeasurementConfig → Result Bool
verify_tdx_measurements hex quote config = check_config (matches_measurements hex) quote config

module _ (env : Env) where
  unfoldable pub verify_tdx_qe_report_signature : Bytes → Option (List Text) → Result Bool
  verify_tdx_qe_report_signature quote_bytes extra_certs = do
    q ← parse_tdx_quote env.restructure quote_bytes
    require (version q.header == 4 || version q.header == 5) unsupported_version
    qe_report_signature env q.signature extra_certs

  unfoldable pub verify_tdx_qe_report_binding : Bytes → Result Bool
  verify_tdx_qe_report_binding quote_bytes = do
    q ← parse_tdx_quote env.restructure quote_bytes
    require (version q.header == 4 || version q.header == 5) unsupported_version
    qe_report_binding env q.signature

  -- The region that a quote of this version is signed over.
  unfoldable pub tdx_signed_region : Bytes → ℕ → Result Bytes
  tdx_signed_region quote_bytes v =
      if v == 4
      then ok (get_tdx10_signed_region quote_bytes)
      else if v == 5
      then get_tdx15_signed_region quote_bytes
      else err unsupported_version

  unfoldable pub verify_tdx_quote_signature : Bytes → Result Bool
  verify_tdx_quote_signature quote_bytes = do
    q ← parse_tdx_quote env.restructure quote_bytes
    message ← tdx_signed_region quote_bytes (version q.header)
    quote_signature env q.signature message

  -- `_verifyTdx`: the parsed quote and its certificate chain.
  unfoldable pub verify_tdx_chain :
      Bytes → VerifyConfig TdxQuote MeasurementConfig → Result (TdxQuote × PckChain)
  verify_tdx_chain quote config = do
    q ← parse_tdx_quote env.restructure quote
    let certs = extract_pem_certificates env.x509 q.signature.cert_data
    found ←
        chain_with_fallback env certs config.extra_certdata (or_else config.date env.now)
          config.crls
    ok (q, found)

  -- The TCB callback, if there is one.
  unfoldable pub check_tcb :
      VerifyConfig TdxQuote MeasurementConfig → TdxQuote → TcbInput → Result Bool
  check_tcb config q input = elim config.verify_tcb [ none ↦ ok true | some f ↦ f q input ]

  -- The measurements, if any are expected.
  unfoldable pub check_measurements :
      VerifyConfig TdxQuote MeasurementConfig → TdxQuote → Result Bool
  check_measurements config q = elim config.verify_measurements [
    | none ↦ ok true
    | some m ↦ verify_tdx_measurements env.hex q m
  ]

  -- What follows the signatures: the extension values of the leaf, the TCB and the measurements.
  unfoldable pub finish_tdx :
      VerifyConfig TdxQuote MeasurementConfig → TdxQuote → Option Text → Option ℕ → Result Bool
  finish_tdx config q none pcesvn = err missing_fmspc
  finish_tdx config q (some fmspc) none = err missing_pcesvn
  finish_tdx config q (some fmspc) (some pcesvn) = do
    tcb_ok ←
        check_tcb config q
          (record { fmspc = fmspc; pce_svn = pcesvn; cpu_svn = TdxBody.tee_tcb_svn q.body })
    if not tcb_ok then ok false else (do
      measured ← check_measurements config q
      require measured measurement_failed
      ok true)

  -- The checks of the chain's outcome and of the header.
  unfoldable pub check_root_and_header :
      VerifyConfig TdxQuote MeasurementConfig → TdxQuote → PckChain → Result (Unit {0})
  check_root_and_header config q found = do
    require_valid env found.status
    root ← require_root env found.root
    let pinned = or_else config.pinned_root_certs env.default_pinned_root_certs
    require (is_pinned env pinned root) invalid_root
    require (tee_type q.header == 129) wrong_tee
    require (att_key_type q.header == 2) wrong_key_type
    require (q.signature.cert_data_type == 5) wrong_cert_data

  -- The three signatures of a quote.
  unfoldable pub check_signatures :
      VerifyConfig TdxQuote MeasurementConfig → Bytes → Result (Unit {0})
  check_signatures config quote = do
    qe_signed ← verify_tdx_qe_report_signature quote config.extra_certdata
    require qe_signed bad_qe_signature
    qe_bound ← verify_tdx_qe_report_binding quote
    require qe_bound bad_qe_binding
    signed ← verify_tdx_quote_signature quote
    require signed bad_quote_signature

  unfoldable pub verify_tdx : Bytes → VerifyConfig TdxQuote MeasurementConfig → Result Bool
  verify_tdx quote config = do
    (q, found) ← verify_tdx_chain quote config
    check_root_and_header config q found
    check_signatures config quote
    finish_tdx config q found.fmspc found.pcesvn
