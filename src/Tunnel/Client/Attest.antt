-- ===== src/Tunnel/Client/Attest.antt =====
-- The attestation of a server by `TunnelClient`, packages/tunnel/src/client.ts: what `onmessage` does
-- with a `server_kx` up to its answer, and the methods that check the binding of the key.
pub mod Keyed
pub mod Trusted
pub mod Accepted
pub mod Verified
use teekit.Common.{
  ℕ, Bool, true, false, not, ◌&&◌, ◌||◌, Option, none, some, [], ◌∷◌, ◌++◌, ◌==◌, take, Text,
  list_eq, if◌then◌else◌,
}
use teekit.Result.{
  Result, ok, err, stuck, ◌>>=◌, ◌>>◌, require, missing_verifier_data, missing_nonce,
  missing_issued_at, missing_vcek, custom_quote_failed, debug_enclave, no_strategy,
  measurement_failed, missing_verifier_data, plain_nonce, missing_nonce, missing_issued_at,
  missing_x25519_key, binding_failed, custom_binding_failed,
}
use teekit.Bytes.{Bytes}
use teekit.Quote.TdxBody
use teekit.Quote.SgxBody
use teekit.Quote.Parse.{TdxQuote, SgxQuote, parse_tdx_quote, parse_sgx_quote}
use teekit.Intel.Defs.{VerifyConfig, is_empty, is_none}
use teekit.Tdx.{verify_tdx_measurements, verify_tdx}
use teekit.Sgx.{verify_sgx_measurements, verify_sgx}
use teekit.Sev.Body
use teekit.Sev.Body.{has_flag}
use teekit.Sev.Report.{SevSnpReport, parse_sev_snp_report}
use teekit.Sev.Config.{CertInput, pem, SevSnpVerifyConfig}
use teekit.Sev.Verify.{verify_sev_snp}
use teekit.Userdata.{get_expected_report_data, is_userdata_bound}
use teekit.Tunnel.Crypto.{crypto_box_seal}
use teekit.Tunnel.Message.{KxAnnounce, SevSnpData, VerifierNonce, VerifierData, intel, plain}
use teekit.Tunnel.Client.{
  Task, verifying_tdx, verifying_sgx, verifying_sevsnp, VerifiedQuote, verified_tdx, verified_sgx,
  verified_sevsnp, Channel, ReportBindingData, Evidence, tdx_quote, sgx_quote, sevsnp_report,
  TdxClientConfig, SgxClientConfig, SevSnpClientConfig, Mode, tdx, sgx, sevsnp, TunnelClientConfig,
  ClientRuntime,
}
use teekit.Tunnel.Client.Binding.{
  verifier_data_of, intel_nonce, optional, present_or, binding_data, plain_val, intel_nonce,
  is_x25519_bound, is_sgx_x25519_bound, is_sevsnp_x25519_bound, get_x25519_expected_report_data,
}

-- `customVerifyQuote !== undefined && (await customVerifyQuote(quote)) !== true`
unfoldable pub check_custom {ℓ} : {Q : Type ℓ} → Option (Q → Result Bool) → Q → Result (Unit {0})
check_custom none q = ok tt
check_custom (some f) q = f q >>= λ b. require b custom_quote_failed

unfoldable pub check_measured {ℓ} : {M : Type ℓ} → (M → Result Bool) → Option M → Result (Unit {0})
check_measured verify none = ok tt
check_measured verify (some m) = verify m >>= λ b. require b measurement_failed

-- `SevSnpVerifyConfig` from the certificates of the message and the client's configuration.
unfoldable pub sev_config : ReportBindingData → Text → SevSnpClientConfig → SevSnpVerifyConfig
sev_config data_ vcek config = record {
  vcek_cert = some (pem vcek);
  ask_cert = optional data_.ask_cert (λ t. some (pem t));
  ark_cert = optional data_.ark_cert (λ t. some (pem t));
  pinned_ark_certs = config.options.pinned_ark_certs;
  crls = config.options.crls;
  date = config.options.date;
  vcek_public_key = config.options.vcek_public_key;
  verify_measurements = config.measurements;
  allow_debug = config.options.allow_debug;
  max_vmpl = config.options.max_vmpl;
  enforce_smt_policy = config.options.enforce_smt_policy;
  verify_tcb = config.options.verify_tcb;
}

-- `attributes[0] & 0x02`
unfoldable pub is_debug_enclave : SgxQuote → Bool
unfolding has_flag
is_debug_enclave q = elim (SgxBody.attributes q.body) [
  | [] ↦ false
  | first ∷ rest ↦ has_flag first 1
]

-- What `verifyTdx` and `verifySgx` use when they are called with a quote alone.
abbrev pub no_config : {M Q : Type 0} → VerifyConfig Q M
no_config = record {
  crls = [];
  verify_tcb = none;
  pinned_root_certs = none;
  date = none;
  extra_certdata = none;
  verify_measurements = none;
}

-- The default validation of the binding, or the configured one.
unfoldable pub check_binding :
    Option (Channel → Result Bool) → Channel → Result Bool → Result (Unit {0})
check_binding none c bound = bound >>= λ b. require b binding_failed
check_binding (some f) c bound = f c >>= λ b. require b custom_binding_failed

unfoldable pub require_strategy {ℓ κ} :
    {M : Type ℓ} {F : Type κ} → Option M → Option F → Result (Unit {0})
require_strategy measurements custom =
    require (not (is_none measurements && is_none custom)) no_strategy

-- `if (!vcekCert) throw …`: an empty string is none.
unfoldable pub vcek_of : Option Text → Result Text
vcek_of none = err missing_vcek
vcek_of (some t) = if is_empty t then err missing_vcek else ok t

-- `if (!measurements && !customVerifyQuote) throw …`, but for SEV-SNP
unfoldable pub require_strategies : VerifiedQuote → Result (Unit {0})
unfolding require_strategy
require_strategies (verified_tdx config q) =
    require_strategy config.measurements config.custom_verify_quote
require_strategies (verified_sgx config q) =
    require_strategy config.measurements config.custom_verify_quote
require_strategies (verified_sevsnp config report) = ok tt

-- The part of a handler up to the verifiers: SEV-SNP needs a certificate.
unfoldable pub task_of : Mode → ReportBindingData → Result Task
unfolding vcek_of sev_config
task_of (tdx config) data_ = ok (verifying_tdx config)
task_of (sgx config) data_ = ok (verifying_sgx config)
task_of (sevsnp config) data_ = do
  vcek ← vcek_of data_.vcek_cert
  ok (verifying_sevsnp config (sev_config data_ vcek config))

abbrev pub evidence_of : VerifiedQuote → Evidence
evidence_of (verified_tdx config q) = tdx_quote q
evidence_of (verified_sgx config q) = sgx_quote q
evidence_of (verified_sevsnp config report) = sevsnp_report report

module _ (rt : ClientRuntime) where
  -- The verifier, the parser, and what is tested before the keys are drawn.
  unfoldable pub open_tdx : Bytes → Result TdxQuote
  open_tdx quote = do
    verified ← verify_tdx rt.env quote no_config
    parse_tdx_quote rt.env.restructure quote

  unfoldable pub open_sgx : SgxClientConfig → Bytes → Result SgxQuote
  open_sgx config quote = do
    verified ← verify_sgx rt.env quote no_config
    q ← parse_sgx_quote rt.env.restructure quote
    require (not (is_debug_enclave q) || config.allow_debug_enclaves) debug_enclave
    ok q

  unfoldable pub open_sevsnp : SevSnpClientConfig → SevSnpVerifyConfig → Bytes → Result SevSnpReport
  open_sevsnp config sev quote = do
    verified ← verify_sev_snp rt.env rt.default_amd_ark_certs quote sev
    report ← parse_sev_snp_report rt.env.restructure quote
    check_custom config.custom_verify_quote report
    ok report

  unfoldable pub verify_task : Task → Bytes → Result VerifiedQuote
  unfolding open_tdx open_sgx open_sevsnp
  verify_task (verifying_tdx config) quote = do q ← open_tdx quote; ok (verified_tdx config q)
  verify_task (verifying_sgx config) quote = do
    q ← open_sgx config quote
    ok (verified_sgx config q)
  verify_task (verifying_sevsnp config sev) quote = do
    report ← open_sevsnp config sev quote
    ok (verified_sevsnp config report)

  -- The callback and the measurements, after the keys are set.
  unfoldable pub validate : VerifiedQuote → Result (Unit {0})
  unfolding check_custom check_measured
  validate (verified_tdx config q) = do
    check_custom config.custom_verify_quote q
    check_measured (verify_tdx_measurements rt.env.hex q) config.measurements
  validate (verified_sgx config q) = do
    check_custom config.custom_verify_quote q
    check_measured (verify_sgx_measurements rt.env.hex q) config.measurements
  validate (verified_sevsnp config report) = ok tt

  -- Whether the key that is in the fields now is bound.
  unfoldable pub is_bound : VerifiedQuote → Channel → Result Bool
  unfolding is_x25519_bound is_sgx_x25519_bound is_sevsnp_x25519_bound
  is_bound (verified_tdx config q) c = is_x25519_bound rt c (TdxBody.report_data q.body)
  is_bound (verified_sgx config q) c = is_sgx_x25519_bound rt c (SgxBody.report_data q.body)
  is_bound (verified_sevsnp config report) c =
      is_sevsnp_x25519_bound rt c (Body.report_data report.body)

  unfoldable pub check_bound :
      Option (Channel → Result Bool) → VerifiedQuote → Channel → Result (Unit {0})
  unfolding check_binding is_bound
  check_bound binding v c = check_binding binding c (is_bound v c)

-- What is thrown for TDX before `isX25519Bound` is called.
unfoldable pub require_nonce :
    Option (Channel → Result Bool) → VerifiedQuote → Channel → Result (Unit {0})
require_nonce none (verified_tdx config q) c = do
  given ← present_or (verifier_data_of c) (err missing_verifier_data)
  nonce ← intel_nonce given
  val ← present_or nonce.val (err missing_nonce)
  iat ← present_or nonce.iat (err missing_issued_at)
  ok tt
require_nonce binding v c = ok tt
