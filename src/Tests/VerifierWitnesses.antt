-- ===== src/Tests/VerifierWitnesses.antt =====
-- The theorems on the verifiers and their chains at the concrete quotes and certificates.
use teekit.Common.{
  ◌≡◌, refl, arith, [], ◌∷◌, ◌++◌, none, some, length, list_eq, lower, upper, take, add_ℕ, to_int32,
}
use teekit.Result.{ok}
use teekit.Bytes.{subarray, le_value}
use teekit.Struct.{Fits}
use teekit.Measurements.{}
use teekit.Serial.{
  is_hex_digit, is_upper_hex_digit, starts_upper_hex, strip_zeros, keep_hex, normalize_serial_hex,
  crl_serial_hex, serial_number,
}
use teekit.Crl.{
  byte_at, long_length, read_length, read_extent, read_tlv, tagged, subarray_ℤ, catch_empty,
  entry_serial, revoked_entries, skip_optional, skip_required, revoked_at, next_update_at,
  signature_at, crl_body, parse_crl_revoked_serials,
}
use teekit.Chain.Checks.{
  is_within_validity, all_within_validity, links_match, terminal_verifies, links_verify, is_ca,
  path_length_holds, issuers_hold, constraints_hold,
}
use teekit.Chain.Revocation.{revoked_serials, is_revoked, any_revoked}
use teekit.Chain.{PckChain, valid, leaf_result, check_revocation, check_chain}
use teekit.Chain.Trusted.{IsTrusted}
use teekit.Chain.Trust.{check_chain-IsTrusted}
use teekit.Tdx.Steps.{IsTdxAccepted}
use teekit.Tdx.Laws.{verify_tdx-IsTdxAccepted}
use teekit.Sgx.Steps.{IsSgxAccepted}
use teekit.Sgx.Laws.{verify_sgx-IsSgxAccepted}
use teekit.Sev.Body.{sev_snp_report_body, sev_snp_signature}
use teekit.Sev.Report.{parse_sev_snp_report, convert_signature_component}
use teekit.Sev.Chain.{
  SevSnpCertChainResult, signatures_hold, names_chain, cas_hold, check_sev_revocation,
  verify_sev_snp_cert_chain,
}
use teekit.Sev.Trust.{IsSevTrusted, verify_sev_snp_cert_chain-IsSevTrusted}
use teekit.Sev.Config.{SevSnpVerifyConfig, present}
use teekit.Sev.Verify.{verify_sev_snp}
use teekit.Sev.Laws.{IsSevAccepted}
use teekit.Sev.Accept.{verify_sev_snp-IsSevAccepted}
use teekit.Sev.Pinning.{verify_sev_snp-unpinned}
use teekit.Sev.RoundTrip.{report_bytes, report_of, parse_sev_snp_report-report_bytes}
use teekit.Sev.Component.{be_value, convert_signature_component-be_value}
use teekit.Tests.Packages.{fill, restructure, hex, x509, env, crl, root_cert, leaf_cert}
use teekit.Tests.Quotes.{tdx_quote, sgx_quote}
use teekit.Tests.TdxRun.{tdx_config, tdx_run}
use teekit.Tests.SgxRun.{sgx_config, sgx_run}
use teekit.Tests.SevRun.{
  sev_body, sev_signature, sev_report, sev_config, sev_run, vcek_cert, ask_cert,
}

verify_tdx-IsTdxAccepted_example : IsTdxAccepted env tdx_quote tdx_config
verify_tdx-IsTdxAccepted_example = verify_tdx-IsTdxAccepted env tdx_quote tdx_config tdx_run

verify_sgx-IsSgxAccepted_example : IsSgxAccepted env sgx_quote sgx_config
verify_sgx-IsSgxAccepted_example = verify_sgx-IsSgxAccepted env sgx_quote sgx_config sgx_run

verify_sev_snp-IsSevAccepted_example : IsSevAccepted env (root_cert ∷ []) sev_report sev_config
verify_sev_snp-IsSevAccepted_example =
    verify_sev_snp-IsSevAccepted env (root_cert ∷ []) sev_report sev_config sev_run

abbrev whole : PckChain
whole = leaf_result valid (some root_cert) (leaf_cert ∷ root_cert ∷ []) leaf_cert

chain_run : check_chain hex x509 (some 600) (crl ∷ []) leaf_cert (root_cert ∷ []) ≡ ok whole
unfolding check_chain check_revocation is_within_validity all_within_validity links_match
    terminal_verifies links_verify is_ca path_length_holds issuers_hold constraints_hold
    revoked_serials is_revoked any_revoked list_eq lower upper subarray is_hex_digit
    is_upper_hex_digit starts_upper_hex strip_zeros keep_hex normalize_serial_hex crl_serial_hex
    serial_number byte_at long_length read_length read_extent read_tlv tagged subarray_ℤ catch_empty
    entry_serial revoked_entries skip_optional skip_required revoked_at next_update_at signature_at
    crl_body parse_crl_revoked_serials add_ℕ to_int32
chain_run = refl

check_chain-IsTrusted_example :
    (whole ≡ whole) × IsTrusted hex x509 (some 600) (crl ∷ []) leaf_cert (root_cert ∷ [])
check_chain-IsTrusted_example =
    check_chain-IsTrusted hex x509 (some 600) (crl ∷ []) leaf_cert (root_cert ∷ []) whole chain_run
      refl

abbrev sev_whole : SevSnpCertChainResult
sev_whole = record {
  status = valid;
  ark = some root_cert;
  chain = vcek_cert ∷ ask_cert ∷ root_cert ∷ [];
}

sev_chain_run :
    verify_sev_snp_cert_chain hex x509 vcek_cert ask_cert (some root_cert) (some 600) (crl ∷ [])
    ≡ ok sev_whole
unfolding verify_sev_snp_cert_chain signatures_hold names_chain cas_hold check_sev_revocation
    is_within_validity all_within_validity is_ca revoked_serials is_revoked any_revoked list_eq
    lower upper subarray is_hex_digit is_upper_hex_digit starts_upper_hex strip_zeros keep_hex
    normalize_serial_hex crl_serial_hex serial_number byte_at long_length read_length read_extent
    read_tlv tagged subarray_ℤ catch_empty entry_serial revoked_entries skip_optional skip_required
    revoked_at next_update_at signature_at crl_body parse_crl_revoked_serials add_ℕ to_int32
sev_chain_run = refl

verify_sev_snp_cert_chain-IsSevTrusted_example :
    (sev_whole ≡ sev_whole)
    × IsSevTrusted hex x509 (some 600) (crl ∷ []) vcek_cert ask_cert (some root_cert)
verify_sev_snp_cert_chain-IsSevTrusted_example =
    verify_sev_snp_cert_chain-IsSevTrusted hex x509 vcek_cert ask_cert (some root_cert) (some 600)
      (crl ∷ []) sev_whole sev_chain_run refl

sev_body-Fits : Fits sev_snp_report_body sev_body
sev_body-Fits = ground arith

sev_signature-Fits : Fits sev_snp_signature sev_signature
sev_signature-Fits = ground arith

parse_sev_snp_report-report_bytes_example :
    parse_sev_snp_report restructure (report_bytes sev_body sev_signature (1 ∷ []))
    ≡ ok (report_of sev_body sev_signature)
parse_sev_snp_report-report_bytes_example =
    parse_sev_snp_report-report_bytes restructure sev_body sev_body-Fits sev_signature (1 ∷ [])
      sev_signature-Fits (omega arith)

convert_signature_component-be_value_example :
    (be_value (convert_signature_component (fill 47 1 ++ fill 25 0))
      ≡ le_value (take 48 (fill 47 1 ++ fill 25 0)))
    × (length (convert_signature_component (fill 47 1 ++ fill 25 0)) ≡ 48)
convert_signature_component-be_value_example =
    convert_signature_component-be_value (fill 47 1 ++ fill 25 0)

-- The configuration with no ARK.
abbrev rootless : SevSnpVerifyConfig
rootless = record sev_config { ark_cert = none }

no_ark_given : present rootless.ark_cert ≡ none
unfolding present
no_ark_given = refl

verify_sev_snp-unpinned_example :
    verify_sev_snp env
      (root_cert ∷ [])
      sev_report
      (record rootless { pinned_ark_certs = some (leaf_cert ∷ []) })
    ≡ verify_sev_snp env (root_cert ∷ []) sev_report rootless
verify_sev_snp-unpinned_example =
    verify_sev_snp-unpinned env (root_cert ∷ []) sev_report rootless (some (leaf_cert ∷ []))
      no_ark_given
