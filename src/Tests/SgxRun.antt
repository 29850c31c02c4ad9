-- ===== src/Tests/SgxRun.antt =====
-- `verifySgx` of packages/qvl/src/verifySgx.ts on the concrete quote.
use teekit.Common.{
  ◌≡◌, refl, true, [], ◌∷◌, none, some, codes, list_eq, lower, upper, add_ℕ, to_int32,
}
use teekit.Result.{ok}
use teekit.Bytes.{le_value, le_bytes, subarray, read_uint_le, read_uint32_le}
use teekit.Struct.{decode, from_buffer, encode}
use teekit.Measurements.{
  measurements, single, matches_hex, matches_number, check_item, check_any, check_config,
}
use teekit.Pem.{
  begin_marker, end_marker, starts_with, until_end, match_at, pem_matches, extract_pem_certificates,
}
use teekit.Serial.{
  is_hex_digit, is_upper_hex_digit, starts_upper_hex, strip_zeros, keep_hex, normalize_serial_hex,
  crl_serial_hex, serial_number,
}
use teekit.Crl.{
  byte_at, long_length, read_length, read_extent, read_tlv, tagged, subarray_ℤ, catch_empty,
  entry_serial, revoked_entries, skip_optional, skip_required, revoked_at, next_update_at,
  signature_at, crl_body, parse_crl_revoked_serials,
}
use teekit.Quote.Signature.{parse_variable, parse_sgx_signature}
use teekit.Quote.Parse.{SgxQuote, parse_sgx_quote}
use teekit.Quote.Region.{get_sgx_signed_region}
use teekit.Chain.Walk.{new_certificates, is_parent_of_any, leaf_from, find_leaf, find_parent, walk}
use teekit.Chain.Checks.{
  is_within_validity, all_within_validity, links_match, terminal_verifies, links_verify, is_ca,
  path_length_holds, issuers_hold, constraints_hold,
}
use teekit.Chain.Revocation.{revoked_serials, is_revoked, any_revoked}
use teekit.Chain.{check_revocation, check_chain, chain_of, verify_pck_chain}
use teekit.Intel.Defs.{
  VerifyConfig, chain_with_fallback, require_valid, require_root, compute_cert_sha256_hex,
  is_pinned, catch_false, qe_certificates, qe_report_signature, qe_report_binding, quote_signature,
}
use teekit.Sgx.{
  SgxMeasurements, MeasurementConfig, matches_measurements, verify_sgx_measurements,
  verify_sgx_qe_report_signature, verify_sgx_qe_report_binding, verify_sgx_quote_signature,
  verify_sgx_chain, check_tcb, check_measurements, pce_svn_of, finish_sgx, check_root_and_header,
  check_signatures, verify_sgx,
}
use teekit.Tests.Packages.{fill, env, crl}
use teekit.Tests.Quotes.{sgx_quote}

abbrev pub sgx_measurements : SgxMeasurements
sgx_measurements = record {
  mr_enclave = some (env.hex.encode (fill 32 0xab));
  mr_signer = none;
  isv_prod_id = some 7;
  isv_svn = some 8;
  report_data = none;
}

abbrev pub sgx_config : VerifyConfig SgxQuote MeasurementConfig
sgx_config = record {
  crls = crl ∷ [];
  verify_tcb = some (λ q input. ok (list_eq input.fmspc (codes "00906ed50000")));
  pinned_root_certs = none;
  date = none;
  extra_certdata = none;
  verify_measurements = some (single (measurements sgx_measurements));
}

pub sgx_run : verify_sgx env sgx_quote sgx_config ≡ ok true
unfolding le_value le_bytes subarray read_uint_le read_uint32_le decode from_buffer encode list_eq
    lower upper matches_hex matches_number check_item check_any check_config begin_marker end_marker
    starts_with until_end match_at pem_matches extract_pem_certificates is_hex_digit
    is_upper_hex_digit starts_upper_hex strip_zeros keep_hex normalize_serial_hex crl_serial_hex
    serial_number byte_at long_length read_length read_extent read_tlv tagged subarray_ℤ catch_empty
    entry_serial revoked_entries skip_optional skip_required revoked_at next_update_at signature_at
    crl_body parse_crl_revoked_serials parse_variable parse_sgx_signature parse_sgx_quote
    get_sgx_signed_region new_certificates is_parent_of_any leaf_from find_leaf find_parent walk
    is_within_validity all_within_validity links_match terminal_verifies links_verify is_ca
    path_length_holds issuers_hold constraints_hold revoked_serials is_revoked any_revoked
    check_revocation check_chain chain_of verify_pck_chain chain_with_fallback require_valid
    require_root compute_cert_sha256_hex is_pinned catch_false qe_certificates qe_report_signature
    qe_report_binding quote_signature add_ℕ to_int32 matches_measurements verify_sgx_measurements
    verify_sgx_qe_report_signature verify_sgx_qe_report_binding verify_sgx_quote_signature
    verify_sgx_chain check_tcb check_measurements pce_svn_of finish_sgx check_root_and_header
    check_signatures verify_sgx
sgx_run = refl
