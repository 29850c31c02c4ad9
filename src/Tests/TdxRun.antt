-- ===== src/Tests/TdxRun.antt =====
-- `verifyTdx` of packages/qvl/src/verifyTdx.ts on the concrete quote.
use teekit.Common.{
  ◌≡◌, refl, true, false, [], ◌∷◌, none, some, codes, list_eq, lower, upper, add_ℕ, to_int32,
}
use teekit.Result.{ok}
use teekit.Bytes.{le_value, le_bytes, subarray, read_uint_le, read_uint16_le, read_uint32_le}
use teekit.Struct.{decode, from_buffer, encode}
use teekit.Measurements.{
  measurements, verifier, any_of, matches_hex, check_item, check_any, check_config,
}
use teekit.Pem.{
  begin_marker, end_marker, starts_with, until_end, match_at, pem_matches, extract_pem_certificates,
}
use teekit.Serial.{
  is_hex_digit, is_upper_hex_digit, starts_upper_hex, strip_zeros, keep_hex, normalize_serial_hex,
  crl_serial_hex, serial_number,
}
use teekit.Crl.{
  byte_at, long_length, read_length, read_extent, read_tlv, tagged, subarray_ℤ, catch_empty,
  entry_serial, revoked_entries, skip_optional, skip_required, revoked_at, next_update_at,
  signature_at, crl_body, parse_crl_revoked_serials,
}
use teekit.Quote.Signature.{parse_variable, tdx_sig_data, parse_tdx_signature}
use teekit.Quote.Parse.{TdxQuote, parse_tdx_quote}
use teekit.Quote.Region.{get_tdx10_signed_region}
use teekit.Chain.Walk.{new_certificates, is_parent_of_any, leaf_from, find_leaf, find_parent, walk}
use teekit.Chain.Checks.{
  is_within_validity, all_within_validity, links_match, terminal_verifies, links_verify, is_ca,
  path_length_holds, issuers_hold, constraints_hold,
}
use teekit.Chain.Revocation.{revoked_serials, is_revoked, any_revoked}
use teekit.Chain.{check_revocation, check_chain, chain_of, verify_pck_chain}
use teekit.Intel.Defs.{
  VerifyConfig, chain_with_fallback, require_valid, require_root, compute_cert_sha256_hex,
  is_pinned, catch_false, qe_certificates, qe_report_signature, qe_report_binding, quote_signature,
}
use teekit.Tdx.{
  TdxMeasurements, MeasurementConfig, matches_measurements, verify_tdx_measurements,
  verify_tdx_qe_report_signature, verify_tdx_qe_report_binding, tdx_signed_region,
  verify_tdx_quote_signature, verify_tdx_chain, check_tcb, check_measurements, finish_tdx,
  check_root_and_header, check_signatures, verify_tdx,
}
use teekit.Tests.Packages.{fill, env, crl}
use teekit.Tests.Quotes.{tdx_quote}

abbrev pub tdx_measurements : TdxMeasurements
tdx_measurements = record {
  mrtd = some (env.hex.encode (fill 48 0xab));
  rtmr0 = none;
  rtmr1 = none;
  rtmr2 = none;
  rtmr3 = none;
  report_data = some (env.hex.encode (fill 64 5));
}

abbrev pub tdx_config : VerifyConfig TdxQuote MeasurementConfig
tdx_config = record {
  crls = crl ∷ [];
  verify_tcb = some (λ q input. ok (list_eq input.fmspc (codes "00906ed50000")));
  pinned_root_certs = none;
  date = some 600;
  extra_certdata = none;
  verify_measurements =
      some (any_of (verifier (λ q. ok false) ∷ measurements tdx_measurements ∷ []));
}

pub tdx_run : verify_tdx env tdx_quote tdx_config ≡ ok true
unfolding le_value le_bytes subarray read_uint_le read_uint16_le read_uint32_le decode from_buffer
    encode list_eq lower upper matches_hex check_item check_any check_config begin_marker end_marker
    starts_with until_end match_at pem_matches extract_pem_certificates is_hex_digit
    is_upper_hex_digit starts_upper_hex strip_zeros keep_hex normalize_serial_hex crl_serial_hex
    serial_number byte_at long_length read_length read_extent read_tlv tagged subarray_ℤ catch_empty
    entry_serial revoked_entries skip_optional skip_required revoked_at next_update_at signature_at
    crl_body parse_crl_revoked_serials parse_variable tdx_sig_data parse_tdx_signature
    parse_tdx_quote get_tdx10_signed_region new_certificates is_parent_of_any leaf_from find_leaf
    find_parent walk is_within_validity all_within_validity links_match terminal_verifies
    links_verify is_ca path_length_holds issuers_hold constraints_hold revoked_serials is_revoked
    any_revoked check_revocation check_chain chain_of verify_pck_chain chain_with_fallback
    require_valid require_root compute_cert_sha256_hex is_pinned catch_false qe_certificates
    qe_report_signature qe_report_binding quote_signature add_ℕ to_int32 matches_measurements
    verify_tdx_measurements verify_tdx_qe_report_signature verify_tdx_qe_report_binding
    tdx_signed_region verify_tdx_quote_signature verify_tdx_chain check_tcb check_measurements
    finish_tdx check_root_and_header check_signatures verify_tdx
tdx_run = refl
