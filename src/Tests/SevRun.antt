-- ===== src/Tests/SevRun.antt =====
-- `verifySevSnp` of packages/qvl/src/verifySev.ts on a concrete report.
use teekit.Common.{
  ◌≡◌, refl, true, false, [], ◌∷◌, ◌++◌, none, some, codes, list_eq, lower, upper, add_ℕ, to_int32,
}
use teekit.Result.{ok}
use teekit.Bytes.{Bytes, le_value, le_bytes, subarray, read_uint_le, read_uint32_le}
use teekit.Struct.{decode, from_buffer, encode}
use teekit.Packages.{Certificate}
use teekit.Measurements.{measurements, single, matches_hex, check_item, check_any, check_config}
use teekit.Serial.{
  is_hex_digit, is_upper_hex_digit, starts_upper_hex, strip_zeros, keep_hex, normalize_serial_hex,
  crl_serial_hex, serial_number,
}
use teekit.Crl.{
  byte_at, long_length, read_length, read_extent, read_tlv, tagged, subarray_ℤ, catch_empty,
  entry_serial, revoked_entries, skip_optional, skip_required, revoked_at, next_update_at,
  signature_at, crl_body, parse_crl_revoked_serials,
}
use teekit.Chain.Checks.{is_within_validity, all_within_validity, is_ca}
use teekit.Chain.Revocation.{revoked_serials, is_revoked, any_revoked}
use teekit.Tests.Packages.{fill, env, crl, root_cert}
use teekit.Intel.Defs.{compute_cert_sha256_hex, is_pinned}
use teekit.Sev.RoundTrip.{report_bytes}
use teekit.Sev.Body.{
  RawBody, SevSnpSignature, read_uint64_le, has_flag, is_sev_snp_debug_enabled, body_from_buffer,
}
use teekit.Sev.Report.{
  parse_sev_snp_report, get_sev_snp_signed_region, trimmed_end, reversed, zeros, pad_or_trim,
  convert_signature_component, get_sev_snp_signature_components, get_sev_snp_raw_signature,
}
use teekit.Sev.Chain.{
  signatures_hold, names_chain, cas_hold, check_sev_revocation, verify_sev_snp_cert_chain,
}
use teekit.Sev.Config.{
  SevSnpMeasurements, certificate, SevSnpVerifyConfig, matches_sev_measurements,
  verify_sev_snp_measurements, present, within_vmpl, smt_holds,
}
use teekit.Sev.Verify.{
  load, load_optional, verify_with, verify_sev_snp_signature, check_report_signature, ark_is_pinned,
  check_status, check_sev_chain, with_vcek, check_certificates, measurements_hold, tcb_holds,
  check_sev_tcb, check_callbacks, check_report, verify_sev_snp_outcome, or_throw, verify_sev_snp,
}

abbrev pub vcek_cert : Certificate
vcek_cert = record {
  handle = 0;
  raw_data = 7 ∷ [];
  subject = codes "vcek";
  issuer = codes "ask";
  serial = 0 ∷ [];
  not_before = 200;
  not_after = 900;
  public_key = fill 48 1 ++ fill 48 2;
  basic_constraints = none;
  fmspc = none;
  pcesvn = none;
}

abbrev pub ask_cert : Certificate
ask_cert = record {
  handle = 1;
  raw_data = 8 ∷ [];
  subject = codes "ask";
  issuer = codes "root";
  serial = 9 ∷ [];
  not_before = 200;
  not_after = 900;
  public_key = fill 96 3;
  basic_constraints = some (record { ca = true; path_length = none });
  fmspc = none;
  pcesvn = none;
}

abbrev pub sev_body : RawBody
sev_body = (
  2,
  (
    1,
    (
      (0 ∷ 0 ∷ 3 ∷ 0 ∷ 0 ∷ 0 ∷ 0 ∷ 0 ∷ []),
      (
        fill 16 1,
        (
          fill 16 2,
          (
            0,
            (
              1,
              (
                fill 8 1,
                (
                  (1 ∷ 0 ∷ 0 ∷ 0 ∷ 0 ∷ 0 ∷ 0 ∷ 0 ∷ []),
                  (
                    0,
                    (
                      0,
                      (
                        fill 64 5,
                        (
                          fill 48 0xab,
                          (
                            fill 32 0,
                            (
                              fill 48 0,
                              (
                                fill 48 0,
                                (
                                  fill 32 0,
                                  (
                                    fill 32 0,
                                    (
                                      fill 8 1,
                                      (
                                        fill 24 0,
                                        (
                                          fill 64 0,
                                          (
                                            fill 8 1,
                                            (
                                              1,
                                              (
                                                2,
                                                (
                                                  3,
                                                  (
                                                    0,
                                                    (
                                                      1,
                                                      (2, (3, (0, (fill 8 1, (fill 168 0, tt))))),
                                                    ),
                                                  ),
                                                ),
                                              ),
                                            ),
                                          ),
                                        ),
                                      ),
                                    ),
                                  ),
                                ),
                              ),
                            ),
                          ),
                        ),
                      ),
                    ),
                  ),
                ),
              ),
            ),
          ),
        ),
      ),
    ),
  ),
)

-- Little-endian components with zeros behind them.
abbrev pub sev_signature : SevSnpSignature
sev_signature = (fill 48 1 ++ fill 24 0, (fill 48 2 ++ fill 24 0, (fill 368 0, tt)))

abbrev pub sev_report : Bytes
sev_report = report_bytes sev_body sev_signature (1 ∷ [])

abbrev pub sev_measurements : SevSnpMeasurements
sev_measurements = record {
  measurement = some (env.hex.encode (fill 48 0xab));
  report_data = some (env.hex.encode (fill 64 5));
  host_data = none;
  family_id = none;
  image_id = none;
}

abbrev pub sev_config : SevSnpVerifyConfig
sev_config = record {
  vcek_cert = some (certificate vcek_cert);
  ask_cert = some (certificate ask_cert);
  ark_cert = some (certificate root_cert);
  pinned_ark_certs = none;
  crls = crl ∷ [];
  date = none;
  vcek_public_key = none;
  verify_measurements = some (single (measurements sev_measurements));
  allow_debug = false;
  max_vmpl = some 0;
  enforce_smt_policy = true;
  verify_tcb = some (λ report. ok true);
}

pub sev_run : verify_sev_snp env (root_cert ∷ []) sev_report sev_config ≡ ok true
unfolding le_value le_bytes subarray read_uint_le read_uint32_le decode from_buffer encode list_eq
    lower upper matches_hex check_item check_any check_config is_hex_digit is_upper_hex_digit
    starts_upper_hex strip_zeros keep_hex normalize_serial_hex crl_serial_hex serial_number byte_at
    long_length read_length read_extent read_tlv tagged subarray_ℤ catch_empty entry_serial
    revoked_entries skip_optional skip_required revoked_at next_update_at signature_at crl_body
    parse_crl_revoked_serials is_within_validity all_within_validity is_ca revoked_serials
    is_revoked any_revoked compute_cert_sha256_hex is_pinned add_ℕ to_int32 read_uint64_le has_flag
    is_sev_snp_debug_enabled body_from_buffer parse_sev_snp_report get_sev_snp_signed_region
    trimmed_end reversed zeros pad_or_trim convert_signature_component
    get_sev_snp_signature_components get_sev_snp_raw_signature signatures_hold names_chain cas_hold
    check_sev_revocation verify_sev_snp_cert_chain matches_sev_measurements
    verify_sev_snp_measurements present within_vmpl smt_holds load load_optional verify_with
    verify_sev_snp_signature check_report_signature ark_is_pinned check_status check_sev_chain
    with_vcek check_certificates measurements_hold tcb_holds check_sev_tcb check_callbacks
    check_report verify_sev_snp_outcome or_throw verify_sev_snp
sev_run = refl
