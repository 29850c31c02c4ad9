-- ===== src/Tests/PolicyWitnesses.antt =====
-- The theorems on TCB levels, the QE identity and the binding of a key at concrete inputs.
use teekit.Common.{
  ◌+◌, ◌<◌, ◌++◌, ◌≡◌, ◌≢◌, ◌↔◌, ◌⊎◌, refl, true, List, [], ◌∷◌, none, some, All, length, codes,
  list_eq, lower,
}
use teekit.Result.{ok}
use teekit.Bytes.{Bytes, le_value, le_bytes, subarray, read_uint_le, read_uint16_le, read_uint32_le}
use teekit.Struct.{decode, encode, from_buffer}
use teekit.Quote.Signature.{parse_variable, tdx_sig_data, parse_tdx_signature}
use teekit.Quote.Parse.{parse_tdx_quote}
use teekit.Tcb.{
  TcbLevel, TcbService, pce_ok, key_below, component_below, components_ok, array_ok, cpu_ok,
  status_of_levels, get_tcb_status, date_le, is_tcb_info_fresh, require_response,
  is_acceptable_status, verify_tcb,
}
use teekit.Tcb.Laws.{Meets}
use teekit.Tcb.Status.{IsFirst, IsCurrent, status_of_levels-IsFirst, verify_tcb-IsCurrent}
use teekit.Userdata.{is_userdata_bound}
use teekit.Userdata.Laws.{is_userdata_bound_iff}
use teekit.Identity.{
  EnclaveIdentity, parse_sgx_report, masked_equal, require_hex, hex_equals_masked, is_up_to_date,
  pick_level, isv_prod_id_holds, level_holds, identity_in_time, signer_and_level, report_matches,
  verify_qe_identity,
}
use teekit.Identity.Laws.{IsIdentified, verify_qe_identity-IsIdentified}
use teekit.Ecdsa.{encode_ecdsa_signature_to_der}
use teekit.Ecdsa.Laws.{IsInteger, encode_ecdsa_signature_to_der-IsInteger}
use teekit.Tests.Packages.{fill, restructure, hex, crypto}
use teekit.Tests.Quotes.{tdx_quote}

-- A level that wants more of the PCE than the platform has, and one that it meets.
abbrev high_level : TcbLevel
high_level = record {
  pcesvn = some 20;
  sgx_components = [];
  sgxtcbcomponents = none;
  tdxtcbcomponents = some (some 3 ∷ []);
  tcb_status = codes "UpToDate";
}

abbrev met_level : TcbLevel
met_level = record {
  pcesvn = some 11;
  sgx_components = some 9 ∷ [];
  sgxtcbcomponents = none;
  tdxtcbcomponents = some (some 3 ∷ none ∷ some 6 ∷ []);
  tcb_status = codes "ConfigurationNeeded";
}

abbrev levels : List TcbLevel
levels = high_level ∷ met_level ∷ []

-- A date is the length of its text.
abbrev service : TcbService
service = record {
  fetch = λ is_tdx fmspc.
      ok (some (record { issue_date = codes "a"; next_update = codes "abc"; tcb_levels = levels }));
  parse_date = λ text. some (length text);
}

status_of_levels-IsFirst_example :
    ((level : TcbLevel) × IsFirst (fill 16 6) 11 true levels level
      × (status_of_levels (fill 16 6) 11 true levels ≡ level.tcb_status))
    ⊎ (All (λ l. Meets (fill 16 6) 11 true l → ⊥) levels
        × (status_of_levels (fill 16 6) 11 true levels ≡ codes "OutOfDate"))
status_of_levels-IsFirst_example = status_of_levels-IsFirst (fill 16 6) 11 true levels

tcb_run : verify_tcb service 2 (codes "00906ed50000") (fill 16 6) 11 129 ≡ ok true
unfolding pce_ok key_below component_below components_ok array_ok cpu_ok status_of_levels
    get_tcb_status date_le is_tcb_info_fresh require_response is_acceptable_status verify_tcb
    list_eq
tcb_run = refl

verify_tcb-IsCurrent_example : IsCurrent service 2 (codes "00906ed50000") (fill 16 6) 11 129
verify_tcb-IsCurrent_example =
    verify_tcb-IsCurrent service 2 (codes "00906ed50000") (fill 16 6) 11 129 tcb_run

abbrev nonce : Bytes
nonce = 1 ∷ []

abbrev issued_at : Bytes
issued_at = 2 ∷ []

abbrev key : Bytes
key = 3 ∷ []

abbrev bound_data : Bytes
bound_data = 1 ∷ 2 ∷ 3 ∷ []

is_userdata_bound_iff_example :
    (is_userdata_bound crypto bound_data nonce issued_at key ≡ ok true) ↔ (
      (nonce ≢ [])
      × (issued_at ≢ [])
      × (key ≢ [])
      × (bound_data ≡ crypto.sha512 (crypto.concat (nonce ∷ issued_at ∷ key ∷ []))))
is_userdata_bound_iff_example = is_userdata_bound_iff crypto bound_data nonce issued_at key

abbrev identity : EnclaveIdentity
identity = record {
  issue_date = codes "a";
  next_update = codes "abc";
  attributes = hex.encode (fill 16 0);
  attributes_mask = hex.encode (fill 16 255);
  mrsigner = hex.encode (fill 32 0);
  isvprodid = some 0;
  tcb_levels =
      record { isvsvn = 1; tcb_status = codes "OutOfDate" }
      ∷ record { isvsvn = 0; tcb_status = codes "UpToDate" }
      ∷ [];
}

identity_run : verify_qe_identity restructure hex service tdx_quote identity 2 ≡ ok true
unfolding le_value le_bytes subarray read_uint_le read_uint16_le read_uint32_le decode encode
    from_buffer parse_variable tdx_sig_data parse_tdx_signature parse_tdx_quote date_le list_eq
    lower parse_sgx_report masked_equal require_hex hex_equals_masked is_up_to_date pick_level
    isv_prod_id_holds level_holds identity_in_time signer_and_level report_matches
    verify_qe_identity
identity_run = refl

verify_qe_identity-IsIdentified_example : IsIdentified restructure hex service tdx_quote identity 2
verify_qe_identity-IsIdentified_example =
    verify_qe_identity-IsIdentified restructure hex service tdx_quote identity 2 identity_run

-- Halves with a high bit, and with leading zeros.
abbrev raw_signature : Bytes
raw_signature = fill 32 0x81 ++ (fill 31 0 ++ (5 ∷ []))

encode_ecdsa_signature_to_der-IsInteger_example :
    (r : Bytes) × (s : Bytes) × (encode_ecdsa_signature_to_der raw_signature
      ≡ ok (0x30 ∷ (length r + length s + 4) ∷ ((0x02 ∷ length r ∷ r) ++ (0x02 ∷ length s ∷ s))))
    × IsInteger (subarray raw_signature 0 32) r
    × IsInteger (subarray raw_signature 32 64) s
    × (length r + length s + 4 < 128)
encode_ecdsa_signature_to_der-IsInteger_example =
    encode_ecdsa_signature_to_der-IsInteger raw_signature refl
