-- ===== src/Quote/Signature.antt =====
-- The signature section of a quote: `parseSgxSignature` and `parseTdxSignature` of
-- packages/qvl/src/structs.ts.
use teekit.Common.{ℕ, ◌+◌, Bool, true, false, [], ◌∷◌, Option, none, some, length, drop, ◌==◌}
use teekit.Result.{Result, ok, ◌>>=◌}
use teekit.Bytes.{Bytes, subarray, read_uint16_le, read_uint32_le}
use teekit.Struct.{Struct, Fields, size, uint, buffer, Restructure, from_buffer}
use teekit.Quote.Header.{quote_header}
use teekit.Quote.SgxBody.{sgx_report_body}
use teekit.Quote.TdxBody.{tdx_quote_body_1_0}

-- `EcdsaSignatureFixed` of SGX, `EcdsaSigFixed` of TDX and the header of the certificate data.
abbrev pub ecdsa_signature_fixed : Struct
ecdsa_signature_fixed =
    buffer "signature" 64
    ∷ buffer "attestation_public_key" 64
    ∷ buffer "qe_report" 384
    ∷ buffer "qe_report_signature" 64
    ∷ uint "qe_auth_data_len" 2
    ∷ []

abbrev pub ecdsa_sig_fixed : Struct
ecdsa_sig_fixed =
    buffer "signature" 64
    ∷ buffer "attestation_public_key" 64
    ∷ uint "cert_type" 2
    ∷ uint "cert_size" 4
    ∷ buffer "qe_report" 384
    ∷ buffer "qe_report_signature" 64
    ∷ uint "qe_auth_data_len" 2
    ∷ []

abbrev pub tail : Struct
tail = uint "cert_data_type" 2 ∷ uint "cert_data_len" 4 ∷ []

-- `SgxSignature` and `TdxSignature`
pub record Signature : Type 0 where
  pub ecdsa_signature : Bytes
  pub attestation_public_key : Bytes
  pub qe_report : Bytes
  pub qe_report_present : Bool
  pub qe_report_signature : Bytes
  pub qe_auth_data_len : ℕ
  pub qe_auth_data : Bytes
  pub cert_data_type : ℕ
  pub cert_data_len : ℕ
  pub cert_data : Bytes
  pub body_type : Option ℕ

-- The fixed values of either layout that go on into the result.
pub record FixedPart : Type 0 where
  pub signature : Bytes
  pub attestation_public_key : Bytes
  pub qe_report : Bytes
  pub qe_report_signature : Bytes
  pub qe_auth_data_len : ℕ

abbrev pub sgx_fixed : Fields ecdsa_signature_fixed → FixedPart
sgx_fixed f = record {
  signature = f.0;
  attestation_public_key = f.1.0;
  qe_report = f.1.1.0;
  qe_report_signature = f.1.1.1.0;
  qe_auth_data_len = f.1.1.1.1.0;
}

abbrev pub tdx_fixed : Fields ecdsa_sig_fixed → FixedPart
tdx_fixed f = record {
  signature = f.0;
  attestation_public_key = f.1.0;
  qe_report = f.1.1.1.1.0;
  qe_report_signature = f.1.1.1.1.1.0;
  qe_auth_data_len = f.1.1.1.1.1.1.0;
}

module _ (r : Restructure) where
  -- What both parsers do behind the fixed part, which ends at `offset`.
  unfoldable pub parse_variable : Bytes → ℕ → FixedPart → Option ℕ → Result Signature
  parse_variable sig_data fixed_size fixed body_type = do
    let qe_auth_data = subarray sig_data fixed_size (fixed_size + fixed.qe_auth_data_len)
    let offset = fixed_size + fixed.qe_auth_data_len
    tail_header ← from_buffer r tail (drop offset sig_data)
    let start = offset + size tail
    let cert_data = subarray sig_data start (start + tail_header.1.0)
    ok (record {
      ecdsa_signature = fixed.signature;
      attestation_public_key = fixed.attestation_public_key;
      qe_report = fixed.qe_report;
      qe_report_present = length fixed.qe_report == 384;
      qe_report_signature = fixed.qe_report_signature;
      qe_auth_data_len = fixed.qe_auth_data_len;
      qe_auth_data = qe_auth_data;
      cert_data_type = tail_header.0;
      cert_data_len = tail_header.1.0;
      cert_data = cert_data;
      body_type = body_type;
    })

  unfoldable pub parse_sgx_signature : Bytes → Result Signature
  unfolding parse_variable
  parse_sgx_signature quote = do
    let signed_len = size quote_header + size sgx_report_body
    sig_len ← read_uint32_le quote signed_len
    let sig_data = subarray quote (signed_len + 4) (signed_len + 4 + sig_len)
    fixed ← from_buffer r ecdsa_signature_fixed sig_data
    parse_variable sig_data (size ecdsa_signature_fixed) (sgx_fixed fixed) none

  -- `sig_data` and `body_type`: at a fixed offset in a version 4 quote, behind the body descriptor
  -- in a version 5 quote.
  unfoldable pub tdx_sig_data : Bytes → Bool → Result (Bytes × Option ℕ)
  tdx_sig_data quote false = do
    let signed_len = size quote_header + size tdx_quote_body_1_0
    sig_len ← read_uint32_le quote signed_len
    ok (subarray quote (signed_len + 4) (signed_len + 4 + sig_len), none)
  tdx_sig_data quote true = do
    let desc_offset = size quote_header
    body_type ← read_uint16_le quote desc_offset
    body_size ← read_uint32_le quote (desc_offset + 2)
    let sig_desc_start = desc_offset + 2 + 4 + body_size
    sig_len ← read_uint32_le quote sig_desc_start
    ok (subarray quote (sig_desc_start + 4) (sig_desc_start + 4 + sig_len), some body_type)

  unfoldable pub parse_tdx_signature : Bytes → Bool → Result Signature
  unfolding parse_variable tdx_sig_data
  parse_tdx_signature quote v5 = do
    (sig_data, body_type) ← tdx_sig_data quote v5
    fixed ← from_buffer r ecdsa_sig_fixed sig_data
    parse_variable sig_data (size ecdsa_sig_fixed) (tdx_fixed fixed) body_type
