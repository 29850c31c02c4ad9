-- ===== src/Tests/Quotes.antt =====
-- Concrete quotes, a configuration, and what the verifiers return for them.
use teekit.Common.{[], ◌++◌, Text, codes, length}
use teekit.Bytes.{Bytes}
use teekit.Struct.{Fields, encode}
use teekit.Quote.Header.{QuoteHeader}
use teekit.Quote.SgxBody.{SgxReportBody, sgx_report_body}
use teekit.Quote.TdxBody.{tdx_quote_body_1_0}
use teekit.Quote.Signature.{ecdsa_sig_fixed, ecdsa_signature_fixed}
use teekit.Quote.Layout.{Variable, section_bytes, quote_bytes}
use teekit.Tests.Packages.{fill}

abbrev pub tdx_header : QuoteHeader
tdx_header = (4, (2, (129, (1, (2, (fill 16 3, (fill 20 4, tt)))))))

abbrev pub sgx_header : QuoteHeader
sgx_header = (3, (2, (0, (1, (2, (fill 16 3, (fill 20 4, tt)))))))

abbrev pub tdx_body : Fields tdx_quote_body_1_0
tdx_body = (
  fill 16 6,
  (
    fill 48 1,
    (
      fill 48 2,
      (
        1,
        (
          0,
          (
            fill 8 1,
            (
              fill 8 2,
              (
                fill 48 0xab,
                (
                  fill 48 0,
                  (
                    fill 48 0,
                    (
                      fill 48 0,
                      (fill 48 1, (fill 48 2, (fill 48 3, (fill 48 4, (fill 64 5, tt))))),
                    ),
                  ),
                ),
              ),
            ),
          ),
        ),
      ),
    ),
  ),
)

abbrev pub sgx_body : SgxReportBody
sgx_body = (
  fill 16 6,
  (
    1,
    (
      fill 28 0,
      (
        fill 16 1,
        (
          fill 32 0xab,
          (fill 32 0, (fill 32 0xcd, (fill 96 0, (7, (8, (fill 60 0, (fill 64 5, tt))))))),
        ),
      ),
    ),
  ),
)

-- A certificate's text, of the leaf and of the root.
abbrev pub leaf_pem : Text
leaf_pem = codes "-----BEGIN CERTIFICATE-----a-----END CERTIFICATE-----"

abbrev pub root_pem : Text
root_pem = codes "-----BEGIN CERTIFICATE-----abcdefghijkl-----END CERTIFICATE-----"

abbrev pub attestation_key : Bytes
attestation_key = fill 32 7 ++ fill 32 8

-- The QE report binds the key: `report_data` begins with the key's digest.
abbrev pub qe_report : Bytes
qe_report = fill 320 0 ++ (fill 32 7 ++ fill 32 0)

abbrev pub variable : Variable
variable = record {
  auth_data = fill 4 1;
  tail_header = (5, (length (leaf_pem ++ root_pem), tt));
  cert_data = leaf_pem ++ root_pem;
  padding = [];
}

abbrev pub tdx_fixed_part : Fields ecdsa_sig_fixed
tdx_fixed_part = (attestation_key, (attestation_key, (6, (0, (qe_report, (fill 64 9, (4, tt)))))))

abbrev pub sgx_fixed_part : Fields ecdsa_signature_fixed
sgx_fixed_part = (attestation_key, (attestation_key, (qe_report, (fill 64 9, (4, tt)))))

abbrev pub tdx_quote : Bytes
tdx_quote =
    quote_bytes tdx_header (encode tdx_quote_body_1_0 tdx_body)
      (section_bytes (encode ecdsa_sig_fixed tdx_fixed_part) variable) []

abbrev pub sgx_quote : Bytes
sgx_quote =
    quote_bytes sgx_header (encode sgx_report_body sgx_body)
      (section_bytes (encode ecdsa_signature_fixed sgx_fixed_part) variable) []
