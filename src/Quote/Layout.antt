-- ===== src/Quote/Layout.antt =====
-- The byte layout of the quotes of packages/qvl/src/structs.ts, written the other way round: the
-- bytes of given header, body and signature values. It is the reference description that the
-- parsers are compared with.
use teekit.Common.{ℕ, ◌≡◌, ◌++◌, Option, length, ◌==◌}
use teekit.Bytes.{Bytes, le_bytes}
use teekit.Struct.{Fields, Fits, encode}
use teekit.Quote.Header.{quote_header, QuoteHeader}
use teekit.Quote.Signature.{Signature, FixedPart, tail}

-- The variable part of a signature section, behind the fixed part.
pub record Variable : Type 0 where
  pub auth_data : Bytes
  pub tail_header : Fields tail
  pub cert_data : Bytes
  pub padding : Bytes

pub record IsVariable (fixed : FixedPart) (v : Variable) : Type 0 where
  pub auth_length : length v.auth_data ≡ fixed.qe_auth_data_len
  pub tail_fits : Fits tail v.tail_header
  pub cert_length : length v.cert_data ≡ v.tail_header.1.0

abbrev pub section_bytes : Bytes → Variable → Bytes
section_bytes fixed v =
    fixed ++ (v.auth_data ++ (encode tail v.tail_header ++ (v.cert_data ++ v.padding)))

-- The signature that stands in such a section.
abbrev pub signature_of : FixedPart → Variable → Option ℕ → Signature
signature_of fixed v body_type = record {
  ecdsa_signature = fixed.signature;
  attestation_public_key = fixed.attestation_public_key;
  qe_report = fixed.qe_report;
  qe_report_present = length fixed.qe_report == 384;
  qe_report_signature = fixed.qe_report_signature;
  qe_auth_data_len = fixed.qe_auth_data_len;
  qe_auth_data = v.auth_data;
  cert_data_type = v.tail_header.0;
  cert_data_len = v.tail_header.1.0;
  cert_data = v.cert_data;
  body_type = body_type;
}

-- A version 3 or 4 quote: header, body, length of the section, section, and whatever follows.
abbrev pub quote_bytes : QuoteHeader → (body : Bytes) (section rest : Bytes) → Bytes
quote_bytes h body section rest =
    encode quote_header h ++ (body ++ (le_bytes 4 (length section) ++ (section ++ rest)))

-- A version 5 quote has a descriptor of the body, its type and size, in front of the body.
abbrev pub quote_bytes_v5 : QuoteHeader → ℕ → (body section rest : Bytes) → Bytes
quote_bytes_v5 h body_type body section rest =
    encode quote_header h
    ++ (le_bytes 2 body_type
        ++ (le_bytes 4 (length body)
            ++ (body ++ (le_bytes 4 (length section) ++ (section ++ rest)))))
