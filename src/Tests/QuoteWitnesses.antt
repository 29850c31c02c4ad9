-- ===== src/Tests/QuoteWitnesses.antt =====
-- The theorems on quotes at the concrete quotes.
use teekit.Common.{
  ◌^◌, ◌<◌, ◌≡◌, refl, arith, Bool, true, ◌&&◌, [], ◌∷◌, ◌++◌, none, some, length, All, ltb,
  &&-true,
}
use teekit.Result.{ok}
use teekit.Bytes.{Bytes, IsByte, le_bytes}
use teekit.Struct.{Fields, Fits, encode}
use teekit.Quote.Header.{quote_header, QuoteHeader, version}
use teekit.Quote.SgxBody.{sgx_report_body}
use teekit.Quote.TdxBody.{tdx_quote_body_1_0, body_1_0}
use teekit.Quote.Signature.{ecdsa_sig_fixed, ecdsa_signature_fixed, sgx_fixed, tdx_fixed}
use teekit.Quote.Parse.{TdxQuote, SgxQuote, parse_tdx_quote, parse_sgx_quote}
use teekit.Quote.Region.{get_sgx_signed_region, get_tdx10_signed_region}
use teekit.Quote.Layout.{IsVariable, section_bytes, signature_of, quote_bytes, quote_bytes_v5}
use teekit.Quote.RoundTrip.{parse_sgx_quote-quote_bytes, parse_tdx_quote-quote_bytes}
use teekit.Quote.RoundTripV5.{parse_tdx_quote-quote_bytes_v5}
use teekit.Quote.Signed.{parse_tdx_quote-signed, parse_sgx_quote-signed}
use teekit.Tests.Packages.{restructure}
use teekit.Tests.Quotes.{
  tdx_header, sgx_header, tdx_body, sgx_body, variable, tdx_fixed_part, sgx_fixed_part, tdx_quote,
  sgx_quote,
}

abbrev all_bytes : Bytes → Bool
all_bytes [] = true
all_bytes (b ∷ bs) = ltb b 256 && all_bytes bs

All-IsByte : (bs : Bytes) → all_bytes bs ≡ true → All IsByte bs
All-IsByte [] h = tt
All-IsByte (b ∷ bs) h =
    let (here, later) = &&-true (ltb b 256) (all_bytes bs) h in (ground arith, All-IsByte bs later)

abbrev tdx_section : Bytes
tdx_section = section_bytes (encode ecdsa_sig_fixed tdx_fixed_part) variable

abbrev sgx_section : Bytes
sgx_section = section_bytes (encode ecdsa_signature_fixed sgx_fixed_part) variable

tdx_header-Fits : Fits quote_header tdx_header
tdx_header-Fits = ground arith

sgx_header-Fits : Fits quote_header sgx_header
sgx_header-Fits = ground arith

tdx_body-Fits : Fits tdx_quote_body_1_0 tdx_body
tdx_body-Fits = ground arith

sgx_body-Fits : Fits sgx_report_body sgx_body
sgx_body-Fits = ground arith

tdx_fixed-Fits : Fits ecdsa_sig_fixed tdx_fixed_part
tdx_fixed-Fits = ground arith

sgx_fixed-Fits : Fits ecdsa_signature_fixed sgx_fixed_part
sgx_fixed-Fits = ground arith

tdx_variable : IsVariable (tdx_fixed tdx_fixed_part) variable
tdx_variable = record { auth_length = refl; tail_fits = ground arith; cert_length = refl }

sgx_variable : IsVariable (sgx_fixed sgx_fixed_part) variable
sgx_variable = record { auth_length = refl; tail_fits = ground arith; cert_length = refl }

tdx_section-short : length tdx_section < 256 ^ 4
unfolding encode le_bytes
tdx_section-short = ground arith

sgx_section-short : length sgx_section < 256 ^ 4
unfolding encode le_bytes
sgx_section-short = ground arith

parse_sgx_quote-quote_bytes_example :
    parse_sgx_quote restructure
      (quote_bytes sgx_header (encode sgx_report_body sgx_body) sgx_section (1 ∷ []))
    ≡ ok (record {
      header = sgx_header;
      body = sgx_body;
      signature = signature_of (sgx_fixed sgx_fixed_part) variable none;
    })
parse_sgx_quote-quote_bytes_example =
    parse_sgx_quote-quote_bytes restructure sgx_header sgx_header-Fits (1 ∷ []) sgx_body
      sgx_fixed_part variable refl sgx_body-Fits sgx_fixed-Fits sgx_variable sgx_section-short

parse_tdx_quote-quote_bytes_example :
    parse_tdx_quote restructure
      (quote_bytes tdx_header (encode tdx_quote_body_1_0 tdx_body) tdx_section (1 ∷ []))
    ≡ ok (record {
      header = tdx_header;
      body = body_1_0 tdx_body;
      signature = signature_of (tdx_fixed tdx_fixed_part) variable none;
    })
parse_tdx_quote-quote_bytes_example =
    parse_tdx_quote-quote_bytes restructure tdx_header tdx_header-Fits (1 ∷ []) tdx_body
      tdx_fixed_part variable refl tdx_body-Fits tdx_fixed-Fits tdx_variable tdx_section-short

abbrev v5_header : QuoteHeader
v5_header = (5, tdx_header.1)

v5_header-Fits : Fits quote_header v5_header
v5_header-Fits = ground arith

parse_tdx_quote-quote_bytes_v5_example :
    parse_tdx_quote restructure
      (quote_bytes_v5 v5_header 2 (encode tdx_quote_body_1_0 tdx_body) tdx_section (1 ∷ []))
    ≡ ok (record {
      header = v5_header;
      body = body_1_0 tdx_body;
      signature = signature_of (tdx_fixed tdx_fixed_part) variable (some 2);
    })
parse_tdx_quote-quote_bytes_v5_example =
    parse_tdx_quote-quote_bytes_v5 restructure v5_header v5_header-Fits (1 ∷ []) (body_1_0 tdx_body)
      tdx_fixed_part variable refl tdx_body-Fits tdx_fixed-Fits tdx_variable tdx_section-short

tdx_quote-bytes : All IsByte tdx_quote
unfolding encode le_bytes
tdx_quote-bytes = All-IsByte tdx_quote refl

sgx_quote-bytes : All IsByte sgx_quote
unfolding encode le_bytes
sgx_quote-bytes = All-IsByte sgx_quote refl

abbrev parsed_tdx : TdxQuote
parsed_tdx = record {
  header = tdx_header;
  body = body_1_0 tdx_body;
  signature = signature_of (tdx_fixed tdx_fixed_part) variable none;
}

abbrev parsed_sgx : SgxQuote
parsed_sgx = record {
  header = sgx_header;
  body = sgx_body;
  signature = signature_of (sgx_fixed sgx_fixed_part) variable none;
}

tdx_quote-parsed : parse_tdx_quote restructure tdx_quote ≡ ok parsed_tdx
tdx_quote-parsed =
    parse_tdx_quote-quote_bytes restructure tdx_header tdx_header-Fits [] tdx_body tdx_fixed_part
      variable refl tdx_body-Fits tdx_fixed-Fits tdx_variable tdx_section-short

sgx_quote-parsed : parse_sgx_quote restructure sgx_quote ≡ ok parsed_sgx
sgx_quote-parsed =
    parse_sgx_quote-quote_bytes restructure sgx_header sgx_header-Fits [] sgx_body sgx_fixed_part
      variable refl sgx_body-Fits sgx_fixed-Fits sgx_variable sgx_section-short

parse_tdx_quote-signed_example :
    (b : Fields tdx_quote_body_1_0) × (body_1_0 tdx_body ≡ body_1_0 b)
    × (encode quote_header tdx_header ++ encode tdx_quote_body_1_0 b
        ≡ get_tdx10_signed_region tdx_quote)
parse_tdx_quote-signed_example =
    parse_tdx_quote-signed restructure tdx_quote parsed_tdx tdx_quote-bytes tdx_quote-parsed refl

parse_sgx_quote-signed_example :
    (version sgx_header ≡ 3)
    × (encode quote_header sgx_header ++ encode sgx_report_body sgx_body
        ≡ get_sgx_signed_region sgx_quote)
parse_sgx_quote-signed_example =
    parse_sgx_quote-signed restructure sgx_quote parsed_sgx sgx_quote-bytes sgx_quote-parsed
