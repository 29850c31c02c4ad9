-- ===== src/Quote/Parse.antt =====
-- `parseTdxQuote` and `parseSgxQuote` of packages/qvl/src/parse.ts. Their Base64 variants decode by
-- a package and call these.
use teekit.Common.{◌+◌, true, false, drop, ◌==◌, if◌then◌else◌}
use teekit.Result.{Result, ok, err, unsupported_version, unexpected_body_type, ◌>>=◌}
use teekit.Bytes.{Bytes, subarray, read_uint16_le, read_uint32_le}
use teekit.Struct.{size, Restructure, from_buffer}
use teekit.Quote.Header.{quote_header, QuoteHeader, version}
use teekit.Quote.SgxBody.{sgx_report_body, SgxReportBody}
use teekit.Quote.TdxBody.{tdx_quote_body_1_0, tdx_quote_body_1_5, TdxQuoteBody, body_1_0, body_1_5}
use teekit.Quote.Signature.{Signature, parse_sgx_signature, parse_tdx_signature}

pub record TdxQuote : Type 0 where
  pub header : QuoteHeader
  pub body : TdxQuoteBody
  pub signature : Signature

pub record SgxQuote : Type 0 where
  pub header : QuoteHeader
  pub body : SgxReportBody
  pub signature : Signature

module _ (r : Restructure) where
  -- The version 5 body, by the descriptor's type; its bytes are cut off at the descriptor's size.
  unfoldable pub parse_body_v5 : Bytes → Result TdxQuoteBody
  parse_body_v5 quote = do
    let header_len = size quote_header
    body_type ← read_uint16_le quote header_len
    body_size ← read_uint32_le quote (header_len + 2)
    let body_bytes = subarray quote (header_len + 2 + 4) (header_len + 2 + 4 + body_size)
    if body_type == 1
        then err unexpected_body_type
        else if body_type == 2
        then (do body ← from_buffer r tdx_quote_body_1_0 body_bytes; ok (body_1_0 body))
        else if body_type == 3
        then (do body ← from_buffer r tdx_quote_body_1_5 body_bytes; ok (body_1_5 body))
        else err unexpected_body_type

  unfoldable pub parse_tdx_quote : Bytes → Result TdxQuote
  unfolding parse_body_v5
  parse_tdx_quote quote = do
    header ← from_buffer r quote_header quote
    if version header == 4
        then (do
          body ← from_buffer r tdx_quote_body_1_0 (drop (size quote_header) quote)
          signature ← parse_tdx_signature r quote false
          ok (record { header = header; body = body_1_0 body; signature = signature }))
        else if version header == 5
        then (do
          body ← parse_body_v5 quote
          signature ← parse_tdx_signature r quote true
          ok (record { header = header; body = body; signature = signature }))
        else err unsupported_version

  unfoldable pub parse_sgx_quote : Bytes → Result SgxQuote
  parse_sgx_quote quote = do
    header ← from_buffer r quote_header quote
    if version header == 3
        then (do
          body ← from_buffer r sgx_report_body (drop (size quote_header) quote)
          signature ← parse_sgx_signature r quote
          ok (record { header = header; body = body; signature = signature }))
        else err unsupported_version
