-- ===== src/Quote/Signed.antt =====
-- The parsers of packages/qvl/src/parse.ts and the signed regions of packages/qvl/src/structs.ts,
-- compared.
use teekit.Common.{
  ℕ, ◌+◌, ◌≤◌, ◌≡◌, sym, ◌∙◌, ap, arith, true, false, ◌++◌, length, take, drop, All, ◌==◌, ==_iff,
  length-drop, All-drop, take-add,
}
use teekit.Result.{Result, ok, >>=-eq-ok}
use teekit.Bytes.{Bytes, IsByte, subarray, read_uint_le, read_uint32_le}
use teekit.Struct.{size, Restructure, from_buffer, encode, values, Fields, Struct}
use teekit.Struct.Laws.{from_buffer-eq-values, encode-values}
use teekit.Quote.Header.{quote_header, version}
use teekit.Quote.SgxBody.{sgx_report_body, SgxReportBody}
use teekit.Quote.TdxBody.{tdx_quote_body_1_0, body_1_0}
use teekit.Quote.Region.{get_sgx_signed_region, get_tdx10_signed_region}
use teekit.Quote.Signature.{Signature, parse_sgx_signature, parse_tdx_signature, tdx_sig_data}
use teekit.Quote.Parse.{TdxQuote, SgxQuote, parse_tdx_quote, parse_sgx_quote}

-- A read that succeeds lies inside the array.
read_uint_le-ok :
    (width : ℕ) (q : Bytes) (at : ℕ) {v : ℕ}
    → read_uint_le width q at ≡ ok v
    → at + width ≤ length q
unfolding read_uint_le
read_uint_le-ok width q at e = ground arith

ok-injective {ℓ} : {A : Type ℓ} (a b : A) → ok a ≡ ok b → a ≡ b
ok-injective a b e = cc

-- The first two structs of an array, encoded, are its first bytes.
encode_two :
    (s t : Struct) (q : Bytes)
    → All IsByte q
    → size s + size t ≤ length q
    → encode s (values s q) ++ encode t (values t (drop (size s) q)) ≡ take (size s + size t) q
encode_two s t q bytes h = rw (
  encode-values s q bytes (omega arith),
  encode-values t (drop (size s) q) (All-drop IsByte (size s) q bytes)
      (omega (arith, length-drop (size s) q)),
  take-add (size s) (size t) q,
)

module _ (r : Restructure) (q : Bytes) where
  parse_sgx_signature-length : {s : Signature} → parse_sgx_signature r q ≡ ok s → 436 ≤ length q
  unfolding parse_sgx_signature read_uint32_le
  parse_sgx_signature-length e =
      let (len, found, more) = >>=-eq-ok (read_uint_le 4 q 432) _ e in read_uint_le-ok 4 q 432 found

  parse_tdx_signature-length :
      {s : Signature} → parse_tdx_signature r q false ≡ ok s → 636 ≤ length q
  unfolding parse_tdx_signature read_uint32_le
  parse_tdx_signature-length e =
      let (part, found, more) = >>=-eq-ok (tdx_sig_data r q false) _ e in
      let (len, read, same) = >>=-eq-ok (read_uint_le 4 q 632) _ found in
      read_uint_le-ok 4 q 632 read

  parse_tdx_quote-header :
      (t : TdxQuote) → parse_tdx_quote r q ≡ ok t → from_buffer r quote_header q ≡ ok t.header
  unfolding parse_tdx_quote
  parse_tdx_quote-header t e = ground arith

  -- The header and the body of a parsed version 4 TDX quote are, byte for byte, the region that the
  -- quote's signature is checked over.
  pub parse_tdx_quote-signed :
      (t : TdxQuote)
      → All IsByte q
      → parse_tdx_quote r q ≡ ok t
      → version t.header ≡ 4
      → (b : Fields tdx_quote_body_1_0) × (t.body ≡ body_1_0 b)
        × (encode quote_header t.header ++ encode tdx_quote_body_1_0 b ≡ get_tdx10_signed_region q)
  unfolding parse_tdx_quote get_tdx10_signed_region subarray
  parse_tdx_quote-signed t bytes e is_4 =
      let (h, h_found, e1) = >>=-eq-ok (from_buffer r quote_header q) _ e in
      let same : ok t.header ≡ ok h = sym (parse_tdx_quote-header t e) ∙ h_found in
      let test : (version h == 4) ≡ true = ground (arith, same) in
      let (b, b_found, e2) =
        >>=-eq-ok (from_buffer r tdx_quote_body_1_0 (drop 48 q)) _ (rw test at e1) in
      let (s, s_found, e3) = >>=-eq-ok (parse_tdx_signature r q false) _ e2 in
      let long = parse_tdx_signature-length s_found in
      let h_eq =
        ok-injective _ _ (sym h_found ∙ from_buffer-eq-values r quote_header q (omega arith)) in
      let h_eq' = ok-injective _ _ same in
      let b_eq = ok-injective _ _ (
        sym b_found
        ∙ from_buffer-eq-values r tdx_quote_body_1_0 (drop 48 q)
            (omega (arith, length-drop 48 q))) in
      (
        b,
        cc,
        rw (h_eq', h_eq, b_eq) (encode_two quote_header tdx_quote_body_1_0 q bytes (omega arith)),
      )

  parse_sgx_quote-header :
      (t : SgxQuote)
      → parse_sgx_quote r q ≡ ok t
      → (from_buffer r quote_header q ≡ ok t.header) × (version t.header ≡ 3)
  unfolding parse_sgx_quote
  parse_sgx_quote-header t e = ground arith

  -- Only version 3 is accepted as an SGX quote, and then the header and the body are, byte for
  -- byte, the region that the quote's signature is checked over.
  pub parse_sgx_quote-signed :
      (t : SgxQuote)
      → All IsByte q
      → parse_sgx_quote r q ≡ ok t
      → (version t.header ≡ 3)
        × (encode quote_header t.header ++ encode sgx_report_body t.body ≡ get_sgx_signed_region q)
  unfolding parse_sgx_quote get_sgx_signed_region subarray
  parse_sgx_quote-signed t bytes e =
      let (found, is_3) = parse_sgx_quote-header t e in
      let test : (version t.header == 3) ≡ true = (==_iff _ _).1 is_3 in
      let (b, b_found, e2) =
        >>=-eq-ok (from_buffer r sgx_report_body (drop 48 q)) _ (rw (found, test) at e) in
      let (s, s_found, e3) = >>=-eq-ok (parse_sgx_signature r q) _ e2 in
      let long = parse_sgx_signature-length s_found in
      let h_eq =
        ok-injective _ _ (sym found ∙ from_buffer-eq-values r quote_header q (omega arith)) in
      let b_eq : t.body ≡ values sgx_report_body (drop 48 q) =
        let same : t.body ≡ b = ap (λ (x : Result SgxQuote). body_or b x) (sym e3) in
        same
        ∙ ok-injective _ _ (
            sym b_found
            ∙ from_buffer-eq-values r sgx_report_body (drop 48 q)
                (omega (arith, length-drop 48 q))) in
      (is_3, rw (h_eq, b_eq) (encode_two quote_header sgx_report_body q bytes (omega arith)))
    where
      body_or : SgxReportBody → Result SgxQuote → SgxReportBody
      body_or b (ok x) = x.body
      body_or b _ = b
