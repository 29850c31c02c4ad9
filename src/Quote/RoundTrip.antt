-- ===== src/Quote/RoundTrip.antt =====
-- `parseSgxQuote`, and `parseTdxQuote` in version 4, of packages/qvl/src/parse.ts on written
-- quotes.
use teekit.Common.{
  ℕ, ◌+◌, ◌^◌, ◌<◌, ◌≡◌, arith, true, false, ◌++◌, Option, none, length, drop, length-append,
  drop-append, ◌==◌, ==_iff,
}
use teekit.Result.{ok}
use teekit.Bytes.{Bytes, subarray, le_bytes, read_uint_le, read_uint32_le}
use teekit.Bytes.Laws.{subarray-append, read_uint_le-append, length-le_bytes}
use teekit.Struct.{Fields, Restructure, encode, Fits}
use teekit.Struct.Laws.{from_buffer-encode, length-encode}
use teekit.Quote.Header.{quote_header, QuoteHeader, version}
use teekit.Quote.SgxBody.{sgx_report_body, SgxReportBody}
use teekit.Quote.TdxBody.{tdx_quote_body_1_0, body_1_0}
use teekit.Quote.Signature.{
  FixedPart, tail, parse_variable, ecdsa_signature_fixed, ecdsa_sig_fixed, sgx_fixed, tdx_fixed,
  parse_sgx_signature, parse_tdx_signature,
}
use teekit.Quote.Parse.{parse_tdx_quote, parse_sgx_quote}
use teekit.Quote.Layout.{Variable, IsVariable, section_bytes, signature_of, quote_bytes}
use mathlib.Core.List.{append_assoc}

module _ (r : Restructure) where
  pub parse_variable-section_bytes :
      (fixed_bytes : Bytes) (n : ℕ) (fixed : FixedPart) (v : Variable) (body_type : Option ℕ)
      → length fixed_bytes ≡ n
      → IsVariable fixed v
      → parse_variable r (section_bytes fixed_bytes v) n fixed body_type
        ≡ ok (signature_of fixed v body_type)
  unfolding parse_variable
  parse_variable-section_bytes fixed_bytes n fixed v body_type len w =
      rw (auth, tail_at, from_buffer-encode r tail v.tail_header _ w.tail_fits, cert)
    where
      auth : subarray (section_bytes fixed_bytes v) n (n + fixed.qe_auth_data_len) ≡ v.auth_data
      auth = subarray-append fixed_bytes v.auth_data _ _ _ len (omega (arith, w.auth_length))

      front : length (fixed_bytes ++ v.auth_data) ≡ n + fixed.qe_auth_data_len
      front = omega (arith, length-append fixed_bytes v.auth_data, w.auth_length)

      tail_at :
          drop (n + fixed.qe_auth_data_len) (section_bytes fixed_bytes v)
          ≡ encode tail v.tail_header ++ (v.cert_data ++ v.padding)
      tail_at =
          rw (← append_assoc fixed_bytes v.auth_data)
            (drop-append _ (fixed_bytes ++ v.auth_data) _ front)

      whole :
          section_bytes fixed_bytes v
          ≡ ((fixed_bytes ++ v.auth_data) ++ encode tail v.tail_header)
            ++ (v.cert_data ++ v.padding)
      whole = simp append_assoc

      cert :
          subarray
            (section_bytes fixed_bytes v)
            (n + fixed.qe_auth_data_len + 6)
            (n + fixed.qe_auth_data_len + 6 + v.tail_header.1.0)
          ≡ v.cert_data
      cert = rw whole (
          subarray-append ((fixed_bytes ++ v.auth_data) ++ encode tail v.tail_header) v.cert_data
            v.padding _ _
            (omega (
              arith,
              length-append (fixed_bytes ++ v.auth_data) (encode tail v.tail_header),
              length-encode tail v.tail_header w.tail_fits,
              front,
            ))
            (omega (arith, w.cert_length)))

  -- The length field in front of a section, and the section behind it, are found.
  pub section_at :
      (front section rest : Bytes) (at : ℕ)
      → length front ≡ at
      → length section < 256 ^ 4
      → (read_uint_le 4 (front ++ (le_bytes 4 (length section) ++ (section ++ rest))) at
          ≡ ok (length section))
        × (subarray
              (front ++ (le_bytes 4 (length section) ++ (section ++ rest)))
              (at + 4)
              (at + 4 + length section)
            ≡ section)
  section_at front section rest at len fits = (
    read_uint_le-append 4 (length section) front (section ++ rest) at len fits,
    rw (← append_assoc front (le_bytes 4 (length section)) (section ++ rest)) (
        subarray-append (front ++ le_bytes 4 (length section)) section rest _ _
          (omega (
            arith,
            length-append front (le_bytes 4 (length section)),
            length-le_bytes 4 (length section),
          ))
          (omega arith)),
  )

  module _ (h : QuoteHeader) (h_fits : Fits quote_header h) (rest : Bytes) where
    parse_sgx_signature-quote_bytes :
        (b : SgxReportBody) (f : Fields ecdsa_signature_fixed) (v : Variable)
        → Fits sgx_report_body b
        → Fits ecdsa_signature_fixed f
        → IsVariable (sgx_fixed f) v
        → length (section_bytes (encode ecdsa_signature_fixed f) v) < 256 ^ 4
        → parse_sgx_signature r (
            quote_bytes h
              (encode sgx_report_body b)
              (section_bytes (encode ecdsa_signature_fixed f) v)
              rest)
          ≡ ok (signature_of (sgx_fixed f) v none)
    unfolding parse_sgx_signature read_uint32_le
    parse_sgx_signature-quote_bytes b f v b_fits f_fits w fits =
        let front = encode quote_header h ++ encode sgx_report_body b in
        let section = section_bytes (encode ecdsa_signature_fixed f) v in
        let (len_at, section_here) =
          section_at front section rest 432
            (omega (
              arith,
              length-append (encode quote_header h) (encode sgx_report_body b),
              length-encode quote_header h h_fits,
              length-encode sgx_report_body b b_fits,
            ))
            fits in
        rw
          (
            ← append_assoc (encode quote_header h) (encode sgx_report_body b),
            len_at,
            section_here,
            from_buffer-encode r ecdsa_signature_fixed f _ f_fits,
          )
          (parse_variable-section_bytes (encode ecdsa_signature_fixed f) 578 (sgx_fixed f) v none
            (length-encode ecdsa_signature_fixed f f_fits) w)

    -- A version 3 SGX quote is parsed to the header, body and signature it was written from.
    pub parse_sgx_quote-quote_bytes :
        (b : SgxReportBody) (f : Fields ecdsa_signature_fixed) (v : Variable)
        → version h ≡ 3
        → Fits sgx_report_body b
        → Fits ecdsa_signature_fixed f
        → IsVariable (sgx_fixed f) v
        → length (section_bytes (encode ecdsa_signature_fixed f) v) < 256 ^ 4
        → parse_sgx_quote r (
            quote_bytes h
              (encode sgx_report_body b)
              (section_bytes (encode ecdsa_signature_fixed f) v)
              rest)
          ≡ ok (record { header = h; body = b; signature = signature_of (sgx_fixed f) v none })
    unfolding parse_sgx_quote
    parse_sgx_quote-quote_bytes b f v is_3 b_fits f_fits w fits =
        let test : (version h == 3) ≡ true = (==_iff _ _).1 is_3 in
        rw (
          from_buffer-encode r quote_header h _ h_fits,
          test,
          drop-append 48 (encode quote_header h) _ (length-encode quote_header h h_fits),
          from_buffer-encode r sgx_report_body b _ b_fits,
          parse_sgx_signature-quote_bytes b f v b_fits f_fits w fits,
        )

    parse_tdx_signature-quote_bytes :
        (b : Fields tdx_quote_body_1_0) (f : Fields ecdsa_sig_fixed) (v : Variable)
        → Fits tdx_quote_body_1_0 b
        → Fits ecdsa_sig_fixed f
        → IsVariable (tdx_fixed f) v
        → length (section_bytes (encode ecdsa_sig_fixed f) v) < 256 ^ 4
        → parse_tdx_signature r
            (quote_bytes h
              (encode tdx_quote_body_1_0 b)
              (section_bytes (encode ecdsa_sig_fixed f) v)
              rest)
            false
          ≡ ok (signature_of (tdx_fixed f) v none)
    unfolding parse_tdx_signature read_uint32_le
    parse_tdx_signature-quote_bytes b f v b_fits f_fits w fits =
        let front = encode quote_header h ++ encode tdx_quote_body_1_0 b in
        let section = section_bytes (encode ecdsa_sig_fixed f) v in
        let (len_at, section_here) =
          section_at front section rest 632
            (omega (
              arith,
              length-append (encode quote_header h) (encode tdx_quote_body_1_0 b),
              length-encode quote_header h h_fits,
              length-encode tdx_quote_body_1_0 b b_fits,
            ))
            fits in
        rw
          (
            ← append_assoc (encode quote_header h) (encode tdx_quote_body_1_0 b),
            len_at,
            section_here,
            from_buffer-encode r ecdsa_sig_fixed f _ f_fits,
          )
          (parse_variable-section_bytes (encode ecdsa_sig_fixed f) 584 (tdx_fixed f) v none
            (length-encode ecdsa_sig_fixed f f_fits) w)

    -- A version 4 TDX quote is parsed to the header, body and signature it was written from.
    pub parse_tdx_quote-quote_bytes :
        (b : Fields tdx_quote_body_1_0) (f : Fields ecdsa_sig_fixed) (v : Variable)
        → version h ≡ 4
        → Fits tdx_quote_body_1_0 b
        → Fits ecdsa_sig_fixed f
        → IsVariable (tdx_fixed f) v
        → length (section_bytes (encode ecdsa_sig_fixed f) v) < 256 ^ 4
        → parse_tdx_quote r (
            quote_bytes h
              (encode tdx_quote_body_1_0 b)
              (section_bytes (encode ecdsa_sig_fixed f) v)
              rest)
          ≡ ok (record {
            header = h;
            body = body_1_0 b;
            signature = signature_of (tdx_fixed f) v none;
          })
    unfolding parse_tdx_quote
    parse_tdx_quote-quote_bytes b f v is_4 b_fits f_fits w fits =
        let test : (version h == 4) ≡ true = (==_iff _ _).1 is_4 in
        rw (
          from_buffer-encode r quote_header h _ h_fits,
          test,
          drop-append 48 (encode quote_header h) _ (length-encode quote_header h h_fits),
          from_buffer-encode r tdx_quote_body_1_0 b _ b_fits,
          parse_tdx_signature-quote_bytes b f v b_fits f_fits w fits,
        )
