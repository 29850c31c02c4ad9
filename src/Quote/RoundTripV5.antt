-- ===== src/Quote/RoundTripV5.antt =====
-- `parseTdxQuote` of packages/qvl/src/parse.ts on written quotes of version 5.
use teekit.Common.{
  ℕ, ◌+◌, ◌^◌, ◌<◌, ◌≡◌, refl, arith, true, false, [], ◌++◌, some, length, length-append, ◌==◌,
}
use teekit.Result.{ok}
use teekit.Bytes.{Bytes, subarray, le_bytes, read_uint_le, read_uint16_le, read_uint32_le}
use teekit.Bytes.Laws.{subarray-append, read_uint_le-append, length-le_bytes}
use teekit.Struct.{Fields, Restructure, from_buffer, encode, Fits}
use teekit.Struct.Laws.{from_buffer-encode, length-encode}
use teekit.Quote.Header.{quote_header, QuoteHeader, version}
use teekit.Quote.TdxBody.{tdx_quote_body_1_0, tdx_quote_body_1_5, TdxQuoteBody, body_1_0, body_1_5}
use teekit.Quote.Signature.{ecdsa_sig_fixed, tdx_fixed, parse_tdx_signature}
use teekit.Quote.Parse.{parse_tdx_quote, parse_body_v5}
use teekit.Quote.Layout.{Variable, IsVariable, section_bytes, signature_of, quote_bytes_v5}
use teekit.Quote.RoundTrip.{section_at, parse_variable-section_bytes}
use mathlib.Core.List.{append_assoc, append-nil}

-- The descriptor's type, the bytes and the size of a body.
abbrev pub body_type_of : TdxQuoteBody → ℕ
body_type_of (body_1_0 b) = 2
body_type_of (body_1_5 b) = 3

abbrev pub body_bytes : TdxQuoteBody → Bytes
body_bytes (body_1_0 b) = encode tdx_quote_body_1_0 b
body_bytes (body_1_5 b) = encode tdx_quote_body_1_5 b

abbrev pub BodyFits : TdxQuoteBody → Type 0
BodyFits (body_1_0 b) = Fits tdx_quote_body_1_0 b
BodyFits (body_1_5 b) = Fits tdx_quote_body_1_5 b

body_type_of-lt : (b : TdxQuoteBody) → body_type_of b < 256 ^ 2
body_type_of-lt (body_1_0 b) = omega arith
body_type_of-lt (body_1_5 b) = omega arith

length-body_bytes : (b : TdxQuoteBody) → BodyFits b → length (body_bytes b) < 256 ^ 4
length-body_bytes (body_1_0 b) h = omega (arith, length-encode tdx_quote_body_1_0 b h)
length-body_bytes (body_1_5 b) h = omega (arith, length-encode tdx_quote_body_1_5 b h)

module _ (r : Restructure) (h : QuoteHeader) (h_fits : Fits quote_header h) (rest : Bytes) where
  module _ (body_type : ℕ) (body : Bytes) (f : Fields ecdsa_sig_fixed) (v : Variable)
      (type_fits : body_type < 256 ^ 2) (body_fits : length body < 256 ^ 4)
      (f_fits : Fits ecdsa_sig_fixed f) (w : IsVariable (tdx_fixed f) v)
      (fits : length (section_bytes (encode ecdsa_sig_fixed f) v) < 256 ^ 4) where
    abbrev section : Bytes
    section = section_bytes (encode ecdsa_sig_fixed f) v

    abbrev quote : Bytes
    quote = quote_bytes_v5 h body_type body section rest

    read_body_type : read_uint_le 2 quote 48 ≡ ok body_type
    read_body_type =
        read_uint_le-append 2 body_type (encode quote_header h) _ 48
          (length-encode quote_header h h_fits) type_fits

    read_body_size : read_uint_le 4 quote 50 ≡ ok (length body)
    read_body_size = rw (← append_assoc (encode quote_header h) (le_bytes 2 body_type)) (
        read_uint_le-append 4 (length body) (encode quote_header h ++ le_bytes 2 body_type) _ 50
          (omega (
            arith,
            length-append (encode quote_header h) (le_bytes 2 body_type),
            length-encode quote_header h h_fits,
            length-le_bytes 2 body_type,
          ))
          body_fits)

    body_at : subarray quote 54 (54 + length body) ≡ body
    body_at =
        rw
          (
            ← append_assoc (encode quote_header h) (le_bytes 2 body_type),
            ← append_assoc (encode quote_header h ++ le_bytes 2 body_type)
                (le_bytes 4 (length body)),
          )
          (subarray-append _ body _ 54 _ front (omega arith))
      where
        front :
            length ((encode quote_header h ++ le_bytes 2 body_type) ++ le_bytes 4 (length body))
            ≡ 54
        front = omega (
          arith,
          length-append (encode quote_header h ++ le_bytes 2 body_type) (le_bytes 4 (length body)),
          length-append (encode quote_header h) (le_bytes 2 body_type),
          length-encode quote_header h h_fits,
          length-le_bytes 2 body_type,
          length-le_bytes 4 (length body),
        )

    section_found :
        (read_uint_le 4 quote (54 + length body) ≡ ok (length section))
        × (subarray quote (54 + length body + 4) (54 + length body + 4 + length section) ≡ section)
    section_found =
        rw
          (
            ← append_assoc (encode quote_header h) (le_bytes 2 body_type),
            ← append_assoc (encode quote_header h ++ le_bytes 2 body_type)
                (le_bytes 4 (length body)),
            ← append_assoc
                ((encode quote_header h ++ le_bytes 2 body_type) ++ le_bytes 4 (length body)) body,
          )
          (section_at r _ section rest (54 + length body) front fits)
      where
        front :
            length (
              ((encode quote_header h ++ le_bytes 2 body_type) ++ le_bytes 4 (length body)) ++ body)
            ≡ 54 + length body
        front = omega (
          arith,
          length-append
              ((encode quote_header h ++ le_bytes 2 body_type) ++ le_bytes 4 (length body)) body,
          length-append (encode quote_header h ++ le_bytes 2 body_type) (le_bytes 4 (length body)),
          length-append (encode quote_header h) (le_bytes 2 body_type),
          length-encode quote_header h h_fits,
          length-le_bytes 2 body_type,
          length-le_bytes 4 (length body),
        )

    parse_tdx_signature-quote_bytes_v5 :
        parse_tdx_signature r quote true ≡ ok (signature_of (tdx_fixed f) v (some body_type))
    unfolding parse_tdx_signature read_uint32_le read_uint16_le
    parse_tdx_signature-quote_bytes_v5 =
        rw
          (
            read_body_type,
            read_body_size,
            section_found.0,
            section_found.1,
            from_buffer-encode r ecdsa_sig_fixed f _ f_fits,
          )
          (parse_variable-section_bytes r (encode ecdsa_sig_fixed f) 584 (tdx_fixed f) v
            (some body_type) (length-encode ecdsa_sig_fixed f f_fits) w)

    parse_body_v5-eq :
        (b : TdxQuoteBody)
        → body ≡ body_bytes b
        → body_type ≡ body_type_of b
        → BodyFits b
        → parse_body_v5 r quote ≡ ok b
    unfolding parse_body_v5 read_uint32_le read_uint16_le
    parse_body_v5-eq (body_1_0 b) e is_2 b_fits =
        let whole : from_buffer r tdx_quote_body_1_0 body ≡ ok b =
          rw (e, ← append-nil (encode tdx_quote_body_1_0 b))
            (from_buffer-encode r tdx_quote_body_1_0 b [] b_fits) in
        let test : (body_type == 1) ≡ false = ground arith in
        let test' : (body_type == 2) ≡ true = ground arith in
        rw (read_body_type, read_body_size, body_at, test, test', whole)
    parse_body_v5-eq (body_1_5 b) e is_3 b_fits =
        let whole : from_buffer r tdx_quote_body_1_5 body ≡ ok b =
          rw (e, ← append-nil (encode tdx_quote_body_1_5 b))
            (from_buffer-encode r tdx_quote_body_1_5 b [] b_fits) in
        let test : (body_type == 1) ≡ false = ground arith in
        let test' : (body_type == 2) ≡ false = ground arith in
        let test'' : (body_type == 3) ≡ true = ground arith in
        rw (read_body_type, read_body_size, body_at, test, test', test'', whole)

  -- A version 5 TDX quote, with a body of either kind, is parsed to the header, body and signature
  -- it was written from.
  pub parse_tdx_quote-quote_bytes_v5 :
      (b : TdxQuoteBody) (f : Fields ecdsa_sig_fixed) (v : Variable)
      → version h ≡ 5
      → BodyFits b
      → Fits ecdsa_sig_fixed f
      → IsVariable (tdx_fixed f) v
      → length (section_bytes (encode ecdsa_sig_fixed f) v) < 256 ^ 4
      → parse_tdx_quote r (
          quote_bytes_v5 h
            (body_type_of b)
            (body_bytes b)
            (section_bytes (encode ecdsa_sig_fixed f) v)
            rest)
        ≡ ok (record {
          header = h;
          body = b;
          signature = signature_of (tdx_fixed f) v (some (body_type_of b));
        })
  unfolding parse_tdx_quote
  parse_tdx_quote-quote_bytes_v5 b f v is_5 b_fits f_fits w fits =
      let type_fits = body_type_of-lt b in
      let size_fits = length-body_bytes b b_fits in
      let test : (version h == 4) ≡ false = ground arith in
      let test' : (version h == 5) ≡ true = ground arith in
      rw (
        from_buffer-encode r quote_header h _ h_fits,
        test,
        test',
        parse_body_v5-eq (body_type_of b) (body_bytes b) f v type_fits size_fits f_fits w fits b
            refl refl b_fits,
        parse_tdx_signature-quote_bytes_v5 (body_type_of b) (body_bytes b) f v type_fits size_fits
            f_fits w fits,
      )
