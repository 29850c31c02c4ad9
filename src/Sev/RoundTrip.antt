-- ===== src/Sev/RoundTrip.antt =====
-- `parseSevSnpReport` of packages/qvl/src/parseSev.ts on written reports.
use teekit.Common.{
  ℕ, zero, suc, ◌+◌, ◌*◌, ◌^◌, ◌<◌, ◌≤◌, ◌≡◌, refl, sym, ap, ◌∙◌, arith, true, [], ◌∷◌, ◌++◌,
  length, take, drop, length-append, take-append, drop-append, ltb-false, leb,
}
use teekit.Result.{ok}
use teekit.Bytes.{Bytes, subarray, le_value, le_bytes, read_uint_le, read_uint32_le}
use teekit.Bytes.Laws.{read_uint_le-append}
use teekit.Struct.{Restructure, from_buffer, encode, Fits}
use teekit.Struct.Laws.{from_buffer-encode, length-encode}
use teekit.Sev.Body.{
  sev_snp_report_body, sev_snp_signature, SevSnpSignature, RawBody, policy_raw, platform_info_raw,
  read_uint64_le, body_from_buffer,
}
use teekit.Sev.Report.{SevSnpReport, parse_sev_snp_report}
use mathlib.Core.List.{append_assoc, append-nil}

-- The bytes of a report, with whatever follows them.
abbrev pub report_bytes : RawBody → SevSnpSignature → Bytes → Bytes
report_bytes raw signature padding =
    encode sev_snp_report_body raw ++ (encode sev_snp_signature signature ++ padding)

-- What a report with these fields is parsed to.
abbrev pub report_of : RawBody → SevSnpSignature → SevSnpReport
report_of raw signature = record {
  body = record {
    raw = raw;
    policy = le_value (policy_raw raw);
    platform_info = le_value (platform_info_raw raw);
  };
  signature = signature;
  raw_report = report_bytes raw signature [];
}

low_and_high :
    (bs : Bytes)
    → le_value (take 4 (drop 4 bs)) * 0x1_0000_0000 + le_value (take 4 bs) ≡ le_value (take 8 bs)
unfolding le_value
low_and_high (a ∷ b ∷ c ∷ d ∷ bs) = omega arith
low_and_high (a ∷ b ∷ c ∷ []) = omega arith
low_and_high (a ∷ b ∷ []) = omega arith
low_and_high (a ∷ []) = omega arith
low_and_high [] = omega arith

take_whole : (n : ℕ) (bs : Bytes) → length bs ≡ n → take n bs ≡ bs
take_whole zero [] h = refl
take_whole zero (b ∷ bs) h = absurd (omega arith)
take_whole (suc n) [] h = absurd (omega arith)
take_whole (suc n) (b ∷ bs) h = ap (λ t. b ∷ t) (take_whole n bs (omega arith))

pub read_uint64_le-le_value : (bs : Bytes) → length bs ≡ 8 → read_uint64_le bs ≡ ok (le_value bs)
unfolding read_uint64_le read_uint32_le read_uint_le
read_uint64_le-le_value bs h =
    let low : leb (0 + 4) (length bs) ≡ true = ground arith in
    let high : leb (4 + 4) (length bs) ≡ true = ground arith in
    let whole : take 8 bs ≡ bs = take_whole 8 bs h in
    rw (low, high) (ap ok (low_and_high bs ∙ ap le_value whole))

version_at :
    (v : ℕ) (more back : Bytes)
    → v < 256 ^ 4
    → read_uint_le 4 ((le_bytes 4 v ++ more) ++ back) 0 ≡ ok v
version_at v more back h =
    rw (append_assoc (le_bytes 4 v) more back) (read_uint_le-append 4 v [] (more ++ back) 0 refl h)

module _ (r : Restructure) (raw : RawBody) (raw_fits : Fits sev_snp_report_body raw) where
  body_from_buffer-encode :
      body_from_buffer r (encode sev_snp_report_body raw)
      ≡ ok (record {
        raw = raw;
        policy = le_value (policy_raw raw);
        platform_info = le_value (platform_info_raw raw);
      })
  unfolding body_from_buffer
  body_from_buffer-encode =
      let decoded : from_buffer r sev_snp_report_body (encode sev_snp_report_body raw) ≡ ok raw =
        ap (from_buffer r sev_snp_report_body) (sym (append-nil _))
        ∙ from_buffer-encode r sev_snp_report_body raw [] raw_fits in
      rw (
        decoded,
        read_uint64_le-le_value (policy_raw raw) raw_fits.1.1.0,
        read_uint64_le-le_value (platform_info_raw raw) raw_fits.1.1.1.1.1.1.1.1.0,
      )

  module _ (signature : SevSnpSignature) (padding : Bytes)
      (signature_fits : Fits sev_snp_signature signature) where
    whole_length : length (report_bytes raw signature padding) ≡ 1184 + length padding
    whole_length = omega (
      arith,
      length-append (encode sev_snp_report_body raw)
          (encode sev_snp_signature signature ++ padding),
      length-append (encode sev_snp_signature signature) padding,
      length-encode sev_snp_report_body raw raw_fits,
      length-encode sev_snp_signature signature signature_fits,
    )

    version_read : read_uint32_le (report_bytes raw signature padding) 0 ≡ ok raw.0
    unfolding read_uint32_le encode
    version_read = version_at raw.0 _ (encode sev_snp_signature signature ++ padding) raw_fits.0

    body_region :
        subarray (report_bytes raw signature padding) 0 672 ≡ encode sev_snp_report_body raw
    unfolding subarray
    body_region = take-append 672 _ _ (length-encode sev_snp_report_body raw raw_fits)

    signature_region :
        drop 672 (report_bytes raw signature padding)
        ≡ encode sev_snp_signature signature ++ padding
    signature_region = drop-append 672 _ _ (length-encode sev_snp_report_body raw raw_fits)

    raw_region : take 1184 (report_bytes raw signature padding) ≡ report_bytes raw signature []
    raw_region =
        let front = encode sev_snp_report_body raw in
        let back = encode sev_snp_signature signature in
        ap (take 1184) (sym (append_assoc front back padding))
        ∙ take-append 1184 (front ++ back) padding (
            omega (
              arith,
              length-append front back,
              length-encode sev_snp_report_body raw raw_fits,
              length-encode sev_snp_signature signature signature_fits,
            ))
        ∙ ap (λ t. front ++ t) (sym (append-nil back))

    -- The bytes of a report with a version from 2 on, followed by any others, are parsed to its
    -- fields, the policy and the platform information as numbers, the signature, and the report's
    -- own bytes.
    pub parse_sev_snp_report-report_bytes :
        2 ≤ raw.0
        → parse_sev_snp_report r (report_bytes raw signature padding) ≡ ok (report_of raw signature)
    unfolding parse_sev_snp_report
    parse_sev_snp_report-report_bytes is_snp = rw (
      ltb-false (length (report_bytes raw signature padding)) 1184 (omega (arith, whole_length)),
      version_read,
      ltb-false raw.0 2 is_snp,
      body_region,
      body_from_buffer-encode,
      signature_region,
      from_buffer-encode r sev_snp_signature signature padding signature_fits,
      raw_region,
    )
