-- ===== src/Sev/Report.antt =====
-- packages/qvl/src/parseSev.ts: a report from its bytes, and its signature as WebCrypto wants it. The
-- Base64 and hexadecimal variants decode and call `parseSevSnpReport`.
use teekit.Common.{ℕ, zero, suc, ◌-◌, [], ◌∷◌, ◌++◌, length, take, drop, ltb, ◌==◌, if◌then◌else◌}
use teekit.Result.{Result, ok, err, ◌>>=◌, report_too_small, unsupported_version}
use teekit.Bytes.{Bytes, subarray, read_uint32_le}
use teekit.Struct.{Restructure, from_buffer}
use teekit.Crl.{byte_at}
use teekit.Sev.Body.{
  SevSnpReportBody, SevSnpSignature, sev_snp_signature, body_from_buffer, sev_snp_report_body_size,
  sev_snp_report_size,
}

pub record SevSnpReport : Type 0 where
  pub body : SevSnpReportBody
  pub signature : SevSnpSignature
  pub raw_report : Bytes

unfoldable pub parse_sev_snp_report : Restructure → Bytes → Result SevSnpReport
parse_sev_snp_report r report =
    if ltb (length report) sev_snp_report_size then err report_too_small else (do
      version ← read_uint32_le report 0
      if ltb version 2 then err unsupported_version else (do
        body ← body_from_buffer r (subarray report 0 sev_snp_report_body_size)
        signature ← from_buffer r sev_snp_signature (drop sev_snp_report_body_size report)
        ok (record {
          body = body;
          signature = signature;
          raw_report = take sev_snp_report_size report;
        })))

unfoldable pub get_sev_snp_signed_region : Bytes → Bytes
get_sev_snp_signed_region report = subarray report 0 sev_snp_report_body_size

-- `while (end > 0 && component[end - 1] === 0x00) end--`
unfoldable pub trimmed_end : Bytes → (end : ℕ) → ℕ
unfolding byte_at
trimmed_end component zero = 0
trimmed_end component (suc end) =
    let lower = trimmed_end component end in if byte_at component end == 0 then lower else suc end

-- The loop that copies the bytes in the opposite order.
unfoldable pub reversed : Bytes → Bytes
reversed [] = []
reversed (b ∷ bs) = reversed bs ++ (b ∷ [])

-- `new Uint8Array(n)`
unfoldable pub zeros : ℕ → Bytes
zeros zero = []
zeros (suc n) = 0 ∷ zeros n

-- To 48 bytes: the last ones, or zeros in front.
unfoldable pub pad_or_trim : Bytes → Bytes
unfolding zeros
pad_or_trim bytes =
    if ltb 48 (length bytes)
    then drop (length bytes - 48) bytes
    else zeros (48 - length bytes) ++ bytes

unfoldable pub convert_signature_component : Bytes → Bytes
unfolding trimmed_end reversed pad_or_trim
convert_signature_component component =
    let little_endian = subarray component 0 (trimmed_end component (length component)) in
    pad_or_trim (reversed little_endian)

-- `r` and `s`
unfoldable pub get_sev_snp_signature_components : SevSnpSignature → Bytes × Bytes
get_sev_snp_signature_components signature =
    (convert_signature_component signature.0, convert_signature_component signature.1.0)

unfoldable pub get_sev_snp_raw_signature : SevSnpSignature → Bytes
get_sev_snp_raw_signature signature =
    (get_sev_snp_signature_components signature).0 ++ (get_sev_snp_signature_components signature).1
