-- ===== src/Quote/TdxBody.antt =====
-- The body of a TDX quote: `TdxQuoteBody_1_0` and `TdxQuoteBody_1_5` of packages/qvl/src/structs.ts,
-- and names for the fields that the verifier reads.
use teekit.Common.{[], ◌∷◌}
use teekit.Bytes.{Bytes}
use teekit.Struct.{Struct, Fields, uint, buffer}

-- What a TDX 1.0 body holds, before the fields that TDX 1.5 adds.
abbrev tdx_body_then : Struct → Struct
tdx_body_then more =
    buffer "tee_tcb_svn" 16
    ∷ buffer "mr_seam" 48
    ∷ buffer "mr_seam_signer" 48
    ∷ uint "seam_svn" 4
    ∷ uint "reserved0" 4
    ∷ buffer "td_attributes" 8
    ∷ buffer "xfam" 8
    ∷ buffer "mr_td" 48
    ∷ buffer "mr_config_id" 48
    ∷ buffer "mr_owner" 48
    ∷ buffer "mr_owner_config" 48
    ∷ buffer "rtmr0" 48
    ∷ buffer "rtmr1" 48
    ∷ buffer "rtmr2" 48
    ∷ buffer "rtmr3" 48
    ∷ buffer "report_data" 64
    ∷ more

abbrev pub tdx_quote_body_1_0 : Struct
tdx_quote_body_1_0 = tdx_body_then []

abbrev pub tdx_quote_body_1_5 : Struct
tdx_quote_body_1_5 = tdx_body_then (buffer "tee_tcb_svn_2" 16 ∷ buffer "mrservictd" 48 ∷ [])

-- The body of a TDX quote, in the version that its header and descriptor announce.
pub data TdxQuoteBody : Type 0 where
  body_1_0 : Fields tdx_quote_body_1_0 → TdxQuoteBody
  body_1_5 : Fields tdx_quote_body_1_5 → TdxQuoteBody

abbrev pub tee_tcb_svn : TdxQuoteBody → Bytes
tee_tcb_svn (body_1_0 b) = b.0
tee_tcb_svn (body_1_5 b) = b.0

abbrev pub mr_td : TdxQuoteBody → Bytes
mr_td (body_1_0 b) = b.1.1.1.1.1.1.1.0
mr_td (body_1_5 b) = b.1.1.1.1.1.1.1.0

abbrev pub rtmr0 : TdxQuoteBody → Bytes
rtmr0 (body_1_0 b) = b.1.1.1.1.1.1.1.1.1.1.1.0
rtmr0 (body_1_5 b) = b.1.1.1.1.1.1.1.1.1.1.1.0

abbrev pub rtmr1 : TdxQuoteBody → Bytes
rtmr1 (body_1_0 b) = b.1.1.1.1.1.1.1.1.1.1.1.1.0
rtmr1 (body_1_5 b) = b.1.1.1.1.1.1.1.1.1.1.1.1.0

abbrev pub rtmr2 : TdxQuoteBody → Bytes
rtmr2 (body_1_0 b) = b.1.1.1.1.1.1.1.1.1.1.1.1.1.0
rtmr2 (body_1_5 b) = b.1.1.1.1.1.1.1.1.1.1.1.1.1.0

abbrev pub rtmr3 : TdxQuoteBody → Bytes
rtmr3 (body_1_0 b) = b.1.1.1.1.1.1.1.1.1.1.1.1.1.1.0
rtmr3 (body_1_5 b) = b.1.1.1.1.1.1.1.1.1.1.1.1.1.1.0

abbrev pub report_data : TdxQuoteBody → Bytes
report_data (body_1_0 b) = b.1.1.1.1.1.1.1.1.1.1.1.1.1.1.1.0
report_data (body_1_5 b) = b.1.1.1.1.1.1.1.1.1.1.1.1.1.1.1.0
