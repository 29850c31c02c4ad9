-- ===== src/Sev/Config.antt =====
-- The configuration of packages/qvl/src/verifySev.ts, the measurements, and the tests of a report's
-- policy.
use teekit.Common.{ℕ, Bool, true, false, not, ◌&&◌, ◌||◌, List, [], Option, none, some, Text, ltb}
use teekit.Result.{Result, Fault, ok}
use teekit.Bytes.{Bytes}
use teekit.Packages.{Hex, Certificate}
use teekit.Measurements.{Config, matches_hex, check_config}
use teekit.Sev.Body
use teekit.Sev.Body.{has_flag, is_sev_snp_debug_enabled}
use teekit.Sev.Report.{SevSnpReport}

pub record SevSnpMeasurements : Type 0 where
  pub measurement : Option Text
  pub report_data : Option Text
  pub host_data : Option Text
  pub family_id : Option Text
  pub image_id : Option Text

unfoldable pub matches_sev_measurements : Hex → SevSnpReport → SevSnpMeasurements → Bool
matches_sev_measurements hex report config =
    matches_hex hex (Body.measurement report.body) config.measurement
    && matches_hex hex (Body.report_data report.body) config.report_data
    && matches_hex hex (Body.host_data report.body) config.host_data
    && matches_hex hex (Body.family_id report.body) config.family_id
    && matches_hex hex (Body.image_id report.body) config.image_id

unfoldable pub verify_sev_snp_measurements :
    Hex → SevSnpReport → Config SevSnpMeasurements SevSnpReport → Result Bool
verify_sev_snp_measurements hex report config =
    check_config (matches_sev_measurements hex) report config

-- `QV_X509Certificate | string`
pub data CertInput : Type 0 where
  certificate : Certificate → CertInput
  pem : Text → CertInput

-- `CryptoKey | Uint8Array`: a key object is what WebCrypto answers with it for ECDSA with SHA-384
-- over a signature and a message.
pub data KeyInput : Type 0 where
  crypto_key : (Bytes → Bytes → Result Bool) → KeyInput
  spki : Bytes → KeyInput

-- `SevSnpVerifyConfig`; a field that is `undefined` is `none`, and so is the `null` of `date`. What is
-- read as a default is its default: no `allowDebug` is false, no `enforceSmtPolicy` is true.
pub record SevSnpVerifyConfig : Type 0 where
  pub vcek_cert : Option CertInput
  pub ask_cert : Option CertInput
  pub ark_cert : Option CertInput
  pub pinned_ark_certs : Option (List Certificate)
  pub crls : List Bytes
  pub date : Option ℕ
  pub vcek_public_key : Option KeyInput
  pub verify_measurements : Option (Config SevSnpMeasurements SevSnpReport)
  pub allow_debug : Bool
  pub max_vmpl : Option ℕ
  pub enforce_smt_policy : Bool
  pub verify_tcb : Option (SevSnpReport → Result Bool)

-- `SevSnpVerifyResult`: the report is missing when it could not be parsed.
pub data Outcome : Type 0 where
  accepted : SevSnpReport → Outcome
  rejected : Option SevSnpReport → Fault → Outcome

-- `if (!test) return { valid: false, … }`
abbrev pub reject_unless : Bool → SevSnpReport → Fault → Result Outcome → Result Outcome
reject_unless true report fault rest = rest
reject_unless false report fault rest = ok (rejected (some report) fault)

-- An empty string is no certificate: `config.vcekCert ? … : null`.
unfoldable pub present : Option CertInput → Option CertInput
present (some (pem [])) = none
present given = given

unfoldable pub within_vmpl : ℕ → Option ℕ → Bool
within_vmpl vmpl none = true
within_vmpl vmpl (some max) = not (ltb max vmpl)

-- Bit 16 of the policy allows SMT; bit 0 of the platform's information says that it is on.
unfoldable pub smt_holds : (policy platform_info : ℕ) → Bool
smt_holds policy platform_info = has_flag policy 16 || not (has_flag platform_info 0)
