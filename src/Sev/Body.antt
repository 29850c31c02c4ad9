-- ===== src/Sev/Body.antt =====
-- The structures of a SEV-SNP report, of packages/qvl/src/structsSev.ts, and names for the fields that
-- the verifier reads.
use teekit.Common.{ℕ, ◌+◌, ◌*◌, ◌/◌, ◌%◌, ◌^◌, Bool, [], ◌∷◌, ◌==◌}
use teekit.Result.{Result, ok, ◌>>=◌}
use teekit.Bytes.{Bytes, read_uint32_le}
use teekit.Struct.{Struct, Fields, uint, buffer, Restructure, from_buffer}

abbrev pub sev_snp_report_body_size : ℕ
sev_snp_report_body_size = 672

abbrev pub sev_snp_report_size : ℕ
sev_snp_report_size = 1184

abbrev pub sev_snp_tcb_version : Struct
sev_snp_tcb_version =
    uint "boot_loader" 1
    ∷ uint "tee" 1
    ∷ buffer "reserved0" 4
    ∷ uint "snp" 1
    ∷ uint "microcode" 1
    ∷ []

-- `SevSnpReportBodyRaw`
abbrev pub sev_snp_report_body : Struct
sev_snp_report_body =
    uint "version" 4
    ∷ uint "guest_svn" 4
    ∷ buffer "policy_raw" 8
    ∷ buffer "family_id" 16
    ∷ buffer "image_id" 16
    ∷ uint "vmpl" 4
    ∷ uint "signature_algo" 4
    ∷ buffer "current_tcb" 8
    ∷ buffer "platform_info_raw" 8
    ∷ uint "author_key_en" 4
    ∷ uint "reserved0" 4
    ∷ buffer "report_data" 64
    ∷ buffer "measurement" 48
    ∷ buffer "host_data" 32
    ∷ buffer "id_key_digest" 48
    ∷ buffer "author_key_digest" 48
    ∷ buffer "report_id" 32
    ∷ buffer "report_id_ma" 32
    ∷ buffer "reported_tcb" 8
    ∷ buffer "reserved1" 24
    ∷ buffer "chip_id" 64
    ∷ buffer "committed_tcb" 8
    ∷ uint "current_build" 1
    ∷ uint "current_minor" 1
    ∷ uint "current_major" 1
    ∷ uint "reserved2" 1
    ∷ uint "committed_build" 1
    ∷ uint "committed_minor" 1
    ∷ uint "committed_major" 1
    ∷ uint "reserved3" 1
    ∷ buffer "launch_tcb" 8
    ∷ buffer "reserved4" 168
    ∷ []

abbrev pub RawBody : Type 0
RawBody = Fields sev_snp_report_body

abbrev pub policy_raw : RawBody → Bytes
policy_raw b = b.1.1.0

abbrev pub platform_info_raw : RawBody → Bytes
platform_info_raw b = b.1.1.1.1.1.1.1.1.0

-- The raw fields, with the two 64-bit words that are read from them.
pub record SevSnpReportBody : Type 0 where
  pub raw : RawBody
  pub policy : ℕ
  pub platform_info : ℕ

abbrev pub version : SevSnpReportBody → ℕ
version b = b.raw.0

abbrev pub family_id : SevSnpReportBody → Bytes
family_id b = b.raw.1.1.1.0

abbrev pub image_id : SevSnpReportBody → Bytes
image_id b = b.raw.1.1.1.1.0

abbrev pub vmpl : SevSnpReportBody → ℕ
vmpl b = b.raw.1.1.1.1.1.0

abbrev pub signature_algo : SevSnpReportBody → ℕ
signature_algo b = b.raw.1.1.1.1.1.1.0

abbrev pub current_tcb : SevSnpReportBody → Bytes
current_tcb b = b.raw.1.1.1.1.1.1.1.0

abbrev pub report_data : SevSnpReportBody → Bytes
report_data b = b.raw.1.1.1.1.1.1.1.1.1.1.1.0

abbrev pub measurement : SevSnpReportBody → Bytes
measurement b = b.raw.1.1.1.1.1.1.1.1.1.1.1.1.0

abbrev pub host_data : SevSnpReportBody → Bytes
host_data b = b.raw.1.1.1.1.1.1.1.1.1.1.1.1.1.0

abbrev pub reported_tcb : SevSnpReportBody → Bytes
reported_tcb b = b.raw.1.1.1.1.1.1.1.1.1.1.1.1.1.1.1.1.1.1.0

abbrev pub committed_tcb : SevSnpReportBody → Bytes
committed_tcb b = b.raw.1.1.1.1.1.1.1.1.1.1.1.1.1.1.1.1.1.1.1.1.1.0

abbrev pub current_build : SevSnpReportBody → ℕ
current_build b = b.raw.1.1.1.1.1.1.1.1.1.1.1.1.1.1.1.1.1.1.1.1.1.1.0

abbrev pub current_minor : SevSnpReportBody → ℕ
current_minor b = b.raw.1.1.1.1.1.1.1.1.1.1.1.1.1.1.1.1.1.1.1.1.1.1.1.0

abbrev pub current_major : SevSnpReportBody → ℕ
current_major b = b.raw.1.1.1.1.1.1.1.1.1.1.1.1.1.1.1.1.1.1.1.1.1.1.1.1.0

abbrev pub committed_build : SevSnpReportBody → ℕ
committed_build b = b.raw.1.1.1.1.1.1.1.1.1.1.1.1.1.1.1.1.1.1.1.1.1.1.1.1.1.1.0

abbrev pub committed_minor : SevSnpReportBody → ℕ
committed_minor b = b.raw.1.1.1.1.1.1.1.1.1.1.1.1.1.1.1.1.1.1.1.1.1.1.1.1.1.1.1.0

abbrev pub committed_major : SevSnpReportBody → ℕ
committed_major b = b.raw.1.1.1.1.1.1.1.1.1.1.1.1.1.1.1.1.1.1.1.1.1.1.1.1.1.1.1.1.0

abbrev pub launch_tcb : SevSnpReportBody → Bytes
launch_tcb b = b.raw.1.1.1.1.1.1.1.1.1.1.1.1.1.1.1.1.1.1.1.1.1.1.1.1.1.1.1.1.1.1.0

abbrev pub sev_snp_signature : Struct
sev_snp_signature = buffer "r" 72 ∷ buffer "s" 72 ∷ buffer "reserved" 368 ∷ []

abbrev pub SevSnpSignature : Type 0
SevSnpSignature = Fields sev_snp_signature

-- `readUint64LE`: the high word shifted by 32 bits, and the low word in the bits it leaves.
unfoldable pub read_uint64_le : Bytes → Result ℕ
unfolding read_uint32_le
read_uint64_le buf = do
  low ← read_uint32_le buf 0
  high ← read_uint32_le buf 4
  ok (high * 0x1_0000_0000 + low)

-- `(flags & (1n << bit)) !== 0n`
unfoldable pub has_flag : ℕ → (bit : ℕ) → Bool
has_flag flags bit = flags / 2 ^ bit % 2 == 1

unfoldable pub is_sev_snp_debug_enabled : ℕ → Bool
unfolding has_flag
is_sev_snp_debug_enabled policy = has_flag policy 19

unfoldable pub is_single_socket_required : ℕ → Bool
unfolding has_flag
is_single_socket_required policy = has_flag policy 20

unfoldable pub is_migration_allowed : ℕ → Bool
unfolding has_flag
is_migration_allowed policy = has_flag policy 18

-- The minor and the major number.
unfoldable pub get_sev_snp_policy_api_version : ℕ → ℕ × ℕ
get_sev_snp_policy_api_version policy = (policy % 0x100, policy / 0x100 % 0x100)

module _ (r : Restructure) where
  unfoldable pub parse_tcb_version : Bytes → Result (Fields sev_snp_tcb_version)
  parse_tcb_version buf = from_buffer r sev_snp_tcb_version buf

  -- `SevSnpReportBody.fromBuffer`
  unfoldable pub body_from_buffer : Bytes → Result SevSnpReportBody
  body_from_buffer buf = do
    raw ← from_buffer r sev_snp_report_body buf
    policy ← read_uint64_le (policy_raw raw)
    platform_info ← read_uint64_le (platform_info_raw raw)
    ok (record { raw = raw; policy = policy; platform_info = platform_info })
