-- ===== src/Quote/SgxBody.antt =====
-- The body of an SGX quote: `SgxReportBody` of packages/qvl/src/structs.ts, and names for the fields
-- that the verifier reads.
use teekit.Common.{ℕ, [], ◌∷◌}
use teekit.Bytes.{Bytes}
use teekit.Struct.{Struct, Fields, uint, buffer}

abbrev pub sgx_report_body : Struct
sgx_report_body =
    buffer "cpu_svn" 16
    ∷ uint "misc_select" 4
    ∷ buffer "reserved1" 28
    ∷ buffer "attributes" 16
    ∷ buffer "mr_enclave" 32
    ∷ buffer "reserved2" 32
    ∷ buffer "mr_signer" 32
    ∷ buffer "reserved3" 96
    ∷ uint "isv_prod_id" 2
    ∷ uint "isv_svn" 2
    ∷ buffer "reserved4" 60
    ∷ buffer "report_data" 64
    ∷ []

abbrev pub SgxReportBody : Type 0
SgxReportBody = Fields sgx_report_body

abbrev pub cpu_svn : SgxReportBody → Bytes
cpu_svn b = b.0

abbrev pub attributes : SgxReportBody → Bytes
attributes b = b.1.1.1.0

abbrev pub mr_enclave : SgxReportBody → Bytes
mr_enclave b = b.1.1.1.1.0

abbrev pub mr_signer : SgxReportBody → Bytes
mr_signer b = b.1.1.1.1.1.1.0

abbrev pub isv_prod_id : SgxReportBody → ℕ
isv_prod_id b = b.1.1.1.1.1.1.1.1.0

abbrev pub isv_svn : SgxReportBody → ℕ
isv_svn b = b.1.1.1.1.1.1.1.1.1.0

abbrev pub report_data : SgxReportBody → Bytes
report_data b = b.1.1.1.1.1.1.1.1.1.1.1.0
