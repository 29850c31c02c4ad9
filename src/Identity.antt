-- ===== src/Identity.antt =====
-- packages/qvl/src/verifyQeIdentity.ts: the QE report in a TDX quote against the identity that Intel
-- publishes for the quoting enclave.
pub mod Laws
use teekit.Common.{
  ℕ, zero, suc, Bool, true, false, not, ◌&&◌, ◌||◌, List, [], ◌∷◌, Option, none, some, length, find,
  Text, codes, list_eq, to_lower_case, ◌==◌, if◌then◌else◌, bit_and,
}
use teekit.Result.{Result, ok, err, ◌>>=◌, ◌>>◌, require, report_length, bad_hex}
use teekit.Bytes.{Bytes, subarray, read_uint16_le}
use teekit.Struct.{Restructure}
use teekit.Packages.{Hex}
use teekit.Tcb.{TcbService, date_le}
use teekit.Quote.Parse.{TdxQuote, parse_tdx_quote}

-- One of `enclaveIdentity.tcbLevels`.
pub record QeLevel : Type 0 where
  pub isvsvn : ℕ
  pub tcb_status : Text

-- `enclaveIdentity`, of which this is used.
pub record EnclaveIdentity : Type 0 where
  pub issue_date : Text
  pub next_update : Text
  pub attributes : Text
  pub attributes_mask : Text
  pub mrsigner : Text
  pub isvprodid : Option ℕ
  pub tcb_levels : List QeLevel

-- What `parseSgxReport` reads, as far as it is used.
pub record QeReport : Type 0 where
  pub attributes : Bytes
  pub mr_signer : Bytes
  pub isv_prod_id : ℕ
  pub isv_svn : ℕ

unfoldable pub parse_sgx_report : Bytes → Result QeReport
parse_sgx_report report = do
  require (length report == 384) report_length
  isv_prod_id ← read_uint16_le report 256
  isv_svn ← read_uint16_le report 258
  ok (record {
    attributes = subarray report 48 64;
    mr_signer = subarray report 128 160;
    isv_prod_id = isv_prod_id;
    isv_svn = isv_svn;
  })

-- The loop over the bytes, of three arrays of one length.
unfoldable pub masked_equal : (actual exp mask : Bytes) → Bool
masked_equal (a ∷ actual) (e ∷ exp) (m ∷ mask) =
    bit_and a m == bit_and e m && masked_equal actual exp mask
masked_equal _ _ _ = true

-- `scureHex.decode`, which throws for a text that is no hexadecimal number.
unfoldable pub require_hex : Hex → Text → Result Bytes
require_hex hex text = elim (hex.decode text) [ none ↦ err bad_hex | some bytes ↦ ok bytes ]

unfoldable pub hex_equals_masked : Hex → Bytes → Text → Text → Result Bool
hex_equals_masked hex actual expected_hex mask_hex = do
  exp ← require_hex hex expected_hex
  mask ← require_hex hex mask_hex
  ok (length exp == length actual && length mask == length actual && masked_equal actual exp mask)

unfoldable pub is_up_to_date : QeLevel → Bool
is_up_to_date level = list_eq (to_lower_case level.tcb_status) (codes "uptodate")

-- `tcbLevels.find(…) || tcbLevels[0]`
unfoldable pub pick_level : List QeLevel → Option QeLevel
pick_level [] = none
pick_level (first ∷ more) = elim (find is_up_to_date (first ∷ more)) [
  | none ↦ some first
  | some level ↦ some level
]

unfoldable pub isv_prod_id_holds : ℕ → Option ℕ → Bool
isv_prod_id_holds actual none = true
isv_prod_id_holds actual (some expected) = expected == actual

-- The level's isvsvn must be the report's.
unfoldable pub level_holds : ℕ → Option QeLevel → Bool
level_holds isv_svn none = false
level_holds isv_svn (some level) = level.isvsvn == isv_svn

module _ (restructure : Restructure) (hex : Hex) (service : TcbService) where
  -- The time of verification against the identity's dates.
  unfoldable pub identity_in_time : EnclaveIdentity → ℕ → Bool
  identity_in_time id now =
      date_le (service.parse_date id.issue_date) (some now)
      && date_le (some now) (service.parse_date id.next_update)

  -- MRSIGNER, ISVPRODID and the level, in the order of the source.
  unfoldable pub signer_and_level : QeReport → EnclaveIdentity → Bool
  signer_and_level report id =
      list_eq (to_lower_case (hex.encode report.mr_signer)) (to_lower_case id.mrsigner)
      && isv_prod_id_holds report.isv_prod_id id.isvprodid
      && level_holds report.isv_svn (pick_level id.tcb_levels)

  -- What is checked of the report.
  unfoldable pub report_matches : QeReport → EnclaveIdentity → ℕ → Result Bool
  report_matches report id now = if not (identity_in_time id now) then ok false else (do
    attributes_equal ← hex_equals_masked hex report.attributes id.attributes id.attributes_mask
    ok (attributes_equal && signer_and_level report id))

  unfoldable pub verify_qe_identity : Bytes → EnclaveIdentity → ℕ → Result Bool
  verify_qe_identity quote id now = do
    q ← parse_tdx_quote restructure quote
    if not q.signature.qe_report_present
        then ok false
        else (do report ← parse_sgx_report q.signature.qe_report; report_matches report id now)
