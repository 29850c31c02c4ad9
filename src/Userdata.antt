-- ===== src/Userdata.antt =====
-- `getExpectedReportDataFromUserdata` and `isUserdataBound` of packages/qvl/src/utils.ts: a quote
-- binds a public key by the digest of nonce, time of issue and key in its report_data.
pub mod Laws
use teekit.Common.{ℕ, Bool, true, false, not, List, [], ◌∷◌}
use teekit.Result.{
  Result, ok, ◌>>=◌, ◌>>◌, require, missing_nonce, missing_issued_at, missing_userdata,
}
use teekit.Bytes.{Bytes}
use teekit.Packages.{WebCrypto}
use teekit.Intel.Defs.{is_empty}

module _ (crypto : WebCrypto) where
  unfoldable pub get_expected_report_data :
      (nonce issued_at x25519_public_key : Bytes) → Result Bytes
  get_expected_report_data nonce issued_at x25519_public_key = do
    require (not (is_empty nonce)) missing_nonce
    require (not (is_empty issued_at)) missing_issued_at
    require (not (is_empty x25519_public_key)) missing_userdata
    ok (crypto.sha512 (crypto.concat (nonce ∷ issued_at ∷ x25519_public_key ∷ [])))

  -- `report_data` is that of the quote's body.
  unfoldable pub is_userdata_bound :
      (report_data nonce issued_at x25519_public_key : Bytes) → Result Bool
  is_userdata_bound report_data nonce issued_at x25519_public_key = do
    expected ← get_expected_report_data nonce issued_at x25519_public_key
    ok (crypto.equal report_data expected)
