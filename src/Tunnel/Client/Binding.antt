-- ===== src/Tunnel/Client/Binding.antt =====
-- The fields that bind the server's key to its evidence, and the methods of `TunnelClient`
-- (packages/tunnel/src/client.ts) that check them.
use teekit.Common.{Bool, not, Option, none, some, ◌++◌, take, list_eq, if◌then◌else◌}
use teekit.Result.{
  Result, ok, err, ◌>>=◌, ◌>>◌, require, missing_verifier_data, plain_nonce, missing_nonce,
  missing_issued_at, missing_x25519_key,
}
use teekit.Bytes.{Bytes}
use teekit.Intel.Defs.{is_empty}
use teekit.Userdata.{get_expected_report_data, is_userdata_bound}
use teekit.Tunnel.Message.{KxAnnounce, SevSnpData, VerifierNonce, VerifierData, intel, plain}
use teekit.Tunnel.Client.{Channel, ReportBindingData, ClientRuntime}

abbrev pub optional {ℓ κ} : {A : Type ℓ} {B : Type κ} → Option A → (A → Option B) → Option B
optional none f = none
optional (some a) f = f a

-- `if (value === undefined) throw …`
abbrev pub present_or {ℓ} : {A : Type ℓ} → Option A → Result A → Result A
present_or none missing = missing
present_or (some value) missing = ok value

unfoldable pub binding_data : KxAnnounce → ReportBindingData
binding_data message = record {
  runtime_data = message.runtime_data;
  verifier_data = message.verifier_data;
  vcek_cert = optional message.sev_snp_data (λ data_. some (SevSnpData.vcek_cert data_));
  ask_cert = optional message.sev_snp_data SevSnpData.ask_cert;
  ark_cert = optional message.sev_snp_data SevSnpData.ark_cert;
}

-- The verifier data of the last announcement, if there was one.
unfoldable pub verifier_data_of : Channel → Option VerifierData
verifier_data_of c = optional c.report_binding_data ReportBindingData.verifier_data

-- The nonce for SEV-SNP: `verifierData instanceof Uint8Array ? verifierData : verifierData.val`.
abbrev pub plain_val : VerifierData → Option Bytes
plain_val (plain bytes) = some bytes
plain_val (intel given) = given.val

abbrev pub intel_nonce : VerifierData → Result VerifierNonce
intel_nonce (plain bytes) = err plain_nonce
intel_nonce (intel given) = ok given

module _ (rt : ClientRuntime) where
  unfoldable pub is_x25519_bound : Channel → (report_data : Bytes) → Result Bool
  is_x25519_bound c report_data = do
    given ← present_or (verifier_data_of c) (err missing_verifier_data)
    nonce ← intel_nonce given
    val ← present_or nonce.val (err missing_nonce)
    iat ← present_or nonce.iat (err missing_issued_at)
    key ← present_or c.server_x25519_public_key (err missing_x25519_key)
    is_userdata_bound rt.env.crypto report_data val iat key

  unfoldable pub is_sgx_x25519_bound : Channel → (report_data : Bytes) → Result Bool
  is_sgx_x25519_bound c report_data = do
    key ← present_or c.server_x25519_public_key (err missing_x25519_key)
    ok (list_eq (rt.env.crypto.sha256 key) (take 32 report_data))

  unfoldable pub is_sevsnp_x25519_bound : Channel → (report_data : Bytes) → Result Bool
  is_sevsnp_x25519_bound c report_data = do
    given ← present_or (verifier_data_of c) (err missing_verifier_data)
    key ← present_or c.server_x25519_public_key (err missing_x25519_key)
    val ← present_or (plain_val given) (err missing_nonce)
    ok (list_eq (rt.env.crypto.sha512 (val ++ key)) report_data)

  -- `sevsnp` is the configuration's flag.
  unfoldable pub get_x25519_expected_report_data : (sevsnp : Bool) → Channel → Result Bytes
  get_x25519_expected_report_data is_sevsnp c = do
    given ← present_or (verifier_data_of c) (err missing_verifier_data)
    key ← present_or c.server_x25519_public_key (err missing_x25519_key)
    if is_sevsnp
        then (do
          val ← present_or (plain_val given) (err missing_nonce)
          ok (rt.env.crypto.sha512 (val ++ key)))
        else (do
          nonce ← intel_nonce given
          val ← present_or nonce.val (err missing_nonce)
          iat ← present_or nonce.iat (err missing_issued_at)
          require (not (is_empty iat)) missing_issued_at
          get_expected_report_data rt.env.crypto val iat key)
