-- ===== src/Sev/Verify.antt =====
-- `_verifySevSnp` and `verifySevSnp` of packages/qvl/src/verifySev.ts. What the first returns is an
-- `Outcome`; where it throws, because a certificate cannot be decoded or a callback throws, it is an
-- error.
use teekit.Common.{Bool, true, not, ◌||◌, List, Option, none, some, ◌==◌}
use teekit.Result.{
  Result, ok, err, stuck, ◌>>=◌, ◌>>◌, require, unsupported_algorithm, debug_guest, vmpl_exceeded,
  smt_forbidden, ark_mismatch, signature_failed, tcb_failed, expired_chain, revoked_chain,
  invalid_chain, bad_quote_signature, measurement_failed,
}
use teekit.Bytes.{Bytes}
use teekit.Packages.{Certificate}
use teekit.Chain.{Status, valid, invalid, expired, revoked}
use teekit.Intel.Defs.{Env, or_else, is_empty, is_pinned}
use teekit.Sev.Body
use teekit.Sev.Body.{has_flag, is_sev_snp_debug_enabled}
use teekit.Sev.Report.{
  SevSnpReport, parse_sev_snp_report, get_sev_snp_signed_region, get_sev_snp_raw_signature,
}
use teekit.Sev.Chain.{verify_sev_snp_cert_chain}
use teekit.Sev.Config.{
  verify_sev_snp_measurements, CertInput, certificate, pem, KeyInput, crypto_key, spki,
  SevSnpVerifyConfig, Outcome, accepted, rejected, reject_unless, present, within_vmpl, smt_holds,
}

module _ (env : Env) (default_amd_ark_certs : List Certificate) where
  -- `new QV_X509Certificate(pem)` for a string
  unfoldable pub load : CertInput → Result Certificate
  load (certificate c) = ok c
  load (pem text) = env.x509.parse text

  unfoldable pub load_optional : Option CertInput → Result (Option Certificate)
  unfolding load present
  load_optional given = elim (present given) [
    | none ↦ ok none
    | some input ↦ do c ← load input; ok (some c)
  ]

  unfoldable pub verify_with : KeyInput → Bytes → Bytes → Result Bool
  verify_with (crypto_key verify) signature message = verify signature message
  verify_with (spki key) signature message = env.crypto.verify_p384_spki key signature message

  unfoldable pub verify_sev_snp_signature : Bytes → SevSnpReport → KeyInput → Result Bool
  verify_sev_snp_signature report parsed key = do
    let algo = Body.signature_algo parsed.body
    require (algo == 1 || algo == 0) unsupported_algorithm
    verify_with key (get_sev_snp_raw_signature parsed.signature) (get_sev_snp_signed_region report)

  -- The `try` around the signature: what it throws is a rejection of its own.
  unfoldable pub check_report_signature :
      Bytes → SevSnpReport → KeyInput → Result Outcome → Result Outcome
  check_report_signature report parsed key rest =
      elim (verify_sev_snp_signature report parsed key) [
        | ok b ↦ reject_unless b parsed bad_quote_signature rest
        | err e ↦ ok (rejected (some parsed) signature_failed)
        | stuck ↦ stuck
      ]

  -- The pinned roots, if there are any and the chain has a root.
  unfoldable pub ark_is_pinned : List Certificate → Option Certificate → Bool
  ark_is_pinned pinned none = true
  ark_is_pinned pinned (some ark) = is_empty pinned || is_pinned env pinned ark

  -- The rejections for a chain that is not valid.
  unfoldable pub check_status : Status → SevSnpReport → Result Outcome → Result Outcome
  check_status expired report rest = ok (rejected (some report) expired_chain)
  check_status revoked report rest = ok (rejected (some report) revoked_chain)
  check_status invalid report rest = ok (rejected (some report) invalid_chain)
  check_status valid report rest = rest

  -- The chain, if there is an ASK.
  unfoldable pub check_sev_chain :
      SevSnpVerifyConfig
      → SevSnpReport
      → Certificate
      → (ask ark : Option Certificate) → Result Outcome
      → Result Outcome
  check_sev_chain config report vcek none ark rest = rest
  check_sev_chain config report vcek (some ask) ark rest = do
    found ←
        verify_sev_snp_cert_chain env.hex env.x509 vcek ask ark (some (or_else config.date env.now))
          config.crls
    check_status found.status report (
        reject_unless
          (ark_is_pinned (or_else config.pinned_ark_certs default_amd_ark_certs) found.ark) report
          ark_mismatch rest)

  -- Certificates and signature: by the VCEK certificate, or else by the public key, or not at all.
  unfoldable pub with_vcek :
      Bytes → SevSnpVerifyConfig → SevSnpReport → Result Outcome → Option CertInput → Result Outcome
  with_vcek report config parsed rest (some input) = do
    vcek ← load input
    ask ← load_optional config.ask_cert
    ark ← load_optional config.ark_cert
    check_sev_chain config parsed vcek ask ark
        (check_report_signature report parsed (spki vcek.public_key) rest)
  with_vcek report config parsed rest none = elim config.vcek_public_key [
    | some key ↦ check_report_signature report parsed key rest
    | none ↦ rest
  ]

  unfoldable pub check_certificates :
      Bytes → SevSnpVerifyConfig → SevSnpReport → Result Outcome → Result Outcome
  check_certificates report config parsed rest =
      with_vcek report config parsed rest (present config.vcek_cert)

  -- The measurements, if any are configured.
  unfoldable pub measurements_hold : SevSnpVerifyConfig → SevSnpReport → Result Bool
  measurements_hold config parsed = elim config.verify_measurements [
    | none ↦ ok true
    | some m ↦ verify_sev_snp_measurements env.hex parsed m
  ]

  -- The TCB callback, if there is one.
  unfoldable pub tcb_holds : SevSnpVerifyConfig → SevSnpReport → Result Bool
  tcb_holds config parsed = elim config.verify_tcb [ none ↦ ok true | some f ↦ f parsed ]

  -- The last check, and the acceptance.
  unfoldable pub check_sev_tcb : SevSnpVerifyConfig → SevSnpReport → Result Outcome
  check_sev_tcb config parsed = do
    tcb_valid ← tcb_holds config parsed
    reject_unless tcb_valid parsed tcb_failed (ok (accepted parsed))

  unfoldable pub check_callbacks : SevSnpVerifyConfig → SevSnpReport → Result Outcome
  check_callbacks config parsed = do
    measured ← measurements_hold config parsed
    reject_unless measured parsed measurement_failed (check_sev_tcb config parsed)

  -- The policy of the guest, and then the other checks.
  unfoldable pub check_report : Bytes → SevSnpVerifyConfig → SevSnpReport → Result Outcome
  check_report report config parsed =
      let body = parsed.body in
      reject_unless (config.allow_debug || not (is_sev_snp_debug_enabled body.policy)) parsed
        debug_guest
        (reject_unless (within_vmpl (Body.vmpl body) config.max_vmpl) parsed vmpl_exceeded (
          reject_unless (not config.enforce_smt_policy || smt_holds body.policy body.platform_info)
            parsed smt_forbidden
            (check_certificates report config parsed (check_callbacks config parsed))))

  -- `_verifySevSnp`
  unfoldable pub verify_sev_snp_outcome : Bytes → SevSnpVerifyConfig → Result Outcome
  verify_sev_snp_outcome report config = elim (parse_sev_snp_report env.restructure report) [
    | ok parsed ↦ check_report report config parsed
    | err e ↦ ok (rejected none e)
    | stuck ↦ stuck
  ]

  -- What is not accepted is thrown.
  unfoldable pub or_throw : Outcome → Result Bool
  or_throw (accepted report) = ok true
  or_throw (rejected report fault) = err fault

  unfoldable pub verify_sev_snp : Bytes → SevSnpVerifyConfig → Result Bool
  verify_sev_snp report config = do outcome ← verify_sev_snp_outcome report config; or_throw outcome
