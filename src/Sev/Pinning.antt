-- ===== src/Sev/Pinning.antt =====
-- The pinned AMD roots of `_verifySevSnp`, packages/qvl/src/verifySev.ts, when no ARK is given.
use teekit.Common.{
  ℕ, ◌≡◌, refl, ap, Bool, true, false, not, List, [], Option, none, some, if◌then◌else◌,
}
use teekit.Result.{Result, ok, err, stuck, ◌>>=◌, >>=-eq-ok}
use teekit.Bytes.{Bytes}
use teekit.Packages.{Hex, X509, Certificate}
use teekit.Chain.{valid, revoked}
use teekit.Chain.Revocation.{any_revoked}
use teekit.Chain.Checks.{all_within_validity}
use teekit.Intel.Defs.{Env}
use teekit.Sev.Report.{SevSnpReport, parse_sev_snp_report}
use teekit.Sev.Chain.{
  SevSnpCertChainResult, sev_chain, names_chain, signatures_hold, cas_hold, check_sev_revocation,
  verify_sev_snp_cert_chain,
}
use teekit.Sev.Config.{CertInput, SevSnpVerifyConfig, Outcome, present, rejected}
use teekit.Sev.Verify.{
  load_optional, ark_is_pinned, check_sev_chain, check_certificates, check_report, check_callbacks,
  measurements_hold, tcb_holds, check_sev_tcb, or_throw, load, with_vcek, verify_sev_snp_outcome,
  verify_sev_snp,
}

>>=-cong :
    {A B : Type 0} (m : Result A) (f g : A → Result B)
    → ((a : A) → m ≡ ok a → f a ≡ g a)
    → (m >>= f) ≡ (m >>= g)
>>=-cong (ok a) f g h = h a refl
>>=-cong (err e) f g h = refl
>>=-cong stuck f g h = refl

ark_unless :
    (test : Bool) (bad : SevSnpCertChainResult) (rest : Result SevSnpCertChainResult)
    {c : SevSnpCertChainResult}
    → bad.ark ≡ none
    → (rest ≡ ok c → c.ark ≡ none)
    → (if not test then ok bad else rest) ≡ ok c
    → c.ark ≡ none
ark_unless true bad rest h k e = k e
ark_unless false bad rest h k e = cc

module _ (hex : Hex) (x : X509) (vcek ask : Certificate) (at_time : Option ℕ)
    (crls : List Bytes) where
  check_sev_revocation-ark :
      (c : SevSnpCertChainResult)
      → check_sev_revocation hex x vcek ask none crls ≡ ok c
      → c.ark ≡ none
  unfolding check_sev_revocation
  check_sev_revocation-ark c e =
      let (found, read, e1) = >>=-eq-ok (any_revoked hex crls (sev_chain vcek ask none)) _ e in
      by_found found e1
    where
      by_found :
          (found : Bool)
          → ok (
              if found
              then record { status = revoked; ark = none; chain = [] }
              else record { status = valid; ark = none; chain = sev_chain vcek ask none })
            ≡ ok c
          → c.ark ≡ none
      by_found true e1 = cc
      by_found false e1 = cc

  no_ark :
      (c : SevSnpCertChainResult)
      → verify_sev_snp_cert_chain hex x vcek ask none at_time crls ≡ ok c
      → c.ark ≡ none
  unfolding verify_sev_snp_cert_chain
  no_ark c = ark_unless (names_chain vcek ask none) _ _ refl (
      ark_unless (all_within_validity at_time (sev_chain vcek ask none)) _ _ refl (
        ark_unless (signatures_hold x vcek ask none) _ _ refl
          (ark_unless (cas_hold ask none) _ _ refl (check_sev_revocation-ark c))))

module _ (env : Env) (default_amd_ark_certs : List Certificate) (report : Bytes)
    (config : SevSnpVerifyConfig) (pins : Option (List Certificate)) where
  abbrev with_pins : SevSnpVerifyConfig
  with_pins = record config { pinned_ark_certs = pins }

  chain_same :
      (parsed : SevSnpReport) (vcek : Certificate) (ask : Option Certificate)
      (rest : Result Outcome)
      → check_sev_chain env default_amd_ark_certs with_pins parsed vcek ask none rest
        ≡ check_sev_chain env default_amd_ark_certs config parsed vcek ask none rest
  unfolding check_sev_chain ark_is_pinned
  chain_same parsed vcek none rest = refl
  chain_same parsed vcek (some ask) rest =
      >>=-cong (verify_sev_snp_cert_chain env.hex env.x509 vcek ask none _ _) _ _
        (λ c e. rw (no_ark env.hex env.x509 vcek ask _ _ c e))

  certificates_same :
      (parsed : SevSnpReport) (rest : Result Outcome)
      → present config.ark_cert ≡ none
      → check_certificates env default_amd_ark_certs report with_pins parsed rest
        ≡ check_certificates env default_amd_ark_certs report config parsed rest
  unfolding check_certificates load_optional
  certificates_same parsed rest h = by_vcek (present config.vcek_cert)
    where
      no_root : load_optional env default_amd_ark_certs config.ark_cert ≡ ok none
      no_root = rw (h, load_optional)

      by_vcek :
          (o : Option CertInput)
          → with_vcek env default_amd_ark_certs report with_pins parsed rest o
            ≡ with_vcek env default_amd_ark_certs report config parsed rest o
      by_vcek none = unfold with_vcek in refl
      by_vcek (some input) =
          unfold with_vcek in
          >>=-cong (load env default_amd_ark_certs input) _ _ (λ vcek e.
            >>=-cong (load_optional env default_amd_ark_certs config.ask_cert) _ _
              (λ ask e1. rw no_root (chain_same parsed vcek ask _)))

  report_same :
      (parsed : SevSnpReport)
      → present config.ark_cert ≡ none
      → check_report env default_amd_ark_certs report with_pins parsed
        ≡ check_report env default_amd_ark_certs report config parsed
  unfolding check_report check_callbacks check_sev_tcb measurements_hold tcb_holds
  report_same parsed h =
      rw (certificates_same parsed (check_callbacks env default_amd_ark_certs config parsed) h)

  -- Without an ARK certificate, which pinned ARK certificates are configured has no effect on what
  -- the verification returns.
  pub verify_sev_snp-unpinned :
      present config.ark_cert ≡ none
      → verify_sev_snp env default_amd_ark_certs report with_pins
        ≡ verify_sev_snp env default_amd_ark_certs report config
  unfolding verify_sev_snp verify_sev_snp_outcome
  verify_sev_snp-unpinned h =
      ap (λ (m : Result Outcome). m >>= or_throw env default_amd_ark_certs)
        (by_parse (parse_sev_snp_report env.restructure report))
    where
      by_parse :
          (m : Result SevSnpReport)
          → (elim m as (λ x. Result Outcome) [
            | ok parsed ↦ check_report env default_amd_ark_certs report with_pins parsed
            | err e ↦ ok (rejected none e)
            | stuck ↦ stuck
          ])
            ≡ (elim m as (λ x. Result Outcome) [
              | ok parsed ↦ check_report env default_amd_ark_certs report config parsed
              | err e ↦ ok (rejected none e)
              | stuck ↦ stuck
            ])
      by_parse (ok parsed) = report_same parsed h
      by_parse (err e) = refl
      by_parse stuck = refl
