-- ===== src/Sev/Laws.antt =====
-- What acceptance by `verifySevSnp`, packages/qvl/src/verifySev.ts, means, and its steps one by
-- one.
use teekit.Common.{
  ℕ, ◌≤◌, ◌≡◌, ◌⊎◌, inl, inr, refl, ap, ◌∙◌, arith, Bool, true, false, not, ◌||◌, List, [], ◌∷◌,
  Option, none, some, Any, ltb, ◌==◌, ==_iff, ||-true,
}
use teekit.Result.{
  Result, Fault, ok, err, stuck, >>=-eq-ok, require-eq-ok, bad_quote_signature, signature_failed,
}
use teekit.Bytes.{Bytes}
use teekit.Packages.{Certificate}
use teekit.Measurements.{Config}
use teekit.Measurements.Laws.{ConfigAccepts}
use teekit.Chain.{Status, valid, invalid, expired, revoked}
use teekit.Intel.Defs.{Env, or_else, is_empty, is_pinned, compute_cert_sha256_hex}
use teekit.Intel.Laws.{is_pinned-Any}
use teekit.Sev.Body
use teekit.Sev.Body.{has_flag, is_sev_snp_debug_enabled}
use teekit.Sev.Report.{
  SevSnpReport, parse_sev_snp_report, get_sev_snp_signed_region, get_sev_snp_raw_signature,
}
use teekit.Sev.Chain.{SevSnpCertChainResult, verify_sev_snp_cert_chain}
use teekit.Sev.Trust.{IsSevTrusted, verify_sev_snp_cert_chain-IsSevTrusted}
use teekit.Sev.Config.{
  SevSnpMeasurements, matches_sev_measurements, CertInput, KeyInput, spki, SevSnpVerifyConfig,
  Outcome, accepted, rejected, reject_unless, present, within_vmpl,
}
use teekit.Sev.Verify.{
  load, load_optional, verify_with, verify_sev_snp_signature, check_report_signature, ark_is_pinned,
  check_status, check_sev_chain,
}

pub reject_unless-accepted :
    (test : Bool) (report : SevSnpReport) (fault : Fault) (rest : Result Outcome) {p : SevSnpReport}
    → reject_unless test report fault rest ≡ ok (accepted p)
    → (test ≡ true) × (rest ≡ ok (accepted p))
reject_unless-accepted true report fault rest e = (refl, e)
reject_unless-accepted false report fault rest e = cc

pub within_vmpl-le :
    (vmpl : ℕ) (given : Option ℕ) (max : ℕ)
    → within_vmpl vmpl given ≡ true
    → given ≡ some max
    → vmpl ≤ max
unfolding within_vmpl
within_vmpl-le vmpl given max h e = at_most (rw (e, within_vmpl) at h)
  where
    at_most : not (ltb max vmpl) ≡ true → vmpl ≤ max
    at_most h = ground arith

module _ (env : Env) (default_amd_ark_certs : List Certificate) (report : Bytes)
    (config : SevSnpVerifyConfig) where
  -- The signature is over the first part of the report, by the key, in an algorithm that is known.
  pub record IsReportSigned (parsed : SevSnpReport) (key : KeyInput) : Type 0 where
    pub algorithm : (Body.signature_algo parsed.body ≡ 1) ⊎ (Body.signature_algo parsed.body ≡ 0)
    pub signed :
        verify_with env default_amd_ark_certs key
          (get_sev_snp_raw_signature parsed.signature)
          (get_sev_snp_signed_region report)
        ≡ ok true

  -- The root that was given, if one was, is one of the pinned ones, unless none are pinned.
  abbrev pub IsPinnedArk : Option Certificate → Type 0
  IsPinnedArk ark =
      (root : Certificate)
      → ark ≡ some root
      → (or_else config.pinned_ark_certs default_amd_ark_certs ≡ [])
        ⊎ Any (λ p. compute_cert_sha256_hex env root ≡ compute_cert_sha256_hex env p)
            (or_else config.pinned_ark_certs default_amd_ark_certs)

  -- Signed by the VCEK certificate, whose chain is trusted if an ASK was given.
  pub record IsCertified (parsed : SevSnpReport) (input : CertInput) : Type 0 where
    pub vcek : Certificate
    pub loaded : load env default_amd_ark_certs input ≡ ok vcek
    pub signed : IsReportSigned parsed (spki vcek.public_key)
    pub ask : Option Certificate
    pub ask_loaded : load_optional env default_amd_ark_certs config.ask_cert ≡ ok ask
    pub ark : Option Certificate
    pub ark_loaded : load_optional env default_amd_ark_certs config.ark_cert ≡ ok ark
    pub trusted :
        (a : Certificate)
        → ask ≡ some a
        → IsSevTrusted env.hex env.x509 (some (or_else config.date env.now)) config.crls vcek a ark
          × IsPinnedArk ark

  pub record IsSevAccepted : Type 0 where
    pub parsed : SevSnpReport
    pub is_parsed : parse_sev_snp_report env.restructure report ≡ ok parsed
    pub no_debug : (config.allow_debug ≡ true) ⊎ (has_flag parsed.body.policy 19 ≡ false)
    pub vmpl_allowed : (max : ℕ) → config.max_vmpl ≡ some max → Body.vmpl parsed.body ≤ max
    pub smt_allowed :
        config.enforce_smt_policy ≡ true
        → (has_flag parsed.body.policy 16 ≡ true) ⊎ (has_flag parsed.body.platform_info 0 ≡ false)
    pub certified :
        (input : CertInput) → present config.vcek_cert ≡ some input → IsCertified parsed input
    pub signed :
        (key : KeyInput)
        → present config.vcek_cert ≡ none
        → config.vcek_public_key ≡ some key
        → IsReportSigned parsed key
    pub measured :
        (m : Config SevSnpMeasurements SevSnpReport)
        → config.verify_measurements ≡ some m
        → ConfigAccepts (matches_sev_measurements env.hex) parsed m
    pub tcb_accepted :
        (f : SevSnpReport → Result Bool) → config.verify_tcb ≡ some f → f parsed ≡ ok true

  module _ (parsed : SevSnpReport) where
    verify_sev_snp_signature-true :
        (key : KeyInput)
        → verify_sev_snp_signature env default_amd_ark_certs report parsed key ≡ ok true
        → IsReportSigned parsed key
    unfolding verify_sev_snp_signature
    verify_sev_snp_signature-true key e =
        let (known, e1) =
          require-eq-ok
            (Body.signature_algo parsed.body == 1 || Body.signature_algo parsed.body == 0) _ _ e in
        record {
          algorithm = elim (||-true _ _ known) [
            | inl h ↦ inl ((==_iff _ _).0 h)
            | inr h ↦ inr ((==_iff _ _).0 h)
          ];
          signed = e1;
        }

    pub check_report_signature-accepted :
        (key : KeyInput) (rest : Result Outcome) {p : SevSnpReport}
        → check_report_signature env default_amd_ark_certs report parsed key rest ≡ ok (accepted p)
        → IsReportSigned parsed key × (rest ≡ ok (accepted p))
    check_report_signature-accepted key rest {p} e =
        by_answer (verify_sev_snp_signature env default_amd_ark_certs report parsed key) refl
          (unfold check_report_signature in e)
      where
        by_answer :
            (m : Result Bool)
            → verify_sev_snp_signature env default_amd_ark_certs report parsed key ≡ m
            → (elim m [
              | ok b ↦ reject_unless b parsed bad_quote_signature rest
              | err x ↦ ok (rejected (some parsed) signature_failed)
              | stuck ↦ stuck
            ])
              ≡ ok (accepted p)
            → IsReportSigned parsed key × (rest ≡ ok (accepted p))
        by_answer (ok b) is_m e1 =
            let (verified, e2) = reject_unless-accepted b parsed _ rest e1 in
            (verify_sev_snp_signature-true key (is_m ∙ ap ok verified), e2)
        by_answer (err x) is_m e1 = cc
        by_answer stuck is_m e1 = cc

    check_status-accepted :
        (s : Status) (rest : Result Outcome) {p : SevSnpReport}
        → check_status env default_amd_ark_certs s parsed rest ≡ ok (accepted p)
        → (s ≡ valid) × (rest ≡ ok (accepted p))
    unfolding check_status
    check_status-accepted valid rest e = (refl, e)
    check_status-accepted invalid rest e = cc
    check_status-accepted expired rest e = cc
    check_status-accepted revoked rest e = cc

    ark_is_pinned-IsPinnedArk :
        (ark : Option Certificate)
        → ark_is_pinned env default_amd_ark_certs
            (or_else config.pinned_ark_certs default_amd_ark_certs)
            ark
          ≡ true
        → IsPinnedArk ark
    unfolding ark_is_pinned
    ark_is_pinned-IsPinnedArk ark h root e =
        let known = or_else config.pinned_ark_certs default_amd_ark_certs in
        elim (||-true (is_empty known) (is_pinned env known root) (rw (e, ark_is_pinned) at h)) [
          | inl no_pins ↦ inl (empty_of known no_pins)
          | inr pinned ↦ inr (is_pinned-Any env known root pinned)
        ]
      where
        empty_of : (known : List Certificate) → is_empty known ≡ true → known ≡ []
        empty_of [] h = refl
        empty_of (c ∷ cs) h = cc

    pub check_sev_chain-accepted :
        (vcek : Certificate) (ask ark : Option Certificate) (rest : Result Outcome)
        {p : SevSnpReport}
        → check_sev_chain env default_amd_ark_certs config parsed vcek ask ark rest
          ≡ ok (accepted p)
        → ((a : Certificate)
            → ask ≡ some a
            → IsSevTrusted env.hex env.x509
                (some (or_else config.date env.now))
                config.crls
                vcek
                a
                ark
              × IsPinnedArk ark)
          × (rest ≡ ok (accepted p))
    unfolding check_sev_chain
    check_sev_chain-accepted vcek none ark rest e = ((λ a h. cc), e)
    check_sev_chain-accepted vcek (some ask) ark rest e =
        let (found, is_found, e1) =
          >>=-eq-ok (verify_sev_snp_cert_chain env.hex env.x509 vcek ask ark _ _) _ e in
        let (is_valid, e2) = check_status-accepted found.status _ e1 in
        let (pinned, e3) =
          reject_unless-accepted
            (ark_is_pinned env default_amd_ark_certs
              (or_else config.pinned_ark_certs default_amd_ark_certs) found.ark)
            parsed _ rest e2 in
        let (whole, trusted) =
          verify_sev_snp_cert_chain-IsSevTrusted env.hex env.x509 vcek ask ark _ config.crls found
            is_found is_valid in
        let same_ark : found.ark ≡ ark = ap ark_of whole in
        (
          (λ a h.
              let same : ask ≡ a = cc in
              (rw (← same) trusted, rw (← same_ark) (ark_is_pinned-IsPinnedArk found.ark pinned))),
          e3,
        )
      where
        ark_of : SevSnpCertChainResult → Option Certificate
        ark_of c = c.ark
