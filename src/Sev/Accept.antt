-- ===== src/Sev/Accept.antt =====
-- The acceptance of a report by `verifySevSnp`, packages/qvl/src/verifySev.ts.
use teekit.Common.{
  ◌≡◌, ◌⊎◌, inl, inr, refl, ap, ◌∙◌, Bool, true, false, not, ◌||◌, List, none, some, Option-cases,
}
use teekit.Result.{
  Result, ok, err, stuck, >>=-eq-ok, debug_guest, vmpl_exceeded, smt_forbidden, measurement_failed,
  tcb_failed,
}
use teekit.Bytes.{Bytes}
use teekit.Packages.{Certificate}
use teekit.Measurements.{Config}
use teekit.Measurements.Laws.{ConfigAccepts, check_config-ConfigAccepts}
use teekit.Intel.Defs.{Env}
use teekit.Sev.Body.{has_flag, is_sev_snp_debug_enabled}
use teekit.Sev.Report.{SevSnpReport, parse_sev_snp_report}
use teekit.Sev.Config.{
  SevSnpMeasurements, matches_sev_measurements, verify_sev_snp_measurements, CertInput, KeyInput,
  spki, SevSnpVerifyConfig, Outcome, accepted, rejected, present, smt_holds,
}
use teekit.Sev.Verify.{
  load, load_optional, check_certificates, with_vcek, check_callbacks, measurements_hold, tcb_holds,
  check_sev_tcb, check_report, verify_sev_snp_outcome, or_throw, verify_sev_snp,
}
use teekit.Sev.Laws.{
  reject_unless-accepted, within_vmpl-le, IsReportSigned, IsCertified, IsSevAccepted,
  check_report_signature-accepted, check_sev_chain-accepted,
}

some-injective {ℓ} : {A : Type ℓ} {a b : A} → some a ≡ some b → a ≡ b
some-injective e = cc

module _ (env : Env) (default_amd_ark_certs : List Certificate) (report : Bytes)
    (config : SevSnpVerifyConfig) (parsed : SevSnpReport) where
  IsCertified-of :
      (input : CertInput) (rest : Result Outcome) {p : SevSnpReport}
      → check_certificates env default_amd_ark_certs report config parsed rest ≡ ok (accepted p)
      → present config.vcek_cert ≡ some input
      → IsCertified env default_amd_ark_certs report config parsed input × (rest ≡ ok (accepted p))
  unfolding check_certificates with_vcek
  IsCertified-of input rest e is_input =
      let (vcek, loaded, e1) =
        >>=-eq-ok (load env default_amd_ark_certs input) _ (rw is_input at e) in
      let (ask, ask_loaded, e2) =
        >>=-eq-ok (load_optional env default_amd_ark_certs config.ask_cert) _ e1 in
      let (ark, ark_loaded, e3) =
        >>=-eq-ok (load_optional env default_amd_ark_certs config.ark_cert) _ e2 in
      let (trusted, e4) =
        check_sev_chain-accepted env default_amd_ark_certs report config parsed vcek ask ark _ e3 in
      let (signed, e5) =
        check_report_signature-accepted env default_amd_ark_certs report config parsed
          (spki vcek.public_key) rest e4 in
      (
        record {
          vcek = vcek;
          loaded = loaded;
          signed = signed;
          ask = ask;
          ask_loaded = ask_loaded;
          ark = ark;
          ark_loaded = ark_loaded;
          trusted = trusted;
        },
        e5,
      )

  signed_of :
      (key : KeyInput) (rest : Result Outcome) {p : SevSnpReport}
      → check_certificates env default_amd_ark_certs report config parsed rest ≡ ok (accepted p)
      → present config.vcek_cert ≡ none
      → config.vcek_public_key ≡ some key
      → IsReportSigned env default_amd_ark_certs report config parsed key × (rest ≡ ok (accepted p))
  unfolding check_certificates with_vcek
  signed_of key rest e no_cert is_key =
      check_report_signature-accepted env default_amd_ark_certs report config parsed key rest
        (rw (no_cert, is_key) at e)

  -- Whatever is configured, an acceptance comes from the checks that follow the certificates.
  rest_of :
      (rest : Result Outcome) {p : SevSnpReport}
      → check_certificates env default_amd_ark_certs report config parsed rest ≡ ok (accepted p)
      → rest ≡ ok (accepted p)
  unfolding check_certificates with_vcek
  rest_of rest e = elim (Option-cases (present config.vcek_cert)) [
    | inr (input, is_input) ↦ (IsCertified-of input rest e is_input).1
    | inl no_cert ↦ elim (Option-cases config.vcek_public_key) [
      | inr (key, is_key) ↦ (signed_of key rest e no_cert is_key).1
      | inl no_key ↦ rw (no_cert, no_key) at e
    ]
  ]

  -- The callbacks accepted the report, which is the one that is returned.
  callbacks_of :
      {p : SevSnpReport}
      → check_callbacks env default_amd_ark_certs config parsed ≡ ok (accepted p)
      → ((m : Config SevSnpMeasurements SevSnpReport)
          → config.verify_measurements ≡ some m
          → ConfigAccepts (matches_sev_measurements env.hex) parsed m)
        × ((f : SevSnpReport → Result Bool) → config.verify_tcb ≡ some f → f parsed ≡ ok true)
  unfolding check_callbacks check_sev_tcb measurements_hold tcb_holds verify_sev_snp_measurements
  callbacks_of e =
      let (measured, is_measured, e1) =
        >>=-eq-ok (measurements_hold env default_amd_ark_certs config parsed) _ e in
      let (all_match, e2) =
        reject_unless-accepted measured parsed measurement_failed
          (check_sev_tcb env default_amd_ark_certs config parsed) e1 in
      let (tcb_valid, is_valid, e3) =
        >>=-eq-ok (tcb_holds env default_amd_ark_certs config parsed) _ e2 in
      let (tcb_true, e4) = reject_unless-accepted tcb_valid parsed tcb_failed _ e3 in
      (
        (λ m is_m. matched m is_m (is_measured ∙ ap ok all_match)),
        λ f is_f. called f is_f (is_valid ∙ ap ok tcb_true),
      )
    where
      matched :
          (m : Config SevSnpMeasurements SevSnpReport)
          → config.verify_measurements ≡ some m
          → measurements_hold env default_amd_ark_certs config parsed ≡ ok true
          → ConfigAccepts (matches_sev_measurements env.hex) parsed m
      matched m is_m h =
          check_config-ConfigAccepts (matches_sev_measurements env.hex) parsed m
            (rw (is_m, measurements_hold) at h)

      called :
          (f : SevSnpReport → Result Bool)
          → config.verify_tcb ≡ some f
          → tcb_holds env default_amd_ark_certs config parsed ≡ ok true
          → f parsed ≡ ok true
      called f is_f h = rw (is_f, tcb_holds) at h

  policy_of :
      (allowed debug : Bool) → allowed || not debug ≡ true → (allowed ≡ true) ⊎ (debug ≡ false)
  policy_of true debug h = inl refl
  policy_of false false h = inr refl
  policy_of false true h = cc

  smt_of :
      (enforced : Bool)
      → not enforced || smt_holds parsed.body.policy parsed.body.platform_info ≡ true
      → enforced ≡ true
      → (has_flag parsed.body.policy 16 ≡ true) ⊎ (has_flag parsed.body.platform_info 0 ≡ false)
  unfolding smt_holds
  smt_of enforced h on = policy_of _ _ (rw on at h)

  accept :
      {p : SevSnpReport}
      → parse_sev_snp_report env.restructure report ≡ ok parsed
      → check_report env default_amd_ark_certs report config parsed ≡ ok (accepted p)
      → IsSevAccepted env default_amd_ark_certs report config
  unfolding check_report is_sev_snp_debug_enabled
  accept is_parsed e =
      let (debug, e1) = reject_unless-accepted _ parsed debug_guest _ e in
      let (vmpl, e2) = reject_unless-accepted _ parsed vmpl_exceeded _ e1 in
      let (smt, e3) = reject_unless-accepted _ parsed smt_forbidden _ e2 in
      let callbacks = check_callbacks env default_amd_ark_certs config parsed in
      let (measured, tcb) = callbacks_of (rest_of callbacks e3) in
      record {
        parsed = parsed;
        is_parsed = is_parsed;
        no_debug = policy_of _ _ debug;
        vmpl_allowed = λ max. within_vmpl-le _ config.max_vmpl max vmpl;
        smt_allowed = smt_of config.enforce_smt_policy smt;
        certified = λ input h. (IsCertified-of input callbacks e3 h).0;
        signed = λ key h k. (signed_of key callbacks e3 h k).0;
        measured = measured;
        tcb_accepted = tcb;
      }

module _ (env : Env) (default_amd_ark_certs : List Certificate) (report : Bytes)
    (config : SevSnpVerifyConfig) where
  or_throw-true :
      (o : Outcome)
      → or_throw env default_amd_ark_certs o ≡ ok true
      → (p : SevSnpReport) × (o ≡ accepted p)
  unfolding or_throw
  or_throw-true (accepted p) e = (p, refl)
  or_throw-true (rejected p f) e = cc

  -- A SEV-SNP report that is verified was parsed; its guest is not debuggable unless that is allowed;
  -- its VMPL is no larger than the maximum, if there is one; SMT is on only with the policy's
  -- permission, if that is enforced; with a VCEK certificate, its key signed the report's first
  -- part, and if an ASK is given the chain of VCEK, ASK and, if it is given, ARK is trusted and the
  -- ARK is pinned; without one the given public key, if there is one, signed it; and measurements
  -- and TCB callback accept the report.
  pub verify_sev_snp-IsSevAccepted :
      verify_sev_snp env default_amd_ark_certs report config ≡ ok true
      → IsSevAccepted env default_amd_ark_certs report config
  unfolding verify_sev_snp verify_sev_snp_outcome
  verify_sev_snp-IsSevAccepted e =
      let (outcome, found, e1) = >>=-eq-ok _ _ e in
      let (p, is_accepted) = or_throw-true outcome e1 in
      by_parse (parse_sev_snp_report env.restructure report) refl (found ∙ ap ok is_accepted)
    where
      by_parse :
          (m : Result SevSnpReport) {p : SevSnpReport}
          → parse_sev_snp_report env.restructure report ≡ m
          → (elim m [
            | ok parsed ↦ check_report env default_amd_ark_certs report config parsed
            | err x ↦ ok (rejected none x)
            | stuck ↦ stuck
          ])
            ≡ ok (accepted p)
          → IsSevAccepted env default_amd_ark_certs report config
      by_parse (ok parsed) is_parsed e1 =
          accept env default_amd_ark_certs report config parsed is_parsed e1
      by_parse (err x) is_parsed e1 = cc
      by_parse stuck is_parsed e1 = cc
