-- ===== src/Tunnel/Client/Attest/Verified.antt =====
-- What a `server_kx` handler of packages/tunnel/src/client.ts has checked when it answers, for each
-- kind of evidence.
use teekit.Common.{
  ◌≡◌, refl, ap, Text, ◌⊎◌, inl, inr, ◌∙◌, Bool, true, false, not, ◌||◌, Option, ||-true,
}
use teekit.Result.{Result, ok, >>=-eq-ok, require-eq-ok}
use teekit.Bytes.{Bytes}
use teekit.Measurements.Laws.{check_config-ConfigAccepts}
use teekit.Quote.Parse.{TdxQuote, SgxQuote, parse_sgx_quote}
use teekit.Tdx
use teekit.Tdx.{finish_tdx, verify_tdx_chain, verify_tdx, verify_tdx_measurements}
use teekit.Tdx.Laws.{verify_tdx-IsTdxAccepted}
use teekit.Sgx
use teekit.Sgx.{finish_sgx, verify_sgx_chain, verify_sgx, verify_sgx_measurements}
use teekit.Sgx.Laws.{verify_sgx-IsSgxAccepted}
use teekit.Sev.Report.{SevSnpReport, parse_sev_snp_report}
use teekit.Sev.Verify.{verify_sev_snp}
use teekit.Sev.Accept.{verify_sev_snp-IsSevAccepted}
use teekit.Tunnel.Message.{KxAnnounce}
use teekit.Tunnel.Client.{
  Channel, ReportBindingData, TdxClientConfig, SgxClientConfig, SevSnpClientConfig, Mode, tdx, sgx,
  sevsnp, VerifiedQuote, verified_tdx, verified_sgx, verified_sevsnp, Task, verifying_tdx,
  verifying_sgx, verifying_sevsnp, ClientRuntime,
}
use teekit.Tunnel.Client.Attest.{
  check_custom, require_strategy, sev_config, is_debug_enclave, no_config, open_tdx, open_sgx,
  vcek_of, open_sevsnp, validate, check_bound, is_bound, task_of, verify_task, require_strategies,
}
use teekit.Tunnel.Client.Binding.{binding_data}
use teekit.Tunnel.Client.Attest.Keyed.{
  ok_injective, check_custom-ok, check_measured-ok, require_strategy-ok,
}
use teekit.Tunnel.Client.Attest.Trusted.{
  is_x25519_bound-IsTdxBound, is_sgx_x25519_bound-IsSgxBound, is_sevsnp_x25519_bound-IsSevBound,
  IsTdxTrusted, IsSgxTrusted, IsSevTrusted,
}
use teekit.Tunnel.Client.Attest.Accepted.{
  not-true, binding_of, vcek_of-ok, verify_sev_snp-true, verify_tdx-no_config, verify_sgx-no_config,
}

module _ (rt : ClientRuntime) where
  open_tdx-ok :
      (config : TdxClientConfig) (binding : Option (Channel → Result Bool)) (quote : Bytes)
      (c : Channel) (q : TdxQuote)
      → open_tdx rt quote ≡ ok q
      → require_strategy config.measurements config.custom_verify_quote ≡ ok tt
      → validate rt (verified_tdx config q) ≡ ok tt
      → check_bound rt binding (verified_tdx config q) c ≡ ok tt
      → IsTdxTrusted rt config binding quote c q
  unfolding open_tdx validate check_bound is_bound verify_tdx_measurements
  open_tdx-ok config binding quote c q opens s v1 v3 =
      let (b, verifies, e1) = >>=-eq-ok (verify_tdx rt.env quote no_config) _ opens in
      let (u1, cus, v2) = >>=-eq-ok (check_custom config.custom_verify_quote q) _ v1 in
      record {
        parsed = e1;
        accepted =
            verify_tdx-IsTdxAccepted rt.env quote no_config
              (verify_tdx-no_config rt quote verifies);
        strategy = require_strategy-ok config.measurements config.custom_verify_quote s;
        custom = check_custom-ok config.custom_verify_quote q cus;
        measured = λ given is_m.
            check_config-ConfigAccepts (Tdx.matches_measurements rt.env.hex) q given (
              check_measured-ok (verify_tdx_measurements rt.env.hex q) config.measurements v2 given
                is_m);
        bound = binding_of rt binding c _ v3 (is_x25519_bound-IsTdxBound rt c q);
      }

  open_sgx-ok :
      (config : SgxClientConfig) (binding : Option (Channel → Result Bool)) (quote : Bytes)
      (c : Channel) (q : SgxQuote)
      → open_sgx rt config quote ≡ ok q
      → require_strategy config.measurements config.custom_verify_quote ≡ ok tt
      → validate rt (verified_sgx config q) ≡ ok tt
      → check_bound rt binding (verified_sgx config q) c ≡ ok tt
      → IsSgxTrusted rt config binding quote c q
  unfolding open_sgx validate check_bound is_bound verify_sgx_measurements
  open_sgx-ok config binding quote c q opens s v1 v3 =
      let (b, verifies, e1) = >>=-eq-ok (verify_sgx rt.env quote no_config) _ opens in
      let (q', parses, e2) = >>=-eq-ok (parse_sgx_quote rt.env.restructure quote) _ e1 in
      let (allowed, e3) =
        require-eq-ok (not (is_debug_enclave q') || config.allow_debug_enclaves) _ (ok q') e2 in
      let same : q' ≡ q = ok_injective e3 in
      let no_debug : (is_debug_enclave q' ≡ false) ⊎ (config.allow_debug_enclaves ≡ true) =
        elim (||-true (not (is_debug_enclave q')) _ allowed) [
          | inl no_debug ↦ inl (not-true no_debug)
          | inr permitted ↦ inr permitted
        ] in
      let (u1, answered, v2) = >>=-eq-ok (check_custom config.custom_verify_quote q) _ v1 in
      let verify = verify_sgx_measurements rt.env.hex q in
      record {
        parsed = parses ∙ e3;
        accepted =
            verify_sgx-IsSgxAccepted rt.env quote no_config
              (verify_sgx-no_config rt quote verifies);
        no_debug = rw (← same) no_debug;
        strategy = require_strategy-ok config.measurements config.custom_verify_quote s;
        custom = check_custom-ok config.custom_verify_quote q answered;
        measured = λ given is_m.
            check_config-ConfigAccepts (Sgx.matches_measurements rt.env.hex) q given
              (check_measured-ok verify config.measurements v2 given is_m);
        bound = binding_of rt binding c _ v3 (is_sgx_x25519_bound-IsSgxBound rt c q);
      }

  open_sevsnp-ok :
      (config : SevSnpClientConfig) (binding : Option (Channel → Result Bool)) (quote : Bytes)
      (data_ : ReportBindingData) (vcek : Text) (c : Channel) (report : SevSnpReport)
      → vcek_of data_.vcek_cert ≡ ok vcek
      → open_sevsnp rt config (sev_config data_ vcek config) quote ≡ ok report
      → check_bound rt binding (verified_sevsnp config report) c ≡ ok tt
      → IsSevTrusted rt config binding quote data_ c report
  unfolding open_sevsnp check_bound is_bound
  open_sevsnp-ok config binding quote data_ vcek c report given e1 valid =
      let (is_given, not_empty) = vcek_of-ok rt data_.vcek_cert given in
      let verifying =
        verify_sev_snp rt.env rt.default_amd_ark_certs quote (sev_config data_ vcek config) in
      let (b, verifies, e2) = >>=-eq-ok verifying _ e1 in
      let (report', parses, e3) = >>=-eq-ok (parse_sev_snp_report rt.env.restructure quote) _ e2 in
      let (u, answered, e4) = >>=-eq-ok (check_custom config.custom_verify_quote report') _ e3 in
      let same : report' ≡ report = ok_injective e4 in
      record {
        parsed = parses ∙ e4;
        vcek = vcek;
        given = is_given;
        is_given = not_empty;
        accepted =
            verify_sev_snp-IsSevAccepted rt.env rt.default_amd_ark_certs quote
              (sev_config data_ vcek config) (verify_sev_snp-true rt _ _ verifies);
        custom = λ f is_f.
            rw (← same) (check_custom-ok config.custom_verify_quote report' answered f is_f);
        bound = binding_of rt binding c _ valid (is_sevsnp_x25519_bound-IsSevBound rt c report);
      }

  -- The evidence meets the configuration, and `c`, the fields at the check, hold a key that it names.
  abbrev pub IsTrusted :
      Mode
      → Option (Channel → Result Bool)
      → (quote : Bytes) → ReportBindingData
      → Channel
      → VerifiedQuote
      → Type 0
  IsTrusted mode binding quote data_ c (verified_tdx config q) =
      (mode ≡ tdx config) × IsTdxTrusted rt config binding quote c q
  IsTrusted mode binding quote data_ c (verified_sgx config q) =
      (mode ≡ sgx config) × IsSgxTrusted rt config binding quote c q
  IsTrusted mode binding quote data_ c (verified_sevsnp config report) =
      (mode ≡ sevsnp config) × IsSevTrusted rt config binding quote data_ c report

  -- The verifiers have accepted this, as the configuration has it done.
  abbrev pub IsVerified : Mode → KxAnnounce → VerifiedQuote → Type 0
  IsVerified mode message v =
      (task : Task) × (task_of mode (binding_data message) ≡ ok task)
      × (verify_task rt task message.quote ≡ ok v)

  pub checks-IsTrusted :
      (mode : Mode) (binding : Option (Channel → Result Bool)) (message : KxAnnounce)
      (v : VerifiedQuote) (c : Channel)
      → IsVerified mode message v
      → require_strategies v ≡ ok tt
      → validate rt v ≡ ok tt
      → check_bound rt binding v c ≡ ok tt
      → IsTrusted mode binding message.quote (binding_data message) c v
  unfolding task_of verify_task require_strategies
  checks-IsTrusted (tdx config) binding message v c (task, is_task, verifies) s valid bound =
      let task_is : verifying_tdx config ≡ task = ok_injective is_task in
      let run : verify_task rt (verifying_tdx config) message.quote ≡ ok v =
        ap (λ (t : Task). verify_task rt t message.quote) task_is ∙ verifies in
      let (q, opens, e) = >>=-eq-ok (open_tdx rt message.quote) _ run in
      let same : verified_tdx config q ≡ v = ok_injective e in
      let s' : require_strategies (verified_tdx config q) ≡ ok tt =
        ap require_strategies same ∙ s in
      let valid' : validate rt (verified_tdx config q) ≡ ok tt = ap (validate rt) same ∙ valid in
      let bound' : check_bound rt binding (verified_tdx config q) c ≡ ok tt =
        ap (λ (w : VerifiedQuote). check_bound rt binding w c) same ∙ bound in
      rw (← same) (refl, open_tdx-ok config binding message.quote c q opens s' valid' bound')
  checks-IsTrusted (sgx config) binding message v c (task, is_task, verifies) s valid bound =
      let task_is : verifying_sgx config ≡ task = ok_injective is_task in
      let run : verify_task rt (verifying_sgx config) message.quote ≡ ok v =
        ap (λ (t : Task). verify_task rt t message.quote) task_is ∙ verifies in
      let (q, opens, e) = >>=-eq-ok (open_sgx rt config message.quote) _ run in
      let same : verified_sgx config q ≡ v = ok_injective e in
      let s' : require_strategies (verified_sgx config q) ≡ ok tt =
        ap require_strategies same ∙ s in
      let valid' : validate rt (verified_sgx config q) ≡ ok tt = ap (validate rt) same ∙ valid in
      let bound' : check_bound rt binding (verified_sgx config q) c ≡ ok tt =
        ap (λ (w : VerifiedQuote). check_bound rt binding w c) same ∙ bound in
      rw (← same) (refl, open_sgx-ok config binding message.quote c q opens s' valid' bound')
  checks-IsTrusted (sevsnp config) binding message v c (task, is_task, verifies) s valid bound =
      let data_ = binding_data message in
      let (vcek, given, e0) = >>=-eq-ok (vcek_of data_.vcek_cert) _ is_task in
      let task_is : verifying_sevsnp config (sev_config data_ vcek config) ≡ task =
        ok_injective e0 in
      let run : verify_task rt (verifying_sevsnp config (sev_config data_ vcek config))
            message.quote
          ≡ ok v =
        ap (λ (t : Task). verify_task rt t message.quote) task_is ∙ verifies in
      let (report, opens, e) =
        >>=-eq-ok (open_sevsnp rt config (sev_config data_ vcek config) message.quote) _ run in
      let same : verified_sevsnp config report ≡ v = ok_injective e in
      let bound' : check_bound rt binding (verified_sevsnp config report) c ≡ ok tt =
        ap (λ (w : VerifiedQuote). check_bound rt binding w c) same ∙ bound in
      rw (← same)
        (refl, open_sevsnp-ok config binding message.quote data_ vcek c report given opens bound')
