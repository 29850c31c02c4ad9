-- ===== src/Tunnel/Client/Attest/Accepted.antt =====
-- What the verifiers' answers to the client of packages/tunnel/src/client.ts mean.
use teekit.Common.{
  ℕ, ◌≡◌, ◌≢◌, sym, ap, ◌∙◌, Bool, true, false, not, Option, none, some, [], ◌∷◌, Text, arith,
}
use teekit.Result.{Result, ok, >>=-eq-ok, binding_failed, custom_binding_failed}
use teekit.Bytes.{Bytes}
use teekit.Quote.Parse.{TdxQuote, SgxQuote}
use teekit.Tdx
use teekit.Tdx.{finish_tdx, verify_tdx_chain, verify_tdx, verify_tdx_measurements}
use teekit.Sgx
use teekit.Sgx.{finish_sgx, verify_sgx_chain, verify_sgx, verify_sgx_measurements}
use teekit.Sev.Verify.{verify_sev_snp_outcome, or_throw, verify_sev_snp}
use teekit.Sev.Config.{SevSnpVerifyConfig, Outcome, accepted, rejected}
use teekit.Tunnel.Client.{Channel, ClientRuntime}
use teekit.Tunnel.Client.Attest.{check_binding, no_config, vcek_of}
use teekit.Tunnel.Client.Attest.Keyed.{ok_injective, demanded_true}
use teekit.Tunnel.Client.Attest.Trusted.{IsBindingValid}

pub not-true : {b : Bool} → not b ≡ true → b ≡ false
not-true {b} h = ground arith

module _ (rt : ClientRuntime) where
  pub binding_of :
      (binding : Option (Channel → Result Bool)) (c : Channel) (bound : Result Bool) {P : Type 0}
      → check_binding binding c bound ≡ ok tt
      → (bound ≡ ok true → P)
      → IsBindingValid binding c P
  unfolding check_binding
  binding_of none c bound e by_default = by_default (demanded_true bound binding_failed e)
  binding_of (some f) c bound e by_default = demanded_true (f c) custom_binding_failed e

  pub vcek_of-ok :
      (given : Option Text) {vcek : Text}
      → vcek_of given ≡ ok vcek
      → (given ≡ some vcek) × (vcek ≢ [])
  unfolding vcek_of
  vcek_of-ok none e = cc
  vcek_of-ok (some []) e = cc
  vcek_of-ok (some (x ∷ t)) e = (ap some (ok_injective e), λ h. cc)

  pub verify_sev_snp-true :
      (quote : Bytes) (config : SevSnpVerifyConfig) {b : Bool}
      → verify_sev_snp rt.env rt.default_amd_ark_certs quote config ≡ ok b
      → verify_sev_snp rt.env rt.default_amd_ark_certs quote config ≡ ok true
  unfolding verify_sev_snp or_throw
  verify_sev_snp-true quote config e =
      let running = verify_sev_snp_outcome rt.env rt.default_amd_ark_certs quote config in
      let (outcome, e0, e1) = >>=-eq-ok running _ e in e ∙ thrown outcome e1
    where
      thrown :
          (outcome : Outcome) {b : Bool}
          → or_throw rt.env rt.default_amd_ark_certs outcome ≡ ok b
          → ok b ≡ ok true
      thrown (accepted report) h = sym h
      thrown (rejected report fault) h = cc

  -- Without a configuration `verifyTdx` and `verifySgx` answer true, or throw.
  pub finish_tdx-no_config :
      (q : TdxQuote) (fmspc : Option Text) (pcesvn : Option ℕ) {b : Bool}
      → finish_tdx rt.env no_config q fmspc pcesvn ≡ ok b
      → b ≡ true
  unfolding finish_tdx Tdx.check_tcb Tdx.check_measurements
  finish_tdx-no_config q none pcesvn e = cc
  finish_tdx-no_config q (some fmspc) none e = cc
  finish_tdx-no_config q (some fmspc) (some pcesvn) e = cc

  pub verify_tdx-no_config :
      (quote : Bytes) {b : Bool}
      → verify_tdx rt.env quote no_config ≡ ok b
      → verify_tdx rt.env quote no_config ≡ ok true
  unfolding verify_tdx
  verify_tdx-no_config quote e =
      let (found, e0, e1) = >>=-eq-ok (verify_tdx_chain rt.env quote no_config) _ e in
      let (u, e2, e3) =
        >>=-eq-ok (Tdx.check_root_and_header rt.env no_config found.0 found.1) _ e1 in
      let (u', e4, e5) = >>=-eq-ok (Tdx.check_signatures rt.env no_config quote) _ e3 in
      e ∙ ap ok (finish_tdx-no_config found.0 found.1.fmspc found.1.pcesvn e5)

  pub finish_sgx-no_config :
      (q : SgxQuote) (fmspc : Option Text) (pcesvn : Option ℕ) {b : Bool}
      → finish_sgx rt.env no_config q fmspc pcesvn ≡ ok b
      → b ≡ true
  unfolding finish_sgx Sgx.check_tcb Sgx.check_measurements
  finish_sgx-no_config q none pcesvn e = cc
  finish_sgx-no_config q (some fmspc) none e = cc
  finish_sgx-no_config q (some fmspc) (some pcesvn) e = cc

  pub verify_sgx-no_config :
      (quote : Bytes) {b : Bool}
      → verify_sgx rt.env quote no_config ≡ ok b
      → verify_sgx rt.env quote no_config ≡ ok true
  unfolding verify_sgx
  verify_sgx-no_config quote e =
      let (found, e0, e1) = >>=-eq-ok (verify_sgx_chain rt.env quote no_config) _ e in
      let (u, e2, e3) =
        >>=-eq-ok (Sgx.check_root_and_header rt.env no_config found.0 found.1) _ e1 in
      let (u', e4, e5) = >>=-eq-ok (Sgx.check_signatures rt.env no_config quote) _ e3 in
      e ∙ ap ok (finish_sgx-no_config found.0 found.1.fmspc found.1.pcesvn e5)
