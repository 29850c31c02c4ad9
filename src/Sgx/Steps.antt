-- ===== src/Sgx/Steps.antt =====
-- What acceptance by `verifySgx`, packages/qvl/src/verifySgx.ts, means, and its steps one by one.
use teekit.Common.{
  ℕ, ◌≡◌, ◌⊎◌, inl, inr, refl, ap, ◌∙◌, Bool, true, false, not, ◌||◌, List, Option, none, some, Any,
  Text, last_of, ◌==◌, ==_iff, ||-true, if◌then◌else◌,
}
use teekit.Result.{Result, Fault, ok, require, >>=-eq-ok, require-eq-ok}
use teekit.Bytes.{Bytes, subarray}
use teekit.Packages.{Certificate}
use teekit.Measurements.Laws.{ConfigAccepts, check_config-ConfigAccepts}
use teekit.Quote.Header.{version, att_key_type, tee_type}
use teekit.Quote.SgxBody
use teekit.Quote.Parse.{SgxQuote, parse_sgx_quote}
use teekit.Chain.{PckChain, valid}
use teekit.Chain.Trusted.{IsTrusted}
use teekit.Intel.Defs.{
  Env, TcbInput, VerifyConfig, or_else, require_valid, require_root, is_pinned,
  compute_cert_sha256_hex, qe_certificates,
}
use teekit.Intel.Laws.{
  IsWalked, require_valid-ok, require_root-ok, qe_report_signature-leaf, IsQeBound,
  qe_report_binding-IsQeBound, quote_signature-ok,
}
use teekit.Quote.Region.{get_sgx_signed_region}
use teekit.Sgx.{
  matches_measurements, MeasurementConfig, verify_sgx_measurements, verify_sgx_qe_report_signature,
  verify_sgx_qe_report_binding, pce_svn_of, verify_sgx_quote_signature, check_tcb,
  check_measurements, finish_sgx, check_root_and_header, check_signatures,
}

pub required : (t : Bool) (x : Fault) {u : Unit {0}} → require t x ≡ ok u → t ≡ true
required true x e = refl
required false x e = cc

module _ (env : Env) (quote : Bytes) (config : VerifyConfig SgxQuote MeasurementConfig) where
  -- The quote is signed by an attestation key that a quoting enclave vouches for; the enclave's
  -- report is signed by the leaf of a trusted chain, up to a pinned root.
  pub record IsSgxAccepted : Type 0 where
    pub q : SgxQuote
    pub parsed : parse_sgx_quote env.restructure quote ≡ ok q
    pub leaf : Certificate
    pub above : List Certificate
    pub walked :
        IsWalked env.x509 (qe_certificates env q.signature config.extra_certdata) leaf above
    pub trusted :
        IsTrusted env.hex env.x509 (some (or_else config.date env.now)) config.crls leaf above
    pub pinned :
        Any
          (λ p. compute_cert_sha256_hex env (last_of leaf above) ≡ compute_cert_sha256_hex env p)
          (or_else config.pinned_root_certs env.default_pinned_root_certs)
    pub is_sgx : tee_type q.header ≡ 0
    pub is_ecdsa : att_key_type q.header ≡ 2
    pub is_pck : (q.signature.cert_data_type ≡ 1) ⊎ (q.signature.cert_data_type ≡ 5)
    pub qe_signed :
        env.crypto.verify_p256_spki leaf.public_key q.signature.qe_report_signature
          q.signature.qe_report
        ≡ ok true
    pub qe_bound : IsQeBound env q.signature
    pub is_version_3 : version q.header ≡ 3
    pub signed :
        env.crypto.verify_p256_point
          (subarray q.signature.attestation_public_key 0 32)
          (subarray q.signature.attestation_public_key 32 64)
          q.signature.ecdsa_signature
          (get_sgx_signed_region quote)
        ≡ ok true
    pub fmspc : Text
    pub is_fmspc : leaf.fmspc ≡ some fmspc
    pub pcesvn : ℕ
    pub is_pcesvn : leaf.pcesvn ≡ some pcesvn
    pub tcb_accepted :
        (f : SgxQuote → TcbInput → Result Bool)
        → config.verify_tcb ≡ some f
        → f q (record {
          fmspc = fmspc;
          pce_svn = pce_svn_of env q pcesvn;
          cpu_svn = SgxBody.cpu_svn q.body;
        })
          ≡ ok true
    pub measured :
        (m : MeasurementConfig)
        → config.verify_measurements ≡ some m
        → ConfigAccepts (matches_measurements env.hex) q m

  module _ (q : SgxQuote) (parsed : parse_sgx_quote env.restructure quote ≡ ok q) where
    pub signed_by_leaf :
        {leaf : Certificate} {above : List Certificate}
        → IsWalked env.x509 (qe_certificates env q.signature config.extra_certdata) leaf above
        → verify_sgx_qe_report_signature env quote config.extra_certdata ≡ ok true
        → env.crypto.verify_p256_spki leaf.public_key q.signature.qe_report_signature
            q.signature.qe_report
          ≡ ok true
    unfolding verify_sgx_qe_report_signature
    signed_by_leaf w e =
        let (v, e1) = require-eq-ok _ _ _ (rw parsed at e) in
        (qe_report_signature-leaf env q.signature config.extra_certdata w e1).1

    pub bound : verify_sgx_qe_report_binding env quote ≡ ok true → IsQeBound env q.signature
    unfolding verify_sgx_qe_report_binding
    bound e =
        let (v, e1) = require-eq-ok _ _ _ (rw parsed at e) in
        qe_report_binding-IsQeBound env q.signature e1

    pub region_signed :
        verify_sgx_quote_signature env quote ≡ ok true
        → (version q.header ≡ 3)
          × (env.crypto.verify_p256_point
                (subarray q.signature.attestation_public_key 0 32)
                (subarray q.signature.attestation_public_key 32 64)
                q.signature.ecdsa_signature
                (get_sgx_signed_region quote)
              ≡ ok true)
    unfolding verify_sgx_quote_signature
    region_signed e =
        let (is_3, e1) = require-eq-ok (version q.header == 3) _ _ (rw parsed at e) in
        (
          (==_iff _ _).0 is_3,
          (quote_signature-ok env q.signature (get_sgx_signed_region quote) e1).1,
        )

  pub check_tcb-true :
      (q : SgxQuote) (input : TcbInput) (f : SgxQuote → TcbInput → Result Bool)
      → check_tcb env config q input ≡ ok true
      → config.verify_tcb ≡ some f
      → f q input ≡ ok true
  unfolding check_tcb
  check_tcb-true q input f e is_f = rw (is_f, check_tcb) at e

  pub check_measurements-true :
      (q : SgxQuote) (m : MeasurementConfig)
      → check_measurements env config q ≡ ok true
      → config.verify_measurements ≡ some m
      → ConfigAccepts (matches_measurements env.hex) q m
  unfolding check_measurements verify_sgx_measurements
  check_measurements-true q m e is_m =
      check_config-ConfigAccepts (matches_measurements env.hex) q m
        (rw (is_m, check_measurements) at e)

  pub finish_sgx-true :
      (q : SgxQuote) (fm : Option Text) (pc : Option ℕ)
      → finish_sgx env config q fm pc ≡ ok true
      → (fmspc : Text) × (fm ≡ some fmspc)
        × (pcesvn : ℕ) × (pc ≡ some pcesvn)
        × (check_tcb env config q (record {
          fmspc = fmspc;
          pce_svn = pce_svn_of env q pcesvn;
          cpu_svn = SgxBody.cpu_svn q.body;
        })
            ≡ ok true)
        × (check_measurements env config q ≡ ok true)
  unfolding finish_sgx
  finish_sgx-true q none pc e = cc
  finish_sgx-true q (some fmspc) none e = cc
  finish_sgx-true q (some fmspc) (some pcesvn) e =
      let (tcb_ok, checked, e1) = >>=-eq-ok (check_tcb env config q _) _ e in
      let (accepted, e2) = unless_false tcb_ok _ e1 in
      let (measured, found, e3) = >>=-eq-ok (check_measurements env config q) _ e2 in
      let (matched, e4) = require-eq-ok measured _ _ e3 in
      (fmspc, refl, pcesvn, refl, checked ∙ ap ok accepted, found ∙ ap ok matched)
    where
      unless_false :
          (t : Bool) (rest : Result Bool)
          → (if not t then ok false else rest) ≡ ok true
          → (t ≡ true) × (rest ≡ ok true)
      unless_false true rest h = (refl, h)
      unless_false false rest h = cc

  either_type :
      (q : SgxQuote)
      → (q.signature.cert_data_type == 1 || q.signature.cert_data_type == 5) ≡ true
      → (q.signature.cert_data_type ≡ 1) ⊎ (q.signature.cert_data_type ≡ 5)
  either_type q e = elim (||-true _ _ e) [
    | inl h ↦ inl ((==_iff _ _).0 h)
    | inr h ↦ inr ((==_iff _ _).0 h)
  ]

  -- The outcome of the chain, and the header.
  pub root_and_header :
      (q : SgxQuote) (c : PckChain) {u : Unit {0}}
      → check_root_and_header env config q c ≡ ok u
      → (c.status ≡ valid)
        × (root : Certificate) × (c.root ≡ some root)
        × (is_pinned env (or_else config.pinned_root_certs env.default_pinned_root_certs) root
            ≡ true)
        × (tee_type q.header ≡ 0)
        × (att_key_type q.header ≡ 2)
        × ((q.signature.cert_data_type ≡ 1) ⊎ (q.signature.cert_data_type ≡ 5))
  unfolding check_root_and_header
  root_and_header q c e =
      let (u1, is_valid, e1) = >>=-eq-ok (require_valid env c.status) _ e in
      let (root, found, e2) = >>=-eq-ok (require_root env c.root) _ e1 in
      let (pinned, e3) = require-eq-ok _ _ _ e2 in
      let (tee, e4) = require-eq-ok (tee_type q.header == 0) _ _ e3 in
      let (key, e5) = require-eq-ok (att_key_type q.header == 2) _ _ e4 in
      let cert : (q.signature.cert_data_type == 1 || q.signature.cert_data_type == 5) ≡ true =
        required _ _ e5 in
      (
        require_valid-ok env c.status is_valid,
        root,
        require_root-ok env c.root found,
        pinned,
        (==_iff _ _).0 tee,
        (==_iff _ _).0 key,
        either_type q cert,
      )

  pub three_signatures :
      {u : Unit {0}}
      → check_signatures env config quote ≡ ok u
      → (verify_sgx_qe_report_signature env quote config.extra_certdata ≡ ok true)
        × (verify_sgx_qe_report_binding env quote ≡ ok true)
        × (verify_sgx_quote_signature env quote ≡ ok true)
  unfolding check_signatures
  three_signatures e =
      let (a, found_a, e1) =
        >>=-eq-ok (verify_sgx_qe_report_signature env quote config.extra_certdata) _ e in
      let (a_true, e2) = require-eq-ok a _ _ e1 in
      let (b, found_b, e3) = >>=-eq-ok (verify_sgx_qe_report_binding env quote) _ e2 in
      let (b_true, e4) = require-eq-ok b _ _ e3 in
      let (c, found_c, e5) = >>=-eq-ok (verify_sgx_quote_signature env quote) _ e4 in
      (found_a ∙ ap ok a_true, found_b ∙ ap ok b_true, found_c ∙ ap ok (required c _ e5))
