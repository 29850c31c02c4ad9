-- ===== src/Tdx/Laws.antt =====
-- The acceptance of a quote by `verifyTdx`, packages/qvl/src/verifyTdx.ts.
use teekit.Common.{ℕ, ◌≡◌, sym, ap, ◌∙◌, true, Option, some, Text, last_of}
use teekit.Result.{Result, ok, >>=-eq-ok}
use teekit.Bytes.{Bytes}
use teekit.Packages.{Certificate}
use teekit.Quote.Parse.{TdxQuote, parse_tdx_quote}
use teekit.Chain.{PckChain}
use teekit.Pem.{extract_pem_certificates}
use teekit.Intel.Defs.{Env, VerifyConfig, or_else, chain_with_fallback, qe_certificates}
use teekit.Intel.Laws.{verify_pck_chain-valid, chain_with_fallback-used, is_pinned-Any}
use teekit.Tdx.{
  MeasurementConfig, verify_tdx_chain, finish_tdx, check_root_and_header, check_signatures,
  verify_tdx,
}
use teekit.Tdx.Steps.{
  IsTdxAccepted, signed_by_leaf, bound, region_signed, check_tcb-true, check_measurements-true,
  finish_tdx-true, root_and_header, three_signatures,
}

root_of : PckChain → Option Certificate
root_of c = c.root

fmspc_of : PckChain → Option Text
fmspc_of c = c.fmspc

pcesvn_of : PckChain → Option ℕ
pcesvn_of c = c.pcesvn

module _ (env : Env) (quote : Bytes) (config : VerifyConfig TdxQuote MeasurementConfig) where
  accept :
      (q : TdxQuote) (c : PckChain) {u u' : Unit {0}}
      → parse_tdx_quote env.restructure quote ≡ ok q
      → chain_with_fallback env
          (extract_pem_certificates env.x509 q.signature.cert_data)
          config.extra_certdata
          (or_else config.date env.now)
          config.crls
        ≡ ok c
      → check_root_and_header env config q c ≡ ok u
      → check_signatures env config quote ≡ ok u'
      → finish_tdx env config q c.fmspc c.pcesvn ≡ ok true
      → IsTdxAccepted env quote config
  unfolding root_of fmspc_of pcesvn_of
  accept q c parsed chained checked signatures finished =
      let (is_valid, root, is_root, pinned, tee, key, cert) =
        root_and_header env quote config q c checked in
      let used = qe_certificates env q.signature config.extra_certdata in
      let time = or_else config.date env.now in
      let verified =
        chain_with_fallback-used env q.signature config.extra_certdata time config.crls c chained
          is_valid in
      let (leaf, above, walked, whole, trusted) =
        verify_pck_chain-valid env.hex env.x509 used (some time) config.crls c verified is_valid in
      let (qe, binding, over) = three_signatures env quote config signatures in
      let (region, is_region, signed) = region_signed env quote config q parsed over in
      let (fmspc, is_fmspc, pcesvn, is_pcesvn, tcb, measured) =
        finish_tdx-true env quote config q c.fmspc c.pcesvn finished in
      let root_is_last : some root ≡ some (last_of leaf above) = sym is_root ∙ ap root_of whole in
      let root_eq : root ≡ last_of leaf above = cc in
      record {
        q = q;
        parsed = parsed;
        leaf = leaf;
        above = above;
        walked = walked;
        trusted = trusted;
        pinned = rw (← root_eq) (is_pinned-Any env _ root pinned);
        is_tdx = tee;
        is_ecdsa = key;
        is_pck = cert;
        qe_signed = signed_by_leaf env quote config q parsed walked qe;
        qe_bound = bound env quote config q parsed binding;
        region = region;
        is_region = is_region;
        signed = signed;
        fmspc = fmspc;
        is_fmspc = sym (ap fmspc_of whole) ∙ is_fmspc;
        pcesvn = pcesvn;
        is_pcesvn = sym (ap pcesvn_of whole) ∙ is_pcesvn;
        tcb_accepted = λ f is_f. check_tcb-true env quote config q _ f tcb is_f;
        measured = λ m is_m. check_measurements-true env quote config q m measured is_m;
      }

  -- A TDX quote that is verified is signed, in the region that its version prescribes, by an
  -- attestation key that the quoting enclave's report binds; that report is signed by the leaf of a
  -- certificate chain that is trusted at the time of verification and ends at a pinned root; the
  -- TCB callback and the measurements accept what was parsed.
  pub verify_tdx-IsTdxAccepted :
      verify_tdx env quote config ≡ ok true → IsTdxAccepted env quote config
  unfolding verify_tdx verify_tdx_chain
  verify_tdx-IsTdxAccepted e =
      let ((q, c), found, e1) = >>=-eq-ok (verify_tdx_chain env quote config) _ e in
      let (q', parsed, e2) = >>=-eq-ok (parse_tdx_quote env.restructure quote) _ found in
      let (c', chained, e3) = >>=-eq-ok (chain_with_fallback env _ _ _ _) _ e2 in
      let (u, checked, e4) = >>=-eq-ok (check_root_and_header env config q c) _ e1 in
      let (u', signatures, e5) = >>=-eq-ok (check_signatures env config quote) _ e4 in
      let same_q : q' ≡ q = ap (λ (p : Result (TdxQuote × PckChain)). first_or q' p) e3 in
      let same_c : c' ≡ c = ap (λ (p : Result (TdxQuote × PckChain)). second_or c' p) e3 in
      accept q c (rw (← same_q) parsed) (rw (← same_q, ← same_c) chained) checked signatures e5
    where
      first_or : TdxQuote → Result (TdxQuote × PckChain) → TdxQuote
      first_or d (ok p) = p.0
      first_or d _ = d

      second_or : PckChain → Result (TdxQuote × PckChain) → PckChain
      second_or d (ok p) = p.1
      second_or d _ = d
