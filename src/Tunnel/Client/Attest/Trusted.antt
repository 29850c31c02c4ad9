-- ===== src/Tunnel/Client/Attest/Trusted.antt =====
-- What a server has shown when `attest` of packages/tunnel/src/client.ts gives an answer: the verifiers
-- of packages/qvl accept its quote, and the quote names its key.
use teekit.Common.{
  ◌≡◌, ◌≢◌, ◌⊎◌, sym, ap, ◌∙◌, Bool, true, false, Option, none, some, [], ◌∷◌, ◌++◌, take, Text,
  list_eq_iff,
}
use teekit.Result.{
  Result, ok, err, >>=-eq-ok, missing_verifier_data, missing_nonce, missing_issued_at,
  missing_x25519_key,
}
use teekit.Bytes.{Bytes}
use teekit.Measurements.Laws.{ConfigAccepts}
use teekit.Quote.TdxBody
use teekit.Quote.SgxBody
use teekit.Quote.Parse.{TdxQuote, SgxQuote, parse_tdx_quote, parse_sgx_quote}
use teekit.Tdx
use teekit.Tdx.{verify_tdx, verify_tdx_measurements}
use teekit.Tdx.Steps.{IsTdxAccepted}
use teekit.Sgx
use teekit.Sgx.{verify_sgx, verify_sgx_measurements}
use teekit.Sgx.Steps.{IsSgxAccepted}
use teekit.Sev.Body
use teekit.Sev.Report.{SevSnpReport, parse_sev_snp_report}
use teekit.Sev.Laws.{IsSevAccepted}
use teekit.Userdata.Laws.{is_userdata_bound_iff}
use teekit.Tunnel.Message.{VerifierNonce, VerifierData, intel, plain}
use teekit.Tunnel.Client.{
  Channel, ReportBindingData, TdxClientConfig, SgxClientConfig, SevSnpClientConfig, ClientRuntime,
}
use teekit.Tunnel.Client.Attest.{sev_config, is_debug_enclave, no_config}
use teekit.Tunnel.Client.Binding.{
  present_or, verifier_data_of, plain_val, intel_nonce, is_x25519_bound, is_sgx_x25519_bound,
  is_sevsnp_x25519_bound,
}
use teekit.Tunnel.Client.Attest.Keyed.{ok_injective, present_or-ok}

-- The default validation of the binding, or the configured one.
abbrev pub IsBindingValid : Option (Channel → Result Bool) → Channel → Type 0 → Type 0
IsBindingValid none c bound = bound
IsBindingValid (some f) c bound = f c ≡ ok true

intel_nonce-ok :
    (data_ : VerifierData) {given : VerifierNonce}
    → intel_nonce data_ ≡ ok given
    → data_ ≡ intel given
intel_nonce-ok (plain b) h = cc
intel_nonce-ok (intel g) h = cc

module _ (rt : ClientRuntime) where
  -- TDX: the digest of nonce, time of issue and key.
  abbrev pub IsTdxBound : Channel → TdxQuote → Type 0
  IsTdxBound c q =
      (given : VerifierNonce) × (nonce iat key : Bytes) × (verifier_data_of c ≡ some (intel given))
      × (given.val ≡ some nonce)
      × (given.iat ≡ some iat)
      × (c.server_x25519_public_key ≡ some key)
      × (TdxBody.report_data q.body
          ≡ rt.env.crypto.sha512 (rt.env.crypto.concat (nonce ∷ iat ∷ key ∷ [])))

  -- SGX: the digest of the key in the first half.
  abbrev pub IsSgxBound : Channel → SgxQuote → Type 0
  IsSgxBound c q =
      (key : Bytes) × (c.server_x25519_public_key ≡ some key)
      × (take 32 (SgxBody.report_data q.body) ≡ rt.env.crypto.sha256 key)

  -- SEV-SNP: the digest of nonce and key.
  abbrev pub IsSevBound : Channel → SevSnpReport → Type 0
  IsSevBound c report =
      (given : VerifierData) × (nonce key : Bytes) × (verifier_data_of c ≡ some given)
      × (plain_val given ≡ some nonce)
      × (c.server_x25519_public_key ≡ some key)
      × (Body.report_data report.body ≡ rt.env.crypto.sha512 (nonce ++ key))

  pub is_x25519_bound-IsTdxBound :
      (c : Channel) (q : TdxQuote)
      → is_x25519_bound rt c (TdxBody.report_data q.body) ≡ ok true
      → IsTdxBound c q
  unfolding is_x25519_bound
  is_x25519_bound-IsTdxBound c q e =
      let missing_data : Result VerifierData = err missing_verifier_data in
      let (data_, e0, e1) = >>=-eq-ok (present_or (verifier_data_of c) missing_data) _ e in
      let (given, e2, e3) = >>=-eq-ok (intel_nonce data_) _ e1 in
      let (nonce, e4, e5) = >>=-eq-ok (present_or given.val (err missing_nonce)) _ e3 in
      let (iat, e6, e7) = >>=-eq-ok (present_or given.iat (err missing_issued_at)) _ e5 in
      let (key, e8, e9) =
        >>=-eq-ok (present_or c.server_x25519_public_key (err missing_x25519_key)) _ e7 in
      let (u, v, w, same) =
        (is_userdata_bound_iff rt.env.crypto (TdxBody.report_data q.body) nonce iat key).0 e9 in
      (
        given,
        nonce,
        iat,
        key,
        present_or-ok _ (λ h. cc) e0 ∙ ap some (intel_nonce-ok data_ e2),
        present_or-ok _ (λ h. cc) e4,
        present_or-ok _ (λ h. cc) e6,
        present_or-ok _ (λ h. cc) e8,
        same,
      )

  pub is_sgx_x25519_bound-IsSgxBound :
      (c : Channel) (q : SgxQuote)
      → is_sgx_x25519_bound rt c (SgxBody.report_data q.body) ≡ ok true
      → IsSgxBound c q
  unfolding is_sgx_x25519_bound
  is_sgx_x25519_bound-IsSgxBound c q e =
      let (key, e0, e1) =
        >>=-eq-ok (present_or c.server_x25519_public_key (err missing_x25519_key)) _ e in
      (key, present_or-ok _ (λ h. cc) e0, sym ((list_eq_iff _ _).0 (ok_injective e1)))

  pub is_sevsnp_x25519_bound-IsSevBound :
      (c : Channel) (report : SevSnpReport)
      → is_sevsnp_x25519_bound rt c (Body.report_data report.body) ≡ ok true
      → IsSevBound c report
  unfolding is_sevsnp_x25519_bound
  is_sevsnp_x25519_bound-IsSevBound c report e =
      let (given, e0, e1) =
        >>=-eq-ok (present_or (verifier_data_of c) (err missing_verifier_data)) _ e in
      let (key, e2, e3) =
        >>=-eq-ok (present_or c.server_x25519_public_key (err missing_x25519_key)) _ e1 in
      let (nonce, e4, e5) = >>=-eq-ok (present_or (plain_val given) (err missing_nonce)) _ e3 in
      (
        given,
        nonce,
        key,
        present_or-ok _ (λ h. cc) e0,
        present_or-ok _ (λ h. cc) e4,
        present_or-ok _ (λ h. cc) e2,
        sym ((list_eq_iff _ _).0 (ok_injective e5)),
      )

  -- `quote` is the message's, `c` has the fields by the time of the last check.
  pub record IsTdxTrusted (config : TdxClientConfig) (binding : Option (Channel → Result Bool))
      (quote : Bytes) (c : Channel) (q : TdxQuote) : Type 0 where
    pub parsed : parse_tdx_quote rt.env.restructure quote ≡ ok q
    pub accepted : IsTdxAccepted rt.env quote no_config
    pub strategy : (config.measurements ≢ none) ⊎ (config.custom_verify_quote ≢ none)
    pub custom : (f : TdxQuote → Result Bool) → config.custom_verify_quote ≡ some f → f q ≡ ok true
    pub measured :
        (m : Tdx.MeasurementConfig)
        → config.measurements ≡ some m
        → ConfigAccepts (Tdx.matches_measurements rt.env.hex) q m
    pub bound : IsBindingValid binding c (IsTdxBound c q)

  pub record IsSgxTrusted (config : SgxClientConfig) (binding : Option (Channel → Result Bool))
      (quote : Bytes) (c : Channel) (q : SgxQuote) : Type 0 where
    pub parsed : parse_sgx_quote rt.env.restructure quote ≡ ok q
    pub accepted : IsSgxAccepted rt.env quote no_config
    pub no_debug : (is_debug_enclave q ≡ false) ⊎ (config.allow_debug_enclaves ≡ true)
    pub strategy : (config.measurements ≢ none) ⊎ (config.custom_verify_quote ≢ none)
    pub custom : (f : SgxQuote → Result Bool) → config.custom_verify_quote ≡ some f → f q ≡ ok true
    pub measured :
        (m : Sgx.MeasurementConfig)
        → config.measurements ≡ some m
        → ConfigAccepts (Sgx.matches_measurements rt.env.hex) q m
    pub bound : IsBindingValid binding c (IsSgxBound c q)

  pub record IsSevTrusted (config : SevSnpClientConfig) (binding : Option (Channel → Result Bool))
      (quote : Bytes) (data_ : ReportBindingData) (c : Channel) (report : SevSnpReport)
      : Type 0 where
    pub parsed : parse_sev_snp_report rt.env.restructure quote ≡ ok report
    pub vcek : Text
    pub given : data_.vcek_cert ≡ some vcek
    pub is_given : vcek ≢ []
    pub accepted :
        IsSevAccepted rt.env rt.default_amd_ark_certs quote (sev_config data_ vcek config)
    pub custom :
        (f : SevSnpReport → Result Bool) → config.custom_verify_quote ≡ some f → f report ≡ ok true
    pub bound : IsBindingValid binding c (IsSevBound c report)
