-- ===== src/Sev/Trust.antt =====
-- The outcome of `verifySevSnpCertChain`, packages/qvl/src/verifySev.ts, stated of the
-- certificates.
use teekit.Common.{
  ℕ, ◌≡◌, Bool, true, false, List, [], Option, some, All, &&-true, list_eq_iff, if◌then◌else◌,
}
use teekit.Result.{ok, >>=-eq-ok}
use teekit.Bytes.{Bytes}
use teekit.Packages.{Hex, X509, Certificate}
use teekit.Chain.{Status, valid, expired, revoked}
use teekit.Chain.Checks.{is_ca, all_within_validity}
use teekit.Chain.Revocation.{any_revoked}
use teekit.Chain.Trusted.{WithinValidity, AreNotRevoked, in_time_of, any_revoked-false}
use teekit.Chain.Trust.{passed, invalid-ne-valid, expired-ne-valid}
use teekit.Sev.Chain.{
  SevSnpCertChainResult, invalid_sev_chain, sev_chain, for_ark, signatures_hold, names_chain,
  cas_hold, check_sev_revocation, verify_sev_snp_cert_chain,
}

-- The ASK is issued and signed by the ARK, which signed itself and is a CA.
pub record IsRootOf (x : X509) (ask root : Certificate) : Type 0 where
  pub issued : ask.issuer ≡ root.subject
  pub signed : x.verify ask root ≡ true
  pub self_signed : x.verify root root ≡ true
  pub root_is_ca : is_ca root ≡ true

pub record IsSevTrusted (hex : Hex) (x : X509) (at_time : Option ℕ) (crls : List Bytes)
    (vcek ask : Certificate) (ark : Option Certificate) : Type 0 where
  pub issued : vcek.issuer ≡ ask.subject
  pub signed : x.verify vcek ask ≡ true
  pub ask_is_ca : is_ca ask ≡ true
  pub in_time : All (WithinValidity at_time) (sev_chain vcek ask ark)
  pub rooted : (root : Certificate) → ark ≡ some root → IsRootOf x ask root
  pub not_revoked : AreNotRevoked hex crls (sev_chain vcek ask ark)

for_ark-true :
    (ark : Option Certificate) (test : Certificate → Bool) (root : Certificate)
    → for_ark ark test ≡ true
    → ark ≡ some root
    → test root ≡ true
for_ark-true ark test root h e = rw e at h

sev_status : SevSnpCertChainResult → Status
sev_status c = c.status

module _ (hex : Hex) (x : X509) (vcek ask : Certificate) (ark : Option Certificate)
    (at_time : Option ℕ) (crls : List Bytes) where
  IsRootOf-checks :
      names_chain vcek ask ark ≡ true
      → signatures_hold x vcek ask ark ≡ true
      → cas_hold ask ark ≡ true
      → (root : Certificate) → ark ≡ some root
      → IsRootOf x ask root
  unfolding names_chain signatures_hold cas_hold
  IsRootOf-checks names signed cas root e =
      let both = for_ark-true ark _ root (&&-true _ _ signed).1 e in
      record {
        issued = (list_eq_iff _ _).0 (for_ark-true ark _ root (&&-true _ _ names).1 e);
        signed = (&&-true _ _ both).0;
        self_signed = (&&-true _ _ both).1;
        root_is_ca = for_ark-true ark _ root (&&-true _ _ cas).1 e;
      }

  check_sev_revocation-valid :
      {c : SevSnpCertChainResult}
      → check_sev_revocation hex x vcek ask ark crls ≡ ok c
      → c.status ≡ valid
      → (c ≡ record { status = valid; ark = ark; chain = sev_chain vcek ask ark })
        × AreNotRevoked hex crls (sev_chain vcek ask ark)
  unfolding check_sev_revocation
  check_sev_revocation-valid {c} e is_valid =
      let (found, read, e1) = >>=-eq-ok (any_revoked hex crls (sev_chain vcek ask ark)) _ e in
      by_found found read e1
    where
      whole : SevSnpCertChainResult
      whole = record { status = valid; ark = ark; chain = sev_chain vcek ask ark }

      by_found :
          (found : Bool)
          → any_revoked hex crls (sev_chain vcek ask ark) ≡ ok found
          → ok (
              if found
              then record { status = revoked; ark = ark; chain = [] }
              else record { status = valid; ark = ark; chain = sev_chain vcek ask ark })
            ≡ ok c
          → (c ≡ record { status = valid; ark = ark; chain = sev_chain vcek ask ark })
            × AreNotRevoked hex crls (sev_chain vcek ask ark)
      by_found true read e1 = cc
      by_found false read e1 = (cc, any_revoked-false hex crls (sev_chain vcek ask ark) read)

  -- If the chain is found valid at a time, with revocation lists, then the result has the root that
  -- was given and the whole chain; each certificate is issued and signed by the next, up to a root
  -- that signed itself if one was given; the issuers are CAs; all are in their validity at that
  -- time, and no list names any of them.
  pub verify_sev_snp_cert_chain-IsSevTrusted :
      (c : SevSnpCertChainResult)
      → verify_sev_snp_cert_chain hex x vcek ask ark at_time crls ≡ ok c
      → c.status ≡ valid
      → (c ≡ record { status = valid; ark = ark; chain = sev_chain vcek ask ark })
        × IsSevTrusted hex x at_time crls vcek ask ark
  unfolding verify_sev_snp_cert_chain sev_status
  verify_sev_snp_cert_chain-IsSevTrusted c e is_valid =
      let bad = invalid_sev_chain in
      let late : SevSnpCertChainResult = record {
        status = expired;
        ark = ark;
        chain = sev_chain vcek ask ark;
      } in
      let (names, e1) =
        passed sev_status (names_chain vcek ask ark) bad _ invalid-ne-valid e is_valid in
      let (times, e2) =
        passed sev_status (all_within_validity at_time (sev_chain vcek ask ark)) late _
          expired-ne-valid e1 is_valid in
      let (signed, e3) =
        passed sev_status (signatures_hold x vcek ask ark) bad _ invalid-ne-valid e2 is_valid in
      let (cas, e4) = passed sev_status (cas_hold ask ark) bad _ invalid-ne-valid e3 is_valid in
      let (whole, free) = check_sev_revocation-valid e4 is_valid in
      (
        whole,
        record {
          issued = unfold names_chain in (list_eq_iff _ _).0 (&&-true _ _ names).0;
          signed = unfold signatures_hold in (&&-true _ _ signed).0;
          ask_is_ca = unfold cas_hold in (&&-true _ _ cas).0;
          in_time = in_time_of at_time (sev_chain vcek ask ark) times;
          rooted = IsRootOf-checks names signed cas;
          not_revoked = free;
        },
      )
