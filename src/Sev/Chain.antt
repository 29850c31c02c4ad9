-- ===== src/Sev/Chain.antt =====
-- `verifySevSnpCertChain` of packages/qvl/src/verifySev.ts: VCEK, ASK and, if it is given, ARK.
use teekit.Common.{
  ℕ, Bool, true, not, ◌&&◌, List, [], ◌∷◌, Option, none, some, list_eq, if◌then◌else◌,
}
use teekit.Result.{Result, ok, ◌>>=◌}
use teekit.Bytes.{Bytes}
use teekit.Packages.{Hex, X509, Certificate}
use teekit.Chain.{Status, valid, invalid, expired, revoked}
use teekit.Chain.Checks.{all_within_validity, is_ca}
use teekit.Chain.Revocation.{any_revoked}

pub record SevSnpCertChainResult : Type 0 where
  pub status : Status
  pub ark : Option Certificate
  pub chain : List Certificate

abbrev pub invalid_sev_chain : SevSnpCertChainResult
invalid_sev_chain = record { status = invalid; ark = none; chain = [] }

-- `[vcekCert, askCert]`, and the ARK if there is one
abbrev pub sev_chain : Certificate → Certificate → Option Certificate → List Certificate
sev_chain vcek ask none = vcek ∷ ask ∷ []
sev_chain vcek ask (some ark) = vcek ∷ ask ∷ ark ∷ []

-- A test of the ARK that is made only if there is one.
abbrev pub for_ark : Option Certificate → (Certificate → Bool) → Bool
for_ark none test = true
for_ark (some ark) test = test ark

-- VCEK by ASK, ASK by ARK, ARK by itself; what `verify` throws counts as a signature that fails.
unfoldable pub signatures_hold : X509 → Certificate → Certificate → Option Certificate → Bool
signatures_hold x vcek ask ark =
    x.verify vcek ask && for_ark ark (λ root. x.verify ask root && x.verify root root)

unfoldable pub names_chain : Certificate → Certificate → Option Certificate → Bool
names_chain vcek ask ark =
    list_eq vcek.issuer ask.subject && for_ark ark (λ root. list_eq ask.issuer root.subject)

unfoldable pub cas_hold : Certificate → Option Certificate → Bool
cas_hold ask ark = is_ca ask && for_ark ark is_ca

module _ (hex : Hex) (x : X509) where
  -- The last check, against the revocation lists.
  unfoldable pub check_sev_revocation :
      Certificate → Certificate → Option Certificate → List Bytes → Result SevSnpCertChainResult
  check_sev_revocation vcek ask ark crls = do
    found ← any_revoked hex crls (sev_chain vcek ask ark)
    ok (
        if found
        then record { status = revoked; ark = ark; chain = [] }
        else record { status = valid; ark = ark; chain = sev_chain vcek ask ark })

  -- A time that is `null` or `undefined` is `none`; no lists are the empty list.
  unfoldable pub verify_sev_snp_cert_chain :
      Certificate
      → Certificate
      → Option Certificate
      → (at_time : Option ℕ) → (crls : List Bytes) → Result SevSnpCertChainResult
  verify_sev_snp_cert_chain vcek ask ark at_time crls =
      if not (names_chain vcek ask ark)
      then ok invalid_sev_chain
      else if not (all_within_validity at_time (sev_chain vcek ask ark))
      then ok (record { status = expired; ark = ark; chain = sev_chain vcek ask ark })
      else if not (signatures_hold x vcek ask ark)
      then ok invalid_sev_chain
      else if not (cas_hold ask ark)
      then ok invalid_sev_chain
      else check_sev_revocation vcek ask ark crls
