-- ===== src/Chain/Trust.antt =====
-- The outcome of all checks of `verifyPCKChain`, packages/qvl/src/verifyTdx.ts, together.
use teekit.Common.{
  ℕ, ◌≡◌, ◌≢◌, refl, ap, ◌∙◌, Bool, true, false, not, List, [], ◌∷◌, Option, none, some, last_of,
  if◌then◌else◌,
}
use teekit.Result.{Result, ok, >>=-eq-ok}
use teekit.Bytes.{Bytes}
use teekit.Packages.{Hex, X509, Certificate}
use teekit.Chain.Checks.{
  all_within_validity, links_match, terminal_verifies, links_verify, constraints_hold,
}
use teekit.Chain.Revocation.{any_revoked}
use teekit.Chain.{
  Status, valid, invalid, expired, revoked, PckChain, leaf_result, invalid_chain_result,
  check_revocation, check_chain,
}
use teekit.Chain.Trusted.{
  IsTrusted, AreNotRevoked, in_time_of, IsLinked-of, constraints_of, self_signed_of,
  any_revoked-false,
}

pub invalid-ne-valid : invalid ≢ valid
invalid-ne-valid e = cc

pub expired-ne-valid : expired ≢ valid
expired-ne-valid e = cc

-- A test that a valid result has passed, of any type of results that have a status.
pub passed :
    {A : Type 0} (status_of : A → Status) (test : Bool) (bad : A) (rest : Result A) {c : A}
    → status_of bad ≢ valid
    → (if not test then ok bad else rest) ≡ ok c
    → status_of c ≡ valid
    → (test ≡ true) × (rest ≡ ok c)
passed status_of true bad rest h e v = (refl, e)
passed {A} status_of false bad rest {c} h e v = absurd (h (ap status_of same ∙ v))
  where
    value_or : A → Result A → A
    value_or d (ok a) = a
    value_or d _ = d

    same : bad ≡ c
    same = ap (value_or bad) e

status_of : PckChain → Status
status_of c = c.status

module _ (hex : Hex) (x : X509) (at_time : Option ℕ) (crls : List Bytes) (leaf : Certificate)
    (above : List Certificate) where
  check_revocation-valid :
      {c : PckChain}
      → check_revocation hex x crls leaf above ≡ ok c
      → c.status ≡ valid
      → (c ≡ leaf_result valid (some (last_of leaf above)) (leaf ∷ above) leaf)
        × AreNotRevoked hex crls (leaf ∷ above)
  unfolding check_revocation
  check_revocation-valid {c} e is_valid =
      let (found, read, e1) = >>=-eq-ok (any_revoked hex crls (leaf ∷ above)) _ e in
      by_found found read e1
    where
      by_found :
          (found : Bool)
          → any_revoked hex crls (leaf ∷ above) ≡ ok found
          → ok (
              if found
              then leaf_result revoked none [] leaf
              else leaf_result valid (some (last_of leaf above)) (leaf ∷ above) leaf)
            ≡ ok c
          → (c ≡ leaf_result valid (some (last_of leaf above)) (leaf ∷ above) leaf)
            × AreNotRevoked hex crls (leaf ∷ above)
      by_found true read e1 = cc
      by_found false read e1 = (cc, any_revoked-false hex crls (leaf ∷ above) read)

  -- A chain that is found valid is the whole chain with its last certificate as root, and is
  -- trusted.
  pub check_chain-IsTrusted :
      (c : PckChain)
      → check_chain hex x at_time crls leaf above ≡ ok c
      → c.status ≡ valid
      → (c ≡ leaf_result valid (some (last_of leaf above)) (leaf ∷ above) leaf)
        × IsTrusted hex x at_time crls leaf above
  unfolding check_chain status_of
  check_chain-IsTrusted c e is_valid =
      let bad = invalid_chain_result in
      let late = leaf_result expired (some (last_of leaf above)) (leaf ∷ above) leaf in
      let (names, e1) =
        passed status_of (links_match leaf above) bad _ invalid-ne-valid e is_valid in
      let (times, e2) =
        passed status_of (all_within_validity at_time (leaf ∷ above)) late _ expired-ne-valid e1
          is_valid in
      let (terminal, e3) =
        passed status_of (terminal_verifies x leaf above) bad _ invalid-ne-valid e2 is_valid in
      let (signed, e4) =
        passed status_of (links_verify x leaf above) bad _ invalid-ne-valid e3 is_valid in
      let (constrained, e5) =
        passed status_of (constraints_hold leaf above) bad _ invalid-ne-valid e4 is_valid in
      let (whole, free) = check_revocation-valid e5 is_valid in
      let (no_ca, over) = constraints_of leaf above constrained in
      (
        whole,
        record {
          linked = IsLinked-of x leaf above names signed;
          in_time = in_time_of at_time (leaf ∷ above) times;
          self_signed = self_signed_of x leaf above terminal;
          leaf_is_no_ca = no_ca;
          issuers = over;
          not_revoked = free;
        },
      )
