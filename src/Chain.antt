-- ===== src/Chain.antt =====
-- `verifyPCKChain` of packages/qvl/src/verifyTdx.ts: from the certificates of a quote to a chain of
-- issuers with its status. `stuck` means that the walk up the issuers has not ended within its fuel.
pub mod Walk
pub mod Checks
pub mod Revocation
pub mod Termination
pub mod Trusted
pub mod Trust
use teekit.Common.{
  ℕ, suc, ◌+◌, Bool, true, false, not, ◌&&◌, List, [], ◌∷◌, Option, none, some, length, any,
  last_of, Text, list_eq, if◌then◌else◌,
}
use teekit.Result.{Result, ok, err, stuck, ◌>>=◌}
use teekit.Bytes.{Bytes}
use teekit.Packages.{Hex, X509, Certificate}
use teekit.Chain.Walk.{new_certificates, find_leaf, walk}
use teekit.Chain.Checks.{
  all_within_validity, links_match, terminal_verifies, links_verify, constraints_hold,
}
use teekit.Chain.Revocation.{any_revoked}

pub data Status : Type 0 where
  valid invalid expired revoked : Status

pub record PckChain : Type 0 where
  pub status : Status
  pub root : Option Certificate
  pub chain : List Certificate
  pub fmspc : Option Text
  pub pcesvn : Option ℕ

abbrev pub invalid_chain_result : PckChain
invalid_chain_result = record {
  status = invalid;
  root = none;
  chain = [];
  fmspc = none;
  pcesvn = none;
}

-- A result with the leaf's extension values.
abbrev pub leaf_result : Status → Option Certificate → List Certificate → Certificate → PckChain
leaf_result status root chain leaf = record {
  status = status;
  root = root;
  chain = chain;
  fmspc = leaf.fmspc;
  pcesvn = leaf.pcesvn;
}

module _ (hex : Hex) (x : X509) where
  -- The last check, against the revocation lists.
  unfoldable pub check_revocation : List Bytes → Certificate → List Certificate → Result PckChain
  check_revocation crls leaf above = do
    found ← any_revoked hex crls (leaf ∷ above)
    ok (
        if found
        then leaf_result revoked none [] leaf
        else leaf_result valid (some (last_of leaf above)) (leaf ∷ above) leaf)

  -- All checks of the chain `leaf ∷ above`, in the order of the source.
  unfoldable pub check_chain :
      Option ℕ → List Bytes → Certificate → List Certificate → Result PckChain
  check_chain at_time crls leaf above =
      if not (links_match leaf above)
      then ok invalid_chain_result
      else if not (all_within_validity at_time (leaf ∷ above))
      then ok (leaf_result expired (some (last_of leaf above)) (leaf ∷ above) leaf)
      else if not (terminal_verifies x leaf above)
      then ok invalid_chain_result
      else if not (links_verify x leaf above)
      then ok invalid_chain_result
      else if not (constraints_hold leaf above)
      then ok invalid_chain_result
      else check_revocation crls leaf above

  -- The chain of the certificates `first ∷ more`. A walk that visits no certificate twice has at
  -- most as many steps as there are certificates.
  unfoldable pub chain_of : Option ℕ → List Bytes → Certificate → List Certificate → Result PckChain
  chain_of at_time crls first more =
      let leaf = find_leaf first more in
      elim (walk (suc (length more) + 1) (first ∷ more) leaf) [
        | none ↦ stuck
        | some above ↦ check_chain at_time crls leaf above
      ]

  unfoldable pub verify_pck_chain : List Text → Option ℕ → List Bytes → Result PckChain
  verify_pck_chain cert_data at_time crls = do
    certs ← new_certificates x 0 cert_data
    elim certs [ [] ↦ ok invalid_chain_result | first ∷ more ↦ chain_of at_time crls first more ]
