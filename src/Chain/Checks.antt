-- ===== src/Chain/Checks.antt =====
-- The checks that `verifyPCKChain` of packages/qvl/src/verifyTdx.ts makes of a chain, from the
-- leaf up.
use teekit.Common.{
  ℕ, ◌+◌, Bool, true, false, not, ◌&&◌, List, [], ◌∷◌, Option, none, some, last_of, list_eq, leb,
  if◌then◌else◌,
}
use teekit.Packages.{X509, Certificate}

-- `notBefore <= verifyAtTimeMs && verifyAtTimeMs <= notAfter`
unfoldable pub is_within_validity : ℕ → Certificate → Bool
is_within_validity t c = leb c.not_before t && leb t c.not_after

-- The loop over the validity windows; there is no test without a time.
unfoldable pub all_within_validity : Option ℕ → List Certificate → Bool
all_within_validity none chain = true
all_within_validity (some t) [] = true
all_within_validity (some t) (c ∷ chain) =
    is_within_validity t c && all_within_validity (some t) chain

-- `child.issuer !== parent.subject` for no link
unfoldable pub links_match : Certificate → List Certificate → Bool
links_match child [] = true
links_match child (parent ∷ above) = list_eq child.issuer parent.subject && links_match parent above

-- The terminal certificate, if it is self-signed, verifies itself.
unfoldable pub terminal_verifies : X509 → Certificate → List Certificate → Bool
terminal_verifies x leaf above =
    let terminal = last_of leaf above in
    if list_eq terminal.subject terminal.issuer then x.verify terminal terminal else true

-- Each child is signed by its parent.
unfoldable pub links_verify : X509 → Certificate → List Certificate → Bool
links_verify x child [] = true
links_verify x child (parent ∷ above) = x.verify child parent && links_verify x parent above

-- `bc ? !!bc.ca : false`
unfoldable pub is_ca : Certificate → Bool
is_ca c = elim c.basic_constraints [ none ↦ false | some bc ↦ bc.ca ]

-- How many of the certificates below, from the leaf up to the issuer, are CAs, against the path
-- length of the issuer, if it has one.
unfoldable pub path_length_holds : ℕ → Certificate → Bool
path_length_holds subsequent_cas c = elim c.basic_constraints [
  | none ↦ true
  | some bc ↦ elim bc.path_length [ none ↦ true | some n ↦ leb subsequent_cas n ]
]

-- One more CA below, if the certificate is one.
abbrev pub count_ca : Certificate → ℕ → ℕ
count_ca c n = if is_ca c then n + 1 else n

-- The loop over the issuers, with the number of CAs below the next one.
unfoldable pub issuers_hold : (cas_below : ℕ) → List Certificate → Bool
issuers_hold cas_below [] = true
issuers_hold cas_below (issuer ∷ above) =
    is_ca issuer
    && path_length_holds cas_below issuer
    && issuers_hold (count_ca issuer cas_below) above

unfoldable pub constraints_hold : Certificate → List Certificate → Bool
constraints_hold leaf above = not (is_ca leaf) && issuers_hold (count_ca leaf 0) above
