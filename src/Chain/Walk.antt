-- ===== src/Chain/Walk.antt =====
-- The certificates of a quote as objects, the leaf among them, and the walk from it up the
-- issuers: the first part of `verifyPCKChain`, packages/qvl/src/verifyTdx.ts.
use teekit.Common.{
  ℕ, zero, suc, ◌+◌, Bool, true, false, List, [], ◌∷◌, Option, none, some, any, find, Text, list_eq,
  ◌==◌, if◌then◌else◌,
}
use teekit.Result.{Result, ok, ◌>>=◌}
use teekit.Packages.{X509, Certificate}

-- `certData.map((pem) => new QV_X509Certificate(pem))`: the objects differ from one another, so
-- each gets its position as its handle.
unfoldable pub new_certificates : X509 → ℕ → List Text → Result (List Certificate)
new_certificates x i [] = ok []
new_certificates x i (pem ∷ pems) = do
  c ← x.parse pem
  cs ← new_certificates x (i + 1) pems
  ok (record c { handle = i } ∷ cs)

-- `certs.some((other) => other.issuer === c.subject)`
unfoldable pub is_parent_of_any : List Certificate → Certificate → Bool
is_parent_of_any certs c = any (λ other. list_eq other.issuer c.subject) certs

-- The first certificate that issued none of the others, or else the first: the certificates are
-- `first ∷ more`, and `rest` is what the loop has not reached.
unfoldable pub leaf_from :
    (certs : List Certificate) → (first : Certificate) → List Certificate → Certificate
leaf_from certs first [] = first
leaf_from certs first (c ∷ rest) =
    let later = leaf_from certs first rest in if is_parent_of_any certs c then later else c

unfoldable pub find_leaf : Certificate → List Certificate → Certificate
find_leaf first more = leaf_from (first ∷ more) first (first ∷ more)

-- `certs.find((c) => c.subject === current.issuer)`
unfoldable pub find_parent : List Certificate → Certificate → Option Certificate
find_parent certs current = find (λ c. list_eq c.subject current.issuer) certs

-- What the loop pushes onto the chain behind `current`; `none` when the fuel is used up first. The
-- loop stops at a certificate with no issuer among the others, or that is its own issuer.
unfoldable pub walk : (fuel : ℕ) → List Certificate → Certificate → Option (List Certificate)
walk zero certs current = none
walk (suc fuel) certs current = elim (find_parent certs current) [
  | none ↦ some []
  | some parent ↦ elim (parent.handle == current.handle) [
    | true ↦ some []
    | false ↦ elim (walk fuel certs parent) [ none ↦ none | some more ↦ some (parent ∷ more) ]
  ]
]
