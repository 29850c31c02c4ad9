-- ===== src/Chain/Termination.antt =====
-- The walk up the issuers of `verifyPCKChain`, packages/qvl/src/verifyTdx.ts, and its fuel.
use teekit.Common.{
  ℕ, zero, suc, ◌+◌, ◌≤◌, ◌<◌, ◌≡◌, ◌≢◌, inl, inr, refl, arith, false, List, ◌∷◌, Option, none,
  some, length, Bool-cases, Option-cases, ◌==◌,
}
use teekit.Result.{stuck}
use teekit.Bytes.{Bytes}
use teekit.Packages.{Hex, X509, Certificate}
use teekit.Chain.Walk.{find_parent, find_leaf, walk}
use teekit.Chain.{chain_of, check_chain}

-- Numbers for the certificates that fall from each one to the issuer found for it.
pub record IsRanked (certs : List Certificate) (rank : Certificate → ℕ) : Type 0 where
  pub bounded : (c : Certificate) → rank c ≤ length certs
  pub falls :
      (c p : Certificate) → find_parent certs c ≡ some p → p.handle ≢ c.handle → rank p < rank c

differ : {a b : ℕ} → a ≡ b → (a == b) ≡ false → ⊥
differ e h = ground arith

one_more :
    (p : Certificate) (o : Option (List Certificate))
    → o ≢ none
    → (elim o [ none ↦ none | some more ↦ some (p ∷ more) ]) ≢ none
one_more p none h = absurd (h refl)
one_more p (some more) h = λ e. cc

walk-ne-none :
    (certs : List Certificate) (rank : Certificate → ℕ)
    → IsRanked certs rank
    → (fuel : ℕ) (c : Certificate) → rank c < fuel
    → walk fuel certs c ≢ none
unfolding walk
walk-ne-none certs rank ranked zero c h = absurd (omega arith)
walk-ne-none certs rank ranked (suc fuel) c h = elim (Option-cases (find_parent certs c)) [
  | inl top ↦ rw (top, walk) (λ e. cc)
  | inr (p, found) ↦ elim (Bool-cases (p.handle == c.handle)) [
    | inl same ↦ rw (found, same, walk) (λ e. cc)
    | inr other ↦
        rw (found, other, walk)
          (one_more p (walk fuel certs p) (
            walk-ne-none certs rank ranked fuel p
              (omega (arith, ranked.falls c p found (λ e. differ e other)))))
  ]
]

-- The walk takes as many steps as it likes: the certificates of a set all have their issuer in it,
-- and none is its own issuer.
pub walk-hangs :
    (certs : List Certificate) (InSet : Certificate → Type 0)
    → ((c : Certificate)
        → InSet c
        → (p : Certificate) × (find_parent certs c ≡ some p) × (p.handle ≢ c.handle) × InSet p)
    → (fuel : ℕ) (c : Certificate) → InSet c
    → walk fuel certs c ≡ none
unfolding walk
walk-hangs certs InSet closed zero c h = refl
walk-hangs certs InSet closed (suc fuel) c h =
    let (p, found, other, inside) = closed c h in
    let test : (p.handle == c.handle) ≡ false = ground arith in
    rw (found, test, walk-hangs certs InSet closed fuel p inside, walk)

module _ (hex : Hex) (x : X509) (at_time : Option ℕ) (crls : List Bytes) (first : Certificate)
    (more : List Certificate) where
  -- If the issuers can be ranked, the walk ends within its fuel and the chain that it finds is
  -- checked: there is no other way to have no result than in a revocation list.
  pub chain_of-total :
      (rank : Certificate → ℕ)
      → IsRanked (first ∷ more) rank
      → (above : List Certificate) × (chain_of hex x at_time crls first more
          ≡ check_chain hex x at_time crls (find_leaf first more) above)
  unfolding chain_of
  chain_of-total rank ranked = elim (Option-cases walked) [
    | inl out ↦ absurd (
        walk-ne-none (first ∷ more) rank ranked (suc (length more) + 1) (find_leaf first more)
          (omega (arith, ranked.bounded (find_leaf first more))) out)
    | inr (above, found) ↦ (above, rw (found, chain_of))
  ]
    where
      walked : Option (List Certificate)
      walked = walk (suc (length more) + 1) (first ∷ more) (find_leaf first more)

  -- If the leaf lies in a set of certificates that issued one another in a circle, verification
  -- does not end.
  pub chain_of-hangs :
      (InSet : Certificate → Type 0)
      → ((c : Certificate)
          → InSet c
          → (p : Certificate) × (find_parent (first ∷ more) c ≡ some p)
            × (p.handle ≢ c.handle)
            × InSet p)
      → InSet (find_leaf first more)
      → chain_of hex x at_time crls first more ≡ stuck
  unfolding chain_of
  chain_of-hangs InSet closed h = rw (
    walk-hangs (first ∷ more) InSet closed (suc (length more) + 1) (find_leaf first more) h,
    chain_of,
  )
