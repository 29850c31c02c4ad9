-- ===== src/Dict/Entries.antt =====
-- Properties of all entries of a `Map`.
use teekit.Common.{◌≡◌, arith, false, some, [], ◌∷◌, All, Bool-cases, inl, inr}
use teekit.Dict.{Key, Dict, get, set, delete}

module _ {ℓ κ} {K : Type ℓ} {V : Type κ} ⦃k : Key K⦄ where
  pub All-get {μ} :
      (P : K × V → Type μ) (key : K) (entries : Dict K V) {value : V}
      → All P entries
      → get key entries ≡ some value
      → P (key, value)
  unfolding get
  All-get P key [] all found = absurd (cc)
  All-get P key ((j, v) ∷ entries) {value} (first, all) found = elim (Bool-cases (k.same j key)) [
    | inl same ↦
        let e : j ≡ key = (k.same_iff j key).0 same in
        let w : v ≡ value = ground arith in rw (← e, ← w) first
    | inr other ↦ All-get P key entries all (rw other at found)
  ]

  pub All-set {μ} :
      (P : K × V → Type μ) (key : K) (value : V) (entries : Dict K V)
      → All P entries
      → P (key, value)
      → All P (set key value entries)
  unfolding set
  All-set P key value [] all new = (new, tt)
  All-set P key value ((j, v) ∷ entries) (first, all) new = elim (Bool-cases (k.same j key)) [
    | inl same ↦ rw same (new, all)
    | inr other ↦ rw other (first, All-set P key value entries all new)
  ]

  -- What remains is another key's.
  pub All-delete {μ ν} :
      (P : K × V → Type μ) (Q : K × V → Type ν) (key : K) (entries : Dict K V)
      → ((e : K × V) → k.same e.0 key ≡ false → P e → Q e)
      → All P entries
      → All Q (delete key entries)
  unfolding delete
  All-delete P Q key [] keep all = tt
  All-delete P Q key ((j, v) ∷ entries) keep (first, all) = elim (Bool-cases (k.same j key)) [
    | inl same ↦ rw same (All-delete P Q key entries keep all)
    | inr other ↦ rw other (keep (j, v) other first, All-delete P Q key entries keep all)
  ]

  pub All-imp {μ ν} :
      (P : K × V → Type μ) (Q : K × V → Type ν) (entries : Dict K V)
      → ((e : K × V) → P e → Q e)
      → All P entries
      → All Q entries
  All-imp P Q [] keep all = tt
  All-imp P Q (e ∷ entries) keep (first, all) = (keep e first, All-imp P Q entries keep all)

  pub All-and {μ ν} :
      (P : K × V → Type μ) (Q : K × V → Type ν) (entries : Dict K V)
      → All P entries
      → All Q entries
      → All (λ e. P e × Q e) entries
  All-and P Q [] p q = tt
  All-and P Q (e ∷ entries) (p, ps) (q, qs) = ((p, q), All-and P Q entries ps qs)
