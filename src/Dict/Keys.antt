-- ===== src/Dict/Keys.antt =====
-- Maps in which no key stands twice, as in JavaScript.
use teekit.Common.{◌≡◌, refl, arith, none, [], ◌∷◌}
use teekit.Dict.{Key, Dict, get, set, delete}
use teekit.Dict.Laws.{get-set, get-delete}

module _ {ℓ κ} {K : Type ℓ} {V : Type κ} ⦃k : Key K⦄ where
  abbrev pub IsUnique : Dict K V → Type κ
  IsUnique [] = Unit
  IsUnique ((key, value) ∷ entries) = (get key entries ≡ none) × IsUnique entries

  pub set-IsUnique :
      (key : K) (value : V) (entries : Dict K V)
      → IsUnique entries
      → IsUnique (set key value entries)
  unfolding get set
  set-IsUnique key value [] u = (refl, tt)
  set-IsUnique key value ((j, old) ∷ entries) (fresh, u) = ground (
    arith,
    k.same_iff j key,
    k.same_iff key j,
    set-IsUnique key value entries u,
    get-set j key value entries,
  )

  pub delete-IsUnique :
      (key : K) (entries : Dict K V) → IsUnique entries → IsUnique (delete key entries)
  unfolding get delete
  delete-IsUnique key [] u = tt
  delete-IsUnique key ((j, old) ∷ entries) (fresh, u) =
      ground (arith, k.same_iff key j, delete-IsUnique key entries u, get-delete j key entries)
