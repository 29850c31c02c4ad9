-- ===== src/Dict.antt =====
-- `Map` of JavaScript as an association list in the order of insertion, with the laws by which the
-- maps of the tunnel's server and client are used.
pub mod Laws
pub mod Keys
pub mod Entries
use teekit.Common.{
  ℕ, ◌≡◌, ◌↔◌, Bool, true, false, Option, none, some, List, [], ◌∷◌, map, Text, list_eq,
  list_eq_iff, ◌==◌, ==_iff, if◌then◌else◌,
}

pub record Key {ℓ} (K : Type ℓ) : Type ℓ where
  pub same : K → K → Bool
  pub same_iff : (a b : K) → (same a b ≡ true) ↔ (a ≡ b)

instance abbrev pub number_key : Key ℕ
number_key = record { same = ◌==◌; same_iff = ==_iff }

instance abbrev pub text_key : Key Text
text_key = record { same = list_eq; same_iff = list_eq_iff }

abbrev pub Dict {ℓ κ} : Type ℓ → Type κ → Type (ℓ ⊔ κ)
Dict K V = List (K × V)

-- A `Set` is the list of its members.
module _ {ℓ κ} {K : Type ℓ} {V : Type κ} ⦃k : Key K⦄ where
  unfoldable pub get : K → Dict K V → Option V
  get key [] = none
  get key ((j, value) ∷ entries) = if k.same j key then some value else get key entries

  unfoldable pub has : K → Dict K V → Bool
  unfolding get
  has key entries = elim (get key entries) [ none ↦ false | some value ↦ true ]

  -- A key that is there keeps its place.
  unfoldable pub set : K → V → Dict K V → Dict K V
  set key value [] = (key, value) ∷ []
  set key value ((j, old) ∷ entries) =
      if k.same j key then (key, value) ∷ entries else (j, old) ∷ set key value entries

  unfoldable pub delete : K → Dict K V → Dict K V
  delete key [] = []
  delete key ((j, value) ∷ entries) =
      let rest = delete key entries in if k.same j key then rest else (j, value) ∷ rest

module _ {ℓ} {K : Type ℓ} ⦃k : Key K⦄ where
  unfoldable pub member : K → List K → Bool
  member key [] = false
  member key (j ∷ keys) = if k.same j key then true else member key keys

  unfoldable pub add : K → List K → List K
  unfolding member
  add key [] = key ∷ []
  add key (j ∷ keys) = if k.same j key then j ∷ keys else j ∷ add key keys

  unfoldable pub remove : K → List K → List K
  remove key [] = []
  remove key (j ∷ keys) = let rest = remove key keys in if k.same j key then rest else j ∷ rest
