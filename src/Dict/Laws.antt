-- ===== src/Dict/Laws.antt =====
-- What a `Map` and a `Set` hold after an update.
use teekit.Common.{
  ◌≡◌, refl, ◌≢◌, arith, true, false, Option, none, some, [], ◌∷◌, List, if◌then◌else◌,
}
use teekit.Dict.{Key, Dict, get, has, set, delete, member, add, remove}

module _ {ℓ} {K : Type ℓ} ⦃k : Key K⦄ where
  pub same_refl : (a : K) → k.same a a ≡ true
  same_refl a = (k.same_iff a a).1 refl

  pub same_sym : (a b : K) → k.same a b ≡ k.same b a
  same_sym a b = ground (arith, k.same_iff a b, k.same_iff b a)

  pub same-false : (a b : K) → a ≢ b → k.same a b ≡ false
  same-false a b differ = ground (arith, k.same_iff a b)

  pub member-add :
      (j key : K) (keys : List K)
      → member j (add key keys) ≡ (if k.same key j then true else member j keys)
  unfolding member add
  member-add j key [] = refl
  member-add j key (x ∷ keys) =
      ground (arith, k.same_iff x key, k.same_iff key j, k.same_iff x j, member-add j key keys)

  pub member-remove :
      (j key : K) (keys : List K)
      → member j (remove key keys) ≡ (if k.same key j then false else member j keys)
  unfolding member remove
  member-remove j key [] = ground arith
  member-remove j key (x ∷ keys) =
      ground (arith, k.same_iff x key, k.same_iff key j, k.same_iff x j, member-remove j key keys)

  pub member-remove_self : (key : K) (keys : List K) → member key (remove key keys) ≡ false
  member-remove_self key keys = rw (member-remove key key keys, same_refl key)

  pub member-remove_ne :
      (j key : K) (keys : List K) → key ≢ j → member j (remove key keys) ≡ member j keys
  member-remove_ne j key keys differ = rw (member-remove j key keys, same-false key j differ)

module _ {ℓ κ} {K : Type ℓ} {V : Type κ} ⦃k : Key K⦄ where
  pub get-set :
      (j key : K) (value : V) (entries : Dict K V)
      → get j (set key value entries) ≡ (if k.same key j then some value else get j entries)
  unfolding get set
  get-set j key value [] = refl
  get-set j key value ((x, old) ∷ entries) =
      ground
        (arith, k.same_iff x key, k.same_iff key j, k.same_iff x j, get-set j key value entries)

  pub get-delete :
      (j key : K) (entries : Dict K V)
      → get j (delete key entries) ≡ (if k.same key j then none else get j entries)
  unfolding get delete
  get-delete j key [] = ground arith
  get-delete j key ((x, old) ∷ entries) =
      ground (arith, k.same_iff x key, k.same_iff key j, k.same_iff x j, get-delete j key entries)

  pub get-set_self :
      (key : K) (value : V) (entries : Dict K V) → get key (set key value entries) ≡ some value
  get-set_self key value entries = rw (get-set key key value entries, same_refl key)

  pub get-delete_self : (key : K) (entries : Dict K V) → get key (delete key entries) ≡ none
  get-delete_self key entries = rw (get-delete key key entries, same_refl key)

  pub get-set_ne :
      (j key : K) (value : V) (entries : Dict K V)
      → key ≢ j
      → get j (set key value entries) ≡ get j entries
  get-set_ne j key value entries differ = rw (get-set j key value entries, same-false key j differ)

  pub get-delete_ne :
      (j key : K) (entries : Dict K V) → key ≢ j → get j (delete key entries) ≡ get j entries
  get-delete_ne j key entries differ = rw (get-delete j key entries, same-false key j differ)

  pub get-delete-none :
      (j key : K) (entries : Dict K V) → get j entries ≡ none → get j (delete key entries) ≡ none
  get-delete-none j key entries absent = ground (arith, get-delete j key entries)

  pub has_of_get :
      (key : K) (entries : Dict K V) {value : V}
      → get key entries ≡ some value
      → has key entries ≡ true
  unfolding has
  has_of_get key entries found = rw (found, has)

  pub get_of_has :
      (key : K) (entries : Dict K V)
      → has key entries ≡ true
      → (value : V) × (get key entries ≡ some value)
  unfolding has
  get_of_has key entries there = by_value (get key entries) there
    where
      by_value :
          (found : Option V)
          → elim found [ none ↦ false | some value ↦ true ] ≡ true
          → (value : V) × (found ≡ some value)
      by_value none h = cc
      by_value (some value) h = (value, refl)

  pub get_of_not_has :
      (key : K) (entries : Dict K V) → has key entries ≡ false → get key entries ≡ none
  unfolding has
  get_of_not_has key entries absent = ground arith
