-- ===== src/Measurements/Laws.antt =====
-- The meaning of measurement configurations, of packages/qvl/src/verifyTdx.ts, verifySgx.ts and
-- verifySev.ts.
use teekit.Common.{
  ℕ, ◌≡◌, ◌↔◌, ◌≢◌, ◌⊎◌, refl, sym, inl, inr, ap, ◌∙◌, ◌++◌, false, arith, Bool, true, List, [],
  ◌∷◌, Option, none, some, Text, list_eq_iff, to_lower_case, All, Any, ==_iff, Bool-cases,
}
use mathlib.Core.Path.{subst}
use teekit.Result.{Result, ok, err, stuck, >>=-eq-ok}
use teekit.Bytes.{Bytes, IsByte}
use teekit.Packages.{Hex}
use teekit.Measurements.{
  Item, measurements, verifier, Config, single, any_of, matches_hex, matches_number, check_item,
  check_any, check_config,
}

-- The expected value, if one is given, names exactly these bytes, in either letter case.
abbrev pub HexNames : Hex → Bytes → Option Text → Type 0
HexNames hex actual none = Unit
HexNames hex actual (some expected) = hex.decode (to_lower_case expected) ≡ some actual

abbrev pub NumberIs : ℕ → Option ℕ → Type 0
NumberIs actual none = Unit
NumberIs actual (some expected) = actual ≡ expected

pub matches_hex-HexNames :
    (hex : Hex) (actual : Bytes) (expected : Option Text)
    → All IsByte actual
    → matches_hex hex actual expected ≡ true
    → HexNames hex actual expected
unfolding matches_hex
matches_hex-HexNames hex actual none bytes h = tt
matches_hex-HexNames hex actual (some t) bytes h =
    let e = (list_eq_iff _ _).0 h in rw (← e) (hex.decode_encode actual bytes)

pub matches_number-NumberIs :
    (actual : ℕ) (expected : Option ℕ)
    → matches_number actual expected ≡ true
    → NumberIs actual expected
unfolding matches_number
matches_number-NumberIs actual none h = tt
matches_number-NumberIs actual (some n) h = (==_iff _ _).0 h

module _ {M Q : Type 0} (matches : Q → M → Bool) (q : Q) where
  -- An item accepts: its values match, or its callback answers true.
  abbrev pub Accepts : Item M Q → Type 0
  Accepts (measurements m) = matches q m ≡ true
  Accepts (verifier f) = f q ≡ ok true

  abbrev pub ConfigAccepts : Config M Q → Type 0
  ConfigAccepts (single item) = Accepts item
  ConfigAccepts (any_of items) = Any Accepts items

  check_item-Accepts : (item : Item M Q) → (check_item matches q item ≡ ok true) ↔ Accepts item
  unfolding check_item
  check_item-Accepts (measurements m) = ((λ e. ground arith), (λ e. rw e))
  check_item-Accepts (verifier f) = ((λ e. e), (λ e. e))

  check_any-Accepts :
      (items : List (Item M Q)) → check_any matches q items ≡ ok true → Any Accepts items
  unfolding check_any
  check_any-Accepts [] e = cc
  check_any-Accepts (item ∷ items) e =
      let (b, found, more) = >>=-eq-ok (check_item matches q item) _ e in
      elim (Bool-cases b) [
        | inl yes_b ↦ inl ((check_item-Accepts item).0 (found ∙ ap ok yes_b))
        | inr no_b ↦ inr (check_any-Accepts items (rw no_b at more))
      ]

  -- What an item answers.
  abbrev pub Answers : Item M Q → Result Bool → Type 0
  Answers (measurements m) r = ok (matches q m) ≡ r
  Answers (verifier f) r = f q ≡ r

  check_item-Answers :
      (item : Item M Q) (r : Result Bool) → (check_item matches q item ≡ r) ↔ Answers item r
  unfolding check_item
  check_item-Answers (measurements m) r = ((λ e. e), (λ e. e))
  check_item-Answers (verifier f) r = ((λ e. e), (λ e. e))

  -- All items answer false and so does the list; or those before some item answer false, and the
  -- list answers what that item does, an error too.
  abbrev pub ListAnswers : List (Item M Q) → Result Bool → Type 0
  ListAnswers items r =
      ((r ≡ ok false) × All (λ i. Answers i (ok false)) items)
      ⊎ ((r ≢ ok false)
          × (before : List (Item M Q)) × (item : Item M Q) × (after : List (Item M Q)) × (items
              ≡ before ++ item ∷ after)
          × All (λ i. Answers i (ok false)) before
          × Answers item r)

  abbrev pub ConfigAnswers : Config M Q → Result Bool → Type 0
  ConfigAnswers (single item) r = Answers item r
  ConfigAnswers (any_of items) r = ListAnswers items r

  later-ListAnswers :
      (item : Item M Q) (items : List (Item M Q)) (r : Result Bool)
      → Answers item (ok false)
      → ListAnswers items r
      → ListAnswers (item ∷ items) r
  later-ListAnswers item items r denied (inl (e, all)) = inl (e, (denied, all))
  later-ListAnswers item items r denied (inr (differs, before, i, after, parts, all, answer)) =
      inr (
        differs,
        item ∷ before,
        i,
        after,
        ap (λ (l : List (Item M Q)). item ∷ l) parts,
        (denied, all),
        answer,
      )

  -- An item in front, by its answer.
  step-ListAnswers :
      (item : Item M Q) (items : List (Item M Q)) (a : Result Bool)
      → check_item matches q item ≡ a
      → ListAnswers items (check_any matches q items)
      → ListAnswers (item ∷ items) (check_any matches q (item ∷ items))
  unfolding check_any
  step-ListAnswers item items (ok false) e rest =
      rw (e, check_any)
        (later-ListAnswers item items (check_any matches q items)
          ((check_item-Answers item (ok false)).0 e) rest)
  step-ListAnswers item items (ok true) e rest =
      let answer = (check_item-Answers item (ok true)).0 e in
      rw (e, check_any) (inr ((λ same. cc), [], item, items, refl, tt, answer))
  step-ListAnswers item items (err fault) e rest =
      let answer = (check_item-Answers item (err fault)).0 e in
      rw (e, check_any) (inr ((λ same. cc), [], item, items, refl, tt, answer))
  step-ListAnswers item items stuck e rest =
      let answer = (check_item-Answers item stuck).0 e in
      rw (e, check_any) (inr ((λ same. cc), [], item, items, refl, tt, answer))

  check_any-ListAnswers : (items : List (Item M Q)) → ListAnswers items (check_any matches q items)
  unfolding check_any
  check_any-ListAnswers [] = inl (refl, tt)
  check_any-ListAnswers (item ∷ items) =
      step-ListAnswers item items (check_item matches q item) refl (check_any-ListAnswers items)

  check_any-none :
      (items : List (Item M Q))
      → All (λ i. Answers i (ok false)) items
      → check_any matches q items ≡ ok false
  unfolding check_any
  check_any-none [] all = refl
  check_any-none (item ∷ items) (denied, all) =
      rw ((check_item-Answers item (ok false)).1 denied, check_any) (check_any-none items all)

  check_any-first :
      (before : List (Item M Q)) (item : Item M Q) (after : List (Item M Q)) (r : Result Bool)
      → r ≢ ok false
      → All (λ i. Answers i (ok false)) before
      → Answers item r
      → check_any matches q (before ++ item ∷ after) ≡ r
  unfolding check_any
  check_any-first [] item after (ok true) differs all answer =
      rw ((check_item-Answers item (ok true)).1 answer, check_any) refl
  check_any-first [] item after (ok false) differs all answer = absurd (differs refl)
  check_any-first [] item after (err fault) differs all answer =
      rw ((check_item-Answers item (err fault)).1 answer, check_any) refl
  check_any-first [] item after stuck differs all answer =
      rw ((check_item-Answers item stuck).1 answer, check_any) refl
  check_any-first (i ∷ before) item after r differs (denied, all) answer =
      rw ((check_item-Answers i (ok false)).1 denied, check_any)
        (check_any-first before item after r differs all answer)

  -- A configuration answers `r` exactly if its one item does, or if it is a list and `r` is the answer
  -- of the first item that does not answer false, an error too, or false if all items answer that:
  -- the items behind the first that accepts or fails do not matter.
  pub check_config_iff :
      (c : Config M Q) (r : Result Bool) → (check_config matches q c ≡ r) ↔ ConfigAnswers c r
  unfolding check_config
  check_config_iff (single item) r = check_item-Answers item r
  check_config_iff (any_of items) r =
      ((λ e. subst (ListAnswers items) e (check_any-ListAnswers items)), backward)
    where
      backward : ListAnswers items r → check_any matches q items ≡ r
      backward (inl (e, all)) = check_any-none items all ∙ sym e
      backward (inr (differs, before, item, after, parts, all, answer)) =
          ap (check_any matches q) parts ∙ check_any-first before item after r differs all answer

  pub check_config-ConfigAccepts :
      (c : Config M Q) → check_config matches q c ≡ ok true → ConfigAccepts c
  unfolding check_config
  check_config-ConfigAccepts (single item) e = (check_item-Accepts item).0 e
  check_config-ConfigAccepts (any_of items) e = check_any-Accepts items e
