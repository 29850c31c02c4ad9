-- ===== src/Userdata/Laws.antt =====
-- The meaning of `isUserdataBound`, packages/qvl/src/utils.ts.
use teekit.Common.{◌≡◌, ◌≢◌, ◌↔◌, refl, sym, ◌∙◌, true, false, not, [], ◌∷◌}
use teekit.Result.{ok, >>=-eq-ok, require-eq-ok}
use teekit.Bytes.{Bytes}
use teekit.Packages.{WebCrypto}
use teekit.Intel.Defs.{is_empty}
use teekit.Userdata.{get_expected_report_data, is_userdata_bound}

not_empty : (bs : Bytes) → not (is_empty bs) ≡ true → bs ≢ []
not_empty [] h = absurd (false-ne-true h)
  where
    false-ne-true : false ≡ true → ⊥
    false-ne-true e = cc
not_empty (b ∷ bs) h = λ e. cc

test_of : (bs : Bytes) → bs ≢ [] → not (is_empty bs) ≡ true
test_of [] h = absurd (h refl)
test_of (b ∷ bs) h = refl

module _ (crypto : WebCrypto) (report_data nonce issued_at key : Bytes) where
  abbrev IsBound : Type 0
  IsBound =
      (nonce ≢ [])
      × (issued_at ≢ [])
      × (key ≢ [])
      × (report_data ≡ crypto.sha512 (crypto.concat (nonce ∷ issued_at ∷ key ∷ [])))

  bound_of : is_userdata_bound crypto report_data nonce issued_at key ≡ ok true → IsBound
  unfolding is_userdata_bound get_expected_report_data
  bound_of e =
      let (expected, computed, e1) =
        >>=-eq-ok (get_expected_report_data crypto nonce issued_at key) _ e in
      let (n, e2) = require-eq-ok _ _ _ computed in
      let (i, e3) = require-eq-ok _ _ _ e2 in
      let (k, e4) = require-eq-ok _ _ _ e3 in
      let equal : report_data ≡ expected = (crypto.equal_iff _ _).0 (ok-eq e1) in
      (not_empty nonce n, not_empty issued_at i, not_empty key k, equal ∙ sym (ok-eq e4))
    where
      ok-eq : {A : Type 0} {a b : A} → ok a ≡ ok b → a ≡ b
      ok-eq h = cc

  of_bound : IsBound → is_userdata_bound crypto report_data nonce issued_at key ≡ ok true
  unfolding is_userdata_bound get_expected_report_data
  of_bound (n, i, k, same) =
      rw (test_of nonce n, test_of issued_at i, test_of key k, (crypto.equal_iff _ _).1 same)

  -- The key is bound by a quote exactly if nonce, time of issue and key are not empty and the
  -- report_data is the digest of the three in this order.
  pub is_userdata_bound_iff :
      (is_userdata_bound crypto report_data nonce issued_at key ≡ ok true) ↔ (
        (nonce ≢ [])
        × (issued_at ≢ [])
        × (key ≢ [])
        × (report_data ≡ crypto.sha512 (crypto.concat (nonce ∷ issued_at ∷ key ∷ []))))
  is_userdata_bound_iff = (bound_of, of_bound)
