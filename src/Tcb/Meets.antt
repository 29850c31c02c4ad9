-- ===== src/Tcb/Meets.antt =====
-- The test of a level in packages/qvl/src/tcb.ts and its meaning.
use teekit.Common.{
  ℕ, zero, suc, ◌+◌, ◌≤◌, ◌≡◌, ◌↔◌, refl, ap, ◌∙◌, arith, Bool, true, false, List, [], ◌∷◌, Option,
  none, some, get_elem?, leb, &&-true,
}
use teekit.Tcb.{TcbLevel, pce_ok, key_below, component_below, components_ok, array_ok, cpu_ok}
use teekit.Tcb.Laws.{
  ReachesArray, ReachesKeys, Meets, meets, array_ok-ReachesArray, components_ok-ReachesKeys,
}

pce_ok-le :
    (pce_svn : ℕ) (o : Option ℕ)
    → pce_ok pce_svn o ≡ true
    → (required : ℕ) → o ≡ some required
    → required ≤ pce_svn
unfolding pce_ok
pce_ok-le pce_svn o h required e = at_most (rw (e, pce_ok) at h)
  where
    at_most : leb required pce_svn ≡ true → required ≤ pce_svn
    at_most h = ground arith

pce_ok-of_le :
    (pce_svn : ℕ) (o : Option ℕ)
    → ((required : ℕ) → o ≡ some required → required ≤ pce_svn)
    → pce_ok pce_svn o ≡ true
unfolding pce_ok
pce_ok-of_le pce_svn none h = refl
pce_ok-of_le pce_svn (some required) h = let le = h required refl in ground arith

components_ok-of_at :
    (below : Option ℕ → Option ℕ → Bool) (cpu_svn : List ℕ) (start : ℕ)
    (components : List (Option ℕ))
    → ((i : ℕ) (required : Option ℕ)
        → get_elem? components i ≡ some required
        → below (get_elem? cpu_svn (start + i)) required ≡ false)
    → components_ok below cpu_svn start components ≡ true
unfolding components_ok
components_ok-of_at below cpu_svn start [] h = refl
components_ok-of_at below cpu_svn start (c ∷ cs) h =
    let at : start + zero ≡ start = omega arith in
    let here : below (get_elem? cpu_svn start) c ≡ false = rw at at (h zero c refl) in
    rw here (components_ok-of_at below cpu_svn (suc start) cs (λ i required e. later i required e))
  where
    later :
        (i : ℕ) (required : Option ℕ)
        → get_elem? cs i ≡ some required
        → below (get_elem? cpu_svn (suc start + i)) required ≡ false
    later i required e =
        let at : start + suc i ≡ suc start + i = omega arith in rw at at (h (suc i) required e)

component_below-of_le :
    (o : Option ℕ) (required : Option ℕ)
    → ((n : ℕ) → required ≡ some n → n ≤ (elim o [ none ↦ 0 | some svn ↦ svn ]))
    → component_below o required ≡ false
unfolding component_below
component_below-of_le none none h = refl
component_below-of_le (some svn) none h = refl
component_below-of_le none (some n) h = let le = h n refl in ground arith
component_below-of_le (some svn) (some n) h = let le = h n refl in ground arith

key_below-of_le :
    (o required : Option ℕ)
    → ((n svn : ℕ) → required ≡ some n → o ≡ some svn → n ≤ svn)
    → key_below o required ≡ false
unfolding key_below
key_below-of_le none required h = refl
key_below-of_le (some svn) none h = refl
key_below-of_le (some svn) (some n) h = let le = h n svn refl refl in ground arith

array_ok-of_ReachesArray :
    (cpu_svn : List ℕ) (o : Option (List (Option ℕ)))
    → ((components : List (Option ℕ)) → o ≡ some components → ReachesArray cpu_svn components)
    → array_ok cpu_svn o ≡ true
unfolding array_ok
array_ok-of_ReachesArray cpu_svn none h = refl
array_ok-of_ReachesArray cpu_svn (some components) h =
    components_ok-of_at component_below cpu_svn 0 components (λ i required at.
      let start : 0 + i ≡ i = omega arith in
      rw start (
        component_below-of_le (get_elem? cpu_svn i) required
          (λ n e. h components refl i n (at ∙ ap some e))))

components_ok-of_ReachesKeys :
    (cpu_svn : List ℕ) (components : List (Option ℕ))
    → ReachesKeys cpu_svn components
    → components_ok key_below cpu_svn 0 components ≡ true
components_ok-of_ReachesKeys cpu_svn components h =
    components_ok-of_at key_below cpu_svn 0 components (λ i required at.
      let start : 0 + i ≡ i = omega arith in
      rw start (
        key_below-of_le (get_elem? cpu_svn i) required
          (λ n svn e has. h i n svn (at ∙ ap some e) has)))

module _ (cpu_svn : List ℕ) (pce_svn : ℕ) (level : TcbLevel) where
  meets-Meets :
      (is_tdx : Bool)
      → meets cpu_svn pce_svn is_tdx level ≡ true
      → Meets cpu_svn pce_svn is_tdx level
  unfolding cpu_ok
  meets-Meets true h =
      let (cpu, pce) = &&-true _ _ h in
      record {
        pce = pce_ok-le pce_svn level.pcesvn pce;
        tdx_array = λ e. array_ok-ReachesArray cpu_svn level.tdxtcbcomponents cpu;
        sgx_array = λ e. absurd (true-ne-false e);
        sgx_keys = λ e. absurd (true-ne-false e);
      }
    where
      true-ne-false : true ≡ false → ⊥
      true-ne-false e = cc
  meets-Meets false h =
      let (cpu, pce) = &&-true _ _ h in
      let (keys, array) = &&-true _ _ cpu in
      record {
        pce = pce_ok-le pce_svn level.pcesvn pce;
        tdx_array = λ e. absurd (false-ne-true e);
        sgx_array = λ e. array_ok-ReachesArray cpu_svn level.sgxtcbcomponents array;
        sgx_keys = λ e. components_ok-ReachesKeys cpu_svn level.sgx_components keys;
      }
    where
      false-ne-true : false ≡ true → ⊥
      false-ne-true e = cc

  Meets-meets :
      (is_tdx : Bool)
      → Meets cpu_svn pce_svn is_tdx level
      → meets cpu_svn pce_svn is_tdx level ≡ true
  unfolding cpu_ok
  Meets-meets true m = rw (
    array_ok-of_ReachesArray cpu_svn level.tdxtcbcomponents (m.tdx_array refl),
    pce_ok-of_le pce_svn level.pcesvn m.pce,
  )
  Meets-meets false m = rw (
    components_ok-of_ReachesKeys cpu_svn level.sgx_components (m.sgx_keys refl),
    array_ok-of_ReachesArray cpu_svn level.sgxtcbcomponents (m.sgx_array refl),
    pce_ok-of_le pce_svn level.pcesvn m.pce,
  )

  pub meets_iff :
      (is_tdx : Bool)
      → (meets cpu_svn pce_svn is_tdx level ≡ true) ↔ Meets cpu_svn pce_svn is_tdx level
  meets_iff is_tdx = (meets-Meets is_tdx, Meets-meets is_tdx)
