-- ===== src/Tcb/Laws.antt =====
-- What it means for a platform to meet a level of packages/qvl/src/tcb.ts.
use teekit.Common.{
  ℕ, zero, suc, ◌+◌, ◌≤◌, ◌≡◌, arith, Bool, true, false, not, ◌&&◌, List, [], ◌∷◌, Option, none,
  some, get_elem?, &&-true,
}
use teekit.Tcb.{TcbLevel, pce_ok, key_below, component_below, components_ok, array_ok, cpu_ok}

-- The platform's value of a component, where one that is missing counts as 0.
abbrev pub svn_at : List ℕ → ℕ → ℕ
svn_at cpu_svn i = elim (get_elem? cpu_svn i) [ none ↦ 0 | some svn ↦ svn ]

-- Every component that the level names is reached, by an array or, where the platform has a value,
-- by a key.
abbrev pub ReachesArray : List ℕ → List (Option ℕ) → Type 0
ReachesArray cpu_svn components =
    (i required : ℕ) → get_elem? components i ≡ some (some required) → required ≤ svn_at cpu_svn i

abbrev pub ReachesKeys : List ℕ → List (Option ℕ) → Type 0
ReachesKeys cpu_svn components =
    (i required svn : ℕ)
    → get_elem? components i ≡ some (some required)
    → get_elem? cpu_svn i ≡ some svn
    → required ≤ svn

-- What it means for a platform to meet a level.
pub record Meets (cpu_svn : List ℕ) (pce_svn : ℕ) (is_tdx : Bool) (level : TcbLevel) : Type 0 where
  pub pce : (required : ℕ) → level.pcesvn ≡ some required → required ≤ pce_svn
  pub tdx_array :
      is_tdx ≡ true
      → (components : List (Option ℕ)) → level.tdxtcbcomponents ≡ some components
      → ReachesArray cpu_svn components
  pub sgx_array :
      is_tdx ≡ false
      → (components : List (Option ℕ)) → level.sgxtcbcomponents ≡ some components
      → ReachesArray cpu_svn components
  pub sgx_keys : is_tdx ≡ false → ReachesKeys cpu_svn level.sgx_components

abbrev pub meets : List ℕ → ℕ → Bool → TcbLevel → Bool
meets cpu_svn pce_svn is_tdx level = cpu_ok cpu_svn is_tdx level && pce_ok pce_svn level.pcesvn

-- A component at an index is not below, from any start of the loop.
components_ok-at :
    (below : Option ℕ → Option ℕ → Bool) (cpu_svn : List ℕ) (start : ℕ)
    (components : List (Option ℕ))
    → components_ok below cpu_svn start components ≡ true
    → (i : ℕ) (required : Option ℕ) → get_elem? components i ≡ some required
    → below (get_elem? cpu_svn (start + i)) required ≡ false
unfolding components_ok
components_ok-at below cpu_svn start [] h i required e = cc
components_ok-at below cpu_svn start (c ∷ cs) h zero required e =
    let (here, later) = &&-true (not (below (get_elem? cpu_svn start) c)) _ h in
    let same : c ≡ required = cc in
    let at : start + zero ≡ start = omega arith in rw (at, ← same) (not_true here)
  where
    not_true : {b : Bool} → not b ≡ true → b ≡ false
    not_true h = ground arith
components_ok-at below cpu_svn start (c ∷ cs) h (suc i) required e =
    let (here, later) = &&-true (not (below (get_elem? cpu_svn start) c)) _ h in
    let at : start + suc i ≡ suc start + i = omega arith in
    rw at (components_ok-at below cpu_svn (suc start) cs later i required e)

component_below-false :
    (o : Option ℕ) (required : ℕ)
    → component_below o (some required) ≡ false
    → required ≤ (elim o [ none ↦ 0 | some svn ↦ svn ])
unfolding component_below
component_below-false none required h = ground arith
component_below-false (some svn) required h = ground arith

key_below-false : (svn required : ℕ) → key_below (some svn) (some required) ≡ false → required ≤ svn
unfolding key_below
key_below-false svn required h = ground arith

pub array_ok-ReachesArray :
    (cpu_svn : List ℕ) (o : Option (List (Option ℕ)))
    → array_ok cpu_svn o ≡ true
    → (components : List (Option ℕ)) → o ≡ some components
    → ReachesArray cpu_svn components
unfolding array_ok
array_ok-ReachesArray cpu_svn o h components e i required at =
    let checked : components_ok component_below cpu_svn 0 components ≡ true =
      rw (e, array_ok) at h in
    let start : 0 + i ≡ i = omega arith in
    component_below-false (get_elem? cpu_svn i) required (
      rw start at
        (components_ok-at component_below cpu_svn 0 components checked i (some required) at))

pub components_ok-ReachesKeys :
    (cpu_svn : List ℕ) (components : List (Option ℕ))
    → components_ok key_below cpu_svn 0 components ≡ true
    → ReachesKeys cpu_svn components
components_ok-ReachesKeys cpu_svn components h i required svn at has =
    let start : 0 + i ≡ i = omega arith in
    key_below-false svn required
      (rw (start, has) at (components_ok-at key_below cpu_svn 0 components h i (some required) at))
