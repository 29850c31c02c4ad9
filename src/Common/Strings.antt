-- ===== src/Common/Strings.antt =====
-- Texts and byte arrays are lists of numbers: equality, and the ASCII letter cases of JavaScript.
use Prim.Native.Nat.{ℕ, ◌+◌, ◌-◌}
use Prim.Native.Char.{code}
use Prim.Native.String.{String}
use mathlib.Core.Path.{◌≡◌, refl}
use mathlib.Core.Logic.{◌↔◌}
use mathlib.Core.Bool.{Bool, true, false, ◌&&◌}
use mathlib.Core.List.{List, [], ◌∷◌, map}
use native.Mathlib.Omega.{arith}
use teekit.Common.Tests.{◌==◌, leb, if◌then◌else◌}

-- A JavaScript string, as its code units.
abbrev pub Text : Type 0
Text = List ℕ

abbrev pub codes : String → Text
codes String.[] = []
codes (String.◌∷◌ c s) = code c ∷ codes s

unfoldable pub list_eq : List ℕ → List ℕ → Bool
list_eq [] [] = true
list_eq (x ∷ xs) (y ∷ ys) = x == y && list_eq xs ys
list_eq _ _ = false

pub list_eq_refl : (xs : List ℕ) → list_eq xs xs ≡ true
unfolding list_eq
list_eq_refl [] = refl
list_eq_refl (x ∷ xs) = ground (arith, list_eq_refl xs)

pub eq_of_list_eq : (xs ys : List ℕ) → list_eq xs ys ≡ true → xs ≡ ys
unfolding list_eq
eq_of_list_eq [] [] h = refl
eq_of_list_eq [] (y ∷ ys) h = cc
eq_of_list_eq (x ∷ xs) [] h = cc
eq_of_list_eq (x ∷ xs) (y ∷ ys) h = ground (arith, eq_of_list_eq xs ys)

pub list_eq_iff : (xs ys : List ℕ) → (list_eq xs ys ≡ true) ↔ (xs ≡ ys)
list_eq_iff xs ys = (eq_of_list_eq xs ys, λ e. rw e (list_eq_refl ys))

-- `toLowerCase` and `toUpperCase` on one code unit. A code unit outside ASCII is left alone: none
-- of them becomes a hexadecimal digit in either case.
unfoldable pub lower : ℕ → ℕ
lower c = if leb b'A' c && leb c b'Z' then c + 32 else c

unfoldable pub upper : ℕ → ℕ
upper c = if leb b'a' c && leb c b'z' then c - 32 else c

abbrev pub to_lower_case : Text → Text
to_lower_case = map lower

abbrev pub to_upper_case : Text → Text
to_upper_case = map upper
