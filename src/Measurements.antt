-- ===== src/Measurements.antt =====
-- Measurement configurations, which packages/qvl/src/verifyTdx.ts, verifySgx.ts and verifySev.ts
-- read in the same way: one set of expected values or one callback, or a list of such, any of
-- which may match.
pub mod Laws
use teekit.Common.{
  ℕ, ◌≡◌, Bool, true, false, List, [], ◌∷◌, Option, none, some, Text, list_eq, to_lower_case, ◌==◌,
  if◌then◌else◌,
}
use teekit.Result.{Result, ok, ◌>>=◌}
use teekit.Bytes.{Bytes}
use teekit.Packages.{Hex}

-- One item: expected values `M`, or a callback on what was parsed, `Q`.
pub data Item (M Q : Type 0) : Type 0 where
  measurements : M → Item M Q
  verifier : (Q → Result Bool) → Item M Q

pub data Config (M Q : Type 0) : Type 0 where
  single : Item M Q → Config M Q
  any_of : List (Item M Q) → Config M Q

-- `if (expected !== undefined) { if (hex(actual) !== expected.toLowerCase()) return false }`
unfoldable pub matches_hex : Hex → Bytes → Option Text → Bool
matches_hex hex actual none = true
matches_hex hex actual (some expected) = list_eq (hex.encode actual) (to_lower_case expected)

unfoldable pub matches_number : ℕ → Option ℕ → Bool
matches_number actual none = true
matches_number actual (some expected) = actual == expected

module _ {M Q : Type 0} (matches : Q → M → Bool) (q : Q) where
  -- One item against what was parsed.
  unfoldable pub check_item : Item M Q → Result Bool
  check_item (measurements m) = ok (matches q m)
  check_item (verifier f) = f q

  -- `for (const item of config) { if (…) return true } return false`
  unfoldable pub check_any : List (Item M Q) → Result Bool
  check_any [] = ok false
  check_any (item ∷ items) =
      let rest = check_any items in check_item item >>= λ b. (if b then ok true else rest)

  unfoldable pub check_config : Config M Q → Result Bool
  unfolding check_any
  check_config (single item) = check_item item
  check_config (any_of items) = check_any items
