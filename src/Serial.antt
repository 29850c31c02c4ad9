-- ===== src/Serial.antt =====
-- Serial numbers as texts: `normalizeSerialHex` of packages/qvl/src/utils.ts, and the same
-- treatment of the serial numbers in a revocation list.
pub mod Laws
use teekit.Common.{
  ℕ, Bool, true, false, ◌&&◌, ◌||◌, List, [], ◌∷◌, Text, to_upper_case, leb, ◌==◌, if◌then◌else◌,
}
use teekit.Bytes.{Bytes}
use teekit.Packages.{Hex, Certificate}

-- [a-fA-F0-9] and [0-9A-F]
unfoldable pub is_hex_digit : ℕ → Bool
is_hex_digit c =
    (leb b'a' c && leb c b'f') || (leb b'A' c && leb c b'F') || (leb b'0' c && leb c b'9')

unfoldable pub is_upper_hex_digit : ℕ → Bool
is_upper_hex_digit c = (leb b'0' c && leb c b'9') || (leb b'A' c && leb c b'F')

unfoldable pub starts_upper_hex : Text → Bool
unfolding is_upper_hex_digit
starts_upper_hex [] = false
starts_upper_hex (c ∷ text) = is_upper_hex_digit c

-- `.replace(/^0+(?=[0-9A-F])/g, "")`: a zero goes while a digit follows it.
unfoldable pub strip_zeros : Text → Text
unfolding starts_upper_hex
strip_zeros [] = []
strip_zeros (c ∷ text) =
    let stripped = strip_zeros text in
    if c == b'0' && starts_upper_hex text then stripped else c ∷ text

-- `.replace(/[^a-fA-F0-9]/g, "")`
unfoldable pub keep_hex : Text → Text
unfolding is_hex_digit
keep_hex [] = []
keep_hex (c ∷ text) = let kept = keep_hex text in if is_hex_digit c then c ∷ kept else kept

unfoldable pub normalize_serial_hex : Text → Text
unfolding strip_zeros keep_hex
normalize_serial_hex input = strip_zeros (to_upper_case (keep_hex input))

-- The serial of a revocation list entry, from the bytes of its INTEGER.
unfoldable pub crl_serial_hex : Hex → Bytes → Text
unfolding strip_zeros
crl_serial_hex hex bytes = strip_zeros (to_upper_case (hex.encode bytes))

-- `QV_X509Certificate.serialNumber` of packages/qvl/src/x509.ts
unfoldable pub serial_number : Hex → Certificate → Text
serial_number hex cert = to_upper_case (hex.encode cert.serial)
