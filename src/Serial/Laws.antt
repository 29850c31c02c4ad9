-- ===== src/Serial/Laws.antt =====
-- Normal forms of serial numbers, of packages/qvl/src/utils.ts.
use teekit.Common.{
  ℕ, ◌≡◌, inl, inr, refl, ap, ◌∙◌, arith, true, ◌&&◌, [], ◌∷◌, Text, upper, to_upper_case, All,
  ◌==◌, Bool-cases,
}
use teekit.Serial.{
  is_hex_digit, is_upper_hex_digit, starts_upper_hex, strip_zeros, keep_hex, normalize_serial_hex,
  crl_serial_hex, serial_number,
}
use teekit.Packages.{Hex, Certificate, IsLowerHexDigit}

-- Every character is an uppercase hexadecimal digit.
abbrev pub IsUpperHex : Text → Type 0
IsUpperHex text = All (λ c. is_upper_hex_digit c ≡ true) text

upper_digit : (c : ℕ) → is_hex_digit c ≡ true → is_upper_hex_digit (upper c) ≡ true
unfolding is_hex_digit is_upper_hex_digit upper
upper_digit c h = ground arith

upper_fixed : (c : ℕ) → is_upper_hex_digit c ≡ true → (upper c ≡ c) × (is_hex_digit c ≡ true)
unfolding is_hex_digit is_upper_hex_digit upper
upper_fixed c h = ground arith

keep_hex-IsUpperHex : (text : Text) → IsUpperHex (to_upper_case (keep_hex text))
unfolding keep_hex
keep_hex-IsUpperHex [] = tt
keep_hex-IsUpperHex (c ∷ text) = elim (Bool-cases (is_hex_digit c)) [
  | inl hex ↦ rw hex (upper_digit c hex, keep_hex-IsUpperHex text)
  | inr other ↦ rw other (keep_hex-IsUpperHex text)
]

strip_zeros-IsUpperHex : (text : Text) → IsUpperHex text → IsUpperHex (strip_zeros text)
unfolding strip_zeros
strip_zeros-IsUpperHex [] h = tt
strip_zeros-IsUpperHex (c ∷ text) (h, hs) = elim (Bool-cases (c == b'0' && starts_upper_hex text)) [
  | inl zero_digit ↦ rw zero_digit (strip_zeros-IsUpperHex text hs)
  | inr kept ↦ rw kept (h, hs)
]

-- A text of uppercase digits is left as it is, but for the zeros in front.
pub normalize_of_IsUpperHex :
    (text : Text) → IsUpperHex text → normalize_serial_hex text ≡ strip_zeros text
unfolding normalize_serial_hex
normalize_of_IsUpperHex text h = ap strip_zeros (same text h)
  where
    same : (t : Text) → IsUpperHex t → to_upper_case (keep_hex t) ≡ t
    same [] k = unfold keep_hex in refl
    same (c ∷ t) (k, ks) =
        let (fixed, digit) = upper_fixed c k in unfold keep_hex in rw (digit, fixed, same t ks)

strip_zeros_idempotent : (text : Text) → strip_zeros (strip_zeros text) ≡ strip_zeros text
unfolding strip_zeros
strip_zeros_idempotent [] = refl
strip_zeros_idempotent (c ∷ text) = elim (Bool-cases (c == b'0' && starts_upper_hex text)) [
  | inl zero_digit ↦ rw zero_digit (strip_zeros_idempotent text)
  | inr kept ↦ rw (kept, kept)
]

-- Normalising twice is normalising once, and the result holds uppercase digits alone.
normalize_idempotent :
    (text : Text)
    → (normalize_serial_hex (normalize_serial_hex text) ≡ normalize_serial_hex text)
      × IsUpperHex (normalize_serial_hex text)
normalize_idempotent text =
    let upper_hex : IsUpperHex (normalize_serial_hex text) =
      unfold normalize_serial_hex in
      strip_zeros-IsUpperHex (to_upper_case (keep_hex text)) (keep_hex-IsUpperHex text) in
    (
      normalize_of_IsUpperHex (normalize_serial_hex text) upper_hex
          ∙ unfold normalize_serial_hex in strip_zeros_idempotent (to_upper_case (keep_hex text)),
      upper_hex,
    )

upper_of_IsLowerHexDigit : (c : ℕ) → IsLowerHexDigit c → is_upper_hex_digit (upper c) ≡ true
unfolding is_upper_hex_digit upper
upper_of_IsLowerHexDigit c h = ground arith

encode-IsUpperHex : (text : Text) → All IsLowerHexDigit text → IsUpperHex (to_upper_case text)
encode-IsUpperHex [] h = tt
encode-IsUpperHex (c ∷ text) (h, hs) = (upper_of_IsLowerHexDigit c h, encode-IsUpperHex text hs)

-- A certificate's serial number, normalised, is the text that a revocation list entry with the same
-- INTEGER bytes is read to: the two are compared in one form.
pub normalize-serial_number :
    (hex : Hex) (cert : Certificate)
    → normalize_serial_hex (serial_number hex cert) ≡ crl_serial_hex hex cert.serial
unfolding serial_number crl_serial_hex
normalize-serial_number hex cert =
    normalize_of_IsUpperHex (to_upper_case (hex.encode cert.serial))
      (encode-IsUpperHex (hex.encode cert.serial) (hex.encode-IsLowerHexDigit cert.serial))
