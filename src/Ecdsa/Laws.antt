-- ===== src/Ecdsa/Laws.antt =====
-- The encoding of signatures by `encodeEcdsaSignatureToDer`, packages/qvl/src/utils.ts, read back.
use teekit.Common.{
  ℕ, zero, suc, ◌+◌, ◌*◌, ◌-◌, take, drop, ◌<◌, ◌≤◌, ◌≡◌, inl, inr, refl, ◌∙◌, arith, true, false,
  [], ◌∷◌, ◌++◌, length, ◌==◌, ==_iff, Bool-cases, bit_and,
}
use teekit.Result.{ok}
use teekit.Bytes.{Bytes, subarray}
use teekit.Sev.Component.{be_value, be_value_after}
use teekit.Ecdsa.{skip_zeros, positive, encode_integer, encode_ecdsa_signature_to_der}

-- The bytes of an INTEGER that stands for a number that is not negative: not empty, the top bit of the
-- first clear, and the first is zero only alone or in front of a byte with its top bit set.
abbrev pub IsMinimal : Bytes → Type 0
IsMinimal [] = ⊥
IsMinimal (b ∷ []) = bit_and b 0x80 ≡ 0
IsMinimal (b ∷ c ∷ v) = (bit_and b 0x80 ≡ 0) × (b ≡ 0 → bit_and c 0x80 ≡ 0 → ⊥)

skip_zeros-be_value : (buf : Bytes) → be_value (skip_zeros buf) ≡ be_value buf
unfolding skip_zeros be_value_after
skip_zeros-be_value [] = refl
skip_zeros-be_value (b ∷ buf) = elim (Bool-cases (b == 0)) [
  | inl is_zero ↦
      let zero_b : b ≡ 0 = (==_iff _ _).0 is_zero in
      let at : 256 * 0 + b ≡ 0 = omega arith in rw is_zero (rw at (skip_zeros-be_value buf))
  | inr other ↦ rw other
]

length-skip_zeros : (buf : Bytes) → length (skip_zeros buf) ≤ length buf
unfolding skip_zeros
length-skip_zeros [] = omega arith
length-skip_zeros (b ∷ buf) = elim (Bool-cases (b == 0)) [
  | inl is_zero ↦ rw is_zero (omega (arith, length-skip_zeros buf))
  | inr other ↦ rw other (omega arith)
]

positive-be_value : (v : Bytes) → be_value (positive v) ≡ be_value v
unfolding positive be_value_after
positive-be_value [] = refl
positive-be_value (b ∷ v) = elim (Bool-cases (bit_and b 0x80 == 0)) [
  | inl clear ↦ rw clear
  | inr high ↦ rw high
]

length-positive : (v : Bytes) → length (positive v) ≤ suc (length v)
unfolding positive
length-positive [] = omega arith
length-positive (b ∷ v) = elim (Bool-cases (bit_and b 0x80 == 0)) [
  | inl clear ↦ rw clear (omega arith)
  | inr high ↦ rw high (omega arith)
]

-- The first byte of what is left is not zero.
NoLeadingZero : Bytes → Type 0
NoLeadingZero [] = Unit
NoLeadingZero (b ∷ v) = (b == 0) ≡ false

skip_zeros-NoLeadingZero : (buf : Bytes) → NoLeadingZero (skip_zeros buf)
unfolding skip_zeros NoLeadingZero
skip_zeros-NoLeadingZero [] = tt
skip_zeros-NoLeadingZero (b ∷ buf) = elim (Bool-cases (b == 0)) [
  | inl is_zero ↦ rw is_zero (skip_zeros-NoLeadingZero buf)
  | inr other ↦ rw other other
]

not_zero : {b : ℕ} → (b == 0) ≡ false → b ≡ 0 → ⊥
not_zero h e = ground arith

positive-IsMinimal : (v : Bytes) → NoLeadingZero v → IsMinimal (positive v)
unfolding positive NoLeadingZero
positive-IsMinimal [] h = refl
positive-IsMinimal (b ∷ []) h = elim (Bool-cases (bit_and b 0x80 == 0)) [
  | inl clear ↦ rw clear ((==_iff _ _).0 clear)
  | inr high ↦ rw high (refl, λ e. not_zero high)
]
positive-IsMinimal (b ∷ c ∷ v) h = elim (Bool-cases (bit_and b 0x80 == 0)) [
  | inl clear ↦ rw clear ((==_iff _ _).0 clear, λ e k. not_zero h e)
  | inr high ↦ rw high (refl, λ e. not_zero high)
]

-- A minimal INTEGER of a value, short enough for one byte of length.
pub record IsInteger (bytes v : Bytes) : Type 0 where
  pub minimal : IsMinimal v
  pub value : be_value v ≡ be_value bytes
  pub short : length v ≤ suc (length bytes)

integer_bytes : Bytes → Bytes
integer_bytes buf = positive (skip_zeros buf)

integer_bytes-IsInteger : (buf : Bytes) → IsInteger buf (integer_bytes buf)
unfolding integer_bytes
integer_bytes-IsInteger buf = record {
  minimal = positive-IsMinimal (skip_zeros buf) (skip_zeros-NoLeadingZero buf);
  value = positive-be_value (skip_zeros buf) ∙ skip_zeros-be_value buf;
  short = omega (arith, length-positive (skip_zeros buf), length-skip_zeros buf);
}

length-subarray : (buf : Bytes) (start end : ℕ) → length (subarray buf start end) ≤ end - start
unfolding subarray
length-subarray buf start end = take-le (end - start) (drop start buf)
  where
    take-le : (n : ℕ) (xs : Bytes) → length (take n xs) ≤ n
    take-le zero xs = omega arith
    take-le (suc n) [] = omega arith
    take-le (suc n) (x ∷ xs) = omega (arith, take-le n xs)

-- A signature of 64 bytes is encoded as a SEQUENCE, with a length of one byte, of two INTEGERs, each
-- with a length of one byte: they are minimal and have the values of the signature's halves.
pub encode_ecdsa_signature_to_der-IsInteger :
    (raw : Bytes)
    → length raw ≡ 64
    → (r : Bytes) × (s : Bytes) × (encode_ecdsa_signature_to_der raw
        ≡ ok (0x30 ∷ (length r + length s + 4) ∷ ((0x02 ∷ length r ∷ r) ++ (0x02 ∷ length s ∷ s))))
      × IsInteger (subarray raw 0 32) r
      × IsInteger (subarray raw 32 64) s
      × (length r + length s + 4 < 128)
unfolding encode_ecdsa_signature_to_der encode_integer integer_bytes
encode_ecdsa_signature_to_der-IsInteger raw h =
    let test : (length raw == 64) ≡ true = (==_iff _ _).1 h in
    let r = integer_bytes (subarray raw 0 32) in
    let s = integer_bytes (subarray raw 32 64) in
    let is_r = integer_bytes-IsInteger (subarray raw 0 32) in
    let is_s = integer_bytes-IsInteger (subarray raw 32 64) in
    let sum : suc (suc (length r)) + suc (suc (length s)) ≡ length r + length s + 4 = omega arith in
    (
      r,
      s,
      rw (test, sum),
      is_r,
      is_s,
      omega (arith, is_r.short, is_s.short, length-subarray raw 0 32, length-subarray raw 32 64),
    )
