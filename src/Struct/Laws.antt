-- ===== src/Struct/Laws.antt =====
-- Encoding and decoding of the structs of packages/qvl/src/structs.ts.
use teekit.Common.{
  ℕ, ◌≤◌, ◌<◌, ◌^◌, ◌≡◌, refl, arith, [], ◌∷◌, ◌++◌, length, take, drop, All, All-take, All-drop,
  take-add, length-append, length-take, length-drop, drop-drop, take-append, drop-append,
}
use teekit.Result.{ok}
use teekit.Bytes.{Bytes, IsByte, le_bytes}
use teekit.Bytes.Laws.{length-le_bytes, le_value-le_bytes, le_bytes-le_value}
use teekit.Struct.{
  uint, buffer, Struct, Fields, size, Restructure, decode, encode, Fits, from_buffer, values,
}
use mathlib.Core.List.{append_assoc}

pub length-encode : (s : Struct) (vs : Fields s) → Fits s vs → length (encode s vs) ≡ size s
unfolding encode
length-encode [] vs h = refl
length-encode (uint name width ∷ s) (v, vs) (h, hs) = omega (
  arith,
  length-append (le_bytes width v) (encode s vs),
  length-le_bytes width v,
  length-encode s vs hs,
)
length-encode (buffer name len ∷ s) (v, vs) (h, hs) =
    omega (arith, length-append v (encode s vs), length-encode s vs hs)

module _ (r : Restructure) where
  read_uint-append :
      (n v : ℕ) (rest : Bytes) → v < 256 ^ n → r.read_uint n (le_bytes n v ++ rest) ≡ ok (v, rest)
  read_uint-append n v rest h =
      let len = length-le_bytes n v in
      rw (
        r.read_uint_law n (le_bytes n v ++ rest) (omega (arith, length-append (le_bytes n v) rest)),
        take-append n (le_bytes n v) rest len,
        drop-append n (le_bytes n v) rest len,
        le_value-le_bytes n v h,
      )

  read_buffer-append :
      (n : ℕ) (xs rest : Bytes) → length xs ≡ n → r.read_buffer n (xs ++ rest) ≡ ok (xs, rest)
  read_buffer-append n xs rest h = rw (
    r.read_buffer_law n (xs ++ rest) (omega (arith, length-append xs rest)),
    take-append n xs rest h,
    drop-append n xs rest h,
  )

  -- What was encoded is decoded, and what follows it is left.
  pub decode-encode :
      (s : Struct) (vs : Fields s) (rest : Bytes)
      → Fits s vs
      → decode r s (encode s vs ++ rest) ≡ ok (vs, rest)
  unfolding decode encode
  decode-encode [] vs rest h = refl
  decode-encode (uint name width ∷ s) (v, vs) rest (h, hs) = rw (
    append_assoc (le_bytes width v) (encode s vs) rest,
    read_uint-append width v (encode s vs ++ rest) h,
    decode-encode s vs rest hs,
  )
  decode-encode (buffer name len ∷ s) (v, vs) rest (h, hs) = rw (
    append_assoc v (encode s vs) rest,
    read_buffer-append len v (encode s vs ++ rest) h,
    decode-encode s vs rest hs,
  )

  pub from_buffer-encode :
      (s : Struct) (vs : Fields s) (rest : Bytes)
      → Fits s vs
      → from_buffer r s (encode s vs ++ rest) ≡ ok vs
  unfolding from_buffer
  from_buffer-encode s vs rest h = rw (decode-encode s vs rest h)

  -- On any array that is long enough, decoding gives the values that stand in it.
  pub decode-eq-values :
      (s : Struct) (xs : Bytes)
      → size s ≤ length xs
      → decode r s xs ≡ ok (values s xs, drop (size s) xs)
  unfolding decode values
  decode-eq-values [] xs h = refl
  decode-eq-values (uint name width ∷ s) xs h = rw (
    r.read_uint_law width xs (omega arith),
    decode-eq-values s (drop width xs) (omega (arith, length-drop width xs)),
    drop-drop width (size s) xs,
  )
  decode-eq-values (buffer name len ∷ s) xs h = rw (
    r.read_buffer_law len xs (omega arith),
    decode-eq-values s (drop len xs) (omega (arith, length-drop len xs)),
    drop-drop len (size s) xs,
  )

  pub from_buffer-eq-values :
      (s : Struct) (xs : Bytes) → size s ≤ length xs → from_buffer r s xs ≡ ok (values s xs)
  unfolding from_buffer
  from_buffer-eq-values s xs h = rw (decode-eq-values s xs h)

-- Encoding the values of a byte array gives back its first bytes.
pub encode-values :
    (s : Struct) (xs : Bytes)
    → All IsByte xs
    → size s ≤ length xs
    → encode s (values s xs) ≡ take (size s) xs
unfolding encode values
encode-values [] xs h k = refl
encode-values (uint name width ∷ s) xs h k = rw (
  take-add width (size s) xs,
  le_bytes-le_value (take width xs) (All-take IsByte width xs h) width
      (length-take width xs (omega arith)),
  encode-values s (drop width xs) (All-drop IsByte width xs h)
      (omega (arith, length-drop width xs)),
)
encode-values (buffer name len ∷ s) xs h k = rw (
  take-add len (size s) xs,
  encode-values s (drop len xs) (All-drop IsByte len xs h) (omega (arith, length-drop len xs)),
)
