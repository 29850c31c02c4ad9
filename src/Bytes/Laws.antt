-- ===== src/Bytes/Laws.antt =====
-- Little-endian numbers and reads, for packages/qvl/src/structs.ts.
use teekit.Common.{
  ℕ, zero, suc, ◌+◌, ◌-◌, ◌*◌, ◌/◌, ◌%◌, ◌^◌, ◌<◌, ◌≡◌, refl, arith, [], ◌∷◌, ◌++◌, length, All,
  length-append, take-append, drop-append,
}
use teekit.Result.{ok}
use teekit.Bytes.{Bytes, IsByte, subarray, le_value, le_bytes, read_uint_le}
use native.Mathlib.Nat.{pow-suc}

pub length-le_bytes : (n v : ℕ) → length (le_bytes n v) ≡ n
unfolding le_bytes
length-le_bytes zero v = refl
length-le_bytes (suc n) v = omega (arith, length-le_bytes n (v / 256))

pub le_bytes-IsByte : (n v : ℕ) → All IsByte (le_bytes n v)
unfolding le_bytes
le_bytes-IsByte zero v = tt
le_bytes-IsByte (suc n) v = (omega arith, le_bytes-IsByte n (v / 256))

pub le_value-le_bytes : (n v : ℕ) → v < 256 ^ n → le_value (le_bytes n v) ≡ v
unfolding le_value le_bytes
le_value-le_bytes zero v h = omega arith
le_value-le_bytes (suc n) v h =
    omega (arith, le_value-le_bytes n (v / 256) (omega (arith, pow-suc 256 n)))

pub le_value-lt : (bs : Bytes) → All IsByte bs → le_value bs < 256 ^ length bs
unfolding le_value
le_value-lt [] h = omega arith
le_value-lt (b ∷ bs) (h, hs) = omega (arith, le_value-lt bs hs, pow-suc 256 (length bs))

pub le_bytes-le_value :
    (bs : Bytes) → All IsByte bs → (n : ℕ) → length bs ≡ n → le_bytes n (le_value bs) ≡ bs
unfolding le_value le_bytes
le_bytes-le_value [] h zero e = refl
le_bytes-le_value [] h (suc n) e = absurd (omega arith)
le_bytes-le_value (b ∷ bs) h zero e = absurd (omega arith)
le_bytes-le_value (b ∷ bs) (h, hs) (suc n) e =
    let low : (b + 256 * le_value bs) % 256 ≡ b = omega arith in
    let high : (b + 256 * le_value bs) / 256 ≡ le_value bs = omega arith in
    rw (low, high, le_bytes-le_value bs hs n (omega arith))

pub subarray-append :
    (front xs back : Bytes) (start end : ℕ)
    → length front ≡ start
    → length xs + start ≡ end
    → subarray (front ++ (xs ++ back)) start end ≡ xs
unfolding subarray
subarray-append front xs back start end h k =
    rw (drop-append start front (xs ++ back) h) (take-append (end - start) xs back (omega arith))

pub read_uint_le-append :
    (width v : ℕ) (front back : Bytes) (offset : ℕ)
    → length front ≡ offset
    → v < 256 ^ width
    → read_uint_le width (front ++ (le_bytes width v ++ back)) offset ≡ ok v
unfolding read_uint_le
read_uint_le-append width v front back offset h fits = ground (
  arith,
  length-append front (le_bytes width v ++ back),
  length-append (le_bytes width v) back,
  length-le_bytes width v,
  drop-append offset front (le_bytes width v ++ back),
  take-append width (le_bytes width v) back,
  le_value-le_bytes width v,
)
