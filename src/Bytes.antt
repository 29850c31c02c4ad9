-- ===== src/Bytes.antt =====
-- Byte arrays: `subarray`, and the little-endian reads of packages/qvl/src/structs.ts. A byte array
-- is taken to be the whole of its buffer, so that a `DataView` ends where the array ends.
pub mod Laws
use teekit.Common.{
  ℕ, zero, suc, ◌+◌, ◌-◌, ◌*◌, ◌/◌, ◌%◌, ◌^◌, ◌<◌, List, [], ◌∷◌, length, take, drop, leb, All,
  if◌then◌else◌,
}
use teekit.Result.{Result, ok, err, range_error}

abbrev pub Bytes : Type 0
Bytes = List ℕ

abbrev pub IsByte : ℕ → Type 0
IsByte b = b < 256

-- `Uint8Array.prototype.subarray`, for bounds that are not negative: both are clamped.
unfoldable pub subarray : Bytes → ℕ → ℕ → Bytes
subarray buf start end = take (end - start) (drop start buf)

-- The number that little-endian bytes stand for, and its bytes, lowest first.
unfoldable pub le_value : Bytes → ℕ
le_value [] = 0
le_value (b ∷ bs) = b + 256 * le_value bs

unfoldable pub le_bytes : ℕ → ℕ → Bytes
le_bytes zero v = []
le_bytes (suc n) v = v % 256 ∷ le_bytes n (v / 256)

-- `new DataView(buf.buffer, buf.byteOffset + offset, width)`, read whole in little-endian order.
unfoldable pub read_uint_le : ℕ → Bytes → ℕ → Result ℕ
read_uint_le width buf offset =
    if leb (offset + width) (length buf)
    then ok (le_value (take width (drop offset buf)))
    else err range_error

unfoldable pub read_uint16_le : Bytes → ℕ → Result ℕ
unfolding read_uint_le
read_uint16_le buf offset = read_uint_le 2 buf offset

unfoldable pub read_uint32_le : Bytes → ℕ → Result ℕ
unfolding read_uint_le
read_uint32_le buf offset = read_uint_le 4 buf offset
