-- ===== src/Struct.antt =====
-- Struct descriptions in the style of the `restructure` package, which packages/qvl/src/structs.ts
-- and structsSev.ts use: `new r.Struct({…})` is the list of its fields, in order. The package
-- itself is the parameter `Restructure`.
pub mod Laws
use Prim.Native.String.{String}
use teekit.Common.{ℕ, ◌+◌, ◌≤◌, ◌<◌, ◌^◌, ◌≡◌, List, [], ◌∷◌, ◌++◌, length, take, drop}
use teekit.Result.{Result, ok, err, ◌>>=◌}
use teekit.Bytes.{Bytes, le_value, le_bytes}

-- `r.uint8`, `r.uint16le`, `r.uint32le` by their width in bytes, and `new r.Buffer(length)`.
pub data Field : Type 0 where
  uint : (name : String) (width : ℕ) → Field
  buffer : (name : String) (size : ℕ) → Field

abbrev pub Struct : Type 0
Struct = List Field

-- The values of a struct, as nested pairs in the order of the fields.
abbrev pub Fields : Struct → Type 0
Fields [] = Unit
Fields (uint name width ∷ s) = ℕ × (Fields s)
Fields (buffer name size ∷ s) = Bytes × (Fields s)

-- `Struct.size()`
abbrev pub size : Struct → ℕ
size [] = 0
size (uint name width ∷ s) = width + size s
size (buffer name len ∷ s) = len + size s

-- What the sources rely on of `restructure`: a read takes its bytes from the front of the stream
-- and leaves the others. Nothing is assumed of a read past the end.
pub record Restructure : Type 0 where
  pub read_uint : ℕ → Bytes → Result (ℕ × Bytes)
  pub read_buffer : ℕ → Bytes → Result (Bytes × Bytes)
  pub read_uint_law :
      (n : ℕ) (xs : Bytes) → n ≤ length xs → read_uint n xs ≡ ok (le_value (take n xs), drop n xs)
  pub read_buffer_law :
      (n : ℕ) (xs : Bytes) → n ≤ length xs → read_buffer n xs ≡ ok (take n xs, drop n xs)

module _ (r : Restructure) where
  -- The fields are decoded one after the other from one stream.
  unfoldable pub decode : (s : Struct) → Bytes → Result (Fields s × Bytes)
  decode [] xs = ok (tt, xs)
  decode (uint name width ∷ s) xs = do
    (v, rest) ← r.read_uint width xs
    (vs, rest') ← decode s rest
    ok ((v, vs), rest')
  decode (buffer name len ∷ s) xs = do
    (v, rest) ← r.read_buffer len xs
    (vs, rest') ← decode s rest
    ok ((v, vs), rest')

  -- `Struct.fromBuffer(buf)`
  unfoldable pub from_buffer : (s : Struct) → Bytes → Result (Fields s)
  unfolding decode
  from_buffer s xs = do (vs, rest) ← decode s xs; ok vs

-- The bytes of a struct, and when its values have their widths.
unfoldable pub encode : (s : Struct) → Fields s → Bytes
encode [] vs = []
encode (uint name width ∷ s) (v, vs) = le_bytes width v ++ encode s vs
encode (buffer name len ∷ s) (v, vs) = v ++ encode s vs

abbrev pub Fits : (s : Struct) → Fields s → Type 0
Fits [] vs = Unit
Fits (uint name width ∷ s) (v, vs) = (v < 256 ^ width) × Fits s vs
Fits (buffer name len ∷ s) (v, vs) = (length v ≡ len) × Fits s vs

-- The values that stand in a byte array from its start, whatever follows.
unfoldable pub values : (s : Struct) → Bytes → Fields s
values [] xs = tt
values (uint name width ∷ s) xs = (le_value (take width xs), values s (drop width xs))
values (buffer name len ∷ s) xs = (take len xs, values s (drop len xs))
