-- ===== src/Ecdsa.antt =====
-- `encodeEcdsaSignatureToDer` of packages/qvl/src/utils.ts: a raw signature of 64 bytes as a DER
-- SEQUENCE of two INTEGERs.
pub mod Laws
use teekit.Common.{
  ℕ, ◌+◌, Bool, true, false, List, [], ◌∷◌, ◌++◌, length, ltb, leb, ◌==◌, if◌then◌else◌, bit_and,
}
use teekit.Result.{Result, ok, ◌>>=◌, ◌>>◌, require, signature_length}
use teekit.Bytes.{Bytes, subarray}

-- `while (i < buf.length && buf[i] === 0x00) i++`, and the rest.
unfoldable pub skip_zeros : Bytes → Bytes
skip_zeros [] = []
skip_zeros (b ∷ buf) = let rest = skip_zeros buf in if b == 0 then rest else b ∷ buf

-- A single zero for nothing, and a zero in front of a high bit.
unfoldable pub positive : Bytes → Bytes
positive [] = 0 ∷ []
positive (b ∷ v) = if bit_and b 0x80 == 0 then b ∷ v else 0 ∷ b ∷ v

unfoldable pub encode_integer : Bytes → Bytes
unfolding skip_zeros positive
encode_integer buf = let v = positive (skip_zeros buf) in 0x02 ∷ length v ∷ v

unfoldable pub encode_ecdsa_signature_to_der : Bytes → Result Bytes
encode_ecdsa_signature_to_der raw_signature = do
  require (length raw_signature == 64) signature_length
  let r_encoded = encode_integer (subarray raw_signature 0 32)
  let s_encoded = encode_integer (subarray raw_signature 32 64)
  ok (0x30 ∷ (length r_encoded + length s_encoded) ∷ (r_encoded ++ s_encoded))
