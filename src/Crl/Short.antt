-- ===== src/Crl/Short.antt =====
-- Revocation lists in which every length is one byte, for `parseCrlRevokedSerials` of
-- packages/qvl/src/utils.ts.
use teekit.Common.{
  ℕ, zero, suc, ◌+◌, ◌≡◌, ◌≢◌, refl, sym, ap, arith, true, [], ◌∷◌, length, All, Bool-cases, inl,
  inr, leb, ◌==◌, bit_and, ℤ, pos, negsuc, add_ℕ,
}
use teekit.Result.{Result, ok, err, >>=-eq-ok, der_error}
use teekit.Bytes.{Bytes}
use teekit.Crl.{Tlv, tlv, byte_at, read_length, read_extent, read_tlv}
use teekit.Crl.Termination.{SequencesAdvance}

-- A byte that a length of its own can be: its top bit is clear.
abbrev pub IsShort : ℕ → Type 0
IsShort b = bit_and b 0x80 ≡ 0

byte_at-IsShort : (der : Bytes) (i : ℕ) → All IsShort der → IsShort (byte_at der i)
unfolding byte_at
byte_at-IsShort [] i h = refl
byte_at-IsShort (b ∷ der) zero (h, hs) = h
byte_at-IsShort (b ∷ der) (suc i) (h, hs) = byte_at-IsShort der i hs

module _ (der : Bytes) (short : All IsShort der) where
  read_length-short :
      (cursor start : ℕ) (len : ℤ)
      → read_length der cursor ≡ ok (start, len)
      → (start ≡ cursor + 1) × (len ≡ pos (byte_at der cursor))
  unfolding read_length
  read_length-short cursor start len e =
      let clear : (bit_and (byte_at der cursor) 0x80 == 0) ≡ true =
        rw (byte_at-IsShort der cursor short) in
      ground arith

  read_extent-short :
      (cursor start : ℕ) (next : ℤ)
      → read_extent der cursor ≡ ok (start, next)
      → next ≡ pos (cursor + 1 + byte_at der cursor)
  unfolding read_extent add_ℕ
  read_extent-short cursor start next e =
      let ((s, len), found, more) = >>=-eq-ok (read_length der cursor) _ e in
      let (is_start, is_len) = read_length-short cursor s len found in ground arith

  pub SequencesAdvance-of_short : SequencesAdvance der
  unfolding read_tlv
  SequencesAdvance-of_short (pos q) start next e = elim (Bool-cases (leb (length der) q)) [
    | inl outside ↦ absurd (err-ne-ok (rw outside at e))
    | inr inside ↦
        let ((s, n), found, more) = >>=-eq-ok (read_extent der (q + 1)) _ (rw inside at e) in
        let at_end = read_extent-short (q + 1) s n found in
        let same : next ≡ n = ap next_of (sym more) in ground arith
  ]
    where
      next_of : Result Tlv → ℤ
      next_of (ok (tlv t s n)) = n
      next_of _ = pos 0

      err-ne-ok : {t : Tlv} → err der_error ≢ ok t
      err-ne-ok e = cc
  SequencesAdvance-of_short (negsuc zero) start next e = ground arith
  SequencesAdvance-of_short (negsuc (suc n)) start next e = cc
