-- ===== src/Crl.antt =====
-- `parseCrlRevokedSerials` of packages/qvl/src/utils.ts: the serial numbers in a DER revocation list.
pub mod Termination
pub mod Short
use teekit.Common.{
  ℕ, zero, suc, ◌+◌, ◌-◌, ◌*◌, ◌%◌, ◌≡◌, Bool, true, false, ◌||◌, List, [], ◌∷◌, Option, none, some,
  length, get_elem?, ltb, leb, ◌==◌, if◌then◌else◌, bit_and, Text, ℤ, pos, negsuc, ltb_ℤ, to_int32,
  add_ℕ,
}
use teekit.Result.{Result, ok, err, stuck, ◌>>=◌, der_error}
use teekit.Bytes.{Bytes, subarray}
use teekit.Packages.{Hex}
use teekit.Serial.{crl_serial_hex}

abbrev pub tag_sequence : ℕ
tag_sequence = 0x30

abbrev pub tag_integer : ℕ
tag_integer = 0x02

abbrev pub tag_utc_time : ℕ
tag_utc_time = 0x17

abbrev pub tag_generalized_time : ℕ
tag_generalized_time = 0x18

-- What `readTLV` returns. A read at a negative offset finds no byte: its tag is `undefined`, which
-- equals no tag, so that nothing else of it is used.
pub data Tlv : Type 0 where
  tlv : (tag value_offset : ℕ) (next_offset : ℤ) → Tlv
  untagged : Tlv

-- A byte inside the array; every read below is guarded by a test of its bounds.
unfoldable pub byte_at : Bytes → ℕ → ℕ
byte_at buf i = elim (get_elem? buf i) [ none ↦ 0 | some b ↦ b ]

-- `for (…) length = (length << 8) | buf[cursor++]`, on the 32-bit pattern of `length`.
unfoldable pub long_length : (count : ℕ) → Bytes → (cursor length : ℕ) → ℕ
unfolding byte_at
long_length zero buf cursor len = len
long_length (suc count) buf cursor len =
    long_length count buf (cursor + 1) (len * 256 % 0x1_0000_0000 + byte_at buf cursor)

-- The length at `cursor`: where the value begins, and how long it is.
unfoldable pub read_length : Bytes → ℕ → Result (ℕ × ℤ)
unfolding long_length byte_at
read_length buf cursor =
    let len_byte = byte_at buf cursor in
    let num_bytes = bit_and len_byte 0x7f in
    if leb (length buf) cursor
    then err der_error
    else if bit_and len_byte 0x80 == 0
    then ok (cursor + 1, pos len_byte)
    else if num_bytes == 0 || ltb (length buf) (cursor + 1 + num_bytes)
    then err der_error
    else ok (cursor + 1 + num_bytes, to_int32 (long_length num_bytes buf (cursor + 1) 0))

-- The length, and the end of the value, which must not lie behind the array.
unfoldable pub read_extent : Bytes → ℕ → Result (ℕ × ℤ)
unfolding read_length
read_extent buf cursor = do
  (value_offset, len) ← read_length buf cursor
  let next_offset = add_ℕ value_offset len
  if ltb_ℤ (pos (length buf)) next_offset then err der_error else ok (value_offset, next_offset)

-- `readTLV`. In front of the array the byte after the tag may be the first of the array, or none.
unfoldable pub read_tlv : Bytes → ℤ → Result Tlv
unfolding read_extent
read_tlv buf (pos offset) = if leb (length buf) offset then err der_error else (do
  (value_offset, next_offset) ← read_extent buf (offset + 1)
  ok (tlv (byte_at buf offset) value_offset next_offset))
read_tlv buf (negsuc zero) = read_extent buf 0 >>= λ _. ok untagged
read_tlv buf (negsuc (suc n)) = ok untagged

-- The offsets of a TLV that has the tag.
unfoldable pub tagged : ℕ → Tlv → Option (ℕ × ℤ)
tagged tag (tlv t value_offset next_offset) =
    if t == tag then some (value_offset, next_offset) else none
tagged tag untagged = none

-- `der.subarray(valueOffset, nextOffset)`: a negative end counts from the end of the array.
unfoldable pub subarray_ℤ : Bytes → ℕ → ℤ → Bytes
subarray_ℤ buf start (pos end) = subarray buf start end
subarray_ℤ buf start (negsuc n) = subarray buf start (length buf - suc n)

-- `catch { return [] }`
unfoldable pub catch_empty : Result (List Text) → Result (List Text)
catch_empty (ok serials) = ok serials
catch_empty (err e) = ok []
catch_empty stuck = stuck

module _ (hex : Hex) (der : Bytes) where
  -- The serial number in an entry, if its first part is an INTEGER.
  unfoldable pub entry_serial : Tlv → List Text → List Text
  unfolding tagged subarray_ℤ
  entry_serial serial_tlv rest = elim (tagged tag_integer serial_tlv) [
    | none ↦ rest
    | some (start, end) ↦ crl_serial_hex hex (subarray_ℤ der start end) ∷ rest
  ]

  -- The loop over revokedCertificates, from `q` up to `end`: each round reads one entry and goes on
  -- where the entry ends. `stuck` when the fuel is used up before `end`.
  unfoldable pub revoked_entries : (fuel : ℕ) (q end : ℤ) → Result (List Text)
  unfolding entry_serial read_tlv tagged
  revoked_entries zero q end = if ltb_ℤ q end then stuck else ok []
  revoked_entries (suc fuel) q end =
      let round : Result (List Text) = (do
        entry ← read_tlv der q
        elim (tagged tag_sequence entry) [
          | none ↦ ok []
          | some (start, next) ↦ do
            serial_tlv ← read_tlv der (pos start)
            rest ← revoked_entries fuel next end
            ok (entry_serial serial_tlv rest)
        ]) in
      if ltb_ℤ q end then round else ok []

  -- A TLV with one of two tags at `p` is passed over; without one `p` stays.
  unfoldable pub skip_optional : (tag other : ℕ) → ℤ → Result ℤ
  unfolding read_tlv tagged
  skip_optional tag other p = do
    t ← read_tlv der p
    ok (elim (tagged tag t) [
      | some (start, next) ↦ next
      | none ↦ elim (tagged other t) [ some (start, next) ↦ next | none ↦ p ]
    ])

  -- A TLV that must have one of two tags: where it ends, or `none` where the source returns [].
  unfoldable pub skip_required : (tag other : ℕ) → ℤ → Result (Option ℤ)
  unfolding read_tlv tagged
  skip_required tag other p = do
    t ← read_tlv der p
    ok (elim (tagged tag t) [
      | some (start, next) ↦ some next
      | none ↦ elim (tagged other t) [ some (start, next) ↦ some next | none ↦ none ]
    ])

  -- revokedCertificates, the optional SEQUENCE at `p`
  unfoldable pub revoked_at : (fuel : ℕ) (p tbs_end : ℤ) → Result (List Text)
  unfolding revoked_entries
  revoked_at fuel p tbs_end =
      if ltb_ℤ p tbs_end
      then (do
        maybe_revoked ← read_tlv der p
        elim (tagged tag_sequence maybe_revoked) [
          | none ↦ ok []
          | some (start, end) ↦ revoked_entries fuel (pos start) end
        ])
      else ok []

  -- nextUpdate, which is optional, and what follows it
  unfoldable pub next_update_at : (fuel : ℕ) (p tbs_end : ℤ) → Result (List Text)
  unfolding skip_optional revoked_at
  next_update_at fuel p tbs_end =
      if ltb_ℤ p tbs_end
      then (do p' ← skip_optional tag_utc_time tag_generalized_time p; revoked_at fuel p' tbs_end)
      else ok []

  -- signature, issuer and thisUpdate, and what follows them
  unfoldable pub signature_at : (fuel : ℕ) (p tbs_end : ℤ) → Result (List Text)
  unfolding skip_required next_update_at
  signature_at fuel p tbs_end = do
    after_signature ← skip_required tag_sequence tag_sequence p
    elim after_signature [
      | none ↦ ok []
      | some p1 ↦ do
        after_issuer ← skip_required tag_sequence tag_sequence p1
        elim after_issuer [
          | none ↦ ok []
          | some p2 ↦ do
            after_this ← skip_required tag_utc_time tag_generalized_time p2
            elim after_this [ none ↦ ok [] | some p3 ↦ next_update_at fuel p3 tbs_end ]
        ]
    ]

  -- The body of the `try` block.
  unfoldable pub crl_body : (fuel : ℕ) → Result (List Text)
  unfolding signature_at
  crl_body fuel = do
    outer ← read_tlv der (pos 0)
    elim (tagged tag_sequence outer) [
      | none ↦ ok []
      | some (outer_start, outer_next) ↦ do
        tbs ← read_tlv der (pos outer_start)
        elim (tagged tag_sequence tbs) [
          | none ↦ ok []
          | some (tbs_start, tbs_end) ↦ do
            p ← skip_optional tag_integer tag_integer (pos tbs_start)
            signature_at fuel p tbs_end
        ]
    ]

  -- Every entry that ends behind its start takes a byte at least, so this fuel is enough for them.
  unfoldable pub parse_crl_revoked_serials : Result (List Text)
  unfolding crl_body catch_empty
  parse_crl_revoked_serials = catch_empty (crl_body (suc (length der)))
