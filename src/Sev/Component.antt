-- ===== src/Sev/Component.antt =====
-- The signature components of packages/qvl/src/parseSev.ts as numbers.
use teekit.Common.{
  ℕ, zero, suc, ◌+◌, ◌-◌, ◌*◌, ◌<◌, ◌≤◌, ◌≡◌, inl, inr, refl, sym, ap, ◌∙◌, arith, true, false, [],
  ◌∷◌, ◌++◌, length, take, drop, length-append, length-take, length-drop, ltb, ◌==◌, ==_iff,
  take-append-drop, drop-append, Bool-cases,
}
use teekit.Bytes.{Bytes, subarray, le_value}
use teekit.Crl.{byte_at}
use teekit.Sev.Report.{trimmed_end, reversed, zeros, pad_or_trim, convert_signature_component}
use mathlib.Core.List.{append_assoc, append-nil}

-- The number that big-endian bytes stand for: each byte shifts the ones before it.
unfoldable pub be_value_after : ℕ → Bytes → ℕ
be_value_after acc [] = acc
be_value_after acc (b ∷ bs) = be_value_after (256 * acc + b) bs

abbrev pub be_value : Bytes → ℕ
be_value bs = be_value_after 0 bs

length-reversed : (bs : Bytes) → length (reversed bs) ≡ length bs
unfolding reversed
length-reversed [] = refl
length-reversed (b ∷ bs) = omega (arith, length-append (reversed bs) (b ∷ []), length-reversed bs)

length-zeros : (n : ℕ) → length (zeros n) ≡ n
unfolding zeros
length-zeros zero = refl
length-zeros (suc n) = omega (arith, length-zeros n)

be_value-append :
    (acc : ℕ) (xs ys : Bytes)
    → be_value_after acc (xs ++ ys) ≡ be_value_after (be_value_after acc xs) ys
unfolding be_value_after
be_value-append acc [] ys = refl
be_value-append acc (x ∷ xs) ys = be_value-append (256 * acc + x) xs ys

be_value-reversed : (bs : Bytes) → be_value (reversed bs) ≡ le_value bs
unfolding be_value_after reversed le_value
be_value-reversed [] = refl
be_value-reversed (b ∷ bs) =
    be_value-append 0 (reversed bs) (b ∷ []) ∙ omega (arith, be_value-reversed bs)

be_value-zeros : (n : ℕ) (bs : Bytes) → be_value (zeros n ++ bs) ≡ be_value bs
unfolding be_value_after zeros
be_value-zeros zero bs = refl
be_value-zeros (suc n) bs = be_value-zeros n bs

-- What is cut off at the end is zero.
le_value-take :
    (bs : Bytes) (n : ℕ) → byte_at bs n ≡ 0 → le_value (take (suc n) bs) ≡ le_value (take n bs)
unfolding le_value byte_at
le_value-take [] zero h = refl
le_value-take [] (suc n) h = refl
le_value-take (b ∷ bs) zero h = omega arith
le_value-take (b ∷ bs) (suc n) h = omega (arith, le_value-take bs n h)

le_value-trimmed :
    (bs : Bytes) (end : ℕ) → le_value (take (trimmed_end bs end) bs) ≡ le_value (take end bs)
unfolding trimmed_end
le_value-trimmed bs zero = refl
le_value-trimmed bs (suc end) = elim (Bool-cases (byte_at bs end == 0)) [
  | inl is_zero ↦
      rw is_zero (le_value-trimmed bs end ∙ sym (le_value-take bs end ((==_iff _ _).0 is_zero)))
  | inr other ↦ rw other
]

take_all : (bs : Bytes) → take (length bs) bs ≡ bs
take_all [] = refl
take_all (b ∷ bs) = ap (λ t. b ∷ t) (take_all bs)

trimmed_end-le : (bs : Bytes) (end : ℕ) → trimmed_end bs end ≤ end
unfolding trimmed_end
trimmed_end-le bs zero = omega arith
trimmed_end-le bs (suc end) = elim (Bool-cases (byte_at bs end == 0)) [
  | inl is_zero ↦ rw is_zero (omega (arith, trimmed_end-le bs end))
  | inr other ↦ rw other (omega arith)
]

le_value-take_le : (bs : Bytes) (n : ℕ) → le_value (take n bs) ≤ le_value bs
unfolding le_value
le_value-take_le bs zero = omega arith
le_value-take_le [] (suc n) = omega arith
le_value-take_le (b ∷ bs) (suc n) = omega (arith, le_value-take_le bs n)

le_value-take_mono : (bs : Bytes) (m n : ℕ) → m ≤ n → le_value (take m bs) ≤ le_value (take n bs)
unfolding le_value
le_value-take_mono bs zero n h = omega arith
le_value-take_mono bs (suc m) zero h = absurd (omega arith)
le_value-take_mono [] (suc m) (suc n) h = omega arith
le_value-take_mono (b ∷ bs) (suc m) (suc n) h =
    omega (arith, le_value-take_mono bs m n (omega arith))

take-take : (bs : Bytes) (m n : ℕ) → m ≤ n → take m (take n bs) ≡ take m bs
take-take bs zero n h = refl
take-take bs (suc m) zero h = absurd (omega arith)
take-take [] (suc m) (suc n) h = refl
take-take (b ∷ bs) (suc m) (suc n) h = ap (λ t. b ∷ t) (take-take bs m n (omega arith))

reversed-append : (xs ys : Bytes) → reversed (xs ++ ys) ≡ reversed ys ++ reversed xs
unfolding reversed
reversed-append [] ys = sym (append-nil (reversed ys))
reversed-append (x ∷ xs) ys =
    rw (reversed-append xs ys, append_assoc (reversed ys) (reversed xs) (x ∷ []))

-- Dropping from the front of the opposite order is taking less.
drop-reversed :
    (bs : Bytes) (n : ℕ) → n ≤ length bs → drop (length bs - n) (reversed bs) ≡ reversed (take n bs)
drop-reversed bs n h =
    ap (λ t. drop (length bs - n) (reversed t)) (sym (take-append-drop n bs))
    ∙ ap (drop (length bs - n)) (reversed-append (take n bs) (drop n bs))
    ∙ drop-append (length bs - n) (reversed (drop n bs)) (reversed (take n bs))
        (length-reversed (drop n bs) ∙ length-drop n bs)

-- The bytes that are left are all of the value.
le_value-trimmed_all : (bs : Bytes) → le_value (take (trimmed_end bs (length bs)) bs) ≡ le_value bs
le_value-trimmed_all bs = le_value-trimmed bs (length bs) ∙ ap le_value (take_all bs)

pad_or_trim-long :
    (bs : Bytes)
    → 48 < length bs
    → (be_value (pad_or_trim (reversed bs)) ≡ le_value (take 48 bs))
      × (length (pad_or_trim (reversed bs)) ≡ 48)
unfolding pad_or_trim
pad_or_trim-long bs h =
    let long : ltb 48 (length (reversed bs)) ≡ true = ground (arith, length-reversed bs) in
    let kept : pad_or_trim (reversed bs) ≡ reversed (take 48 bs) =
      rw (long, length-reversed bs, drop-reversed bs 48 (omega arith)) in
    (
      ap be_value kept ∙ be_value-reversed (take 48 bs),
      ap length kept ∙ length-reversed (take 48 bs) ∙ length-take 48 bs (omega arith),
    )

pad_or_trim-short :
    (bs : Bytes)
    → length bs ≤ 48
    → (be_value (pad_or_trim (reversed bs)) ≡ le_value bs)
      × (length (pad_or_trim (reversed bs)) ≡ 48)
unfolding pad_or_trim
pad_or_trim-short bs h =
    let short : ltb 48 (length (reversed bs)) ≡ false = ground (arith, length-reversed bs) in
    let pad = zeros (48 - length (reversed bs)) in
    let kept : pad_or_trim (reversed bs) ≡ pad ++ reversed bs = rw short in
    (
      ap be_value kept
          ∙ be_value-zeros (48 - length (reversed bs)) (reversed bs)
          ∙ be_value-reversed bs,
      ap length kept
          ∙ length-append pad (reversed bs)
          ∙ omega (arith, length-zeros (48 - length (reversed bs)), length-reversed bs),
    )

-- A converted component is 48 bytes long, and as a big-endian number it is what the first 48 bytes of
-- the component are as a little-endian number.
pub convert_signature_component-be_value :
    (component : Bytes)
    → (be_value (convert_signature_component component) ≡ le_value (take 48 component))
      × (length (convert_signature_component component) ≡ 48)
unfolding convert_signature_component subarray
convert_signature_component-be_value component =
    let no_start : end - 0 ≡ end = omega arith in
    rw no_start (elim (Bool-cases (ltb 48 end)) [
      | inl long ↦
          let (value, len) = pad_or_trim-long kept (omega (arith, kept_length, ltb-lt _ _ long)) in
          (value ∙ ap le_value (take-take component 48 end (omega (arith, ltb-lt _ _ long))), len)
      | inr short ↦
          let bounded : end ≤ 48 = ltb-ge _ _ short in
          let (value, len) = pad_or_trim-short kept (omega (arith, kept_length, bounded)) in
          (
            value
                ∙ omega (
                  arith,
                  le_value-trimmed_all component,
                  le_value-take_le component 48,
                  le_value-take_mono component end 48 bounded,
                ),
            len,
          )
    ])
  where
    end : ℕ
    end = trimmed_end component (length component)

    kept : Bytes
    kept = take end component

    kept_length : length kept ≡ end
    kept_length = length-take end component (trimmed_end-le component (length component))

    ltb-lt : (a b : ℕ) → ltb a b ≡ true → a < b
    ltb-lt a b h = ground arith

    ltb-ge : (a b : ℕ) → ltb a b ≡ false → b ≤ a
    ltb-ge a b h = ground arith
