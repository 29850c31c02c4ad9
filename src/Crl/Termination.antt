-- ===== src/Crl/Termination.antt =====
-- The loop of `parseCrlRevokedSerials`, packages/qvl/src/utils.ts, and its fuel.
use teekit.Common.{
  ℕ, zero, suc, ◌+◌, ◌≤◌, ◌<◌, ◌≡◌, ◌≢◌, inl, inr, refl, ap, ◌∙◌, arith, true, List, [], none, some,
  length, Bool-cases, Option-cases, Text, ℤ, pos, negsuc, ltb_ℤ, ◌<ℤ◌, pos_part, neg_part,
}
use teekit.Result.{Result, ok, err, stuck, ◌>>=◌, >>=-eq-ok}
use teekit.Bytes.{Bytes}
use teekit.Packages.{Hex}
use teekit.Crl.{
  Tlv, tlv, untagged, tag_sequence, tag_integer, tag_utc_time, tag_generalized_time, tagged,
  read_length, read_extent, read_tlv, revoked_entries, skip_optional, skip_required, revoked_at,
  next_update_at, signature_at, crl_body, catch_empty, parse_crl_revoked_serials,
}

bind-ne-stuck {ℓ κ} :
    {A : Type ℓ} {B : Type κ} (m : Result A) (f : A → Result B)
    → m ≢ stuck
    → ((a : A) → m ≡ ok a → f a ≢ stuck)
    → (m >>= f) ≢ stuck
bind-ne-stuck (ok a) f h k = k a refl
bind-ne-stuck (err e) f h k = λ e'. cc
bind-ne-stuck stuck f h k = λ e. h refl

module _ (der : Bytes) where
  read_length-ne-stuck : (cursor : ℕ) → read_length der cursor ≢ stuck
  unfolding read_length
  read_length-ne-stuck cursor e = ground arith

  read_extent-ne-stuck : (cursor : ℕ) → read_extent der cursor ≢ stuck
  unfolding read_extent
  read_extent-ne-stuck cursor e = ground (arith, read_length-ne-stuck cursor)

  read_tlv-ne-stuck : (q : ℤ) → read_tlv der q ≢ stuck
  unfolding read_tlv
  read_tlv-ne-stuck (pos n) e = ground (arith, read_extent-ne-stuck (n + 1))
  read_tlv-ne-stuck (negsuc zero) e = ground (arith, read_extent-ne-stuck 0)
  read_tlv-ne-stuck (negsuc (suc n)) e = cc

  -- A value ends inside the array.
  read_extent-end :
      (cursor start : ℕ) (next : ℤ)
      → read_extent der cursor ≡ ok (start, next)
      → pos_part next ≤ length der + neg_part next
  unfolding read_extent
  read_extent-end cursor start next e =
      let ((s, len), found, more) = >>=-eq-ok (read_length der cursor) _ e in ground arith

  read_tlv-end :
      (q : ℤ) (tag start : ℕ) (next : ℤ)
      → read_tlv der q ≡ ok (tlv tag start next)
      → pos_part next ≤ length der + neg_part next
  unfolding read_tlv
  read_tlv-end (pos n) tag start next e = ground (arith, read_extent-end (n + 1) start next)
  read_tlv-end (negsuc zero) tag start next e = ground arith
  read_tlv-end (negsuc (suc n)) tag start next e = cc

tagged-eq-some :
    (tag : ℕ) (t : Tlv) (start : ℕ) (next : ℤ)
    → tagged tag t ≡ some (start, next)
    → t ≡ tlv tag start next
unfolding tagged
tagged-eq-some tag (tlv t s n) start next e = ground arith
tagged-eq-some tag untagged start next e = cc

-- No SEQUENCE in the array ends at or before its start. A length of at most three bytes, or of four
-- with the top bit clear, cannot do so.
abbrev pub SequencesAdvance : Bytes → Type 0
SequencesAdvance der =
    (q : ℤ) (start : ℕ) (next : ℤ) → read_tlv der q ≡ ok (tlv tag_sequence start next) → q <ℤ next

-- An offset behind a natural number is one.
behind :
    (P : ℤ → Type 0) (n : ℕ) (next : ℤ) → pos n <ℤ next → ((m : ℕ) → n < m → P (pos m)) → P next
behind P n (pos m) h f = f m (omega arith)
behind P n (negsuc m) h f = absurd (omega arith)

caught : (m : Result (List Text)) → m ≢ stuck → (serials : List Text) × (catch_empty m ≡ ok serials)
unfolding catch_empty
caught (ok serials) h = (serials, refl)
caught (err e) h = ([], refl)
caught stuck h = absurd (h refl)

module _ (hex : Hex) (der : Bytes) where
  module _ (advance : SequencesAdvance der) where
    revoked_entries-ne-stuck :
        (fuel n : ℕ) (end : ℤ)
        → pos_part end ≤ length der + neg_part end
        → length der ≤ n + fuel
        → revoked_entries hex der fuel (pos n) end ≢ stuck
    unfolding revoked_entries
    revoked_entries-ne-stuck zero n end inside enough = λ e. ground arith
    revoked_entries-ne-stuck (suc fuel) n end inside enough =
        elim (Bool-cases (ltb_ℤ (pos n) end)) [
          | inr over ↦ rw over (λ e. cc)
          | inl more ↦ rw more (
              bind-ne-stuck (read_tlv der (pos n)) _ (read_tlv-ne-stuck der (pos n)) (λ t found.
                elim (Option-cases (tagged tag_sequence t)) [
                  | inl other ↦ rw other (λ e. cc)
                  | inr ((start, next), entry) ↦ rw entry (
                      bind-ne-stuck (read_tlv der (pos start)) _ (read_tlv-ne-stuck der (pos start))
                        (λ s _.
                          bind-ne-stuck (revoked_entries hex der fuel next end) _
                            (behind (λ p. revoked_entries hex der fuel p end ≢ stuck) n next
                              (advance (pos n) start next
                                (found ∙ ap ok (tagged-eq-some _ t start next entry)))
                              (λ m h. revoked_entries-ne-stuck fuel m end inside (omega arith)))
                            (λ rest _ e. cc)))
                ]))
        ]

    revoked_at-ne-stuck : (p tbs_end : ℤ) → revoked_at hex der (suc (length der)) p tbs_end ≢ stuck
    unfolding revoked_at
    revoked_at-ne-stuck p tbs_end = elim (Bool-cases (ltb_ℤ p tbs_end)) [
      | inr over ↦ rw over (λ e. cc)
      | inl more ↦ rw more (
          bind-ne-stuck (read_tlv der p) _ (read_tlv-ne-stuck der p) (λ t found.
            elim (Option-cases (tagged tag_sequence t)) [
              | inl other ↦ rw other (λ e. cc)
              | inr ((start, end), is_seq) ↦ rw is_seq (
                  revoked_entries-ne-stuck (suc (length der)) start end
                    (read_tlv-end der p tag_sequence start end
                      (found ∙ ap ok (tagged-eq-some _ t start end is_seq)))
                    (omega arith))
            ]))
    ]

    skip_optional-ne-stuck : (tag other : ℕ) (p : ℤ) → skip_optional hex der tag other p ≢ stuck
    unfolding skip_optional
    skip_optional-ne-stuck tag other p =
        bind-ne-stuck (read_tlv der p) _ (read_tlv-ne-stuck der p) (λ t _ e. cc)

    skip_required-ne-stuck : (tag other : ℕ) (p : ℤ) → skip_required hex der tag other p ≢ stuck
    unfolding skip_required
    skip_required-ne-stuck tag other p =
        bind-ne-stuck (read_tlv der p) _ (read_tlv-ne-stuck der p) (λ t _ e. cc)

    next_update_at-ne-stuck :
        (p tbs_end : ℤ) → next_update_at hex der (suc (length der)) p tbs_end ≢ stuck
    unfolding next_update_at
    next_update_at-ne-stuck p tbs_end = elim (Bool-cases (ltb_ℤ p tbs_end)) [
      | inr over ↦ rw over (λ e. cc)
      | inl more ↦ rw more (
          bind-ne-stuck (skip_optional hex der tag_utc_time tag_generalized_time p) _
            (skip_optional-ne-stuck tag_utc_time tag_generalized_time p)
            (λ p' _. revoked_at-ne-stuck p' tbs_end))
    ]

    -- What is read after a required part.
    after_required :
        (tag other : ℕ) (p : ℤ) (k : ℤ → Result (List Text))
        → ((p' : ℤ) → k p' ≢ stuck)
        → (skip_required hex der tag other p >>= λ o. elim o [ none ↦ ok [] | some p' ↦ k p' ])
          ≢ stuck
    after_required tag other p k h =
        bind-ne-stuck (skip_required hex der tag other p) _ (skip_required-ne-stuck tag other p)
          (λ o _. elim (Option-cases o) [
            | inl missing ↦ rw missing (λ e. cc)
            | inr (p', found) ↦ rw found (h p')
          ])

    signature_at-ne-stuck :
        (p tbs_end : ℤ) → signature_at hex der (suc (length der)) p tbs_end ≢ stuck
    unfolding signature_at
    signature_at-ne-stuck p tbs_end = after_required tag_sequence tag_sequence p _ (λ p1.
        after_required tag_sequence tag_sequence p1 _ (λ p2.
          after_required tag_utc_time tag_generalized_time p2 _
            (λ p3. next_update_at-ne-stuck p3 tbs_end)))

    -- What is read inside a SEQUENCE.
    inside_sequence :
        (p : ℤ) (k : ℕ → ℤ → Result (List Text))
        → ((start : ℕ) (next : ℤ) → k start next ≢ stuck)
        → (read_tlv der p >>= λ t. elim (tagged tag_sequence t) [
          | none ↦ ok []
          | some (s, n) ↦ k s n
        ])
          ≢ stuck
    inside_sequence p k h = bind-ne-stuck (read_tlv der p) _ (read_tlv-ne-stuck der p) (λ t _.
        elim (Option-cases (tagged tag_sequence t)) [
          | inl missing ↦ rw missing (λ e. cc)
          | inr ((s, n), found) ↦ rw found (h s n)
        ])

    crl_body-ne-stuck : crl_body hex der (suc (length der)) ≢ stuck
    unfolding crl_body
    crl_body-ne-stuck = inside_sequence (pos 0) _ (λ outer_start outer_next.
        inside_sequence (pos outer_start) _ (λ tbs_start tbs_end.
          bind-ne-stuck (skip_optional hex der tag_integer tag_integer (pos tbs_start)) _
            (skip_optional-ne-stuck tag_integer tag_integer (pos tbs_start))
            (λ p _. signature_at-ne-stuck p tbs_end)))

    -- If every SEQUENCE of the list ends behind its start, parsing ends and returns the serials of
    -- some entries; it throws nothing.
    pub parse_crl_revoked_serials-total :
        (serials : List Text) × (parse_crl_revoked_serials hex der ≡ ok serials)
    unfolding parse_crl_revoked_serials
    parse_crl_revoked_serials-total = caught (crl_body hex der (suc (length der))) crl_body-ne-stuck

  -- An entry that ends where it starts holds the loop: with any fuel it has not ended. The 32-bit
  -- length 0xfffffffa of the bytes 30 84 ff ff ff fa makes such an entry.
  pub revoked_entries-hangs :
      (n start : ℕ) (end : ℤ) (serial_tlv : Tlv)
      → pos n <ℤ end
      → read_tlv der (pos n) ≡ ok (tlv tag_sequence start (pos n))
      → read_tlv der (pos start) ≡ ok serial_tlv
      → (fuel : ℕ) → revoked_entries hex der fuel (pos n) end ≡ stuck
  unfolding revoked_entries tagged
  revoked_entries-hangs n start end serial_tlv inside entry serial zero = ground arith
  revoked_entries-hangs n start end serial_tlv inside entry serial (suc fuel) =
      let test : ltb_ℤ (pos n) end ≡ true = ground arith in
      rw
        (test, entry, serial, revoked_entries-hangs n start end serial_tlv inside entry serial fuel)
