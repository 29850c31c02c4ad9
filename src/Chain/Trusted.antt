-- ===== src/Chain/Trusted.antt =====
-- What the checks of `verifyPCKChain`, packages/qvl/src/verifyTdx.ts, mean, stated of the
-- certificates.
use teekit.Common.{
  ℕ, ◌+◌, ◌≤◌, ◌≡◌, ◌≢◌, refl, sym, arith, true, false, not, ◌++◌, List, [], ◌∷◌, Option, none,
  some, All, any, last_of, Text, list_eq, list_eq_iff, leb, &&-true, ||-false, false_is_true,
  any-append_false,
}
use teekit.Result.{ok, >>=-eq-ok}
use teekit.Bytes.{Bytes}
use teekit.Packages.{Hex, X509, Certificate, BasicConstraints}
use teekit.Serial.{normalize_serial_hex, serial_number}
use teekit.Crl.{parse_crl_revoked_serials}
use teekit.Chain.Checks.{
  is_within_validity, all_within_validity, links_match, terminal_verifies, links_verify, is_ca,
  path_length_holds, issuers_hold, count_ca, constraints_hold,
}
use teekit.Chain.Revocation.{revoked_serials, is_revoked, any_revoked}
use teekit.Chain.{}

-- The time of verification, if there is one, lies in the validity window.
abbrev pub WithinValidity : Option ℕ → Certificate → Type 0
WithinValidity none c = Unit
WithinValidity (some t) c = (c.not_before ≤ t) × (t ≤ c.not_after)

-- Each certificate is issued and signed by the next.
abbrev pub IsLinked : X509 → Certificate → List Certificate → Type 0
IsLinked x child [] = Unit
IsLinked x child (parent ∷ above) =
    (child.issuer ≡ parent.subject) × (x.verify child parent ≡ true) × IsLinked x parent above

-- A CA, whose path length, if it has one, allows so many CAs below.
abbrev pub IsIssuerOver : ℕ → Certificate → Type 0
IsIssuerOver cas_below c =
    (bc : BasicConstraints) × (c.basic_constraints ≡ some bc)
    × (bc.ca ≡ true)
    × ((n : ℕ) → bc.path_length ≡ some n → cas_below ≤ n)

abbrev pub AreIssuersOver : ℕ → List Certificate → Type 0
AreIssuersOver cas_below [] = Unit
AreIssuersOver cas_below (c ∷ above) =
    IsIssuerOver cas_below c × AreIssuersOver (cas_below + 1) above

-- No serial of the list is that of a certificate in the chain.
abbrev pub IsNotListed : Hex → List Text → Certificate → Type 0
IsNotListed hex serials c = All (λ s. s ≢ normalize_serial_hex (serial_number hex c)) serials

-- Every list is read, and none names a certificate of the chain.
abbrev pub AreNotRevoked : Hex → List Bytes → List Certificate → Type 0
AreNotRevoked hex [] chain = Unit
AreNotRevoked hex (crl ∷ crls) chain =
    ((serials : List Text) × (parse_crl_revoked_serials hex crl ≡ ok serials)
      × All (IsNotListed hex serials) chain)
    × AreNotRevoked hex crls chain

pub record IsTrusted (hex : Hex) (x : X509) (at_time : Option ℕ) (crls : List Bytes)
    (leaf : Certificate) (above : List Certificate) : Type 0 where
  pub linked : IsLinked x leaf above
  pub in_time : All (WithinValidity at_time) (leaf ∷ above)
  pub self_signed :
      (last_of leaf above).subject ≡ (last_of leaf above).issuer
      → x.verify (last_of leaf above) (last_of leaf above) ≡ true
  pub leaf_is_no_ca : is_ca leaf ≡ false
  pub issuers : AreIssuersOver 0 above
  pub not_revoked : AreNotRevoked hex crls (leaf ∷ above)

within_of : (t : ℕ) (c : Certificate) → is_within_validity t c ≡ true → WithinValidity (some t) c
unfolding is_within_validity
within_of t c h = ground arith

pub in_time_of :
    (at_time : Option ℕ) (chain : List Certificate)
    → all_within_validity at_time chain ≡ true
    → All (WithinValidity at_time) chain
unfolding all_within_validity
in_time_of none [] h = tt
in_time_of none (c ∷ chain) h = (tt, in_time_of none chain refl)
in_time_of (some t) [] h = tt
in_time_of (some t) (c ∷ chain) h =
    let (here, later) = &&-true (is_within_validity t c) (all_within_validity (some t) chain) h in
    (within_of t c here, in_time_of (some t) chain later)

pub IsLinked-of :
    (x : X509) (child : Certificate) (above : List Certificate)
    → links_match child above ≡ true
    → links_verify x child above ≡ true
    → IsLinked x child above
unfolding links_match links_verify
IsLinked-of x child [] m v = tt
IsLinked-of x child (parent ∷ above) m v =
    let (name, names) = &&-true _ _ m in
    let (signed, all_signed) = &&-true _ _ v in
    ((list_eq_iff _ _).0 name, signed, IsLinked-of x parent above names all_signed)

issuer_of :
    (n : ℕ) (c : Certificate) → is_ca c ≡ true → path_length_holds n c ≡ true → IsIssuerOver n c
issuer_of n c = unfold is_ca path_length_holds in by_constraints n c.basic_constraints
  where
    by_constraints :
        (k : ℕ) (o : Option BasicConstraints)
        → (elim o [ none ↦ false | some bc ↦ bc.ca ]) ≡ true
        → (elim o [
          | none ↦ true
          | some bc ↦ elim bc.path_length [ none ↦ true | some m ↦ leb k m ]
        ])
          ≡ true
        → (bc : BasicConstraints) × (o ≡ some bc)
          × (bc.ca ≡ true)
          × ((m : ℕ) → bc.path_length ≡ some m → k ≤ m)
    by_constraints k none h p = cc
    by_constraints k (some bc) h p = (bc, refl, h, λ m e. ground arith)

issuers_of :
    (n : ℕ) (above : List Certificate) → issuers_hold n above ≡ true → AreIssuersOver n above
unfolding issuers_hold
issuers_of n [] h = tt
issuers_of n (c ∷ above) h =
    let (both, later) = &&-true _ _ h in
    let (ca, path) = &&-true _ _ both in
    let counted : count_ca c n ≡ n + 1 = rw ca in
    let rest : issuers_hold (n + 1) above ≡ true = rw (← counted) later in
    (issuer_of n c ca path, issuers_of (n + 1) above rest)

pub constraints_of :
    (leaf : Certificate) (above : List Certificate)
    → constraints_hold leaf above ≡ true
    → (is_ca leaf ≡ false) × AreIssuersOver 0 above
unfolding constraints_hold
constraints_of leaf above h =
    let (no_ca, over) = &&-true (not (is_ca leaf)) (issuers_hold (count_ca leaf 0) above) h in
    let plain : is_ca leaf ≡ false = ground arith in
    let counted : count_ca leaf 0 ≡ 0 = rw plain in
    (plain, issuers_of 0 above (rw (← counted) over))

-- A text that `any` does not find equals no member.
not_listed_of :
    (t : Text) (serials : List Text) → any (list_eq t) serials ≡ false → All (λ s. s ≢ t) serials
not_listed_of t [] h = tt
not_listed_of t (s ∷ serials) h =
    let (here, later) = ||-false _ _ h in
    ((λ e. false_is_true here ((list_eq_iff t s).1 (sym e))), not_listed_of t serials later)

chain-IsNotListed :
    (hex : Hex) (front serials : List Text) (chain : List Certificate)
    → any (is_revoked hex (front ++ serials)) chain ≡ false
    → All (IsNotListed hex front) chain × (any (is_revoked hex serials) chain ≡ false)
unfolding is_revoked
chain-IsNotListed hex front serials [] h = (tt, refl)
chain-IsNotListed hex front serials (c ∷ chain) h =
    let (here, later) = ||-false _ _ h in
    let (rest, rest_free) = chain-IsNotListed hex front serials chain later in
    let (mine, others) =
      any-append_false (list_eq (normalize_serial_hex (serial_number hex c))) front serials here in
    ((not_listed_of _ front mine, rest), rw (others, rest_free))

not_revoked_of :
    (hex : Hex) (crls : List Bytes) (chain : List Certificate) (listed : List Text)
    → revoked_serials hex crls ≡ ok listed
    → any (is_revoked hex listed) chain ≡ false
    → AreNotRevoked hex crls chain
unfolding revoked_serials
not_revoked_of hex [] chain listed e h = tt
not_revoked_of hex (crl ∷ crls) chain listed e h =
    let (serials, read, e1) = >>=-eq-ok (parse_crl_revoked_serials hex crl) _ e in
    let (more, read_more, e2) = >>=-eq-ok (revoked_serials hex crls) _ e1 in
    let same : listed ≡ serials ++ more = cc in
    let (free, later) = chain-IsNotListed hex serials more chain (rw same at h) in
    ((serials, read, free), not_revoked_of hex crls chain more read_more later)

pub self_signed_of :
    (x : X509) (leaf : Certificate) (above : List Certificate)
    → terminal_verifies x leaf above ≡ true
    → (last_of leaf above).subject ≡ (last_of leaf above).issuer
    → x.verify (last_of leaf above) (last_of leaf above) ≡ true
unfolding terminal_verifies
self_signed_of x leaf above h e = rw ((list_eq_iff _ _).1 e) at h

pub any_revoked-false :
    (hex : Hex) (crls : List Bytes) (chain : List Certificate)
    → any_revoked hex crls chain ≡ ok false
    → AreNotRevoked hex crls chain
unfolding any_revoked
any_revoked-false hex crls chain e =
    let (listed, read, e1) = >>=-eq-ok (revoked_serials hex crls) _ e in
    not_revoked_of hex crls chain listed read (cc)
