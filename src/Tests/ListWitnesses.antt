-- ===== src/Tests/ListWitnesses.antt =====
-- The theorems on walks, revocation lists, texts and measurements at concrete inputs.
use teekit.Common.{
  ℕ, ◌==◌, ◌≡◌, ◌↔◌, ◌≢◌, ◌<◌, ◌≤◌, ◌⊎◌, inl, inr, refl, arith, Bool, true, false, List, [], ◌∷◌,
  none, some, Text, codes, list_eq, map, pos, add_ℕ, to_int32, if◌then◌else◌,
}
use teekit.Result.{ok, stuck}
use teekit.Bytes.{Bytes}
use teekit.Packages.{Certificate}
use teekit.Measurements.{Config, any_of, measurements, verifier, check_config}
use teekit.Measurements.Laws.{ConfigAnswers, check_config_iff}
use teekit.Pem.{pem_matches}
use teekit.Pem.Laws.{block, blocks, pem_matches-blocks}
use teekit.Serial.{normalize_serial_hex, serial_number, crl_serial_hex}
use teekit.Serial.Laws.{normalize-serial_number}
use teekit.Crl.{
  tlv, tag_sequence, tag_integer, byte_at, long_length, read_length, read_extent, read_tlv,
  revoked_entries, parse_crl_revoked_serials,
}
use teekit.Crl.Termination.{parse_crl_revoked_serials-total, revoked_entries-hangs}
use teekit.Crl.Short.{SequencesAdvance-of_short}
use teekit.Chain.Walk.{is_parent_of_any, leaf_from, find_leaf, find_parent}
use teekit.Chain.{check_chain, chain_of}
use teekit.Chain.Termination.{IsRanked, chain_of-total, chain_of-hangs}
use teekit.Tests.Packages.{hex, x509, crl, root_cert, leaf_cert}

-- Two certificates that name one another as issuer.
abbrev first_of_two : Certificate
first_of_two = record leaf_cert { subject = codes "a"; issuer = codes "b"; handle = 0 }

abbrev second_of_two : Certificate
second_of_two = record leaf_cert { subject = codes "b"; issuer = codes "a"; handle = 1 }

abbrev InCircle : Certificate → Type 0
InCircle c = (c ≡ first_of_two) ⊎ (c ≡ second_of_two)

second-issued : find_parent (first_of_two ∷ second_of_two ∷ []) first_of_two ≡ some second_of_two
unfolding find_parent list_eq
second-issued = refl

first-issued : find_parent (first_of_two ∷ second_of_two ∷ []) second_of_two ≡ some first_of_two
unfolding find_parent list_eq
first-issued = refl

circle-IsClosed :
    (c : Certificate)
    → InCircle c
    → (p : Certificate) × (find_parent (first_of_two ∷ second_of_two ∷ []) c ≡ some p)
      × (p.handle ≢ c.handle)
      × InCircle p
circle-IsClosed c (inl e) =
    (second_of_two, rw (e, second-issued), (rw e (λ h. absurd (omega arith))), inr refl)
circle-IsClosed c (inr e) =
    (first_of_two, rw (e, first-issued), (rw e (λ h. absurd (omega arith))), inl refl)

circle-leaf : InCircle (find_leaf first_of_two (second_of_two ∷ []))
unfolding find_leaf leaf_from is_parent_of_any list_eq
circle-leaf = inl refl

chain_of-hangs_example : chain_of hex x509 none [] first_of_two (second_of_two ∷ []) ≡ stuck
chain_of-hangs_example =
    chain_of-hangs hex x509 none [] first_of_two (second_of_two ∷ []) InCircle circle-IsClosed
      circle-leaf

-- What is issued by the leaf stands above it, the leaf above the root.
abbrev rank : Certificate → ℕ
rank c = elim (list_eq leaf_cert.subject c.issuer) [
  | true ↦ 2
  | false ↦ elim (list_eq root_cert.subject c.issuer) [
    | true ↦ if c.handle == 1 then 0 else 1
    | false ↦ 0
  ]
]

rank-leaf : rank leaf_cert ≡ 1
unfolding list_eq
rank-leaf = refl

rank-root : rank root_cert ≡ 0
unfolding list_eq
rank-root = refl

rank-le : (c : Certificate) → rank c ≤ 2
rank-le c = ground arith

found-eq :
    (c p : Certificate)
    → find_parent (leaf_cert ∷ root_cert ∷ []) c ≡ some p
    → ((p ≡ leaf_cert) × (list_eq leaf_cert.subject c.issuer ≡ true))
      ⊎ ((p ≡ root_cert)
          × (list_eq leaf_cert.subject c.issuer ≡ false)
          × (list_eq root_cert.subject c.issuer ≡ true))
found-eq c p found =
    by_tests (list_eq leaf_cert.subject c.issuer) (list_eq root_cert.subject c.issuer)
      (unfold find_parent in found)
  where
    by_tests :
        (a b : Bool)
        → (elim a [
          | true ↦ some leaf_cert
          | false ↦ elim b [ true ↦ some root_cert | false ↦ none ]
        ])
          ≡ some p
        → ((p ≡ leaf_cert) × (a ≡ true)) ⊎ ((p ≡ root_cert) × (a ≡ false) × (b ≡ true))
    by_tests true b h = inl (cc, refl)
    by_tests false true h = inr (cc, refl, refl)
    by_tests false false h = cc

rank-falls :
    (c p : Certificate)
    → find_parent (leaf_cert ∷ root_cert ∷ []) c ≡ some p
    → p.handle ≢ c.handle
    → rank p < rank c
rank-falls c p found other = elim (found-eq c p found) [
  | inl (is_leaf, by_leaf) ↦ rw is_leaf (omega (arith, rank-leaf, over_leaf by_leaf))
  | inr (is_root, no_leaf, by_root) ↦
      rw is_root
        (omega (arith, rank-root, over_root no_leaf by_root (not_handle (rw is_root at other))))
]
  where
    over_leaf : list_eq leaf_cert.subject c.issuer ≡ true → rank c ≡ 2
    over_leaf h = rw (h, rank)

    over_root :
        list_eq leaf_cert.subject c.issuer ≡ false
        → list_eq root_cert.subject c.issuer ≡ true
        → (c.handle == 1) ≡ false
        → rank c ≡ 1
    over_root h k l = rw (h, k, l, rank)

    not_handle : {n : ℕ} → 1 ≢ n → (n == 1) ≡ false
    not_handle h = ground arith

certificates-IsRanked : IsRanked (leaf_cert ∷ root_cert ∷ []) rank
certificates-IsRanked = record { bounded = rank-le; falls = rank-falls }

chain_of-total_example :
    (above : List Certificate) × (chain_of hex x509 (some 600) (crl ∷ []) leaf_cert (root_cert ∷ [])
      ≡ check_chain hex x509 (some 600) (crl ∷ []) (find_leaf leaf_cert (root_cert ∷ [])) above)
chain_of-total_example =
    chain_of-total hex x509 (some 600) (crl ∷ []) leaf_cert (root_cert ∷ []) rank
      certificates-IsRanked

parse_crl_revoked_serials-total_example :
    (serials : List Text) × (parse_crl_revoked_serials hex crl ≡ ok serials)
parse_crl_revoked_serials-total_example =
    parse_crl_revoked_serials-total hex crl (SequencesAdvance-of_short crl (ground arith))

-- An entry of length -6, and behind its header an INTEGER.
abbrev looping : Bytes
looping = 0x30 ∷ 0x84 ∷ 0xff ∷ 0xff ∷ 0xff ∷ 0xfa ∷ 0x02 ∷ 0x01 ∷ 0x05 ∷ []

looping-entry : read_tlv looping (pos 0) ≡ ok (tlv tag_sequence 6 (pos 0))
unfolding read_tlv read_extent read_length long_length byte_at add_ℕ to_int32
looping-entry = refl

looping-serial : read_tlv looping (pos 6) ≡ ok (tlv tag_integer 8 (pos 9))
unfolding read_tlv read_extent read_length long_length byte_at add_ℕ to_int32
looping-serial = refl

revoked_entries-hangs_example : revoked_entries hex looping 1000 (pos 0) (pos 9) ≡ stuck
revoked_entries-hangs_example =
    revoked_entries-hangs hex looping 0 6 (pos 9) (tlv tag_integer 8 (pos 9)) (ground arith)
      looping-entry looping-serial 1000

pem_matches-blocks_example :
    pem_matches 0 (blocks (codes "ab" ∷ codes "c" ∷ [])) ≡ map block (codes "ab" ∷ codes "c" ∷ [])
pem_matches-blocks_example = pem_matches-blocks (codes "ab" ∷ codes "c" ∷ []) (ground arith)

normalize-serial_number_example :
    normalize_serial_hex (serial_number hex leaf_cert) ≡ crl_serial_hex hex leaf_cert.serial
normalize-serial_number_example = normalize-serial_number hex leaf_cert

-- One callback that refuses, and one expected number that matches.
abbrev two_items : Config ℕ ℕ
two_items = any_of (verifier (λ q. ok false) ∷ measurements 7 ∷ [])

check_config_iff_example :
    (check_config (λ a b. a == b) 7 two_items ≡ ok true)
    ↔ ConfigAnswers (λ a b. a == b) 7 two_items (ok true)
check_config_iff_example = check_config_iff (λ a b. a == b) 7 two_items (ok true)
