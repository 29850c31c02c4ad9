-- ===== src/Pem.antt =====
-- `extractPemCertificates` of packages/qvl/src/utils.ts: the matches of
-- /-----BEGIN CERTIFICATE-----[\s\S]*?-----END CERTIFICATE-----/g in a decoded text.
pub mod Laws
use teekit.Common.{
  ℕ, zero, suc, ◌-◌, Bool, true, false, ◌&&◌, List, [], ◌∷◌, ◌++◌, Option, none, some, length, drop,
  Text, codes, ◌==◌, if◌then◌else◌,
}
use teekit.Bytes.{Bytes}
use teekit.Packages.{X509}

unfoldable pub begin_marker : Text
begin_marker = codes "-----BEGIN CERTIFICATE-----"

unfoldable pub end_marker : Text
end_marker = codes "-----END CERTIFICATE-----"

unfoldable pub starts_with : Text → Text → Bool
starts_with [] text = true
starts_with (p ∷ ps) [] = false
starts_with (p ∷ ps) (c ∷ text) = p == c && starts_with ps text

-- The shortest front of a text that ends with the end marker.
unfoldable pub until_end : Text → Option Text
until_end [] = none
until_end (c ∷ text) = elim (starts_with end_marker (c ∷ text)) [
  | true ↦ some end_marker
  | false ↦ elim (until_end text) [ none ↦ none | some front ↦ some (c ∷ front) ]
]

-- The match that begins at the front of a text. A begin marker with no end marker behind it matches
-- nothing.
unfoldable pub match_at : Text → Option Text
unfolding starts_with until_end
match_at text =
    if starts_with begin_marker text
    then elim (until_end (drop (length begin_marker) text)) [
      | some front ↦ some (begin_marker ++ front)
      | none ↦ none
    ]
    else none

-- The matches from a position on, after `skip` more characters that belong to the last match.
unfoldable pub pem_matches : (skip : ℕ) → Text → List Text
unfolding match_at
pem_matches skip [] = []
pem_matches (suc skip) (c ∷ text) = pem_matches skip text
pem_matches zero (c ∷ text) = elim (match_at (c ∷ text)) [
  | some found ↦ found ∷ pem_matches (length found - 1) text
  | none ↦ pem_matches zero text
]

unfoldable pub extract_pem_certificates : X509 → Bytes → List Text
unfolding pem_matches
extract_pem_certificates x cert_data = pem_matches 0 (x.text_decode cert_data)
