-- ===== src/Pem/Laws.antt =====
-- `extractPemCertificates` of packages/qvl/src/utils.ts on texts of certificates written one after
-- the other.
use teekit.Common.{
  ◌-◌, ◌≡◌, ◌≢◌, refl, ap, ◌∙◌, arith, true, List, [], ◌∷◌, ◌++◌, some, length, drop, Text, All,
  drop-append, map,
}
use teekit.Pem.{begin_marker, end_marker, starts_with, until_end, match_at, pem_matches}
use mathlib.Core.List.{append_assoc}

-- A certificate between its markers, and several with a line feed after each.
abbrev pub block : Text → Text
block body = begin_marker ++ (body ++ end_marker)

abbrev pub blocks : List Text → Text
blocks [] = []
blocks (body ∷ bodies) = block body ++ (b'\n' ∷ blocks bodies)

-- The body of a certificate, Base64 in lines, holds no dash.
abbrev pub HasNoDash : Text → Type 0
HasNoDash body = All (λ c. c ≢ b'-') body

starts_with-append : (p text : Text) → starts_with p (p ++ text) ≡ true
unfolding starts_with
starts_with-append [] text = refl
starts_with-append (c ∷ p) text = ground (arith, starts_with-append p text)

until_end-append :
    (body rest : Text)
    → HasNoDash body
    → until_end (body ++ (end_marker ++ rest)) ≡ some (body ++ end_marker)
unfolding until_end starts_with end_marker
until_end-append [] rest h = refl
until_end-append (c ∷ body) rest (h, hs) = ground (arith, until_end-append body rest hs)

drop-marker : (text : Text) → drop (length begin_marker) (begin_marker ++ text) ≡ text
drop-marker text = drop-append (length begin_marker) begin_marker text refl

-- A block is the match at its front.
match_at-block :
    (body text : Text) → HasNoDash body → match_at (block body ++ text) ≡ some (block body)
unfolding match_at
match_at-block body text h = rw (
  append_assoc begin_marker (body ++ end_marker) text,
  starts_with-append begin_marker ((body ++ end_marker) ++ text),
  drop-marker ((body ++ end_marker) ++ text),
  append_assoc body end_marker text,
  until_end-append body text h,
)

pem_matches-skip :
    (front text : Text) → pem_matches (length front) (front ++ text) ≡ pem_matches 0 text
unfolding pem_matches
pem_matches-skip [] [] = refl
pem_matches-skip [] (c ∷ text) = refl
pem_matches-skip (c ∷ front) text = pem_matches-skip front text

-- After a match at the front the scan goes on behind it.
pem_matches-match :
    (found text : Text)
    → found ≢ []
    → match_at (found ++ text) ≡ some found
    → pem_matches 0 (found ++ text) ≡ found ∷ pem_matches 0 text
pem_matches-match [] text h e = absurd (h refl)
pem_matches-match (c ∷ front) text h e =
    step ∙ ap (λ t. (c ∷ front) ∷ t) (rw count (pem_matches-skip front text))
  where
    step :
        pem_matches 0 (c ∷ (front ++ text))
        ≡ (c ∷ front) ∷ pem_matches (length (c ∷ front) - 1) (front ++ text)
    step = unfold pem_matches in rw (e, pem_matches)

    count : length (c ∷ front) - 1 ≡ length front
    count = omega arith

block-ne-nil : (body : Text) → block body ≢ []
unfolding begin_marker
block-ne-nil body e = cc

pem_matches-line_feed : (text : Text) → pem_matches 0 (b'\n' ∷ text) ≡ pem_matches 0 text
unfolding pem_matches match_at starts_with begin_marker
pem_matches-line_feed text = refl

-- Every certificate that is written between its markers is found, in order, and nothing else is.
pub pem_matches-blocks :
    (bodies : List Text) → All HasNoDash bodies → pem_matches 0 (blocks bodies) ≡ map block bodies
pem_matches-blocks [] h = unfold pem_matches in refl
pem_matches-blocks (body ∷ bodies) (h, hs) =
    pem_matches-match (block body) (b'\n' ∷ blocks bodies) (block-ne-nil body)
      (match_at-block body (b'\n' ∷ blocks bodies) h)
    ∙ ap (λ t. block body ∷ t)
        (pem_matches-line_feed (blocks bodies) ∙ pem_matches-blocks bodies hs)
