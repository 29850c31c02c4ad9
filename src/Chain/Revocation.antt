-- ===== src/Chain/Revocation.antt =====
-- Revocation of a chain's certificates, as verifyTdx.ts and verifySev.ts of packages/qvl/src check it.
use teekit.Common.{Bool, ◌++◌, List, [], ◌∷◌, any, Text, list_eq}
use teekit.Result.{Result, ok, ◌>>=◌}
use teekit.Bytes.{Bytes}
use teekit.Packages.{Hex, Certificate}
use teekit.Serial.{normalize_serial_hex, serial_number}
use teekit.Crl.{parse_crl_revoked_serials}

-- The serials of all lists; a set there, a list here.
unfoldable pub revoked_serials : Hex → List Bytes → Result (List Text)
revoked_serials hex [] = ok []
revoked_serials hex (crl ∷ crls) = do
  serials ← parse_crl_revoked_serials hex crl
  more ← revoked_serials hex crls
  ok (serials ++ more)

-- `revoked.has(normalizeSerialHex(cert.serialNumber))`
unfoldable pub is_revoked : Hex → List Text → Certificate → Bool
is_revoked hex revoked cert = any (list_eq (normalize_serial_hex (serial_number hex cert))) revoked

-- Some certificate of the chain is revoked. With no list, or none that names a serial, the source
-- does not look: nothing is in the empty set.
unfoldable pub any_revoked : Hex → List Bytes → List Certificate → Result Bool
any_revoked hex crls chain = do
  revoked ← revoked_serials hex crls
  ok (any (is_revoked hex revoked) chain)
