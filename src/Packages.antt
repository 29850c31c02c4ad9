-- ===== src/Packages.antt =====
-- What the sources import and the development cannot read: packages and the runtime, each a record
-- of operations with the documented laws that the code relies on.
use teekit.Common.{ℕ, ◌≡◌, ◌≤◌, ◌⊎◌, ◌↔◌, Bool, true, List, Option, some, All, Text}
use teekit.Result.{Result}
use teekit.Bytes.{Bytes, IsByte}

abbrev pub IsLowerHexDigit : ℕ → Type 0
IsLowerHexDigit c = ((b'0' ≤ c) × (c ≤ b'9')) ⊎ ((b'a' ≤ c) × (c ≤ b'f'))

-- `hex` of `@scure/base`: two lowercase digits for each byte, and back.
pub record Hex : Type 0 where
  pub encode : Bytes → Text
  pub decode : Text → Option Bytes
  pub decode_encode : (bs : Bytes) → All IsByte bs → decode (encode bs) ≡ some bs
  pub encode-IsLowerHexDigit : (bs : Bytes) → All IsLowerHexDigit (encode bs)

-- `BasicConstraintsExtension` of packages/qvl/src/x509.ts
pub record BasicConstraints : Type 0 where
  pub ca : Bool
  pub path_length : Option ℕ

-- `QV_X509Certificate`: what its getters read from the decoded certificate. `handle` is the
-- object's identity, by which the sources compare certificates with `===`. Times are in
-- milliseconds from the epoch. `serial` is the value of the serial number.
pub record Certificate : Type 0 where
  pub handle : ℕ
  pub raw_data : Bytes
  pub subject : Text
  pub issuer : Text
  pub serial : Bytes
  pub not_before : ℕ
  pub not_after : ℕ
  pub public_key : Bytes
  pub basic_constraints : Option BasicConstraints
  pub fmspc : Option Text
  pub pcesvn : Option ℕ

-- `new QV_X509Certificate(pem)`, which decodes by `pkijs`; `child.verify(parent)`, which answers
-- whether the parent's key signed the child; and `TextDecoder.decode`.
pub record X509 : Type 0 where
  pub parse : Text → Result Certificate
  pub verify : Certificate → Certificate → Bool
  pub text_decode : Bytes → Text

-- WebCrypto and `uint8array-extras`. A verification may reject, so it gives a result.
pub record WebCrypto : Type 0 where
  pub sha256 : Bytes → Bytes
  pub sha512 : Bytes → Bytes
  -- `verify({ name: "ECDSA", hash: "SHA-256" }, key, signature, message)` with a P-256 key in SPKI
  -- form, and with a key given by its two coordinates
  pub verify_p256_spki : Bytes → Bytes → Bytes → Result Bool
  pub verify_p256_point : Bytes → Bytes → Bytes → Bytes → Result Bool
  -- the same with P-384 and SHA-384
  pub verify_p384_spki : Bytes → Bytes → Bytes → Result Bool
  pub concat : List Bytes → Bytes
  pub equal : Bytes → Bytes → Bool
  pub equal_iff : (a b : Bytes) → (equal a b ≡ true) ↔ (a ≡ b)
