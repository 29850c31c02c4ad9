-- ===== src/Tests/Packages.antt =====
-- Stand-ins for the packages: a decoder for structs, hexadecimal digits, certificates that are
-- told apart by the length of their text, and signatures that repeat the key.
use teekit.Common.{
  ℕ, zero, suc, ◌+◌, ◌-◌, ◌*◌, ◌/◌, ◌%◌, ◌<◌, ◌≡◌, refl, arith, true, List, [], ◌∷◌, ◌++◌, Option,
  none, some, length, take, drop, All, Text, codes, list_eq, list_eq_iff, leb, leb-true, ltb,
  if◌then◌else◌,
}
use teekit.Result.{ok, err, decode_error}
use teekit.Bytes.{Bytes, IsByte, le_value}
use teekit.Struct.{Restructure}
use teekit.Packages.{IsLowerHexDigit, Hex, Certificate, X509, WebCrypto}
use teekit.Intel.Defs.{Env}

abbrev pub fill : (count byte : ℕ) → Bytes
fill zero byte = []
fill (suc count) byte = byte ∷ fill count byte

abbrev pub restructure : Restructure
restructure = record {
  read_uint =
      λ n xs. if leb n (length xs) then ok (le_value (take n xs), drop n xs) else err decode_error;
  read_buffer = λ n xs. if leb n (length xs) then ok (take n xs, drop n xs) else err decode_error;
  read_uint_law = λ n xs h. rw (leb-true n (length xs) h);
  read_buffer_law = λ n xs h. rw (leb-true n (length xs) h);
}

abbrev pub digit : ℕ → ℕ
digit n = if ltb n 10 then n + b'0' else if ltb n 16 then n + 87 else b'f'

abbrev pub digit_value : ℕ → ℕ
digit_value c = if leb c b'9' then c - b'0' else c - 87

abbrev pub encode_hex : Bytes → Text
encode_hex [] = []
encode_hex (b ∷ bs) = digit (b / 16) ∷ digit (b % 16) ∷ encode_hex bs

abbrev pub decode_hex : Text → Option Bytes
decode_hex [] = some []
decode_hex (a ∷ []) = none
decode_hex (a ∷ b ∷ text) = elim (decode_hex text) [
  | none ↦ none
  | some bs ↦ some ((digit_value a * 16 + digit_value b) ∷ bs)
]

digit_value-digit : (n : ℕ) → n < 16 → digit_value (digit n) ≡ n
digit_value-digit n h = ground arith

pub decode_hex-encode_hex : (bs : Bytes) → All IsByte bs → decode_hex (encode_hex bs) ≡ some bs
decode_hex-encode_hex [] h = refl
decode_hex-encode_hex (b ∷ bs) (h, hs) =
    let whole : b / 16 * 16 + b % 16 ≡ b = omega arith in
    rw (
      decode_hex-encode_hex bs hs,
      digit_value-digit (b / 16) (omega arith),
      digit_value-digit (b % 16) (omega arith),
      whole,
    )

digit-IsLowerHexDigit : (n : ℕ) → IsLowerHexDigit (digit n)
digit-IsLowerHexDigit n = ground arith

pub encode_hex-IsLowerHexDigit : (bs : Bytes) → All IsLowerHexDigit (encode_hex bs)
encode_hex-IsLowerHexDigit [] = tt
encode_hex-IsLowerHexDigit (b ∷ bs) = (
  digit-IsLowerHexDigit (b / 16),
  (digit-IsLowerHexDigit (b % 16), encode_hex-IsLowerHexDigit bs),
)

abbrev pub hex : Hex
hex = record {
  encode = encode_hex;
  decode = decode_hex;
  decode_encode = decode_hex-encode_hex;
  encode-IsLowerHexDigit = encode_hex-IsLowerHexDigit;
}

abbrev pub root_cert : Certificate
root_cert = record {
  handle = 1;
  raw_data = 1 ∷ 2 ∷ 3 ∷ [];
  subject = codes "root";
  issuer = codes "root";
  serial = 0x0a ∷ [];
  not_before = 100;
  not_after = 1000;
  public_key = fill 64 8;
  basic_constraints = some (record { ca = true; path_length = some 1 });
  fmspc = none;
  pcesvn = none;
}

abbrev pub leaf_cert : Certificate
leaf_cert = record {
  handle = 0;
  raw_data = 4 ∷ 5 ∷ [];
  subject = codes "leaf";
  issuer = codes "root";
  serial = 0 ∷ 7 ∷ [];
  not_before = 200;
  not_after = 900;
  public_key = fill 64 9;
  basic_constraints = none;
  fmspc = some (codes "00906ed50000");
  pcesvn = some 11;
}

-- A certificate's text has more than 60 characters if it is the root's.
abbrev pub x509 : X509
x509 = record {
  parse = λ pem. ok (if ltb 60 (length pem) then root_cert else leaf_cert);
  verify = λ child parent. list_eq child.issuer parent.subject;
  text_decode = λ bytes. bytes;
}

abbrev concat_bytes : List Bytes → Bytes
concat_bytes [] = []
concat_bytes (b ∷ bs) = b ++ concat_bytes bs

abbrev pub crypto : WebCrypto
crypto = record {
  sha256 = take 32;
  sha512 = take 64;
  verify_p256_spki = λ key signature message. ok (list_eq key signature);
  verify_p256_point = λ x y signature message. ok (list_eq (x ++ y) signature);
  verify_p384_spki = λ key signature message. ok (list_eq key signature);
  concat = concat_bytes;
  equal = list_eq;
  equal_iff = list_eq_iff;
}

abbrev pub env : Env
env = record {
  restructure = restructure;
  hex = hex;
  x509 = x509;
  crypto = crypto;
  now = 500;
  default_pinned_root_certs = root_cert ∷ [];
}

-- A revocation list with one entry, whose serial number is 5.
abbrev pub crl : Bytes
crl =
    0x30 ∷ 0x14 ∷ 0x30 ∷ 0x12 ∷ 0x02 ∷ 0x01 ∷ 0x01 ∷ 0x30 ∷ 0x00 ∷ 0x30 ∷ 0x00 ∷ 0x17 ∷ 0x00 ∷ 0x17
    ∷ 0x00 ∷ 0x30 ∷ 0x05 ∷ 0x30 ∷ 0x03 ∷ 0x02 ∷ 0x01 ∷ 0x05 ∷ []
