-- ===== src/Tunnel/Crypto.antt =====
-- packages/tunnel/src/crypto.ts: `crypto_secretbox` and sealed boxes of libsodium over the packages
-- @noble/ciphers, @noble/curves and @noble/hashes.
pub mod Seal
use teekit.Common.{
  ℕ, ◌+◌, ◌<◌, ◌^◌, ◌≡◌, not, List, [], ◌∷◌, ◌++◌, length, take, drop, ◌==◌, ltb, All,
}
use teekit.Result.{Result, ok, Fault, require, ◌>>=◌, ◌>>◌, wrong_length, sealed_too_short}
use teekit.Bytes.{Bytes, le_value, le_bytes}

-- The packages: the cipher `xsalsa20poly1305(key, nonce)`, the core of HSalsa20 on 32-bit words, the
-- curve and the hash. Opening and the key agreement may throw.
pub record Noble : Type 0 where
  pub encrypt : (key nonce plaintext : Bytes) → Bytes
  pub decrypt : (key nonce ciphertext : Bytes) → Result Bytes
  pub hsalsa_core : (constant key nonce : List ℕ) → List ℕ
  pub public_key : (secret_key : Bytes) → Bytes
  pub get_shared_secret : (secret_key public_key : Bytes) → Result Bytes
  pub blake2b : (input : Bytes) (len : ℕ) → Bytes
  pub decrypt_encrypt :
      (key nonce plaintext : Bytes)
      → length key ≡ 32
      → length nonce ≡ 24
      → decrypt key nonce (encrypt key nonce plaintext) ≡ ok plaintext
  pub length-encrypt :
      (key nonce plaintext : Bytes) → length (encrypt key nonce plaintext) ≡ length plaintext + 16
  pub length-hsalsa_core :
      (constant key nonce : List ℕ) → length (hsalsa_core constant key nonce) ≡ 8
  pub length-public_key : (secret_key : Bytes) → length (public_key secret_key) ≡ 32
  pub length-blake2b : (input : Bytes) (len : ℕ) → length (blake2b input len) ≡ len
  pub length-get_shared_secret :
      (secret_key public_key : Bytes) {shared : Bytes}
      → get_shared_secret secret_key public_key ≡ ok shared
      → length shared ≡ 32
  -- Diffie and Hellman: both sides get the same secret.
  pub shared_secret_comm :
      (a b : Bytes) → get_shared_secret a (public_key b) ≡ get_shared_secret b (public_key a)

assert_length : Bytes → ℕ → Result (Unit {0})
assert_length bytes expected = require (length bytes == expected) wrong_length

u8_to_u32_le : Bytes → List ℕ
u8_to_u32_le (a ∷ b ∷ c ∷ d ∷ bytes) = le_value (a ∷ b ∷ c ∷ d ∷ []) ∷ u8_to_u32_le bytes
u8_to_u32_le bytes = []

u32_to_u8_le : List ℕ → Bytes
u32_to_u8_le [] = []
u32_to_u8_le (word ∷ words) = le_bytes 4 word ++ u32_to_u8_le words

abbrev sigma : List ℕ
sigma = 0x61707865 ∷ 0x3320646e ∷ 0x79622d32 ∷ 0x6b206574 ∷ []

abbrev zeros16 : Bytes
zeros16 = le_bytes 16 0

module _ (noble : Noble) where
  hsalsa20 : (key nonce : Bytes) → Result Bytes
  hsalsa20 key nonce = do
    assert_length key 32
    assert_length nonce 16
    ok (u32_to_u8_le (noble.hsalsa_core sigma (u8_to_u32_le key) (u8_to_u32_le nonce)))

  unfoldable pub crypto_secretbox_easy : (plaintext nonce key : Bytes) → Result Bytes
  unfolding assert_length
  crypto_secretbox_easy plaintext nonce key = do
    assert_length nonce 24
    assert_length key 32
    ok (noble.encrypt key nonce plaintext)

  unfoldable pub crypto_secretbox_open_easy : (ciphertext nonce key : Bytes) → Result Bytes
  unfolding assert_length
  crypto_secretbox_open_easy ciphertext nonce key = do
    assert_length nonce 24
    assert_length key 32
    noble.decrypt key nonce ciphertext

  -- The key and the nonce of a sealed box between an ephemeral key and the recipient's.
  box_nonce : (eph_pk recipient_public_key : Bytes) → Bytes
  box_nonce eph_pk recipient_public_key = noble.blake2b (eph_pk ++ recipient_public_key) 24

  -- `eph_sk` is the secret key that `x25519.keygen` draws.
  unfoldable pub crypto_box_seal : (eph_sk message recipient_public_key : Bytes) → Result Bytes
  unfolding assert_length hsalsa20 box_nonce u8_to_u32_le u32_to_u8_le
  crypto_box_seal eph_sk message recipient_public_key = do
    assert_length recipient_public_key 32
    shared ← noble.get_shared_secret eph_sk recipient_public_key
    pre_key ← hsalsa20 (take 32 shared) zeros16
    let eph_pk = noble.public_key eph_sk
    ok (eph_pk ++ noble.encrypt pre_key (box_nonce eph_pk recipient_public_key) message)

  unfoldable pub crypto_box_seal_open :
      (sealed recipient_public_key recipient_private_key : Bytes) → Result Bytes
  unfolding assert_length hsalsa20 box_nonce u8_to_u32_le u32_to_u8_le
  crypto_box_seal_open sealed recipient_public_key recipient_private_key = do
    assert_length recipient_public_key 32
    assert_length recipient_private_key 32
    require (not (ltb (length sealed) (32 + 16))) sealed_too_short
    let eph_pk = take 32 sealed
    shared ← noble.get_shared_secret recipient_private_key eph_pk
    pre_key ← hsalsa20 (take 32 shared) zeros16
    noble.decrypt pre_key (box_nonce eph_pk recipient_public_key) (drop 32 sealed)
