-- ===== src/Tunnel/Crypto/Seal.antt =====
-- Boxes open to what was sealed in them (packages/tunnel/src/crypto.ts).
use teekit.Common.{
  ℕ, ◌*◌, ◌≡◌, refl, arith, List, [], ◌∷◌, ◌++◌, length, take, ==_iff, ltb-false, take-append,
  drop-append, length-append, length-take, ◌∙◌,
}
use teekit.Result.{ok}
use teekit.Bytes.{Bytes, le_bytes}
use teekit.Bytes.Laws.{length-le_bytes}
use teekit.Tunnel.Crypto.{
  Noble, hsalsa20, u32_to_u8_le, u8_to_u32_le, sigma, zeros16, assert_length, crypto_secretbox_easy,
  crypto_secretbox_open_easy, crypto_box_seal, crypto_box_seal_open,
}

length-u32_to_u8_le : (words : List ℕ) → length (u32_to_u8_le words) ≡ 4 * length words
unfolding u32_to_u8_le
length-u32_to_u8_le [] = refl
length-u32_to_u8_le (word ∷ words) = omega (
  arith,
  length-append (le_bytes 4 word) (u32_to_u8_le words),
  length-le_bytes 4 word,
  length-u32_to_u8_le words,
)

assert_length-true : (bytes : Bytes) (n : ℕ) → length bytes ≡ n → assert_length bytes n ≡ ok tt
unfolding assert_length
assert_length-true bytes n e = rw ((==_iff (length bytes) n).1 e)

module _ (noble : Noble) where
  -- What is encrypted under a key of 32 bytes and a nonce of 24 is decrypted under them.
  pub secretbox_open-secretbox :
      (plaintext nonce key : Bytes)
      → length nonce ≡ 24
      → length key ≡ 32
      → (ciphertext : Bytes) × (crypto_secretbox_easy noble plaintext nonce key ≡ ok ciphertext)
        × (crypto_secretbox_open_easy noble ciphertext nonce key ≡ ok plaintext)
  unfolding crypto_secretbox_easy crypto_secretbox_open_easy
  secretbox_open-secretbox plaintext nonce key n k = (
    noble.encrypt key nonce plaintext,
    rw ((==_iff (length nonce) 24).1 n, (==_iff (length key) 32).1 k),
    rw ((==_iff (length nonce) 24).1 n, (==_iff (length key) 32).1 k)
        (noble.decrypt_encrypt key nonce plaintext k n),
  )

  -- HSalsa20 makes a key of 32 bytes out of a secret of at least as many.
  hsalsa20-total :
      (key : Bytes)
      → length key ≡ 32
      → (out : Bytes) × (hsalsa20 noble key zeros16 ≡ ok out) × (length out ≡ 32)
  unfolding hsalsa20
  hsalsa20-total key k =
      let core = noble.hsalsa_core sigma (u8_to_u32_le key) (u8_to_u32_le zeros16) in
      (
        u32_to_u8_le core,
        rw (assert_length-true key 32 k, assert_length-true zeros16 16 (length-le_bytes 16 0)),
        omega (
          arith,
          length-u32_to_u8_le core,
          noble.length-hsalsa_core sigma (u8_to_u32_le key) (u8_to_u32_le zeros16),
        ),
      )

  -- A box that is sealed for the public key of a private key is opened by that key, if the two
  -- keys agree on a secret.
  pub seal_open-seal :
      (eph_sk message private_key : Bytes) {shared : Bytes}
      → length private_key ≡ 32
      → noble.get_shared_secret eph_sk (noble.public_key private_key) ≡ ok shared
      → (sealed : Bytes) × (crypto_box_seal noble eph_sk message (noble.public_key private_key)
          ≡ ok sealed)
        × (crypto_box_seal_open noble sealed (noble.public_key private_key) private_key
            ≡ ok message)
  unfolding crypto_box_seal crypto_box_seal_open
  seal_open-seal eph_sk message private_key {shared} len agreed =
      let pk = noble.public_key private_key in
      let eph_pk = noble.public_key eph_sk in
      let pk_len = noble.length-public_key private_key in
      let eph_len = noble.length-public_key eph_sk in
      let shared_len = noble.length-get_shared_secret eph_sk pk agreed in
      let back : noble.get_shared_secret private_key eph_pk ≡ ok shared =
        noble.shared_secret_comm private_key eph_sk ∙ agreed in
      let (key, made, key_len) =
        hsalsa20-total (take 32 shared) (length-take 32 shared (omega arith)) in
      let nonce = noble.blake2b (eph_pk ++ pk) 24 in
      let box = noble.encrypt key nonce message in
      (
        eph_pk ++ box,
        rw (assert_length-true pk 32 pk_len, agreed, made),
        rw
            (
              assert_length-true pk 32 pk_len,
              assert_length-true private_key 32 len,
              ltb-false (length (eph_pk ++ box)) 48
                  (omega (arith, length-append eph_pk box, noble.length-encrypt key nonce message)),
              take-append 32 eph_pk box eph_len,
              drop-append 32 eph_pk box eph_len,
              back,
              made,
            )
            (noble.decrypt_encrypt key nonce message key_len
              (noble.length-blake2b (eph_pk ++ pk) 24)),
      )
