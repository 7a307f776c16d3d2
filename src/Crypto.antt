-- ===== src/Crypto.antt =====
-- The cryptographic crates that the program calls: a record of their functions, whose definitions
-- are not in the repository, and what the program relies on of them.
pub mod Strokes
pub mod Toy
use pipek.Prelude.{
  ℕ, ◌≤◌, ◌≡◌, String, Bool, false, true, ◌&&◌, ◌||◌, leb, ◌==◌, Option, some, List, [], ◌∷◌,
  length, replicate, Result, ok, IsDone,
}
use pipek.Prelude.Bytes.{Bytes}
use pipek.Prelude.Text.Laws.{all_codes}

pub record Crypto : Type 1 where
  -- sha2 and hmac: the digest of the bytes that were fed by `update`
  pub sha256 : Bytes → Bytes
  pub hmac_sha256 : Bytes → Bytes → Bytes
  pub hmac_sha512 : Bytes → Bytes → Bytes
  -- hkdf: `Hkdf::<Sha256>::new(Some(salt), ikm)`, then `expand(info, [0; n])`
  pub hkdf_expand : Bytes → Bytes → Bytes → ℕ → Result String Bytes
  -- chacha20poly1305: key, nonce, associated data; the ciphertext and the tag
  pub encrypt : Bytes → Bytes → Bytes → Bytes → Result String (Bytes × Bytes)
  pub decrypt : Bytes → Bytes → Bytes → Bytes → Bytes → Result String Bytes
  -- k256::schnorr
  pub SigningKey : Type 0
  pub VerifyingKey : Type 0
  pub Signature : Type 0
  pub signing_key : Bytes → Result String SigningKey
  pub public_bytes : SigningKey → Bytes
  pub sign_raw : SigningKey → Bytes → Bytes → Result String Signature
  pub signature_bytes : Signature → Bytes
  pub verifying_key : Bytes → Result String VerifyingKey
  pub signature : Bytes → Result String Signature
  pub verify_raw : VerifyingKey → Bytes → Signature → Result String (Unit {0})
  -- k256: points (`PublicKey::from_sec1_bytes`, then affine) and scalars
  pub Point : Type 0
  pub Scalar : Type 0
  pub point : Bytes → Result String Point
  pub scalar : Bytes → Result String Scalar
  pub mul : Point → Scalar → Point
  pub is_identity : Point → Bool
  pub x_coordinate : Point → Option Bytes
  -- bech32, hex, base64
  pub bech32_decode : String → Result String (String × Bytes)
  pub bech32_encode : String → Bytes → String
  pub hex_decode : String → Result String Bytes
  pub hex_encode : Bytes → String
  pub base64_decode : String → Result String Bytes
  pub base64_encode : Bytes → String
  -- bip39 and bip32
  pub Mnemonic : Type 0
  pub XPrv : Type 0
  pub ChildNumber : Type 0
  pub mnemonic : String → Result String Mnemonic
  pub to_seed : Mnemonic → String → Bytes
  pub xprv : Bytes → Result String XPrv
  pub derivation_path : String → Result String (List ChildNumber)
  pub derive_child : XPrv → ChildNumber → Result String XPrv
  pub private_bytes : XPrv → Bytes

-- The letters, the digits, `+`, `/` and `=`.
unfoldable pub is_base64 : ℕ → Bool
is_base64 c =
    (leb b'A' c && leb c b'Z')
    || (leb b'a' c && leb c b'z')
    || (leb b'0' c && leb c b'9')
    || (c == b'+')
    || (c == b'/')
    || (c == b'=')

module _ (C : Crypto) where
  open C use {
    encrypt, decrypt, sha256, hmac_sha256, hmac_sha512, hkdf_expand, SigningKey, VerifyingKey,
    Signature, signing_key, public_bytes, sign_raw, signature_bytes, verifying_key, signature,
    verify_raw, Point, Scalar, point, scalar, mul, is_identity, x_coordinate, base64_encode,
    base64_decode,
  }

  -- ChaCha20-Poly1305 takes blocks of a chunk's size, keeps their length, has 16-byte tags, and
  -- decryption undoes encryption.
  pub record IsAead : Type 0 where
    pub seal :
        (key nonce aad plain : Bytes)
        → length plain ≤ 65536
        → (ct : Bytes) × (tag : Bytes) × (encrypt key nonce aad plain ≡ ok (ct, tag))
          × (length ct ≡ length plain)
          × (length tag ≡ 16)
          × (decrypt key nonce aad ct tag ≡ ok plain)

  -- The cipher returns: it never panics.
  pub record IsTotal : Type 0 where
    pub encrypts : (key nonce aad plain : Bytes) → IsDone (encrypt key nonce aad plain)
    pub decrypts : (key nonce aad ct tag : Bytes) → IsDone (decrypt key nonce aad ct tag)

  -- Digest and key sizes; HKDF-SHA256 gives any output of up to 255 * 32 bytes.
  pub record IsHash : Type 0 where
    pub sha256_size : (m : Bytes) → length (sha256 m) ≡ 32
    pub hmac_size : (k m : Bytes) → length (hmac_sha256 k m) ≡ 32
    pub hmac512_size : (k m : Bytes) → length (hmac_sha512 k m) ≡ 64
    pub expand :
        (salt ikm info : Bytes) (n : ℕ)
        → n ≤ 8160
        → (out : Bytes) × (hkdf_expand salt ikm info n ≡ ok out) × (length out ≡ n)

  -- BIP-340: a key signs every 32-byte digest, its signatures verify, and the encodings of public
  -- keys and of signatures have 32 and 64 bytes and are read back.
  pub record IsSchnorr : Type 0 where
    pub public_size : (k : SigningKey) → length (public_bytes k) ≡ 32
    pub sign_verify :
        (k : SigningKey) (m aux : Bytes)
        → length m ≡ 32
        → (s : Signature) × (v : VerifyingKey) × (sign_raw k m aux ≡ ok s)
          × (length (signature_bytes s) ≡ 64)
          × (signature (signature_bytes s) ≡ ok s)
          × (verifying_key (public_bytes k) ≡ ok v)
          × (verify_raw v m s ≡ ok tt)

  -- base64, standard alphabet with padding: decoding undoes encoding.
  pub record IsBase64 : Type 0 where
    pub alphabet : (m : Bytes) → all_codes is_base64 (base64_encode m) ≡ true
    pub decode_encode : (m : Bytes) → base64_decode (base64_encode m) ≡ ok m

  -- secp256k1: either of two valid secret keys with the x coordinate of the other's public point,
  -- lifted to the even point, gives one shared x coordinate.
  pub record IsDiffieHellman : Type 0 where
    pub agree :
        (a b : Bytes) (ka kb : SigningKey)
        → signing_key a ≡ ok ka
        → signing_key b ≡ ok kb
        → (pa : Point) × (pb : Point) × (sa : Scalar) × (sb : Scalar) × (x : Bytes) × (point
              (2 ∷ public_bytes ka)
            ≡ ok pa)
          × (point (2 ∷ public_bytes kb) ≡ ok pb)
          × (scalar a ≡ ok sa)
          × (scalar b ≡ ok sb)
          × (is_identity (mul pb sa) ≡ false)
          × (is_identity (mul pa sb) ≡ false)
          × (x_coordinate (mul pb sa) ≡ some x)
          × (x_coordinate (mul pa sb) ≡ some x)
