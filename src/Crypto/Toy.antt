-- ===== src/Crypto/Toy.antt =====
-- Functions that meet what is assumed of the crates, to run the program on and to show that the
-- assumptions can hold. They are no cryptography: a tag is a checksum and a signature is a copy.
use Prim.Native.Char.{code}
use Prim.Native.String
use pipek.Prelude.{
  Bool-cases, inl, inr, ℕ, ◌+◌, ◌-◌, ◌*◌, ◌/◌, ◌%◌, ◌≡◌, refl, ap, ◌∙◌, String, ◌<>◌, Bool, true,
  false, Option, none, some, [], ◌∷◌, ◌++◌, arith, length, take, replicate, Result, ok, err,
  bytes_eq, bytes_eq_refl, length-replicate, length-take, length-append, leb, le→leb, ◌==◌,
  if◌then◌else◌, ◌&&◌, not,
}
use pipek.Prelude.Bytes.{Bytes}
use pipek.Crypto.Strokes.{strokes, from_strokes, strokes-all, from_strokes-strokes}
use pipek.Crypto.{IsTotal, Crypto, IsAead, IsHash, IsSchnorr, IsDiffieHellman, IsBase64}

-- Cut or filled up with zeros to `n` bytes.
unfoldable pub fit : ℕ → Bytes → Bytes
fit n bs = take n (bs ++ replicate n 0)

length-fit : (n : ℕ) (bs : Bytes) → length (fit n bs) ≡ n
unfolding fit
length-fit n bs = omega (
  arith,
  length-take n (bs ++ replicate n 0),
  length-append bs (replicate n 0),
  length-replicate {A = ℕ} n 0,
)

-- A checksum of all bytes.
unfoldable pub mix : ℕ → Bytes → ℕ
mix h [] = h % 256
mix h (b ∷ bs) = mix ((h * 31 + b + 7) % 65536) bs

unfoldable pub digest : ℕ → Bytes → Bytes
unfolding fit mix
digest n m = fit n (mix 1 m ∷ mix 2 m ∷ mix 3 m ∷ length m ∷ [])

unfoldable pub total : Bytes → ℕ
total [] = 0
total (b ∷ bs) = (b + total bs) % 256

unfoldable pub sum_byte : Bytes → Bytes → Bytes
unfolding fit total
sum_byte p s = replicate 32 (total p + total s)

sum_byte_comm : (p s : Bytes) → sum_byte p s ≡ sum_byte s p
unfolding sum_byte
sum_byte_comm p s = let e : total p + total s ≡ total s + total p = omega arith in rw e

unfoldable pub is_key : Bytes → Bool
is_key bs = (length bs == 32) && not (bytes_eq bs (replicate 32 0))

unfoldable pub nibble : ℕ → Option ℕ
nibble c =
    if leb b'0' c && leb c b'9'
    then some (c - b'0')
    else if leb b'a' c && leb c b'f'
    then some (c - b'a' + 10)
    else none

unfoldable pub join : Option ℕ → Option ℕ → Option Bytes → Option Bytes
join (some h) (some l) (some bs) = some ((h * 16 + l) ∷ bs)
join _ _ _ = none

unfoldable pub hex_pairs : String → Option Bytes
unfolding join nibble
hex_pairs String.[] = some []
hex_pairs (String.◌∷◌ h (String.◌∷◌ l r)) = join (nibble (code h)) (nibble (code l)) (hex_pairs r)
hex_pairs _ = none

unfoldable pub or_invalid : Option Bytes → Result String Bytes
or_invalid (some bs) = ok bs
or_invalid none = err "Invalid character"

unfoldable pub digit : ℕ → String
digit n = String.slice "0123456789abcdef" n (n + 1)

unfoldable pub hex : Bytes → String
unfolding digit
hex [] = ""
hex (b ∷ bs) = digit (b / 16) <> (digit (b % 16) <> hex bs)

unfoldable pub from_sec1 : Bytes → Result String Bytes
from_sec1 [] = err "crypto error"
from_sec1 (b ∷ bs) = if b == 2 then ok bs else err "crypto error"

unfoldable pub key_of : Bytes → Result String Bytes
unfolding is_key
key_of bs = if is_key bs then ok bs else err "signature error"

abbrev pub toy : Crypto
toy = record {
  sha256 = digest 32;
  hmac_sha256 = λ k m. digest 32 (k ++ m);
  hmac_sha512 = λ k m. digest 64 (k ++ m);
  hkdf_expand = λ salt ikm info n.
      if leb n 8160 then ok (fit n (digest 32 (salt ++ (ikm ++ info)))) else err "invalid length";
  encrypt = λ key nonce aad plain. ok (plain, digest 16 (key ++ (nonce ++ (aad ++ plain))));
  decrypt = λ key nonce aad ct tag.
      if bytes_eq tag (digest 16 (key ++ (nonce ++ (aad ++ ct)))) then ok ct else err "aead::Error";
  SigningKey = Bytes;
  VerifyingKey = Bytes;
  Signature = Bytes;
  signing_key = key_of;
  public_bytes = fit 32;
  sign_raw = λ k m aux. ok (fit 64 (fit 32 k ++ m));
  signature_bytes = λ s. s;
  verifying_key = λ bs. if length bs == 32 then ok bs else err "signature error";
  signature = λ bs. if length bs == 64 then ok bs else err "signature error";
  verify_raw = λ v m s. if bytes_eq s (fit 64 (v ++ m)) then ok tt else err "signature error";
  Point = Bytes;
  Scalar = Bytes;
  point = from_sec1;
  scalar = key_of;
  mul = λ p s. sum_byte p (fit 32 s);
  is_identity = λ p. false;
  x_coordinate = λ p. some p;
  bech32_decode = λ s. err "missing separator";
  bech32_encode = λ hrp bs. hrp <> ("1" <> hex bs);
  hex_decode = λ s. or_invalid (hex_pairs s);
  hex_encode = hex;
  base64_decode = λ s. or_invalid (from_strokes s);
  base64_encode = strokes;
  Mnemonic = String;
  XPrv = Bytes;
  ChildNumber = ℕ;
  mnemonic = λ s. ok s;
  to_seed = λ m pass. String.len m ∷ String.len pass ∷ [];
  xprv = λ seed. ok (digest 32 seed);
  derivation_path = λ s. ok (String.len s ∷ []);
  derive_child = λ k n. ok (digest 32 (n ∷ k));
  private_bytes = λ k. k;
}

length-digest : (n : ℕ) (m : Bytes) → length (digest n m) ≡ n
unfolding digest
length-digest n m = length-fit n (mix 1 m ∷ mix 2 m ∷ mix 3 m ∷ length m ∷ [])

pub toy-IsBase64 : IsBase64 toy
toy-IsBase64 = record {
  alphabet = strokes-all;
  decode_encode = λ m. ap or_invalid (from_strokes-strokes m) ∙ (unfold or_invalid in refl);
}

pub toy-IsAead : IsAead toy
toy-IsAead = record {
  seal = λ key nonce aad plain h. (
    plain,
    digest 16 (key ++ (nonce ++ (aad ++ plain))),
    refl,
    refl,
    length-digest 16 _,
    rw (bytes_eq_refl (digest 16 (key ++ (nonce ++ (aad ++ plain))))),
  );
}

pub toy-IsHash : IsHash toy
toy-IsHash = record {
  sha256_size = λ m. length-digest 32 m;
  hmac_size = λ k m. length-digest 32 _;
  hmac512_size = λ k m. length-digest 64 _;
  expand = λ salt ikm info n h.
      (fit n (digest 32 (salt ++ (ikm ++ info))), rw (le→leb n 8160 h), length-fit n _);
}

size_test : (n : ℕ) (bs : Bytes) → length bs ≡ n → (length bs == n) ≡ true
size_test n bs e = ground arith

pub toy-IsSchnorr : IsSchnorr toy
toy-IsSchnorr = record {
  public_size = λ k. length-fit 32 k;
  sign_verify = λ k m aux h. (
    fit 64 (fit 32 k ++ m),
    fit 32 k,
    refl,
    length-fit 64 _,
    rw (size_test 64 (fit 64 (fit 32 k ++ m)) (length-fit 64 _)),
    rw (size_test 32 (fit 32 k) (length-fit 32 _)),
    rw (bytes_eq_refl (fit 64 (fit 32 k ++ m))),
  );
}

key_of-eq : (bs k : Bytes) → key_of bs ≡ ok k → k ≡ bs
unfolding key_of
key_of-eq bs k h = ground arith

key_of_same : (bs k : Bytes) → key_of bs ≡ ok k → key_of bs ≡ ok bs
key_of_same bs k h = h ∙ ap ok (key_of-eq bs k h)

pub toy-IsDiffieHellman : IsDiffieHellman toy
unfolding from_sec1
toy-IsDiffieHellman = record {
  agree = λ a b ka kb ha hb. (
    fit 32 ka,
    fit 32 kb,
    a,
    b,
    sum_byte (fit 32 kb) (fit 32 a),
    refl,
    refl,
    key_of_same a ka ha,
    key_of_same b kb hb,
    refl,
    refl,
    refl,
    rw (sum_byte_comm (fit 32 ka) (fit 32 b)) (rw (key_of-eq a ka ha, key_of-eq b kb hb)),
  );
}

pub toy-IsTotal : IsTotal toy
toy-IsTotal = record {
  encrypts = λ key nonce aad plain. tt;
  decrypts = λ key nonce aad ct tag.
      elim (Bool-cases (bytes_eq tag (digest 16 (key ++ (nonce ++ (aad ++ ct)))))) [
        | inl e ↦ rw e tt
        | inr e ↦ rw e tt
      ];
}
