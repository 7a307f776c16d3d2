-- ===== src/Encrypt/Trailer.antt =====
-- The trailer of mode 1: what `run_encrypt` writes behind the chunks, and its signature.
use pipek.Prelude.{
  ◌≡◌, refl, ap, sym, String, Option, none, some, [], ◌++◌, Result, ok, err, stuck, length,
  replicate,
}
use pipek.Prelude.Bytes.{Bytes}
use pipek.World.{World}
use pipek.World.Laws.{emit, emit-emit, emit-nil, stdout_write-emit}
use pipek.Crypto.{Crypto, IsHash, IsSchnorr}
use pipek.Wire.{tag_auth, auth_transcript, tagged_hash}
use pipek.Encrypt.{write_trailer}

module _ (C : Crypto) where
  open C use {
    SigningKey, VerifyingKey, Signature, public_bytes, sign_raw, signature_bytes, verifying_key,
    signature, verify_raw,
  }

  -- What the trailer signs.
  abbrev pub auth_hash : Bytes → Bytes → Bytes
  auth_hash hmac digest = tagged_hash C tag_auth (auth_transcript hmac digest)

  abbrev trailer_of : Bytes → Result String Signature → Bytes
  trailer_of pk (ok s) = pk ++ signature_bytes s
  trailer_of pk (err e) = []
  trailer_of pk stuck = []

  unfoldable pub trailer : Option SigningKey → Bytes → Bytes → Bytes
  trailer none hmac digest = []
  trailer (some key) hmac digest =
      trailer_of (public_bytes key) (sign_raw key (auth_hash hmac digest) (replicate 32 0))

  module _ (H : IsHash C) (S : IsSchnorr C) where
    -- The signature that a trailer has, and what it is worth.
    pub Signed-trailer :
        (key : SigningKey) (hmac digest : Bytes)
        → (s : Signature) × (v : VerifyingKey) × (sign_raw key
              (auth_hash hmac digest)
              (replicate 32 0)
            ≡ ok s)
          × (trailer (some key) hmac digest ≡ public_bytes key ++ signature_bytes s)
          × (length (signature_bytes s) ≡ 64)
          × (signature (signature_bytes s) ≡ ok s)
          × (verifying_key (public_bytes key) ≡ ok v)
          × (verify_raw v (auth_hash hmac digest) s ≡ ok tt)
    unfolding trailer tagged_hash
    Signed-trailer key hmac digest =
        let (s, v, signed, size, sig_read, key_read, verified) =
          S.sign_verify key (auth_hash hmac digest) (replicate 32 0) (H.sha256_size _) in
        (s, v, signed, rw signed refl, size, sig_read, key_read, verified)

    pub write_trailer-emit :
        (sender : Option SigningKey) (hmac digest : Bytes) (w : World)
        → w.stdout.room ≡ none
        → write_trailer C sender hmac digest w ≡ (ok tt, emit (trailer sender hmac digest) w)
    unfolding write_trailer trailer
    write_trailer-emit none hmac digest w room = ap (λ t. (ok tt, t)) (sym (emit-nil w))
    write_trailer-emit (some key) hmac digest w room =
        let (s, _, signed, lay, _, _, _, _) = Signed-trailer key hmac digest in
        let pk : Bytes = public_bytes key in
        rw
          (
            signed,
            stdout_write-emit pk w room,
            stdout_write-emit (signature_bytes s) (emit pk w) room,
          )
          (ap (λ t. (ok tt, t)) (emit-emit pk (signature_bytes s) w))
