-- ===== src/Signature/RoundTrip.antt =====
-- What verification says of a payload.
use pipek.Prelude.{
  ℕ, ◌<◌, ◌≡◌, refl, ◌∙◌, ap, String, ◌<>◌, ◌∷◌, ◌++◌, Result, ok, err, stuck, inl, inr, ◌⊎◌,
  guard-eq-ok, ◌==◌, ==_iff, bytes_eq, bytes_eq→eq, map_err, and_then, and_then-eq-ok,
  map_err-eq-ok, arith, length, replicate, slice, get_or, append_assoc, append-nil, length-append,
  take_all, take-append_exact, drop-append_exact,
}
use pipek.Prelude.Bytes.{Bytes, be32, from_be32, from_be32-be32, copy_range, copy_range-append}
use pipek.Crypto.{Crypto, IsSchnorr, IsHash}
use pipek.Wire.{magic_signature, tag_sign, tag_sign_legacy, tagged_hash}
use pipek.Signature.{
  ts_and_digest, payload_of, or_legacy, sign_stream_payload, verify_stream_payload,
}

-- The payload's fields, in the order of the specification.
pub payload_of_lem :
    (timestamp : ℕ) (pk sig : Bytes)
    → length pk ≡ 32
    → length sig ≡ 64
    → payload_of timestamp pk sig ≡ magic_signature ++ (1 ∷ (be32 timestamp ++ (pk ++ sig)))
unfolding payload_of
payload_of_lem timestamp pk sig e1 e2 =
    let pre : Bytes = magic_signature ++ (1 ∷ be32 timestamp) in
    let two : Bytes = pre ++ pk in
    let s2 : length two ≡ 41 = omega (arith, length-append pre pk) in
    ap (copy_range 41 105 sig) (copy_range-append 9 41 32 64 pk pre refl e1 refl)
    ∙ copy_range-append 41 105 64 0 sig two s2 e2 refl
    ∙ simp (append_assoc, append-nil)

module _ (C : Crypto) (S : IsSchnorr C) (H : IsHash C) where
  open C use {SigningKey, public_bytes, signature_bytes}

  tagged_hash-size : (tag : String) (m : Bytes) → length (tagged_hash C tag m) ≡ 32
  unfolding tagged_hash
  tagged_hash-size tag m = H.sha256_size _

  -- A signature made for a digest at a time before 2^32 is a payload of 105 bytes that is accepted
  -- for that digest, and verification returns the signer's public key.
  pub verify-sign :
      (key : SigningKey) (digest : Bytes) (timestamp : ℕ)
      → timestamp < 4294967296
      → (payload : Bytes) × (sign_stream_payload C key digest timestamp ≡ ok payload)
        × (length payload ≡ 105)
        × (verify_stream_payload C payload digest ≡ ok (public_bytes key))
  unfolding sign_stream_payload verify_stream_payload
  verify-sign key digest timestamp h =
      let m : Bytes = tagged_hash C tag_sign (ts_and_digest timestamp digest) in
      let (s, v, signed, size, sig_read, key_read, verified) =
        S.sign_verify key m (replicate 32 0)
          (tagged_hash-size tag_sign (ts_and_digest timestamp digest)) in
      let pk : Bytes = public_bytes key in
      let pk_size : length pk ≡ 32 = S.public_size key in
      let lay = payload_of_lem timestamp pk (signature_bytes s) pk_size size in
      (
        payload_of timestamp pk (signature_bytes s),
        rw signed,
        rw lay (omega (arith, length-append pk (signature_bytes s))),
        rw (
          lay,
          take-append_exact 32 pk (signature_bytes s) pk_size,
          drop-append_exact 32 pk (signature_bytes s) pk_size,
          take_all 64 (signature_bytes s) (omega arith),
          from_be32-be32 timestamp h,
          key_read,
          sig_read,
          verified,
        ),
      )

  -- The time of a payload is the one that it was made with.
  pub sign-timestamp :
      (key : SigningKey) (digest payload : Bytes) (timestamp : ℕ)
      → timestamp < 4294967296
      → sign_stream_payload C key digest timestamp ≡ ok payload
      → from_be32 (slice 5 9 payload) ≡ timestamp
  unfolding sign_stream_payload
  sign-timestamp key digest payload timestamp h made =
      let (s, v, signed, size, _, _, _) =
        S.sign_verify key (tagged_hash C tag_sign (ts_and_digest timestamp digest)) (replicate 32 0)
          (tagged_hash-size tag_sign (ts_and_digest timestamp digest)) in
      let same : payload_of timestamp (public_bytes key) (signature_bytes s) ≡ payload =
        ground (arith, rw signed at made) in
      let lay =
        payload_of_lem timestamp (public_bytes key) (signature_bytes s) (S.public_size key) size in
      rw (← same, lay) (from_be32-be32 timestamp h)

or_legacy-eq-ok :
    (current legacy : Result String (Unit {0})) (pk_x : Bytes) {pk : Bytes}
    → or_legacy current legacy pk_x ≡ ok pk
    → (pk ≡ pk_x) × ((current ≡ ok tt) ⊎ (legacy ≡ ok tt))
or_legacy-eq-ok (ok u) legacy pk_x h = (ground arith, inl refl)
or_legacy-eq-ok (err e) (ok u) pk_x h = (ground arith, inr refl)
or_legacy-eq-ok (err e) (err d) pk_x h = cc
or_legacy-eq-ok (err e) stuck pk_x h = cc
or_legacy-eq-ok stuck _ pk_x h = cc

module _ (C : Crypto) where
  open C use {VerifyingKey, Signature, verifying_key, signature, verify_raw}

  -- Whatever payload is accepted has the magic and the version 1, its bytes 9 to 41 are a valid
  -- key, which is returned, and its bytes 41 to 105 are a signature that verifies under that key
  -- for the timestamp of the bytes 5 to 9 and the digest, by the current tag or by the legacy one.
  pub verify_sound :
      (payload digest pk : Bytes)
      → verify_stream_payload C payload digest ≡ ok pk
      → (v : VerifyingKey) × (s : Signature) × (slice 0 4 payload ≡ magic_signature)
        × (get_or payload 4 0 ≡ 1)
        × (pk ≡ slice 9 41 payload)
        × (verifying_key pk ≡ ok v)
        × (signature (slice 41 105 payload) ≡ ok s)
        × let m = ts_and_digest (from_be32 (slice 5 9 payload)) digest in
          ((verify_raw v (tagged_hash C tag_sign m) s ≡ ok tt)
            ⊎ (verify_raw v (tagged_hash C tag_sign_legacy m) s ≡ ok tt))
  unfolding verify_stream_payload
  verify_sound payload digest pk h =
      let (magic, h1) = guard-eq-ok (bytes_eq (slice 0 4 payload) magic_signature) _ _ h in
      let (version, h2) = guard-eq-ok (get_or payload 4 0 == 1) _ _ h1 in
      let m = ts_and_digest (from_be32 (slice 5 9 payload)) digest in
      let key : Result String VerifyingKey =
        map_err (λ e. "Invalid public key: " <> e) (verifying_key (slice 9 41 payload)) in
      let sig : Result String Signature =
        map_err (λ e. "Invalid signature format: " <> e) (signature (slice 41 105 payload)) in
      let check : VerifyingKey → Signature → Result String Bytes = λ v s.
        or_legacy (verify_raw v (tagged_hash C tag_sign m) s)
          (verify_raw v (tagged_hash C tag_sign_legacy m) s) (slice 9 41 payload) in
      let (v, key_read, h3) = and_then-eq-ok key (λ v. and_then sig (check v)) h2 in
      let (s, sig_read, h4) = and_then-eq-ok sig (check v) h3 in
      let (same, verified) =
        or_legacy-eq-ok (verify_raw v (tagged_hash C tag_sign m) s)
          (verify_raw v (tagged_hash C tag_sign_legacy m) s) _ h4 in
      (
        v,
        s,
        bytes_eq→eq _ _ magic,
        (==_iff _ 1).0 version,
        same,
        ap verifying_key same
            ∙ (map_err-eq-ok (λ e. "Invalid public key: " <> e) (verifying_key (slice 9 41 payload))
                key_read),
        map_err-eq-ok (λ e. "Invalid signature format: " <> e) (signature (slice 41 105 payload))
            sig_read,
        verified,
      )
