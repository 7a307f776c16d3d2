-- ===== src/Signature.antt =====
-- Detached signatures of rust/src/main.rs: `sign_stream_payload` and `verify_stream_payload`.
pub mod RoundTrip
use pipek.Prelude.{
  ℕ, ◌%◌, ◌^◌, String, ◌<>◌, Bool, true, false, not, List, [], ◌∷◌, ◌++◌, Result, ok, err, stuck,
  map_err, and_then, length, replicate, slice, get_or, bytes_eq, ◌==◌, if◌then◌else◌,
}
use pipek.Prelude.Bytes.{Bytes, be32, from_be32, copy_range}
use pipek.Crypto.{Crypto}
use pipek.Wire.{magic_signature, tag_sign, tag_sign_legacy, tagged_hash}

-- Both functions hash the timestamp and the digest.
unfoldable pub ts_and_digest : ℕ → Bytes → Bytes
ts_and_digest timestamp msg_digest =
    copy_range 4 36 msg_digest (copy_range 0 4 (be32 timestamp) (replicate 36 0))

-- The buffer that `sign_stream_payload` returns.
unfoldable pub payload_of : ℕ → Bytes → Bytes → Bytes
payload_of timestamp pk_x signature =
    let payload = replicate 105 0 in
    let payload = copy_range 0 4 magic_signature payload in
    let payload = copy_range 4 5 (1 ∷ []) payload in
    let payload = copy_range 5 9 (be32 timestamp) payload in
    let payload = copy_range 9 41 pk_x payload in copy_range 41 105 signature payload

-- The check of the current tag, and of the legacy one if that fails.
abbrev pub or_legacy :
    Result String (Unit {0}) → Result String (Unit {0}) → Bytes → Result String Bytes
or_legacy (ok _) legacy pk_x = ok pk_x
or_legacy (err e1) (ok _) pk_x = ok pk_x
or_legacy (err e1) (err _) pk_x = err ("Schnorr verification failed: " <> e1)
or_legacy _ _ pk_x = stuck

module _ (C : Crypto) where
  open C use {
    SigningKey, VerifyingKey, Signature, public_bytes, sign_raw, signature_bytes, verifying_key,
    signature, verify_raw,
  }

  -- `.expect("signing failed")`, and the payload
  abbrev expect_signed : ℕ → SigningKey → Result String Signature → Result String Bytes
  expect_signed timestamp key (ok s) =
      ok (payload_of timestamp (public_bytes key) (signature_bytes s))
  expect_signed timestamp key (err e) = stuck
  expect_signed timestamp key stuck = stuck

  unfoldable pub sign_stream_payload : SigningKey → Bytes → ℕ → Result String Bytes
  sign_stream_payload key msg_digest timestamp =
      let m_hash = tagged_hash C tag_sign (ts_and_digest timestamp msg_digest) in
      expect_signed timestamp key (sign_raw key m_hash (replicate 32 0))

  unfoldable pub verify_stream_payload : Bytes → Bytes → Result String Bytes
  verify_stream_payload payload msg_digest =
      if not (bytes_eq (slice 0 4 payload) magic_signature)
      then err "Invalid magic bytes in signature payload"
      else if not (get_or payload 4 0 == 1)
      then err "Unsupported signature version"
      else let timestamp = from_be32 (slice 5 9 payload) in
        let message = ts_and_digest timestamp msg_digest in
        let pk_x = slice 9 41 payload in
        let sig_bytes = slice 41 105 payload in
        and_then (map_err (λ e. "Invalid public key: " <> e) (verifying_key pk_x)) λ vk.
          and_then (map_err (λ e. "Invalid signature format: " <> e) (signature sig_bytes)) λ sig.
            or_legacy (verify_raw vk (tagged_hash C tag_sign message) sig)
              (verify_raw vk (tagged_hash C tag_sign_legacy message) sig) pk_x
