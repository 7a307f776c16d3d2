-- ===== src/Encrypt/Run.antt =====
-- What `run_encrypt` writes.
use pipek.Prelude.{
  ℕ, ◌+◌, ◌<◌, ◌≡◌, refl, ◌∙◌, ap, String, ◌<>◌, Bool, Option, none, [], ◌∷◌, ◌++◌, ok, arith,
  length, length-take, slice, append_assoc, append-nil, zero, suc, ◌>>=◌, ◌>>◌, map_err_of, map_err,
}
use pipek.Prelude.Bytes.{Bytes}
use pipek.Error.{io}
use pipek.Io.{Reader}
use pipek.Io.Input.{content, IsClean}
use pipek.World.{World, fill_bytes, random_bytes, stdout_write}
use pipek.World.Laws.{emit, emit-emit, with_stdin, stdout_write-emit}
use pipek.Crypto.{Crypto, IsAead, IsHash, IsSchnorr, IsDiffieHellman}
use pipek.Wire.{
  assemble_header, compute_header_hmac, derive_keys, ecdh_shared_x, lift_x, info_header,
  info_stream,
}
use pipek.Prelude.Text.{as_bytes}
use pipek.Wire.Header.{header_bytes, front, slice-assemble, hmac-assemble}
use pipek.Keys.{KeyIntakeArgs, parse_key_bytes}
use pipek.Stream.{wire}
use pipek.Encrypt.Trailer.{trailer, write_trailer-emit}
use pipek.Encrypt.{
  ephemeral, sender_key, complete_header, encrypt_stream, write_trailer, run_encrypt,
}
use pipek.Encrypt.Loop.{fed, encrypt_stream-wire}

pub length-random_bytes : (n i : ℕ) (rng : ℕ → ℕ) → length (random_bytes n i rng) ≡ n
unfolding random_bytes
length-random_bytes zero i rng = refl
length-random_bytes (suc n) i rng = ap suc (length-random_bytes n (i + 1) rng)

module _ (C : Crypto) (H : IsHash C) where
  -- The keys of a shared secret and a salt.
  pub derive_keys-total :
      (ikm salt : Bytes) → (hk : Bytes) × (pk : Bytes) × (derive_keys C ikm salt ≡ ok (hk, pk))
  unfolding derive_keys
  derive_keys-total ikm salt =
      let (hk, e1, _) = H.expand salt ikm (as_bytes info_header) 32 (omega arith) in
      let (pk, e2, _) = H.expand salt ikm (as_bytes info_stream) 32 (omega arith) in
      (hk, pk, rw (e1, e2) refl)

  pub length-header_hmac : (k m : Bytes) → length (compute_header_hmac C k m) ≡ 16
  unfolding compute_header_hmac
  length-header_hmac k m = omega (arith, length-take 16 (C.hmac_sha256 k m), H.hmac_size k m)

lift_x_lem :
    (C : Crypto) (x : Bytes)
    → lift_x C x ≡ map_err (λ e. "Invalid curve point: " <> e) (C.point (2 ∷ x))
unfolding lift_x
lift_x_lem C x =
    ap (λ t. map_err (λ e. "Invalid curve point: " <> e) (C.point (2 ∷ t))) (append-nil x)

-- Both ends of the exchange compute one secret.
pub ecdh-agree :
    (C : Crypto) (D : IsDiffieHellman C) (a b : Bytes) (ka kb : C.SigningKey)
    → C.signing_key a ≡ ok ka
    → C.signing_key b ≡ ok kb
    → (ikm : Bytes) × (ecdh_shared_x C a (C.public_bytes kb) ≡ ok ikm)
      × (ecdh_shared_x C b (C.public_bytes ka) ≡ ok ikm)
unfolding ecdh_shared_x
ecdh-agree C D a b ka kb ha hb =
    let (pa, pb, sa, sb, x, point_a, point_b, scalar_a, scalar_b, finite_a, finite_b, xa, xb) =
      D.agree a b ka kb ha hb in
    (
      C.sha256 x,
      rw (scalar_a, lift_x_lem C (C.public_bytes kb), point_b, finite_a, xa) refl,
      rw (scalar_b, lift_x_lem C (C.public_bytes ka), point_a, finite_b, xb) refl,
    )

complete_header_lem :
    (mode : ℕ) (eph recip salt : Bytes)
    → length eph ≡ 32
    → length recip ≡ 32
    → length salt ≡ 11
    → (hmac : Bytes)
    → complete_header (assemble_header mode eph recip salt) hmac
      ≡ header_bytes mode eph recip salt hmac
unfolding complete_header
complete_header_lem = hmac-assemble

-- The whole output for a plaintext, of the keys and the salt of a run.
module _ (C : Crypto) (mode : ℕ) (eph recip salt hk pk : Bytes) (sender : Option C.SigningKey) where
  abbrev pub header_mac : Bytes
  header_mac = compute_header_hmac C hk (front mode eph recip salt)

  abbrev pub stream : Bytes → Bytes
  stream plain =
      header_bytes mode eph recip salt header_mac
      ++ (wire C pk mode recip plain ++ trailer C sender header_mac (C.sha256 (fed mode [] plain)))

module _ (C : Crypto) (A : IsAead C) (H : IsHash C) (S : IsSchnorr C) (D : IsDiffieHellman C) where
  open C use {SigningKey, signing_key, public_bytes}

  -- The part behind the key intake, from the world `w` in which the sender's key is loaded.
  write_stream :
      (signals : Bool) (mode : ℕ) (recip salt hk pk : Bytes) (ke : SigningKey)
      (sender : Option SigningKey) (w : World)
      → length recip ≡ 32
      → length salt ≡ 11
      → IsClean signals w.stdin
      → length (content w.stdin) + 1 < 18446744073709551616
      → w.stdout.room ≡ none
      → let header = assemble_header mode (public_bytes ke) recip salt in
        let hmac_16 = compute_header_hmac C hk (slice 0 81 header) in
        (rest : Reader) × ((do
          map_err_of io (stdout_write (complete_header header hmac_16))
          hashed ← encrypt_stream C pk mode recip
          write_trailer C sender hmac_16 (C.sha256 hashed))
            w
          ≡ (
            ok tt,
            emit
                (stream C mode (public_bytes ke) recip salt hk pk sender (content w.stdin))
                (with_stdin rest w),
          ))
        × (content rest ≡ [])
  write_stream signals mode recip salt hk pk ke sender w e2 e3 clean few room =
      let eph : Bytes = public_bytes ke in
      let e1 = S.public_size ke in
      let hmac : Bytes = header_mac C mode eph recip salt hk pk sender in
      let header : Bytes = header_bytes mode eph recip salt hmac in
      let plain : Bytes = content w.stdin in
      let (rest, done, left, _) =
        encrypt_stream-wire C A pk mode recip signals (emit header w) clean few room in
      let body : Bytes = wire C pk mode recip plain in
      let digest : Bytes = C.sha256 (fed mode [] plain) in
      (
        rest,
        rw
            (
              slice-assemble mode eph recip salt e1 e2 e3,
              complete_header_lem mode eph recip salt e1 e2 e3 hmac,
              stdout_write-emit header w room,
              done,
              write_trailer-emit C H S sender hmac digest
                  (emit body (emit header (with_stdin rest w))) room,
            )
            (ap (λ t. (ok tt, emit (trailer C sender hmac digest) t))
                (emit-emit header body (with_stdin rest w))
              ∙ ap (λ t. (ok tt, t))
                  (emit-emit (header ++ body) (trailer C sender hmac digest) (with_stdin rest w)
                    ∙ ap (λ t. emit t (with_stdin rest w))
                        (append_assoc header body (trailer C sender hmac digest)))),
        left,
      )

  -- Without an entropy descriptor: with a recipient's key, whose secret key is `priv`, a valid
  -- ephemeral key from the system's random bytes and, in mode 1, a sender's key, and with a standard
  -- input that works and has fewer than 2^64 - 1 bytes and a standard output without a bound,
  -- `run_encrypt` succeeds. Behind
  -- what was written before, it writes the stream for the input, under keys that are derived from
  -- the secret that the recipient's key and the ephemeral one share.
  pub run_encrypt-stream :
      (signals : Bool) (fuel : ℕ) (recipient : String) (mode : ℕ) (key_args : KeyIntakeArgs)
      (priv : Bytes) (kr ke : SigningKey) (sender : Option SigningKey) (w v : World)
      → parse_key_bytes C recipient ≡ ok (public_bytes kr)
      → signing_key priv ≡ ok kr
      → signing_key (random_bytes 32 w.drawn w.rng) ≡ ok ke
      → sender_key C mode key_args (record w { drawn = w.drawn + 32 + 11 }) ≡ (ok sender, v)
      → IsClean signals v.stdin
      → length (content v.stdin) + 1 < 18446744073709551616
      → v.stdout.room ≡ none
      → let salt = random_bytes 11 (w.drawn + 32) w.rng in
        (ikm : Bytes) × (hk : Bytes) × (pk : Bytes) × (rest : Reader) × (ecdh_shared_x C priv
            (public_bytes ke)
          ≡ ok ikm)
        × (derive_keys C ikm salt ≡ ok (hk, pk))
        × (run_encrypt C fuel recipient mode key_args none w ≡ (
          ok tt,
          emit
              (stream C mode
                (public_bytes ke)
                (public_bytes kr)
                salt
                hk
                pk
                sender
                (content v.stdin))
              (with_stdin rest v),
        ))
  unfolding run_encrypt ephemeral fill_bytes
  run_encrypt-stream signals fuel recipient mode key_args priv kr ke sender w v parsed key_r key_e
        loaded clean few room =
      let salt : Bytes = random_bytes 11 (w.drawn + 32) w.rng in
      let (ikm, at_sender, at_recipient) =
        ecdh-agree C D (random_bytes 32 w.drawn w.rng) priv ke kr key_e key_r in
      let (hk, pk, keys) = derive_keys-total C H ikm salt in
      let (rest, written, _) =
        write_stream signals mode (public_bytes kr) salt hk pk ke sender v (S.public_size kr)
          (length-random_bytes 11 (w.drawn + 32) w.rng) clean few room in
      (ikm, hk, pk, rest, at_recipient, keys, rw (parsed, key_e, loaded, at_sender, keys) written)
