-- ===== src/Encrypt.antt =====
-- `run_encrypt` of rust/src/main.rs, the streaming encryptor.
pub mod Loop
pub mod Trailer
pub mod Entropy
pub mod Run
pub mod Ends
use pipek.Prelude.{
  ℕ, zero, suc, ◌+◌, ◌<◌, String, ◌<>◌, Bool, true, false, ◌||◌, Option, none, some, List, [], ◌∷◌,
  ◌++◌, Result, ok, err, stuck, map_err, length, take, replicate, slice, bytes_eq, is_empty, ltb,
  ◌==◌, if◌then◌else◌, lift, pure, fail, ensure_not, ◌>>=◌, ◌>>◌, map_err_of,
}
use pipek.Prelude.Bytes.{Bytes, copy_range}
use pipek.Prelude.Int.{ℤ}
use pipek.Error.{Pipek1Error, usage_error, io, IoError, display}
use pipek.Io.{capacity}
use pipek.World.{World, Io, stdin_fill, stdout_write, fill_bytes}
use pipek.World.Files.{fd_read_at_most}
use pipek.Crypto.{Crypto}
use pipek.Wire.{
  magic_header, chunk_size, tag_entropy, tag_auth, build_nonce, build_aad, assemble_header,
  chunk_header, auth_transcript, tagged_hash, derive_keys, compute_header_hmac, ecdh_shared_x,
}
use pipek.Keys.{KeyIntakeArgs, parse_key_bytes, load_secret_key}

-- `chunk_counter.checked_add(1).ok_or_else(…)`
unfoldable pub next_counter : ℕ → Result Pipek1Error ℕ
next_counter counter =
    if ltb (counter + 1) 18446744073709551616
    then ok (counter + 1)
    else err (usage_error "Chunk counter overflow")

-- The HMAC goes behind the 81 bytes that it authenticates.
unfoldable pub complete_header : Bytes → Bytes → Bytes
complete_header header hmac_16 = copy_range 81 97 hmac_16 header

module _ (C : Crypto) where
  open C use {SigningKey, signing_key, public_bytes, sign_raw, signature_bytes, encrypt}

  unfoldable pub is_err : Result String SigningKey → Bool
  is_err (ok k) = false
  is_err (err e) = true
  is_err stuck = true

  -- `while SigningKey::from_bytes(&mixed).is_err() || mixed == [0u8; 32]`, with fuel.
  unfoldable pub rehash : ℕ → Bytes → Result Pipek1Error Bytes
  unfolding is_err
  rehash zero mixed = stuck
  rehash (suc fuel) mixed =
      let more = rehash fuel (tagged_hash C tag_entropy mixed) in
      if is_err (signing_key mixed) || bytes_eq mixed (replicate 32 0) then more else ok mixed

  -- The ephemeral secret: the system's random bytes, hashed together with physical entropy if a
  -- descriptor of it is given.
  unfoldable pub ephemeral : ℕ → Option ℤ → Bytes → Io Pipek1Error Bytes
  ephemeral fuel none os_entropy = pure os_entropy
  ephemeral fuel (some fd_num) os_entropy = do
    physical_entropy ←
        map_err_of (λ e. usage_error ("Failed to read entropy fd: " <> e.message))
          (fd_read_at_most chunk_size fd_num)
    ensure_not (is_empty physical_entropy) (usage_error "Entropy file descriptor was empty")
    lift (rehash fuel (tagged_hash C tag_entropy (os_entropy ++ physical_entropy)))

  -- Mode 1: the sender's key, before any byte is written.
  unfoldable pub sender_key : ℕ → KeyIntakeArgs → Io Pipek1Error (Option SigningKey)
  sender_key mode key_args =
      if mode == 1
      then (do
        sender_priv ←
            map_err_of (λ e. usage_error ("Mode 1 requires sender secret key: " <> display e))
              (load_secret_key C key_args)
        key ← lift (
            map_err (λ e. usage_error ("Invalid sender secret scalar: " <> e))
              (signing_key sender_priv))
        pure (some key))
      else pure none

  -- One chunk: its header, its ciphertext and its tag.
  unfoldable pub write_sealed : Bytes → ℕ → Bytes → ℕ → ℕ → Bytes → Io Pipek1Error (Unit {0})
  write_sealed payload_key mode recip_x chunk_counter term_tag cur = do
    let chunk_len = length cur
    let nonce_bytes = build_nonce chunk_counter term_tag
    let aad = build_aad magic_header 1 mode recip_x chunk_len chunk_counter term_tag
    map_err_of io (stdout_write (chunk_header chunk_len term_tag))
    (block, tag) ← lift (
        map_err (λ e. usage_error ("Chunk encryption failed: " <> e))
          (encrypt payload_key nonce_bytes aad cur))
    map_err_of io (stdout_write block)
    map_err_of io (stdout_write tag)

  -- The loop with the chunk `cur`, of which `hashed` has been fed to the hasher. It returns what
  -- has been fed at the end.
  unfoldable pub encrypt_loop : ℕ → Bytes → ℕ → Bytes → ℕ → Bytes → Bytes → Io Pipek1Error Bytes
  encrypt_loop zero payload_key mode recip_x chunk_counter cur hashed w = (stuck, w)
  encrypt_loop (suc fuel) payload_key mode recip_x chunk_counter cur hashed w =
      (do
        next ← map_err_of io (stdin_fill chunk_size)
        let term_tag = if length next == 0 then 1 else 0
        let hashed = if mode == 1 then hashed ++ cur else hashed
        write_sealed payload_key mode recip_x chunk_counter term_tag cur
        chunk_counter ← lift (next_counter chunk_counter)
        (let more = encrypt_loop fuel payload_key mode recip_x chunk_counter next hashed in
            if length next == 0 then pure hashed else more))
        w

  -- The first read, and the loop. Every round but the last takes a byte at least.
  unfoldable pub encrypt_stream : Bytes → ℕ → Bytes → Io Pipek1Error Bytes
  encrypt_stream payload_key mode recip_x = do
    cur ← map_err_of io (stdin_fill chunk_size)
    λ w. encrypt_loop (suc (capacity w.stdin)) payload_key mode recip_x 0 cur [] w

  -- The 96 bytes behind the chunks in mode 1.
  unfoldable pub write_trailer : Option SigningKey → Bytes → Bytes → Io Pipek1Error (Unit {0})
  write_trailer none hmac_16 pt_digest = pure tt
  write_trailer (some key) hmac_16 pt_digest = do
    let auth_hash = tagged_hash C tag_auth (auth_transcript hmac_16 pt_digest)
    sig ← lift (
        map_err (λ e. usage_error ("Trailer signing failed: " <> e))
          (sign_raw key auth_hash (replicate 32 0)))
    map_err_of io (stdout_write (public_bytes key))
    map_err_of io (stdout_write (signature_bytes sig))

  -- `fuel` is that of `rehash`.
  unfoldable pub run_encrypt : ℕ → String → ℕ → KeyIntakeArgs → Option ℤ → Io Pipek1Error (Unit {0})
  run_encrypt fuel recipient mode key_args entropy_fd = do
    recip_x ← lift (map_err usage_error (parse_key_bytes C recipient))
    os_entropy ← fill_bytes 32
    eph_priv ← ephemeral fuel entropy_fd os_entropy
    key ← lift (
        map_err (λ e. usage_error ("Invalid ephemeral secret scalar: " <> e))
          (signing_key eph_priv))
    salt ← fill_bytes 11
    sender ← sender_key mode key_args
    ikm ← lift (
        map_err (λ e. usage_error ("ECDH calculation failed: " <> e))
          (ecdh_shared_x C eph_priv recip_x))
    (header_key, payload_key) ←
        lift (map_err (λ e. usage_error ("Key derivation failed: " <> e)) (derive_keys C ikm salt))
    let header = assemble_header mode (public_bytes key) recip_x salt
    let hmac_16 = compute_header_hmac C header_key (slice 0 81 header)
    map_err_of io (stdout_write (complete_header header hmac_16))
    hashed ← encrypt_stream payload_key mode recip_x
    write_trailer sender hmac_16 (C.sha256 hashed)
