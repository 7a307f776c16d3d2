-- ===== src/Decrypt.antt =====
-- `run_decrypt` of rust/src/main.rs, the decryptor that spools and verifies before it releases.
pub mod Silence
pub mod Release
pub mod Sound
pub mod Accept
pub mod Truncated
pub mod Unverified
pub mod Loop
pub mod Stream
pub mod RoundTrip
pub mod Header
pub mod Ends
use Prim.Native.String
use pipek.Prelude.{
  ℕ, zero, suc, ◌+◌, ◌/◌, ◌%◌, ◌<◌, String, ◌<>◌, Bool, true, false, ◌&&◌, not, Option, none, some,
  List, [], ◌∷◌, ◌++◌, Result, ok, err, stuck, map_err, length, slice, get_or, bytes_eq, is_empty,
  is_some, ltb, ◌==◌, if◌then◌else◌, lift, pure, ensure_not, ◌>>=◌, ◌>>◌, map_err_of,
}
use pipek.Prelude.Bytes.{Bytes, from_be32}
use pipek.Prelude.Text.{decimal}
use pipek.Error.{
  Pipek1Error, wire_corruption, auth_failure, usage_error, io, IoKind, unexpected_eof, IoError,
}
use pipek.World.{World, Io, stdin_read, stdin_read_exact, stdout_write, eprintln}
use pipek.Crypto.{Crypto}
use pipek.Wire.{
  magic_header, chunk_size, tag_size, trailer_size, wire_header_size, chunk_header_size, tag_auth,
  build_nonce, build_aad, auth_transcript, tagged_hash, derive_keys, compute_header_hmac,
  ecdh_shared_x,
}
use pipek.Keys.{KeyIntakeArgs, parse_key_bytes, load_secret_key}
use pipek.Io.{capacity}
use pipek.Spool.{StreamSpooler, new, write_chunk, release_to}

-- The header says what the rest of the stream is read by.
pub record Session : Type 0 where
  pub mode : ℕ
  pub recip_pub : Bytes
  pub header_hmac : Bytes
  pub payload_key : Bytes

-- The format `{:02x}`
unfoldable pub lower_hex : ℕ → String
lower_hex b =
    String.slice "0123456789abcdef" (b / 16) (b / 16 + 1)
    <> String.slice "0123456789abcdef" (b % 16) (b % 16 + 1)

abbrev chunk_header_error_of : IoKind → IoError → Pipek1Error
chunk_header_error_of unexpected_eof e = wire_corruption "Premature EOF before terminal chunk"
chunk_header_error_of _ e = io e

-- The error of a chunk header that cannot be read.
abbrev pub chunk_header_error : IoError → Pipek1Error
chunk_header_error e = chunk_header_error_of e.kind e

-- The checks of a chunk header.
unfoldable pub check_framing : ℕ → ℕ → Io Pipek1Error (Unit {0})
unfolding lower_hex
check_framing chunk_len term_tag = do
  ensure_not (not (term_tag == 0) && not (term_tag == 1)) (
      wire_corruption (
        "Framing violation: invalid terminal tag 0x"
        <> (lower_hex term_tag <> " (expected 0x00 or 0x01)")))
  ensure_not (term_tag == 0 && not (chunk_len == chunk_size))
      (wire_corruption "Framing violation: intermediate chunk must be exactly 64 KiB")
  ensure_not (ltb chunk_size chunk_len) (wire_corruption "Chunk size exceeds 64 KiB buffer limit")

-- The checks of the header's first six bytes, and of the sender options against its mode.
unfoldable pub check_header : Bytes → Option String → Bool → Io Pipek1Error (Unit {0})
check_header header expected_sender allow_untrusted_sender = do
  ensure_not (not (bytes_eq (slice 0 4 header) magic_header))
      (wire_corruption "Invalid magic bytes (expected PK01)")
  ensure_not (not (get_or header 4 0 == 1))
      (wire_corruption ("Unsupported protocol version: " <> decimal (get_or header 4 0)))
  let mode = get_or header 5 0
  ensure_not (not (mode == 1) && not (mode == 2))
      (wire_corruption ("Unsupported mode: " <> decimal mode))
  ensure_not (is_some expected_sender && mode == 2) (
      wire_corruption
        "Sender verification requested via --sender, but wire header indicates Mode 2 (Anonymous)")
  ensure_not (mode == 1 && (not (is_some expected_sender) && not allow_untrusted_sender))
      (usage_error "Mode 1 stream requires either --sender <npub|hex> or --allow-untrusted-sender")

-- No byte may follow a stream.
unfoldable pub check_trailing : Io Pipek1Error (Unit {0})
check_trailing = do
  trailing ← map_err_of io (stdin_read 1)
  ensure_not (not (is_empty trailing))
      (wire_corruption "Unauthenticated trailing bytes detected after stream termination")

module _ (C : Crypto) where
  open C use {
    SigningKey, signing_key, public_bytes, verifying_key, signature, verify_raw, decrypt, sha256,
    bech32_encode,
  }

  unfoldable pub encode_npub : Bytes → String
  encode_npub pk_x = bech32_encode "npub" pk_x

  -- The recipient's key, and the header that must be authentic under it.
  unfoldable pub read_header : Option String → Bool → KeyIntakeArgs → Io Pipek1Error Session
  read_header expected_sender allow_untrusted_sender key_args = do
    recip_priv ← load_secret_key C key_args
    key ← lift (map_err (λ e. usage_error ("Invalid secret key: " <> e)) (signing_key recip_priv))
    header ←
        map_err_of (λ e. wire_corruption ("Failed to read 97-byte header: " <> e.message))
          (stdin_read_exact wire_header_size)
    check_header header expected_sender allow_untrusted_sender
    let eph_pub = slice 6 38 header
    let recip_pub = slice 38 70 header
    ensure_not (not (bytes_eq recip_pub (public_bytes key)))
        (wire_corruption "Recipient public key mismatch on wire")
    let salt = slice 70 81 header
    ikm ← lift (
        map_err (λ e. wire_corruption ("ECDH calculation failed: " <> e))
          (ecdh_shared_x C recip_priv eph_pub))
    (header_key, payload_key) ←
        lift
          (map_err (λ e. wire_corruption ("Key derivation failed: " <> e)) (derive_keys C ikm salt))
    ensure_not
        (not (bytes_eq (compute_header_hmac C header_key (slice 0 81 header)) (slice 81 97 header)))
        (wire_corruption "Header HMAC verification failed (tampered wire header)")
    pure (record {
      mode = get_or header 5 0;
      recip_pub = recip_pub;
      header_hmac = slice 81 97 header;
      payload_key = payload_key;
    })

  -- One chunk: its terminal tag and its plaintext.
  unfoldable pub read_chunk : Session → ℕ → Io Pipek1Error (ℕ × Bytes)
  read_chunk session chunk_counter = do
    chunk_hdr ← map_err_of chunk_header_error (stdin_read_exact chunk_header_size)
    let chunk_len = from_be32 (slice 0 4 chunk_hdr)
    let term_tag = get_or chunk_hdr 4 0
    check_framing chunk_len term_tag
    ct ← map_err_of io (stdin_read_exact chunk_len)
    tag_bytes ← map_err_of io (stdin_read_exact tag_size)
    let nonce_bytes = build_nonce chunk_counter term_tag
    let aad =
        build_aad magic_header 1 session.mode session.recip_pub chunk_len chunk_counter term_tag
    plain ← lift (
        map_err (λ _. wire_corruption "Poly1305 AEAD tag verification failed (tampered chunk)")
          (decrypt session.payload_key nonce_bytes aad ct tag_bytes))
    pure (term_tag, plain)

  -- Where a chunk's plaintext goes: to the output at once if that is allowed, or into the spooler.
  unfoldable pub deliver : Bool → Bytes → StreamSpooler → Io Pipek1Error StreamSpooler
  deliver true plain spooler = do map_err_of io (stdout_write plain); pure spooler
  deliver false plain spooler = map_err_of usage_error (write_chunk C plain spooler)

  -- The loop. It returns what the hasher has been fed, and the spooler.
  unfoldable pub decrypt_loop :
      ℕ → Bool → Session → ℕ → Bytes → StreamSpooler → Io Pipek1Error (Bytes × StreamSpooler)
  decrypt_loop zero unverified session chunk_counter hashed spooler w = (stuck, w)
  decrypt_loop (suc fuel) unverified session chunk_counter hashed spooler w =
      (do
        (term_tag, plain) ← read_chunk session chunk_counter
        let hashed = if session.mode == 1 then hashed ++ plain else hashed
        spooler ← deliver unverified plain spooler
        (let more =
              decrypt_loop fuel unverified session ((chunk_counter + 1) % 18446744073709551616)
                hashed spooler in
            if term_tag == 1 then pure (hashed, spooler) else more))
        w

  -- Every round takes the five bytes of a chunk header.
  unfoldable pub decrypt_stream :
      Bool → Session → StreamSpooler → Io Pipek1Error (Bytes × StreamSpooler)
  decrypt_stream unverified session spooler w =
      decrypt_loop (suc (capacity w.stdin)) unverified session 0 [] spooler w

  -- The authenticated sender against the one that is expected.
  unfoldable pub check_sender : Option String → Bool → Bytes → Io Pipek1Error (Unit {0})
  unfolding encode_npub
  check_sender (some exp) allow_untrusted_sender sender_pub = do
    exp_bytes ← lift (map_err usage_error (parse_key_bytes C exp))
    ensure_not (not (bytes_eq exp_bytes sender_pub)) (
        auth_failure (
          "Authenticated sender "
          <> (encode_npub sender_pub <> (" does not match expected sender " <> exp))))
    eprintln ("Notice: Authenticated Mode 1 stream verified from " <> encode_npub sender_pub)
  check_sender none true sender_pub = eprintln (
      "Notice: Decrypted Mode 1 stream authenticated by untrusted sender "
      <> encode_npub sender_pub)
  check_sender none false sender_pub = pure tt

  -- The trailer of mode 1. It returns the sender's public key.
  unfoldable pub check_trailer : Bytes → Bytes → Io Pipek1Error Bytes
  check_trailer header_hmac pt_digest = do
    trailer ←
        map_err_of
          (λ e.
            wire_corruption ("Missing or truncated Mode 1 authenticated trailer: " <> e.message))
          (stdin_read_exact trailer_size)
    let sender_pub = slice 0 32 trailer
    sender_vk ← lift (
        map_err (λ e. wire_corruption ("Invalid sender public key in trailer: " <> e))
          (verifying_key sender_pub))
    sig ← lift (
        map_err (λ e. wire_corruption ("Invalid signature framing in trailer: " <> e))
          (signature (slice 32 96 trailer)))
    let auth_hash = tagged_hash C tag_auth (auth_transcript header_hmac pt_digest)
    lift (
        map_err (λ e. auth_failure ("Mode 1 trailer signature verification failed: " <> e))
          (verify_raw sender_vk auth_hash sig))
    pure sender_pub

  -- What follows the chunks.
  unfoldable pub check_origin : Session → Option String → Bool → Bytes → Io Pipek1Error (Unit {0})
  check_origin session expected_sender allow_untrusted_sender hashed =
      if session.mode == 1
      then (do
        sender_pub ← check_trailer session.header_hmac (sha256 hashed)
        check_sender expected_sender allow_untrusted_sender sender_pub)
      else pure tt

  -- All that comes before the release of the spooler.
  unfoldable pub verify_stream :
      Option String → Bool → Bool → Option ℕ → KeyIntakeArgs → Io Pipek1Error StreamSpooler
  verify_stream expected_sender allow_untrusted_sender allow_unverified_stream max_size key_args =
      do
        session ← read_header expected_sender allow_untrusted_sender key_args
        spooler ← new max_size
        (hashed, spooler) ← decrypt_stream allow_unverified_stream session spooler
        check_origin session expected_sender allow_untrusted_sender hashed
        check_trailing
        pure spooler

  unfoldable pub run_decrypt :
      Option String → Bool → Bool → Option ℕ → KeyIntakeArgs → Io Pipek1Error (Unit {0})
  run_decrypt expected_sender allow_untrusted_sender allow_unverified_stream max_size key_args = do
    spooler ←
        verify_stream expected_sender allow_untrusted_sender allow_unverified_stream max_size
          key_args
    (if not allow_unverified_stream then map_err_of io (release_to C spooler) else pure tt)
