-- ===== src/Commands.antt =====
-- The commands `sign`, `verify`, `pubkey`, `hash`, `inspect-header` and `inspect-chunk` of
-- `dispatch_command` in rust/src/main.rs, from the options that they were given.
pub mod Absorb
pub mod RoundTrip
pub mod Release
pub mod Sound
pub mod Ends
use Prim.Native.String
use pipek.Prelude.{
  ℕ, zero, suc, String, ◌<>◌, Bool, true, false, ◌&&◌, not, Option, none, some, List, [], ◌∷◌, ◌++◌,
  Result, ok, err, stuck, map_err, length, slice, get_or, bytes_eq, is_empty, is_some, ◌==◌,
  if◌then◌else◌, lift, pure, ensure_not, ◌>>=◌, ◌>>◌, map_err_of,
}
use pipek.Prelude.Bytes.{Bytes, from_be32}
use pipek.Prelude.Text.{decimal, from_utf8}
use pipek.Error.{Pipek1Error, wire_corruption, auth_failure, usage_error, io, IoError}
use pipek.World.{
  World, Io, stdin_read, stdin_read_exact, stdin_read_to_end, stdout_write, eprintln, println,
}
use pipek.World.Files.{fs_read}
use pipek.Crypto.{Crypto}
use pipek.Wire.{
  magic_header, chunk_size, wire_header_size, chunk_header_size, signature_payload_size,
  tagged_hash,
}
use pipek.Keys.{KeyIntakeArgs, parse_key_bytes, load_secret_key, unwrap_or}
use pipek.Signature.{sign_stream_payload, verify_stream_payload}
use pipek.Spool.{StreamSpooler, new, write_chunk, release_to}
use pipek.Io.{capacity}
use pipek.Decrypt.{encode_npub, lower_hex}
use pipek.Armor.{detach_armor, print_armored}
use pipek.Shim.{now_u32, or_usage}

pub record VerifyArgs : Type 0 where
  pub sig_path : Option String
  pub expected_pub : Option String
  pub max_size : Option ℕ
  pub pass_through : Bool

module _ (C : Crypto) where
  open C use {SigningKey, signing_key, public_bytes, sha256, hex_encode}

  -- `if let Some(ref mut s) = spooler { s.write_chunk(…) }`
  unfoldable pub spool_chunk : Bytes → Option StreamSpooler → Io Pipek1Error (Option StreamSpooler)
  spool_chunk chunk none = pure none
  spool_chunk chunk (some s) = do t ← map_err_of usage_error (write_chunk C chunk s); pure (some t)

  -- The loop of `sign` and `verify` over standard input, which `sign` runs without a spooler. It
  -- returns what the hasher has been fed, and the spooler. A signal ends it as any failure does.
  unfoldable pub absorb_loop :
      ℕ → Bytes → Option StreamSpooler → Io Pipek1Error (Bytes × Option StreamSpooler)
  absorb_loop zero hashed spooler w = (stuck, w)
  absorb_loop (suc fuel) hashed spooler w =
      (do
        chunk ← map_err_of io (stdin_read chunk_size)
        (let more : Io Pipek1Error (Bytes × Option StreamSpooler) = (do
          t ← spool_chunk chunk spooler
          absorb_loop fuel (hashed ++ chunk) t) in
            if length chunk == 0 then pure (hashed, spooler) else more))
        w

  -- Every round but the last takes a byte.
  unfoldable pub absorb : Option StreamSpooler → Io Pipek1Error (Bytes × Option StreamSpooler)
  absorb spooler w = absorb_loop (suc (capacity w.stdin)) [] spooler w

  unfoldable pub load_signing_key : KeyIntakeArgs → Io Pipek1Error SigningKey
  load_signing_key key_args = do
    sk_bytes ← load_secret_key C key_args
    lift (map_err (λ e. usage_error ("Invalid secp256k1 secret key: " <> e)) (signing_key sk_bytes))

  unfoldable pub write_signature : Bool → Bytes → Io Pipek1Error (Unit {0})
  write_signature armor payload =
      if armor then print_armored C "PIPE-K1" payload else map_err_of io (stdout_write payload)

  unfoldable pub sign : Bool → KeyIntakeArgs → Io Pipek1Error (Unit {0})
  sign armor key_args = do
    key ← load_signing_key key_args
    absorbed ← absorb none
    now ← now_u32
    payload ← lift (map_err usage_error (sign_stream_payload C key (sha256 absorbed.0) now))
    write_signature armor payload

  unfoldable pub read_signature : String → Io Pipek1Error Bytes
  read_signature path = do
    sig_raw ←
        map_err_of
          (λ e. usage_error ("Failed to read signature file '" <> (path <> ("': " <> e.message))))
          (fs_read path)
    sig_bytes ← lift (detach_armor C sig_raw)
    ensure_not (not (length sig_bytes == signature_payload_size)) (
        wire_corruption (
          "Signature payload must be exactly 105 bytes (got "
          <> (decimal (length sig_bytes) <> ")")))
    pure sig_bytes

  unfoldable pub new_spooler : VerifyArgs → Io Pipek1Error (Option StreamSpooler)
  new_spooler args =
      if args.pass_through then (do s ← new args.max_size; pure (some s)) else pure none

  -- The signer against the key that is expected.
  unfoldable pub check_expected : Option String → Bytes → Io Pipek1Error (Unit {0})
  unfolding encode_npub
  check_expected (some exp) signer_pk = do
    exp_pk ← lift (map_err usage_error (parse_key_bytes C exp))
    ensure_not (not (bytes_eq exp_pk signer_pk)) (
        auth_failure
          ("Signer key " <> (encode_npub C signer_pk <> (" does not match expected key " <> exp))))
  check_expected none signer_pk =
      eprintln ("Notice: Verifying against embedded untrusted pubkey " <> encode_npub C signer_pk)

  -- All of `verify` that comes before its success is acted on.
  unfoldable pub verify_input : VerifyArgs → Io Pipek1Error (Bytes × Option StreamSpooler)
  verify_input args = do
    ensure_not (args.pass_through && not (is_some args.expected_pub))
        (usage_error "--pub <npub|hex> is mandatory when --pass-through is enabled")
    path ← lift (or_usage "Missing mandatory argument: --sig <file>" args.sig_path)
    payload ← read_signature path
    spooler ← new_spooler args
    absorbed ← absorb spooler
    signer_pk ← lift (
        map_err (λ e. auth_failure ("Verification FAILED: " <> e))
          (verify_stream_payload C payload (sha256 absorbed.0)))
    check_expected args.expected_pub signer_pk
    pure (signer_pk, absorbed.1)

  unfoldable pub release : Bytes → Option StreamSpooler → Io Pipek1Error (Unit {0})
  unfolding encode_npub
  release signer_pk (some s) = map_err_of io (release_to C s)
  release signer_pk none =
      eprintln ("Notice: Cryptographic verification SUCCESS from " <> encode_npub C signer_pk)

  unfoldable pub verify : VerifyArgs → Io Pipek1Error (Unit {0})
  verify args = do verified ← verify_input args; release verified.0 verified.1

  unfoldable pub pubkey : KeyIntakeArgs → Io Pipek1Error (Unit {0})
  pubkey key_args = do
    key ← load_signing_key key_args
    println ("Hex:  " <> hex_encode (public_bytes key))
    println ("Npub: " <> encode_npub C (public_bytes key))

  unfoldable pub hash : String → Io Pipek1Error (Unit {0})
  hash tag = do
    buffer ← map_err_of io stdin_read_to_end
    println (hex_encode (tagged_hash C tag buffer))

  -- The magic is ASCII once it has been checked.
  unfoldable pub inspect_header : Io Pipek1Error (Unit {0})
  inspect_header = do
    header ← map_err_of io (stdin_read_exact wire_header_size)
    ensure_not (not (bytes_eq (slice 0 4 header) magic_header))
        (wire_corruption "Invalid magic bytes (expected PK01)")
    println "Valid pipe-k1 Wire Header (97 bytes):"
    println ("  Magic:        " <> unwrap_or "" (from_utf8 (slice 0 4 header)))
    println ("  Version:      0x" <> lower_hex (get_or header 4 0))
    println ("  Mode:         0x" <> lower_hex (get_or header 5 0))
    println ("  EphemeralPub: " <> hex_encode (slice 6 38 header))
    println ("  RecipientPub: " <> hex_encode (slice 38 70 header))
    println ("  Salt (11B):   " <> hex_encode (slice 70 81 header))
    println ("  HMAC (16B):   " <> hex_encode (slice 81 97 header))

  unfoldable pub inspect_chunk : Io Pipek1Error (Unit {0})
  inspect_chunk = do
    chunk_hdr ← map_err_of io (stdin_read_exact chunk_header_size)
    let len = from_be32 (slice 0 4 chunk_hdr)
    let term = get_or chunk_hdr 4 0
    println "Valid pipe-k1 Chunk Header (5 bytes):"
    println ("  Payload Length: " <> (decimal len <> " bytes"))
    println (
        "  Terminal Tag:   0x"
        <> (lower_hex term
            <> (" (" <> ((if term == 1 then "TERMINAL" else "INTERMEDIATE") <> ")"))))
