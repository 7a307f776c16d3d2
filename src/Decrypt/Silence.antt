-- ===== src/Decrypt/Silence.antt =====
-- Nothing reaches standard output before every check has passed.
use pipek.Prelude.{
  ℕ, zero, suc, refl, ap, String, ◌<>◌, Bool, true, false, not, Option, none, some, [], map_err,
  arith, not, ◌==◌, get_or, slice, bytes_eq,
}
use pipek.Prelude.Bytes.{Bytes, from_be32}
use pipek.Error.{Pipek1Error, wire_corruption, auth_failure}
use pipek.World.{fill_bytes, stdin_read, eprintln}
use pipek.Crypto.{Crypto}
use pipek.Wire.{
  compute_header_hmac, derive_keys, ecdh_shared_x, tag_auth, tagged_hash, auth_transcript,
}
use pipek.Io.{capacity}
use pipek.Keys.{KeyIntakeArgs, load_secret_key}
use pipek.Keys.Sources.{load_secret_key-keeps}
use pipek.Spool.{StreamSpooler, new}
use pipek.Spool.Traces.{write_chunk-OnlyDisk}
use pipek.World.Silence.{
  Mute, IsSilent, IsSilent-bind, IsSilent-lift, IsSilent-pure, IsSilent-test, IsSilent-read_exact,
}
use pipek.World.Keeps.{Keeps-at, Keeps-of, Keeps-if}
use pipek.Decrypt.{
  Session, check_header, check_framing, check_trailing, read_header, read_chunk, deliver,
  decrypt_loop, decrypt_stream, check_sender, check_trailer, check_origin, verify_stream,
}

module _ (C : Crypto) where
  deliver-IsSilent : (plain : Bytes) (s : StreamSpooler) → IsSilent (deliver C false plain s)
  unfolding deliver
  deliver-IsSilent plain s = Keeps-at _ _ λ w. ap (λ u. u.stdout) (write_chunk-OnlyDisk C plain s w)

  check_framing-IsSilent : (len term : ℕ) → IsSilent (check_framing len term)
  unfolding check_framing
  check_framing-IsSilent len term = Keeps-at _ _ λ w. ground arith

  read_chunk-IsSilent : (session : Session) (counter : ℕ) → IsSilent (read_chunk C session counter)
  unfolding read_chunk
  read_chunk-IsSilent session counter = IsSilent-bind _ _ (IsSilent-read_exact _ _) λ hdr.
      IsSilent-bind _ _ (check_framing-IsSilent (from_be32 (slice 0 4 hdr)) (get_or hdr 4 0)) λ _.
        IsSilent-bind _ _ (IsSilent-read_exact _ _) λ ct.
          IsSilent-bind _ _ (IsSilent-read_exact _ _)
            λ tag. IsSilent-bind _ _ (IsSilent-lift _) λ plain. IsSilent-pure _ _

  check_header-IsSilent :
      (header : Bytes) (expected : Option String) (allow : Bool)
      → IsSilent (check_header header expected allow)
  unfolding check_header
  check_header-IsSilent header expected allow = Keeps-at _ _ λ w. ground arith

  pub new-IsSilent : (max : Option ℕ) → IsSilent {E = Pipek1Error} (new max)
  unfolding new fill_bytes
  new-IsSilent max = Keeps-at _ _ λ w. refl

  load_secret_key-IsSilent : (key_args : KeyIntakeArgs) → IsSilent (load_secret_key C key_args)
  load_secret_key-IsSilent key_args =
      Keeps-at _ _ λ w. ap (λ u. u.stdout) (load_secret_key-keeps C key_args w)

  read_header-IsSilent :
      (expected : Option String) (allow : Bool) (key_args : KeyIntakeArgs)
      → IsSilent (read_header C expected allow key_args)
  unfolding read_header
  read_header-IsSilent expected allow key_args =
      IsSilent-bind _ _ (load_secret_key-IsSilent key_args) λ priv.
        IsSilent-bind _ _ (IsSilent-lift _) λ key.
          IsSilent-bind _ _ (IsSilent-read_exact _ _) λ header.
            IsSilent-bind _ _ (check_header-IsSilent header expected allow) λ _.
              IsSilent-bind _ _
                (IsSilent-test (not (bytes_eq (slice 38 70 header) (C.public_bytes key)))
                  (wire_corruption "Recipient public key mismatch on wire"))
                λ _.
                  IsSilent-bind _ _
                    (IsSilent-lift (
                      map_err (λ e. wire_corruption ("ECDH calculation failed: " <> e))
                        (ecdh_shared_x C priv (slice 6 38 header))))
                    λ ikm.
                      IsSilent-bind _ _
                        (IsSilent-lift (
                          map_err (λ e. wire_corruption ("Key derivation failed: " <> e))
                            (derive_keys C ikm (slice 70 81 header))))
                        λ keys.
                          IsSilent-bind _ _
                            (IsSilent-test
                              (not (
                                bytes_eq (compute_header_hmac C keys.0 (slice 0 81 header))
                                  (slice 81 97 header)))
                              (wire_corruption
                                "Header HMAC verification failed (tampered wire header)"))
                            λ _. IsSilent-pure _ (record {
                              mode = get_or header 5 0;
                              recip_pub = slice 38 70 header;
                              header_hmac = slice 81 97 header;
                              payload_key = keys.1;
                            })

  decrypt_loop-IsSilent :
      (fuel : ℕ) (session : Session) (counter : ℕ) (hashed : Bytes) (s : StreamSpooler)
      → IsSilent (decrypt_loop C fuel false session counter hashed s)
  unfolding decrypt_loop
  decrypt_loop-IsSilent zero session counter hashed s = Keeps-at _ _ λ w. refl
  decrypt_loop-IsSilent (suc fuel) session counter hashed s =
      IsSilent-bind _ _ (read_chunk-IsSilent session counter) λ (term_tag, plain).
        IsSilent-bind _ _ (deliver-IsSilent plain s) λ s.
          Keeps-if Mute (term_tag == 1) _ _ (IsSilent-pure _ _)
            (decrypt_loop-IsSilent fuel session _ _ s)

  decrypt_stream-IsSilent :
      (session : Session) (s : StreamSpooler) → IsSilent (decrypt_stream C false session s)
  unfolding decrypt_stream
  decrypt_stream-IsSilent session s =
      Keeps-at _ _
        λ w. Keeps-of _ _ (decrypt_loop-IsSilent (suc (capacity w.stdin)) session 0 [] s) w

  check_sender-IsSilent :
      (expected : Option String) (allow : Bool) (pk : Bytes)
      → IsSilent (check_sender C expected allow pk)
  unfolding check_sender eprintln
  check_sender-IsSilent (some e) allow pk = Keeps-at _ _ λ w. ground arith
  check_sender-IsSilent none true pk = Keeps-at _ _ λ w. refl
  check_sender-IsSilent none false pk = Keeps-at _ _ λ w. refl

  check_trailer-IsSilent : (hmac digest : Bytes) → IsSilent (check_trailer C hmac digest)
  unfolding check_trailer
  check_trailer-IsSilent hmac digest = IsSilent-bind _ _ (IsSilent-read_exact _ _) λ trailer.
      IsSilent-bind _ _
        (IsSilent-lift (
          map_err (λ e. wire_corruption ("Invalid sender public key in trailer: " <> e))
            (C.verifying_key (slice 0 32 trailer))))
        λ vk.
          IsSilent-bind _ _
            (IsSilent-lift (
              map_err (λ e. wire_corruption ("Invalid signature framing in trailer: " <> e))
                (C.signature (slice 32 96 trailer))))
            λ sig.
              IsSilent-bind _ _
                (IsSilent-lift (
                  map_err
                    (λ e. auth_failure ("Mode 1 trailer signature verification failed: " <> e))
                    (C.verify_raw vk (tagged_hash C tag_auth (auth_transcript hmac digest)) sig)))
                λ _. IsSilent-pure _ (slice 0 32 trailer)

  check_origin-IsSilent :
      (session : Session) (expected : Option String) (allow : Bool) (hashed : Bytes)
      → IsSilent (check_origin C session expected allow hashed)
  unfolding check_origin
  check_origin-IsSilent session expected allow hashed =
      Keeps-if Mute (session.mode == 1) _ _
        (IsSilent-bind _ _ (check_trailer-IsSilent _ _) (check_sender-IsSilent expected allow))
        (IsSilent-pure _ _)

  check_trailing-IsSilent : IsSilent check_trailing
  unfolding check_trailing stdin_read
  check_trailing-IsSilent = Keeps-at _ _ λ w. ground arith

  pub verify_stream-IsSilent :
      (expected : Option String) (allow : Bool) (max : Option ℕ) (key_args : KeyIntakeArgs)
      → IsSilent (verify_stream C expected allow false max key_args)
  unfolding verify_stream
  verify_stream-IsSilent expected allow max key_args =
      IsSilent-bind _ _ (read_header-IsSilent expected allow key_args) λ session.
        IsSilent-bind _ _ (new-IsSilent max) λ s.
          IsSilent-bind _ _ (decrypt_stream-IsSilent session s) λ (hashed, s).
            IsSilent-bind _ _ (check_origin-IsSilent session expected allow hashed)
              λ _. IsSilent-bind _ _ check_trailing-IsSilent λ _. IsSilent-pure _ _
