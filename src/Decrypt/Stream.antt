-- ===== src/Decrypt/Stream.antt =====
-- The parts of `run_decrypt` behind the header, on a stream that the encryptor writes.
use pipek.Prelude.{
  ℕ, suc, ◌+◌, ◌<◌, ◌≡◌, refl, ◌∙◌, ap, sym, String, ◌<>◌, Bool, true, false, Option, none, some,
  List, [], ◌∷◌, ◌++◌, ok, length, bytes_eq_refl, arith, ◌==◌, length-append, append-nil,
  take-append_exact, drop-append_exact, take_all,
}
use pipek.Prelude.Bytes.{Bytes}
use pipek.Io.{Reader, chunk, failed, read}
use pipek.Io.Input.{content, IsClean}
use pipek.World.{World, stdin_read, eprintln}
use pipek.World.Laws.{with_stdin, stdin_read_exact-Reads}
use pipek.Crypto.{Crypto, IsAead, IsHash, IsSchnorr}
use pipek.Stream.{
  wire, first_chunk, behind, later_chunks, IsSplit-chunks, concat-later_chunks, first-append-behind,
  length-first_chunk, length-later_chunks,
}
use pipek.Keys.{parse_key_bytes}
use pipek.Io.{capacity}
use pipek.Encrypt.Loop.{fed, length-content-le}
use pipek.Encrypt.Trailer.{trailer, Signed-trailer}
use pipek.Spool.{StreamSpooler, exceeds}
use pipek.Spool.State.{Holds, DiskWorks}
use pipek.Decrypt.{
  Session, decrypt_stream, encode_npub, check_sender, check_trailer, check_origin, check_trailing,
}
use pipek.Decrypt.Loop.{decrypt_loop-Spooled}

-- Nothing is left of an input without failures.
no_content→nil : (r : Reader) → IsClean false r → content r ≡ [] → r ≡ []
no_content→nil [] c e = refl
no_content→nil (chunk bs ∷ r) c e =
    absurd (omega (arith, c.0, ap length e, length-append bs (content r)))
no_content→nil (failed x ∷ r) c e = absurd (cc (c.0))

stdin_read-nil : (w : World) → w.stdin ≡ [] → stdin_read 1 w ≡ (ok [], w)
unfolding stdin_read read
stdin_read-nil w gone =
    ap (λ r. ((read 1 r).0, with_stdin (read 1 r).1 w)) gone
    ∙ ap (λ r. (ok [], with_stdin r w)) (sym gone)

pub check_trailing-nil :
    (w : World) → IsClean false w.stdin → content w.stdin ≡ [] → check_trailing w ≡ (ok tt, w)
unfolding check_trailing
check_trailing-nil w clean e = rw (stdin_read-nil w (no_content→nil w.stdin clean e)) refl

module _ (C : Crypto) (A : IsAead C) (session : Session) where
  -- The chunks of a plaintext, in a fresh spooler.
  pub decrypt_stream-wire :
      (signals : Bool) (plain left : Bytes) (s : StreamSpooler) (w : World)
      → Holds C s []
      → s.total_bytes ≡ 0
      → exceeds s.max_size (length plain) ≡ false
      → length plain < 18446744073709551616
      → DiskWorks w
      → IsClean signals w.stdin
      → content w.stdin ≡ wire C session.payload_key session.mode session.recip_pub plain ++ left
      → (rest : Reader) × (t : StreamSpooler) × (decrypt_stream C false session s w
          ≡ (ok (fed session.mode [] plain, t), with_stdin rest w))
        × (content rest ≡ left)
        × IsClean signals rest
        × Holds C t plain
  unfolding decrypt_stream
  decrypt_stream-wire signals plain left s w h counted below few works clean e =
      let whole =
        ap (λ t. first_chunk plain ++ t) (concat-later_chunks (behind plain))
        ∙ first-append-behind plain in
      let chunks_few = length-later_chunks (behind plain) in
      let size = length-first_chunk plain in
      let fits = length-content-le w.stdin in
      let zero_add : 0 + length plain ≡ length plain = omega arith in
      rw whole at (
        decrypt_loop-Spooled C A session signals (suc (capacity w.stdin)) 0 (first_chunk plain)
          (later_chunks (behind plain)) [] s [] left w (IsSplit-chunks plain) (omega arith) h
          counted (rw (whole, zero_add) below) (rw (whole, zero_add) few) works clean e
          (omega arith))

-- The options of the decryptor against the origin of a stream: an anonymous one in mode 2, or a
-- signed one in mode 1 whose sender is the expected one or may be untrusted.
abbrev pub IsExpected : (C : Crypto) → ℕ → Option C.SigningKey → Option String → Bool → Type 0
IsExpected C mode none expected allow = (mode ≡ 2) × (expected ≡ none)
IsExpected C mode (some key) none allow = (mode ≡ 1) × (allow ≡ true)
IsExpected C mode (some key) (some e) allow =
    (mode ≡ 1) × (parse_key_bytes C e ≡ ok (C.public_bytes key))

IsExpected-mode :
    (C : Crypto) (mode : ℕ) (key : C.SigningKey) (expected : Option String) (allow : Bool)
    → IsExpected C mode (some key) expected allow
    → (mode == 1) ≡ true
IsExpected-mode C mode key none allow x = ground (arith, x.0)
IsExpected-mode C mode key (some e) allow x = ground (arith, x.0)

-- Standard error only is written to.
abbrev pub noticed : List String → World → World
noticed lines w = record w { stderr = lines }

module _ (C : Crypto) (H : IsHash C) (S : IsSchnorr C) where
  check_sender-noticed :
      (mode : ℕ) (key : C.SigningKey) (expected : Option String) (allow : Bool) (w : World)
      → IsExpected C mode (some key) expected allow
      → (lines : List String) × (check_sender C expected allow (C.public_bytes key) w
          ≡ (ok tt, noticed lines w))
  unfolding check_sender eprintln
  check_sender-noticed mode key none true w e = (
    w.stderr
        ++ ((("Notice: Decrypted Mode 1 stream authenticated by untrusted sender "
                <> encode_npub C (C.public_bytes key))
              <> "\n")
            ∷ []),
    refl,
  )
  check_sender-noticed mode key none false w e = absurd (cc (e.1))
  check_sender-noticed mode key (some x) allow w (_, parsed) = (
    w.stderr
        ++ ((("Notice: Authenticated Mode 1 stream verified from "
                <> encode_npub C (C.public_bytes key))
              <> "\n")
            ∷ []),
    rw (parsed, bytes_eq_refl (C.public_bytes key)) refl,
  )

  check_trailer-signed :
      (signals : Bool) (hmac digest : Bytes) (key : C.SigningKey) (w : World)
      → IsClean signals w.stdin
      → content w.stdin ≡ trailer C (some key) hmac digest
      → (rest : Reader) × (check_trailer C hmac digest w
          ≡ (ok (C.public_bytes key), with_stdin rest w))
        × (content rest ≡ [])
        × IsClean signals rest
  unfolding check_trailer
  check_trailer-signed signals hmac digest key w clean e =
      let (s, v, _, lay, size, sig_read, key_read, verified) =
        Signed-trailer C H S key hmac digest in
      let pk : Bytes = C.public_bytes key in
      let pk_size = S.public_size key in
      let all : Bytes = pk ++ C.signature_bytes s in
      let (rest, got, left, clean') =
        stdin_read_exact-Reads signals 96 all [] w clean (e ∙ lay ∙ sym (append-nil all))
          (omega (arith, length-append pk (C.signature_bytes s))) in
      (
        rest,
        rw
            (
              got,
              take-append_exact 32 pk (C.signature_bytes s) pk_size,
              drop-append_exact 32 pk (C.signature_bytes s) pk_size,
              take_all 64 (C.signature_bytes s) (omega arith),
              key_read,
              sig_read,
              verified,
            )
            refl,
        left,
        clean',
      )

  -- The end of a stream is accepted if the options go with its origin.
  pub check_origin-IsExpected :
      (signals : Bool) (session : Session) (sender : Option C.SigningKey) (expected : Option String)
      (allow : Bool) (hashed : Bytes) (w : World)
      → IsExpected C session.mode sender expected allow
      → IsClean signals w.stdin
      → content w.stdin ≡ trailer C sender session.header_hmac (C.sha256 hashed)
      → (rest : Reader) × (lines : List String) × (check_origin C session expected allow hashed w
          ≡ (ok tt, noticed lines (with_stdin rest w)))
        × (content rest ≡ [])
        × IsClean signals rest
  unfolding check_origin trailer
  check_origin-IsExpected signals session none expected allow hashed w (m, _) clean e =
      let other : (session.mode == 1) ≡ false = ground arith in
      (w.stdin, w.stderr, rw other refl, e, clean)
  check_origin-IsExpected signals session (some key) expected allow hashed w x clean e =
      let (rest, got, left, clean') =
        check_trailer-signed signals session.header_hmac (C.sha256 hashed) key w clean e in
      let (lines, checked) =
        check_sender-noticed session.mode key expected allow (with_stdin rest w) x in
      let one : (session.mode == 1) ≡ true = IsExpected-mode C session.mode key expected allow x in
      (rest, lines, rw (one, got, checked) refl, left, clean')
