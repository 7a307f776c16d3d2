-- ===== src/Decrypt/Truncated.antt =====
-- Streams that are cut off before their last chunk.
use pipek.Prelude.{
  ℕ, zero, suc, ◌+◌, ◌<◌, ◌≡◌, refl, ◌∙◌, ap, Bool, false, List, [], ◌∷◌, ◌++◌, err, arith, length,
  length-append, append_assoc, inr,
}
use pipek.Prelude.Bytes.{Bytes}
use pipek.Prelude.Chunks.{concat}
use pipek.Error.{Pipek1Error, wire_corruption}
use pipek.Io.{eof_error}
use pipek.Io.Input.{content, IsClean, read_exact-eof}
use pipek.World.{World, stdin_read_exact}
use pipek.World.Laws.{with_stdin}
use pipek.Crypto.{Crypto, IsAead}
use pipek.Stream.{sealed}
use pipek.Encrypt.Loop.{fed}
use pipek.Spool.{StreamSpooler, exceeds}
use pipek.Spool.RoundTrip.{exceeds_mono}
use pipek.Spool.State.{Holds, DiskWorks}
use pipek.Decrypt.{Session, read_chunk, decrypt_loop}
use pipek.Decrypt.Loop.{read_chunk-sealed, decrypt_loop-more, deliver-Holds}

abbrev pub premature_eof : Pipek1Error
premature_eof = wire_corruption "Premature EOF before terminal chunk"

-- All blocks have a chunk's full size.
abbrev pub AllFull : List Bytes → Type 0
AllFull [] = Unit
AllFull (b ∷ bs) = (length b ≡ 65536) × AllFull bs

stdin_read_exact-eof :
    (signals : Bool) (n : ℕ) (w : World)
    → IsClean signals w.stdin
    → length (content w.stdin) < n
    → (u : World) × (stdin_read_exact n w ≡ (err eof_error, u))
unfolding stdin_read_exact
stdin_read_exact-eof signals n w clean short =
    let (rest, e) = read_exact-eof signals n w.stdin clean short in
    (with_stdin rest w, ap (λ p. (p.0, with_stdin p.1 w)) e)

module _ (C : Crypto) (session : Session) where
  -- Intermediate chunks only.
  abbrev pub wire_prefix : ℕ → List Bytes → Bytes
  wire_prefix counter [] = []
  wire_prefix counter (b ∷ bs) =
      sealed C session.payload_key session.mode session.recip_pub counter 0 b
      ++ wire_prefix (counter + 1) bs

module _ (C : Crypto) (A : IsAead C) (session : Session) where
  decrypt_loop-eof :
      (signals : Bool) (fuel counter : ℕ) (hashed : Bytes) (s : StreamSpooler) (w : World)
      → IsClean signals w.stdin
      → length (content w.stdin) < 5
      → (u : World) × (decrypt_loop C (suc fuel) false session counter hashed s w
          ≡ (err premature_eof, u))
  unfolding decrypt_loop read_chunk
  decrypt_loop-eof signals fuel counter hashed s w clean short =
      let (u, e) = stdin_read_exact-eof signals 5 w clean short in (u, rw e refl)

  -- Without --allow-unverified-stream, a stream of good intermediate chunks that ends within a
  -- chunk header, or in front of one, is refused by the decryption loop as a premature end of the
  -- wire, however many chunks there are and however the reads cut them, provided that they do not
  -- exceed the spooler's ceiling, which would be the error instead. The input and the spooler's
  -- disk work, the counters and the bytes stay below 2^64, and the fuel is more than the bytes of
  -- the input.
  pub decrypt_loop_truncated :
      (signals : Bool) (fuel counter : ℕ) (bs : List Bytes) (cut hashed : Bytes) (s : StreamSpooler)
      (old : Bytes) (w : World)
      → IsClean signals w.stdin
      → content w.stdin ≡ wire_prefix C session counter bs ++ cut
      → length cut < 5
      → AllFull bs
      → counter + length bs < 18446744073709551616
      → Holds C s old
      → s.total_bytes ≡ length old
      → exceeds s.max_size (length old + length (concat bs)) ≡ false
      → length old + length (concat bs) < 18446744073709551616
      → DiskWorks w
      → length (content w.stdin) < fuel
      → (u : World) × (decrypt_loop C fuel false session counter hashed s w
          ≡ (err premature_eof, u))
  decrypt_loop_truncated signals zero counter bs cut hashed s old w clean e short full few h counted
        below fits works enough =
      absurd (omega arith)
  decrypt_loop_truncated signals (suc fuel) counter [] cut hashed s old w clean e short full few h
        counted below fits works enough =
      decrypt_loop-eof signals fuel counter hashed s w clean (rw e short)
  decrypt_loop_truncated signals (suc fuel) counter (b ∷ bs) cut hashed s old w clean e short
        (size, full) few h counted below fits works enough =
      let later : Bytes = wire_prefix C session (counter + 1) bs ++ cut in
      let (rest, got, left, clean', less) =
        read_chunk-sealed C A session signals counter 0 b later w (omega arith, inr (refl, size))
          clean
          (e
            ∙ append_assoc (sealed C session.payload_key session.mode session.recip_pub counter 0 b)
                (wire_prefix C session (counter + 1) bs) cut) in
      let works' : DiskWorks (with_stdin rest w) = record {
        opens = works.opens;
        room = works.room;
      } in
      let all = length-append b (concat bs) in
      let (t, put, h', counted', max) =
        deliver-Holds C A session b s old (with_stdin rest w) h counted
          (exceeds_mono s.max_size (length old + length b) _ (omega (arith, all)) below)
          (omega (arith, all)) works' in
      let sum : length (old ++ b) + length (concat bs) ≡ length old + length (b ++ concat bs) =
        omega (arith, all, length-append old b) in
      let (u, refused) =
        decrypt_loop_truncated signals fuel (counter + 1) bs cut (fed session.mode hashed b) t
          (old ++ b) (with_stdin rest w) clean' left short full (omega arith) h' counted'
          (rw (max, sum) below) (rw sum fits) works' (rw left (omega arith)) in
      (
        u,
        decrypt_loop-more C A session fuel counter false hashed b s t w (with_stdin rest w) rest put
              got (omega arith)
            ∙ refused,
      )
