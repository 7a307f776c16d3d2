-- ===== src/Decrypt/Unverified.antt =====
-- The decryption loop with `--allow-unverified-stream`.
use pipek.Prelude.{
  ℕ, zero, suc, ◌+◌, ◌<◌, ◌≡◌, refl, ◌∙◌, ap, sym, Bool, true, none, List, [], ◌∷◌, ◌++◌, ok, arith,
  length, append_assoc, append-nil, inl, inr,
}
use pipek.Prelude.Bytes.{Bytes}
use pipek.Prelude.Chunks.{concat}
use pipek.Io.{Reader}
use pipek.Io.Input.{content, IsClean}
use pipek.World.{World}
use pipek.World.Laws.{emit, emit-emit, with_stdin, stdout_write-emit}
use pipek.Crypto.{Crypto, IsAead}
use pipek.Stream.{sealed, wire_from, IsSplit}
use pipek.Encrypt.Loop.{fed, fed-fed}
use pipek.Spool.{StreamSpooler}
use pipek.Decrypt.{Session, deliver, decrypt_loop}
use pipek.Decrypt.Loop.{read_chunk-sealed, decrypt_loop-last, decrypt_loop-more}

module _ (C : Crypto) (A : IsAead C) (session : Session) where
  deliver-emit :
      (plain : Bytes) (s : StreamSpooler) (w : World)
      → w.stdout.room ≡ none
      → deliver C true plain s w ≡ (ok s, emit plain w)
  unfolding deliver
  deliver-emit plain s w room = rw (stdout_write-emit plain w room) refl

  -- With more fuel than bytes and counters below 2^64: from an input in working order that begins
  -- with a chunk stream, numbered from `counter` on, and to an output without a bound, the loop
  -- with `--allow-unverified-stream` succeeds: it writes the plaintext of the chunks, leaves the
  -- spooler as it is and the input behind the stream unread, and feeds the plaintext to the hasher
  -- in mode 1.
  pub decrypt_loop-emit :
      (signals : Bool) (fuel counter : ℕ) (cur : Bytes) (more : List Bytes) (hashed : Bytes)
      (s : StreamSpooler) (left : Bytes) (w : World)
      → IsSplit 65536 cur more
      → counter + length more < 18446744073709551616
      → w.stdout.room ≡ none
      → IsClean signals w.stdin
      → content w.stdin
        ≡ wire_from C session.payload_key session.mode session.recip_pub counter cur more ++ left
      → length (content w.stdin) < fuel
      → (rest : Reader) × (decrypt_loop C fuel true session counter hashed s w ≡ (
        ok (fed session.mode hashed (cur ++ concat more), s),
        emit (cur ++ concat more) (with_stdin rest w),
      ))
        × (content rest ≡ left)
        × IsClean signals rest
  decrypt_loop-emit signals zero counter cur more hashed s left w split few room clean e enough =
      absurd (omega arith)
  decrypt_loop-emit signals (suc fuel) counter cur [] hashed s left w split few room clean e
        enough =
      let (rest, got, left', clean', _) =
        read_chunk-sealed C A session signals counter 1 cur left w (split, inl refl) clean e in
      let put = deliver-emit cur s (with_stdin rest w) room in
      (
        rest,
        decrypt_loop-last C A session fuel counter true hashed cur s s w
              (emit cur (with_stdin rest w)) rest put got
            ∙ ap (λ t. (ok (fed session.mode hashed t, s), emit t (with_stdin rest w)))
                (sym (append-nil cur)),
        left',
        clean',
      )
  decrypt_loop-emit signals (suc fuel) counter cur (next ∷ more) hashed s left w (full, split) few
        room clean e enough =
      let later : Bytes =
        wire_from C session.payload_key session.mode session.recip_pub (counter + 1) next more in
      let (rest, got, left', clean', less) =
        read_chunk-sealed C A session signals counter 0 cur (later ++ left) w
          (omega arith, inr (refl, full)) clean
          (e
            ∙ append_assoc
                (sealed C session.payload_key session.mode session.recip_pub counter 0 cur) later
                left) in
      let behind : Bytes = next ++ concat more in
      let put = deliver-emit cur s (with_stdin rest w) room in
      let (rest', done, left'', clean'') =
        decrypt_loop-emit signals fuel (counter + 1) next more (fed session.mode hashed cur) s left
          (emit cur (with_stdin rest w)) split (omega arith) room clean' left'
          (rw left' (omega arith)) in
      (
        rest',
        decrypt_loop-more C A session fuel counter true hashed cur s s w
              (emit cur (with_stdin rest w)) rest put got (omega arith)
            ∙ done
            ∙ ap (λ x. (ok (x, s), emit behind (emit cur (with_stdin rest' w))))
                (fed-fed session.mode hashed cur behind)
            ∙ ap (λ x. (ok (fed session.mode hashed (cur ++ behind), s), x))
                (emit-emit cur behind (with_stdin rest' w)),
        left'',
        clean'',
      )
