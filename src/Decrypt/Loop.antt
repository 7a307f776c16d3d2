-- ===== src/Decrypt/Loop.antt =====
-- The decryption loop on a stream that the encryptor writes.
use pipek.Prelude.{
  ℕ, zero, suc, ◌+◌, ◌%◌, ◌<◌, ◌≤◌, ◌≡◌, refl, ◌∙◌, ap, Bool, false, not, ◌&&◌, List, [], ◌∷◌, ◌++◌,
  Result, ok, arith, length, length-append, append_assoc, append-nil, ltb, ◌==◌, ◌⊎◌, inl, inr,
}
use pipek.Prelude.Bytes.{Bytes, be32, from_be32, from_be32-be32}
use pipek.Prelude.Chunks.{concat}
use pipek.Error.{Pipek1Error}
use pipek.Io.{Reader}
use pipek.Io.Input.{content, IsClean}
use pipek.World.{World}
use pipek.World.Laws.{with_stdin, stdin_read_exact-Reads}
use pipek.Crypto.{Crypto, IsAead}
use pipek.Wire.{magic_header, build_nonce, build_aad, chunk_header}
use pipek.Stream.{sealed, sealed_lem, wire_from, IsSplit}
use pipek.Encrypt.Loop.{fed, fed-fed}
use pipek.Spool.{StreamSpooler, exceeds}
use pipek.Spool.RoundTrip.{exceeds_mono}
use pipek.Spool.State.{Holds, DiskWorks}
use pipek.Spool.Write.{write_chunk-Holds}
use pipek.Decrypt.{Session, check_framing, read_chunk, deliver, decrypt_loop}

chunk_header_lem : (len term : ℕ) → chunk_header len term ≡ be32 len ++ (term ∷ [])
unfolding chunk_header
chunk_header_lem len term = refl

-- A chunk may stand on the wire: an intermediate one is full.
abbrev pub IsFramed : ℕ → Bytes → Type 0
IsFramed term b = (length b ≤ 65536) × ((term ≡ 1) ⊎ ((term ≡ 0) × (length b ≡ 65536)))

check_framing-IsFramed :
    (term len : ℕ) (w : World)
    → len ≤ 65536
    → (term ≡ 1) ⊎ ((term ≡ 0) × (len ≡ 65536))
    → check_framing len term w ≡ (ok tt, w)
unfolding check_framing
check_framing-IsFramed term len w small (inl e) =
    let a : (not (term == 0) && not (term == 1)) ≡ false = ground arith in
    let b : (term == 0 && not (len == 65536)) ≡ false = ground arith in
    let c : ltb 65536 len ≡ false = ground arith in rw (a, b, c) refl
check_framing-IsFramed term len w small (inr (e, full)) =
    let a : (not (term == 0) && not (term == 1)) ≡ false = ground arith in
    let b : (term == 0 && not (len == 65536)) ≡ false = ground arith in
    let c : ltb 65536 len ≡ false = ground arith in rw (a, b, c) refl

module _ (C : Crypto) (A : IsAead C) (session : Session) where
  abbrev on_wire : ℕ → ℕ → Bytes → Bytes
  on_wire counter term b =
      sealed C session.payload_key session.mode session.recip_pub counter term b

  -- A sealed chunk at the head of the input is read and opened.
  pub read_chunk-sealed :
      (signals : Bool) (counter term : ℕ) (b left : Bytes) (w : World)
      → IsFramed term b
      → IsClean signals w.stdin
      → content w.stdin ≡ on_wire counter term b ++ left
      → (rest : Reader) × (read_chunk C session counter w ≡ (ok (term, b), with_stdin rest w))
        × (content rest ≡ left)
        × IsClean signals rest
        × (length left < length (content w.stdin))
  unfolding read_chunk
  read_chunk-sealed signals counter term b left w (small, framed) clean e =
      let len : ℕ = length b in
      let head : Bytes = be32 len ++ (term ∷ []) in
      let (ct, tag, encrypted, ct_size, tag_size, opened) =
        A.seal session.payload_key (build_nonce counter term)
          (build_aad magic_header 1 session.mode session.recip_pub len counter term) b small in
      let at : content w.stdin ≡ head ++ (ct ++ (tag ++ left)) =
        e
        ∙ ap (λ t. t ++ left)
            (sealed_lem C session.payload_key session.mode session.recip_pub counter term b ct tag
                encrypted
              ∙ ap (λ t. t ++ (ct ++ tag)) (chunk_header_lem len term))
        ∙ append_assoc head (ct ++ tag) left
        ∙ ap (λ t. head ++ t) (append_assoc ct tag left) in
      let (r1, read1, left1, clean1) =
        stdin_read_exact-Reads signals 5 head (ct ++ (tag ++ left)) w clean at refl in
      let (r2, read2, left2, clean2) =
        stdin_read_exact-Reads signals len ct (tag ++ left) (with_stdin r1 w) clean1 left1
          ct_size in
      let (r3, read3, left3, clean3) =
        stdin_read_exact-Reads signals 16 tag left (with_stdin r2 w) clean2 left2 tag_size in
      let number : from_be32 (be32 len) ≡ len = from_be32-be32 len (omega arith) in
      (
        r3,
        rw
            (
              read1,
              number,
              check_framing-IsFramed term len (with_stdin r1 w) small framed,
              read2,
              read3,
              opened,
            )
            refl,
        left3,
        clean3,
        rw at (omega (arith, length-append ct (tag ++ left), length-append tag left)),
      )

  -- One round: the chunk that ends the stream, and another one.
  module _ (fuel counter : ℕ) (unverified : Bool) (hashed plain : Bytes) (s t : StreamSpooler)
      (w w2 : World) (rest : Reader)
      (put : deliver C unverified plain s (with_stdin rest w) ≡ (ok t, w2)) where
    pub decrypt_loop-last :
        read_chunk C session counter w ≡ (ok (1, plain), with_stdin rest w)
        → decrypt_loop C (suc fuel) unverified session counter hashed s w
          ≡ (ok (fed session.mode hashed plain, t), w2)
    unfolding decrypt_loop
    decrypt_loop-last got = rw (got, put) refl

    pub decrypt_loop-more :
        read_chunk C session counter w ≡ (ok (0, plain), with_stdin rest w)
        → counter + 1 < 18446744073709551616
        → decrypt_loop C (suc fuel) unverified session counter hashed s w
          ≡ decrypt_loop C fuel unverified session
              (counter + 1)
              (fed session.mode hashed plain)
              t
              w2
    unfolding decrypt_loop
    decrypt_loop-more got few =
        let wrap : (counter + 1) % 18446744073709551616 ≡ counter + 1 = omega arith in
        rw (got, put, wrap) refl

  pub deliver-Holds :
      (plain : Bytes) (s : StreamSpooler) (old : Bytes) (w : World)
      → Holds C s old
      → s.total_bytes ≡ length old
      → exceeds s.max_size (length old + length plain) ≡ false
      → length old + length plain < 18446744073709551616
      → DiskWorks w
      → (t : StreamSpooler) × (deliver C false plain s w ≡ (ok t, w))
        × Holds C t (old ++ plain)
        × (t.total_bytes ≡ length (old ++ plain))
        × (t.max_size ≡ s.max_size)
  unfolding deliver
  deliver-Holds plain s old w h counted below fits works =
      let (t, step, h', counted', max) =
        write_chunk-Holds C A plain s old w h counted below fits works in
      (t, rw step refl, h', counted', max)

  -- What the loop leaves when it has read a stream to its end.
  abbrev pub Spooled :
      Bool
      → Bytes
      → Bytes
      → Bytes
      → Bytes
      → World
      → Result Pipek1Error (Bytes × StreamSpooler) × World
      → Type 0
  Spooled signals hashed old plain left w out =
      (rest : Reader) × (t : StreamSpooler) × (out
        ≡ (ok (fed session.mode hashed plain, t), with_stdin rest w))
      × (content rest ≡ left)
      × IsClean signals rest
      × Holds C t (old ++ plain)

  pub decrypt_loop-Spooled :
      (signals : Bool) (fuel counter : ℕ) (cur : Bytes) (more : List Bytes) (hashed : Bytes)
      (s : StreamSpooler) (old left : Bytes) (w : World)
      → IsSplit 65536 cur more
      → counter + length more < 18446744073709551616
      → Holds C s old
      → s.total_bytes ≡ length old
      → exceeds s.max_size (length old + length (cur ++ concat more)) ≡ false
      → length old + length (cur ++ concat more) < 18446744073709551616
      → DiskWorks w
      → IsClean signals w.stdin
      → content w.stdin
        ≡ wire_from C session.payload_key session.mode session.recip_pub counter cur more ++ left
      → length (content w.stdin) < fuel
      → Spooled signals hashed old
          (cur ++ concat more)
          left
          w
          (decrypt_loop C fuel false session counter hashed s w)
  decrypt_loop-Spooled signals zero counter cur more hashed s old left w split few h counted below
        fits works clean e enough =
      absurd (omega arith)
  decrypt_loop-Spooled signals (suc fuel) counter cur [] hashed s old left w split few h counted
        below fits works clean e enough =
      let (rest, got, left', clean', _) =
        read_chunk-sealed signals counter 1 cur left w (split, inl refl) clean e in
      let all = append-nil cur in
      let works' : DiskWorks (with_stdin rest w) = record {
        opens = works.opens;
        room = works.room;
      } in
      let (t, put, h', _, _) =
        deliver-Holds cur s old (with_stdin rest w) h counted (rw all at below) (rw all at fits)
          works' in
      rw all (
        rest,
        t,
        decrypt_loop-last fuel counter false hashed cur s t w (with_stdin rest w) rest put got,
        left',
        clean',
        h',
      )
  decrypt_loop-Spooled signals (suc fuel) counter cur (next ∷ more) hashed s old left w
        (full, split) few h counted below fits works clean e enough =
      let later : Bytes =
        wire_from C session.payload_key session.mode session.recip_pub (counter + 1) next more in
      let (rest, got, left', clean', less) =
        read_chunk-sealed signals counter 0 cur (later ++ left) w (omega arith, inr (refl, full))
          clean (e ∙ append_assoc (on_wire counter 0 cur) later left) in
      let works' : DiskWorks (with_stdin rest w) = record {
        opens = works.opens;
        room = works.room;
      } in
      let behind : Bytes = next ++ concat more in
      let size = length-append cur behind in
      let (t, put, h', counted', max) =
        deliver-Holds cur s old (with_stdin rest w) h counted
          (exceeds_mono s.max_size (length old + length cur) _ (omega (arith, size)) below)
          (omega (arith, size)) works' in
      let sum : length (old ++ cur) + length behind ≡ length old + length (cur ++ behind) =
        omega (arith, size, length-append old cur) in
      let (rest', t', done, left'', clean'', h'') =
        decrypt_loop-Spooled signals fuel (counter + 1) next more (fed session.mode hashed cur) t
          (old ++ cur) left (with_stdin rest w) split (omega arith) h' counted'
          (rw (max, sum) below) (rw sum fits) works' clean' left' (rw left' (omega arith)) in
      (
        rest',
        t',
        decrypt_loop-more fuel counter false hashed cur s t w (with_stdin rest w) rest put got
              (omega arith)
            ∙ done
            ∙ ap (λ x. (ok (x, t'), with_stdin rest' w)) (fed-fed session.mode hashed cur behind),
        left'',
        clean'',
        rw (append_assoc old cur behind) at h'',
      )
