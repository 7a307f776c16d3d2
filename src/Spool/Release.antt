-- ===== src/Spool/Release.antt =====
-- Releasing a spooler writes the bytes that it holds to standard output.
use pipek.Prelude.{
  ℕ, suc, ◌+◌, ◌<◌, ◌≤◌, ◌≡◌, refl, ◌∙◌, ap, sym, false, ◌||◌, none, List, [], ◌∷◌, ◌++◌, ok, arith,
  length, drop, append_assoc, ltb, ◌==◌, inl, inr,
}
use pipek.Prelude.Bytes.{Bytes, be32, from_be32, from_be32-be32}
use pipek.Prelude.Chunks.{concat, AllBlocks}
use pipek.Crypto.{Crypto, IsAead}
use pipek.World.{World}
use pipek.World.Laws.{emit, emit-emit, emit-nil, stdout_write-emit}
use pipek.Spool.{
  File, StreamSpooler, build_spool_nonce, build_spool_aad, release_blocks, release_to,
}
use pipek.Spool.State.{Holds}
use pipek.Spool.Image.{file_read_lem, frame, frame_lem, image}

module _ (C : Crypto) (A : IsAead C) (key : Bytes) where
  -- One block that stands at the position of the file.
  release_block :
      (left i : ℕ) (b : Bytes) (rest : Bytes) (f : File) (w : World)
      → 0 < length b
      → length b ≤ 65536
      → drop f.position f.sink.bytes ≡ frame C key i b ++ rest
      → w.stdout.room ≡ none
      → (p : ℕ) × (release_blocks C (suc left) i key f w
          ≡ release_blocks C left (i + 1) key (record f { position = p }) (emit b w))
        × (drop p f.sink.bytes ≡ rest)
  unfolding release_blocks
  release_block left i b rest f w pos small e room =
      let len : ℕ = length b in
      let (ct, tag, sealed, ct_size, tag_size, opened) =
        A.seal key (build_spool_nonce i) (build_spool_aad i len) b small in
      let at : drop f.position f.sink.bytes ≡ be32 len ++ (ct ++ (tag ++ rest)) =
        e
        ∙ ap (λ t. t ++ rest) (frame_lem C key i b ct tag sealed)
        ∙ append_assoc (be32 len) (ct ++ tag) rest
        ∙ ap (λ t. be32 len ++ t) (append_assoc ct tag rest) in
      let (read1, at1) = file_read_lem 4 (be32 len) (ct ++ (tag ++ rest)) f at refl in
      let f1 : File = record f { position = f.position + 4 } in
      let (read2, at2) = file_read_lem len ct (tag ++ rest) f1 at1 ct_size in
      let f2 : File = record f { position = f.position + 4 + len } in
      let (read3, at3) = file_read_lem 16 tag rest f2 at2 tag_size in
      let number : from_be32 (be32 len) ≡ len = from_be32-be32 len (omega arith) in
      let framed : (ltb 65536 len || len == 0) ≡ false = ground arith in
      (
        f.position + 4 + len + 16,
        rw (read1, number, framed, read2, read3, opened, stdout_write-emit b w room),
        at3,
      )

  pub release_blocks-emit :
      (blocks : List Bytes) (i : ℕ) (f : File) (w : World)
      → AllBlocks 65536 blocks
      → drop f.position f.sink.bytes ≡ image C key i blocks
      → w.stdout.room ≡ none
      → release_blocks C (length blocks) i key f w ≡ (ok tt, emit (concat blocks) w)
  release_blocks-emit [] i f w all e room =
      unfold release_blocks in ap (λ t. (ok tt, t)) (sym (emit-nil w))
  release_blocks-emit (b ∷ blocks) i f w (pos, small, all) e room =
      let (p, step, at) =
        release_block (length blocks) i b (image C key (i + 1) blocks) f w pos small e room in
      step
      ∙ release_blocks-emit blocks (i + 1) (record f { position = p }) (emit b w) all at room
      ∙ ap (λ t. (ok tt, t)) (emit-emit b (concat blocks) w)

module _ (C : Crypto) (A : IsAead C) where
  -- A spooler writes what it holds, from memory or block by block from disk.
  pub release_to-emit :
      (s : StreamSpooler) (bs : Bytes) (w : World)
      → Holds C s bs
      → w.stdout.room ≡ none
      → release_to C s w ≡ (ok tt, emit bs w)
  unfolding release_to
  release_to-emit s bs w (inl m) room = rw (m.closed, m.buffer) (stdout_write-emit bs w room)
  release_to-emit s bs w (inr d) room =
      rw (d.opened, d.counter, ← d.whole)
        (release_blocks-emit C A s.spool_key d.blocks 0 (record d.file { position = 0 }) w d.all
          d.stored.1 room)
