-- ===== src/Spool/Write.antt =====
-- Writing a chunk adds it to what a spooler holds.
use pipek.Prelude.{
  ℕ, ◌+◌, ◌%◌, ◌<◌, ◌≤◌, ◌≡◌, refl, ◌∙◌, ap, sym, true, false, not, ◌&&◌, Option, none, some, List,
  [], ◌∷◌, ◌++◌, String, Result, ok, arith, length, append_assoc, append-nil, length-append, leb,
  inl, inr, List-cases, is_empty, is_some, Bool-cases, subst,
}
use pipek.Prelude.Bytes.{Bytes, be32}
use pipek.Prelude.Chunks.{
  concat, AllBlocks, chunks, concat-chunks, chunks-AllBlocks, concat-append, AllBlocks-append,
  length-le-length-concat,
}
use pipek.Io.{write_all-unbounded}
use pipek.Crypto.{Crypto, IsAead}
use pipek.World.{World}
use pipek.Spool.{
  File, StreamSpooler, build_spool_nonce, build_spool_aad, wrote, file_write, open_file,
  open_anonymous_tmpfile, flush_single_block_to_disk, flush_blocks, spill, write_chunk, exceeds,
  empty_file, u64_mod,
}
use pipek.Spool.Image.{frame, frame_lem, image, image-append}
use pipek.Spool.State.{
  Stored, Holds, DiskWorks, View, Holds-View, View-Holds, Holds-total, Holds-buffer,
}

file_write_lem :
    (bs : Bytes) (f : File)
    → f.sink.room ≡ none
    → file_write bs f ≡ ok (record f { sink = record f.sink { bytes = f.sink.bytes ++ bs } })
unfolding file_write
file_write_lem bs f h = ap (wrote f) (write_all-unbounded bs f.sink h)

module _ (C : Crypto) (A : IsAead C) where
  open_file-Stored :
      (key : Bytes) (o : Option File) (blocks : List Bytes) (w : World)
      → Stored C key o blocks
      → DiskWorks w
      → (f : File) × (open_file C o w ≡ (ok f, w)) × Stored C key (some f) blocks
  unfolding open_anonymous_tmpfile
  open_file-Stored key none blocks w e d = (empty_file w, rw d.opens, (d.room, rw e))
  open_file-Stored key (some f) blocks w e d = (f, refl, e)

  -- A block of 1 to 65536 bytes goes to the end of the file.
  flush_block-Stored :
      (b : Bytes) (s : StreamSpooler) (blocks : List Bytes) (w : World)
      → length b ≤ 65536
      → Stored C s.spool_key s.disk_file blocks
      → s.block_counter ≡ length blocks
      → length blocks + 1 < u64_mod
      → DiskWorks w
      → (f : File) × (flush_single_block_to_disk C b s w
          ≡ (ok (record s { disk_file = some f; block_counter = length blocks + 1 }), w))
        × Stored C s.spool_key (some f) (blocks ++ (b ∷ []))
  unfolding flush_single_block_to_disk
  flush_block-Stored b s blocks w small stored counted fits works =
      let (f, opened, (room, bytes)) =
        open_file-Stored s.spool_key s.disk_file blocks w stored works in
      let n : ℕ = length blocks in
      let (ct, tag, sealed, ct_size, tag_size, _) =
        A.seal s.spool_key (build_spool_nonce n) (build_spool_aad n (length b)) b small in
      let sealed' : C.encrypt s.spool_key (build_spool_nonce s.block_counter)
            (build_spool_aad s.block_counter (length b)) b
          ≡ ok (ct, tag) =
        rw counted sealed in
      let put : Bytes → File → File =
        λ bs f. record f { sink = record f.sink { bytes = f.sink.bytes ++ bs } } in
      let f1 : File = put (be32 (length b)) f in
      let f2 : File = put ct f1 in
      let f3 : File = put tag f2 in
      let wrap : (s.block_counter + 1) % u64_mod ≡ n + 1 = omega arith in
      (
        f3,
        rw (
          opened,
          sealed',
          file_write_lem (be32 (length b)) f room,
          file_write_lem ct f1 room,
          file_write_lem tag f2 room,
          wrap,
        ),
        (room, end f.sink.bytes ct tag bytes (frame_lem C s.spool_key n b ct tag sealed)),
      )
    where
      end :
          (old ct tag : Bytes)
          → old ≡ image C s.spool_key 0 blocks
          → frame C s.spool_key (length blocks) b ≡ be32 (length b) ++ (ct ++ tag)
          → ((old ++ be32 (length b)) ++ ct) ++ tag ≡ image C s.spool_key 0 (blocks ++ (b ∷ []))
      end old ct tag e framed =
          let z : 0 + length blocks ≡ length blocks = omega arith in
          rw (image-append C s.spool_key 0 blocks (b ∷ []), z, framed, e)
            (simp (append_assoc, append-nil))

  -- So do all blocks of a list, in order. Only the file and the counter change.
  flush_blocks-Stored :
      (cs : List Bytes) (s : StreamSpooler) (blocks : List Bytes) (w : World)
      → AllBlocks 65536 cs
      → Stored C s.spool_key s.disk_file blocks
      → s.block_counter ≡ length blocks
      → length blocks + length cs < u64_mod
      → DiskWorks w
      → (o : Option File) × (flush_blocks C cs s w
          ≡ (ok (record s { disk_file = o; block_counter = length (blocks ++ cs) }), w))
        × Stored C s.spool_key o (blocks ++ cs)
  unfolding flush_blocks
  flush_blocks-Stored [] s blocks w all stored counted fits works = (
    s.disk_file,
    ap (λ n. (ok (record s { block_counter = n }), w))
        (counted ∙ ap length (sym (append-nil blocks))),
    rw append-nil stored,
  )
  flush_blocks-Stored (b ∷ cs) s blocks w (pos, small, all) stored counted fits works =
      let (f, step, stored') =
        flush_block-Stored b s blocks w small stored counted (omega arith) works in
      let s' : StreamSpooler = record s { disk_file = some f; block_counter = length blocks + 1 } in
      let size = length-append blocks (b ∷ []) in
      let (o, rest, stored'') =
        flush_blocks-Stored cs s' (blocks ++ (b ∷ [])) w all stored' (sym size)
          (omega (arith, size)) works in
      (
        o,
        rw step (rw rest (rw (append_assoc blocks (b ∷ []) cs))),
        rw (append_assoc blocks (b ∷ []) cs) at stored'',
      )

  -- Flushing the blocks of `bytes` adds them to what a spooler with an empty buffer shows.
  flush_chunks-View :
      (bytes : Bytes) (s : StreamSpooler) (bs : Bytes) (w : World)
      → s.mem_buffer ≡ []
      → View C s bs
      → length bs + length bytes < u64_mod
      → DiskWorks w
      → (s' : StreamSpooler) × (flush_blocks C (chunks 65536 bytes) s w ≡ (ok s', w))
        × (s'.mem_buffer ≡ [])
        × View C s' (bs ++ bytes)
        × (s'.total_bytes ≡ s.total_bytes)
        × (s'.max_size ≡ s.max_size)
  flush_chunks-View bytes s bs w m v fits works =
      let cs : List Bytes = chunks 65536 bytes in
      let all = chunks-AllBlocks 65536 bytes (omega arith) in
      let same : concat cs ≡ bytes = concat-chunks 65536 bytes (omega arith) in
      let old : concat v.blocks ≡ bs =
        sym (append-nil (concat v.blocks)) ∙ ap (λ t. concat v.blocks ++ t) (sym m) ∙ v.whole in
      let few : length v.blocks + length cs < u64_mod = omega (
        arith,
        length-le-length-concat 65536 v.blocks v.all,
        length-le-length-concat 65536 cs all,
        ap length old,
        ap length same,
      ) in
      let (o, step, stored) =
        flush_blocks-Stored cs s v.blocks w all v.stored v.counter few works in
      (
        record s { disk_file = o; block_counter = length (v.blocks ++ cs) },
        step,
        m,
        record {
          blocks = v.blocks ++ cs;
          stored = stored;
          counter = refl;
          all = AllBlocks-append 65536 v.blocks cs v.all all;
          whole =
              rw m (append-nil (concat (v.blocks ++ cs)))
              ∙ concat-append v.blocks cs
              ∙ ap (λ t. concat v.blocks ++ t) same
              ∙ ap (λ t. t ++ bytes) old;
        },
        refl,
        refl,
      )

  -- What a write has done when it has succeeded.
  abbrev pub Grown : StreamSpooler → Bytes → World → Result String StreamSpooler × World → Type 0
  Grown s bs w out =
      (s' : StreamSpooler) × (out ≡ (ok s', w))
      × Holds C s' bs
      × (s'.total_bytes ≡ s.total_bytes)
      × (s'.max_size ≡ s.max_size)

  spill-Grown :
      (bytes : Bytes) (s : StreamSpooler) (bs : Bytes) (w : World)
      → Holds C s bs
      → length bs + length bytes < u64_mod
      → DiskWorks w
      → Grown s (bs ++ bytes) w (spill C bytes s w)
  unfolding spill
  spill-Grown bytes s bs w h fits works =
      let v = Holds-View C s bs h in
      elim (List-cases s.mem_buffer) [
        | inl m ↦
            let (s', step, m', v', t, x) = flush_chunks-View bytes s bs w m v fits works in
            let e : is_empty s.mem_buffer ≡ true = ap is_empty m in
            (s', rw (e, step), View-Holds C s' (bs ++ bytes) m' v', t, x)
        | inr full ↦
            let s0 : StreamSpooler = record s { mem_buffer = [] } in
            let front : Bytes = concat v.blocks in
            let v0 : View C s0 front = record {
              blocks = v.blocks;
              stored = v.stored;
              counter = v.counter;
              all = v.all;
              whole = append-nil front;
            } in
            let few : length front + length s.mem_buffer < u64_mod =
              omega (arith, length-append front s.mem_buffer, ap length v.whole) in
            let (s1, step1, m1, v1, t1, x1) =
              flush_chunks-View s.mem_buffer s0 front w refl v0 few works in
            let v1' : View C s1 bs = subst (View C s1) v.whole v1 in
            let (s', step, m', v', t, x) = flush_chunks-View bytes s1 bs w m1 v1' fits works in
            (s', rw (full, step1, step), View-Holds C s' (bs ++ bytes) m' v', t ∙ t1, x ∙ x1)
      ]

  -- Below the size ceiling and 2^64 bytes, and with a working disk, a write succeeds, leaves the
  -- world as it was, and the spooler holds the old bytes followed by the new ones.
  pub write_chunk-Holds :
      (bytes : Bytes) (s : StreamSpooler) (bs : Bytes) (w : World)
      → Holds C s bs
      → s.total_bytes ≡ length bs
      → exceeds s.max_size (length bs + length bytes) ≡ false
      → length bs + length bytes < u64_mod
      → DiskWorks w
      → (s' : StreamSpooler) × (write_chunk C bytes s w ≡ (ok s', w))
        × Holds C s' (bs ++ bytes)
        × (s'.total_bytes ≡ length (bs ++ bytes))
        × (s'.max_size ≡ s.max_size)
  unfolding write_chunk
  write_chunk-Holds bytes s bs w h counted below fits works =
      let total : (s.total_bytes + length bytes) % u64_mod ≡ length bs + length bytes =
        omega arith in
      let room : exceeds s.max_size ((s.total_bytes + length bytes) % u64_mod) ≡ false =
        rw total below in
      let s0 : StreamSpooler = record s {
        total_bytes = (s.total_bytes + length bytes) % u64_mod;
      } in
      let size : length (bs ++ bytes) ≡ length bs + length bytes = length-append bs bytes in
      let on_disk : Grown s0 (bs ++ bytes) w (spill C bytes s0 w) =
        spill-Grown bytes s0 bs w (Holds-total C s _ bs h) fits works in
      elim (Bool-cases
        (not (is_some s.disk_file) && leb (length s.mem_buffer + length bytes) 16777216)) [
          | inl fast ↦ (
            record s0 { mem_buffer = s.mem_buffer ++ bytes },
            rw (room, fast),
            Holds-buffer C s bs bytes _ h (ground arith),
            total ∙ sym size,
            refl,
          )
          | inr slow ↦
              let (s', step, h', t, x) = on_disk in
              (s', rw (room, slow) step, h', t ∙ total ∙ sym size, x)
        ]
