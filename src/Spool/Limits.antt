-- ===== src/Spool/Limits.antt =====
-- The bounds that a spooler keeps, whatever the disk does.
use pipek.Prelude.{
  ℕ, ◌+◌, ◌%◌, ◌<◌, ◌≤◌, ◌≡◌, refl, ◌∙◌, ap, true, false, not, ◌&&◌, some, List, [], ◌∷◌, ◌++◌,
  String, ◌<>◌, ok, err, arith, length, length-append, leb, inl, inr, Bool-cases, is_some, is_empty,
  >>=-eq-ok, ok-injective, map_err_of-eq-ok, List-cases, map_err_of,
}
use pipek.Prelude.Bytes.{Bytes}
use pipek.Prelude.Chunks.{chunks}
use pipek.Error.{IoError}
use pipek.Crypto.{Crypto}
use pipek.World.{World}
use pipek.Spool.{
  StreamSpooler, flush_single_block_to_disk, flush_blocks, spill, write_chunk, exceeds, limit_error,
  u64_mod,
}

module _ (C : Crypto) where
  -- A write that would pass the ceiling, with a count of bytes that stays below 2^64, is refused
  -- before anything is stored or written.
  pub write_chunk_too_large :
      (bytes : Bytes) (s : StreamSpooler) (max : ℕ) (w : World)
      → s.max_size ≡ some max
      → s.total_bytes + length bytes < u64_mod
      → max < s.total_bytes + length bytes
      → write_chunk C bytes s w ≡ (err (limit_error (some max)), w)
  unfolding write_chunk
  write_chunk_too_large bytes s max w e fits over =
      let over' : exceeds s.max_size ((s.total_bytes + length bytes) % u64_mod) ≡ true =
        rw e (ground arith) in
      rw over' (ap (λ o. (err (limit_error o), w)) e)

  -- What a flush leaves as it was.
  abbrev Kept : StreamSpooler → StreamSpooler → Type 0
  Kept s t =
      (t.mem_buffer ≡ s.mem_buffer) × (t.total_bytes ≡ s.total_bytes) × (t.max_size ≡ s.max_size)

  flush_block-Kept :
      (b : Bytes) (s t : StreamSpooler) (w u : World)
      → flush_single_block_to_disk C b s w ≡ (ok t, u)
      → Kept s t
  unfolding flush_single_block_to_disk
  flush_block-Kept b s t w u h = ground arith

  flush_blocks-Kept :
      (cs : List Bytes) (s t : StreamSpooler) (w u : World)
      → flush_blocks C cs s w ≡ (ok t, u)
      → Kept s t
  unfolding flush_blocks
  flush_blocks-Kept [] s t w u h = ground arith
  flush_blocks-Kept (b ∷ cs) s t w u h =
      let (s1, w1, first, rest) =
        >>=-eq-ok (flush_single_block_to_disk C b s) (flush_blocks C cs) w h in
      let (m1, t1, x1) = flush_block-Kept b s s1 w w1 first in
      let (m2, t2, x2) = flush_blocks-Kept cs s1 t w1 u rest in (m2 ∙ m1, t2 ∙ t1, x2 ∙ x1)

  mapped-Kept :
      (f : IoError → String) (cs : List Bytes) (s t : StreamSpooler) (w u : World)
      → map_err_of f (flush_blocks C cs s) w ≡ (ok t, u)
      → Kept s t
  mapped-Kept f cs s t w u h =
      flush_blocks-Kept cs s t w u (map_err_of-eq-ok f (flush_blocks C cs s) w h)

  spill_emptied :
      (bytes : Bytes) (s t : StreamSpooler) (w u : World)
      → spill C bytes s w ≡ (ok t, u)
      → (t.mem_buffer ≡ []) × (t.total_bytes ≡ s.total_bytes) × (t.max_size ≡ s.max_size)
  unfolding spill
  spill_emptied bytes s t w u h = elim (List-cases s.mem_buffer) [
    | inl m ↦
        let e : is_empty s.mem_buffer ≡ true = ap is_empty m in
        let (m1, t1, x1) =
          mapped-Kept (λ e. "Spool disk write error: " <> e.message) (chunks 65536 bytes) s t w u
            (rw e at h) in
        (m1 ∙ m, t1, x1)
    | inr full ↦
        let s0 : StreamSpooler = record s { mem_buffer = [] } in
        let (s1, w1, first, rest) =
          >>=-eq-ok
            (map_err_of (λ e. "Spool spill error: " <> e.message)
              (flush_blocks C (chunks 65536 s.mem_buffer) s0))
            (λ s.
              map_err_of (λ e. "Spool disk write error: " <> e.message)
                (flush_blocks C (chunks 65536 bytes) s))
            w (rw full at h) in
        let (m1, t1, x1) =
          mapped-Kept (λ e. "Spool spill error: " <> e.message) (chunks 65536 s.mem_buffer) s0 s1 w
            w1 first in
        let (m2, t2, x2) =
          mapped-Kept (λ e. "Spool disk write error: " <> e.message) (chunks 65536 bytes) s1 t w1 u
            rest in
        (m2 ∙ m1, t2 ∙ t1, x2 ∙ x1)
  ]

  -- Whenever a write succeeds, the buffer in memory has 16 MiB at most, the count of bytes has
  -- grown by those of the chunk, modulo 2^64, and it is not above the ceiling, if there is one.
  pub write_chunk_bounds :
      (bytes : Bytes) (s t : StreamSpooler) (w u : World)
      → write_chunk C bytes s w ≡ (ok t, u)
      → (length t.mem_buffer ≤ 16777216)
        × (t.total_bytes ≡ (s.total_bytes + length bytes) % u64_mod)
        × (t.max_size ≡ s.max_size)
        × (exceeds t.max_size t.total_bytes ≡ false)
  unfolding write_chunk
  write_chunk_bounds bytes s t w u h =
      let n : ℕ = (s.total_bytes + length bytes) % u64_mod in
      let s0 : StreamSpooler = record s { total_bytes = n } in
      elim (Bool-cases (exceeds s.max_size n)) [
        | inl over ↦ absurd (cc (rw over at h))
        | inr below ↦
            elim (Bool-cases
              (not (is_some s.disk_file) && leb (length s.mem_buffer + length bytes) 16777216)) [
                | inl fast ↦
                    let e : record s0 { mem_buffer = s.mem_buffer ++ bytes } ≡ t =
                      ok-injective (rw (below, fast) at h) in
                    rw (← e)
                      (rw (length-append s.mem_buffer bytes) (ground arith), refl, refl, below)
                | inr slow ↦
                    let (m1, t1, x1) = spill_emptied bytes s0 t w u (rw (below, slow) at h) in
                    (rw m1 (omega arith), t1, x1, rw (t1, x1) below)
              ]
      ]
