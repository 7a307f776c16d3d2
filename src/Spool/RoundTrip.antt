-- ===== src/Spool/RoundTrip.antt =====
-- A run of writes, and what a release gives after it.
use pipek.Prelude.{
  ℕ, ◌+◌, ◌<◌, ◌≤◌, ◌≡◌, refl, false, Option, none, some, List, [], ◌∷◌, ◌++◌, String, ok, arith,
  length, length-append, append_assoc, append-nil, pure, ◌>>=◌, map_err_of, inl,
}
use pipek.Prelude.Bytes.{Bytes}
use pipek.Prelude.Chunks.{concat}
use pipek.Crypto.{Crypto, IsAead}
use pipek.World.{World, Io, fill_bytes, random_bytes}
use pipek.World.Laws.{emit}
use pipek.Spool.{StreamSpooler, new, write_chunk, release_to, exceeds, u64_mod}
use pipek.Spool.State.{Holds, DiskWorks}
use pipek.Spool.Write.{write_chunk-Holds}
use pipek.Spool.Release.{release_to-emit}

-- Writing one chunk after the other, up to the first error.
unfoldable pub write_chunks : (C : Crypto) → List Bytes → StreamSpooler → Io String StreamSpooler
write_chunks C [] s = pure s
write_chunks C (b ∷ bs) s = do s ← write_chunk C b s; write_chunks C bs s

-- A ceiling for a total is one for every smaller total.
pub exceeds_mono :
    (max : Option ℕ) (n m : ℕ) → n ≤ m → exceeds max m ≡ false → exceeds max n ≡ false
exceeds_mono none n m h e = refl
exceeds_mono (some max) n m h e = ground arith

module _ (C : Crypto) (A : IsAead C) where
  write_chunks-Holds :
      (bs : List Bytes) (s : StreamSpooler) (old : Bytes) (w : World)
      → Holds C s old
      → s.total_bytes ≡ length old
      → exceeds s.max_size (length old + length (concat bs)) ≡ false
      → length old + length (concat bs) < u64_mod
      → DiskWorks w
      → (t : StreamSpooler) × (write_chunks C bs s w ≡ (ok t, w)) × Holds C t (old ++ concat bs)
  unfolding write_chunks
  write_chunks-Holds [] s old w h counted below fits works = (s, refl, rw (append-nil old) h)
  write_chunks-Holds (b ∷ bs) s old w h counted below fits works =
      let all = length-append b (concat bs) in
      let less : length old + length b ≤ length old + length (b ++ concat bs) =
        omega (arith, all) in
      let (s1, step, h1, counted1, max1) =
        write_chunk-Holds C A b s old w h counted
          (exceeds_mono s.max_size (length old + length b) _ less below) (omega (arith, all))
          works in
      let size : length (old ++ b) + length (concat bs) ≡ length old + length (b ++ concat bs) =
        omega (arith, all, length-append old b) in
      let (t, rest, h2) =
        write_chunks-Holds bs s1 (old ++ b) w h1 counted1 (rw (max1, size) below) (rw size fits)
          works in
      (t, rw (step, rest), rw (append_assoc old b (concat bs)) at h2)

  -- A new spooler that is given chunks, together within the ceiling and below 2^64 bytes, takes them
  -- all, in memory or on a working disk, and its release to an output without a bound writes exactly
  -- their bytes in order.
  pub release-write_chunks :
      (max : Option ℕ) (bs : List Bytes) (w : World)
      → exceeds max (length (concat bs)) ≡ false
      → length (concat bs) < u64_mod
      → DiskWorks w
      → w.stdout.room ≡ none
      → (do s ← new max; t ← write_chunks C bs s; map_err_of (λ e. e.message) (release_to C t)) w
        ≡ (ok tt, emit (concat bs) (record w { drawn = w.drawn + 32 }))
  unfolding new fill_bytes
  release-write_chunks max bs w below fits works room =
      let w0 : World = record w { drawn = w.drawn + 32 } in
      let s : StreamSpooler = record {
        mem_buffer = [];
        disk_file = none;
        spool_key = random_bytes 32 w.drawn w.rng;
        block_counter = 0;
        total_bytes = 0;
        max_size = max;
      } in
      let fresh : Holds C s [] = inl (record { closed = refl; buffer = refl; counter = refl }) in
      let zero_add : 0 + length (concat bs) ≡ length (concat bs) = omega arith in
      let works0 : DiskWorks w0 = record { opens = works.opens; room = works.room } in
      let (t, wrote, holds) =
        write_chunks-Holds bs s [] w0 fresh refl (rw zero_add below) (rw zero_add fits) works0 in
      rw (wrote, release_to-emit C A t (concat bs) w0 holds room)
