-- ===== src/Spool.antt =====
-- rust/src/spool.rs: `StreamSpooler`, a buffer in memory of up to 16 MiB that spills to a temporary
-- file in encrypted blocks. Each function takes and returns the spooler; after an error its callers
-- drop it, so the error comes without one. The wiping of memory has no part in the model.
pub mod Image
pub mod State
pub mod Release
pub mod Write
pub mod Traces
pub mod Ends
pub mod Limits
pub mod RoundTrip
use pipek.Prelude.{
  ℕ, zero, suc, ◌+◌, ◌-◌, ◌*◌, ◌%◌, ◌^◌, ◌≤◌, ◌<◌, String, ◌<>◌, Bool, true, false, ◌&&◌, ◌||◌, not,
  Option, none, some, List, [], ◌∷◌, ◌++◌, ltb, leb, ◌==◌, is_some, is_empty, if◌then◌else◌, length,
  take, drop, replicate, Result, ok, err, stuck, map_err, Exec, pure, fail, lift, ensure_not, ◌>>=◌,
  ◌>>◌, map_err_of, starts_with,
}
use pipek.Prelude.Bytes.{Bytes, be32, be64, from_be32, copy_range}
use pipek.Prelude.Chunks.{chunks}
use pipek.Prelude.Text.{decimal, env_lookup}
use pipek.Error.{IoError, other, invalid_data, unexpected_eof}
use pipek.Io.{Sink, write_all, eof_error}
use pipek.World.{World, Io, fill_bytes, stdout_write}
use pipek.World.Files.{create_file, remove_file}
use pipek.Crypto.{Crypto}

abbrev pub memory_spool_limit : ℕ
memory_spool_limit = 16777216

abbrev pub spool_chunk_size : ℕ
spool_chunk_size = 65536

abbrev pub spool_tag_size : ℕ
spool_tag_size = 16

abbrev pub u64_mod : ℕ
u64_mod = 18446744073709551616

-- An open file: what was written to it, and the position of the next read.
pub record File : Type 0 where
  pub sink : Sink
  pub position : ℕ

pub record StreamSpooler : Type 0 where
  pub mem_buffer : Bytes
  pub disk_file : Option File
  pub spool_key : Bytes
  pub block_counter : ℕ
  pub total_bytes : ℕ
  pub max_size : Option ℕ

unfoldable pub new : {E : Type 0} → Option ℕ → Io E StreamSpooler
new max_size = do
  spool_key ← fill_bytes 32
  pure (record {
    mem_buffer = [];
    disk_file = none;
    spool_key = spool_key;
    block_counter = 0;
    total_bytes = 0;
    max_size = max_size;
  })

abbrev pub tmp_dir : World → String
tmp_dir w = elim (env_lookup "TMPDIR" w.environ) [ none ↦ "/tmp" | some dir ↦ dir ]

abbrev pub empty_file : World → File
empty_file w = record {
  sink = record { bytes = []; room = w.disk_room; fault = w.disk_fault };
  position = 0;
}

-- `OsRng.next_u64`, in the order in which the generator gives its bytes
abbrev from_le : Bytes → ℕ
from_le [] = 0
from_le (b ∷ bs) = b + 256 * from_le bs

-- `let _ = …`
abbrev pub ignore : {E A : Type 0} → Io E A → Io E (Unit {0})
ignore m w = (ok tt, (m w).1)

-- The file made by name and unlinked at once, where there is no `O_TMPFILE`. A file that cannot be
-- unlinked stays.
unfoldable pub named_tmpfile : String → Io IoError File
named_tmpfile dir w =
    (do
      random ← fill_bytes 8
      let path = dir <> ("/.pipe-k1_spool_" <> (decimal w.pid <> ("_" <> decimal (from_le random))))
      create_file path
      ignore (remove_file path)
      λ w. (ok (empty_file w), w))
      w

unfoldable pub open_anonymous_tmpfile : Io IoError File
unfolding named_tmpfile
open_anonymous_tmpfile w =
    if w.o_tmpfile (tmp_dir w) then (ok (empty_file w), w) else named_tmpfile (tmp_dir w) w

unfoldable pub build_spool_nonce : ℕ → Bytes
build_spool_nonce block_counter = copy_range 0 8 (be64 block_counter) (replicate 12 0)

unfoldable pub build_spool_aad : ℕ → ℕ → Bytes
build_spool_aad block_counter len =
    copy_range 8 12 (be32 len) (copy_range 0 8 (be64 block_counter) (replicate 12 0))

abbrev pub wrote : File → Result IoError (Unit {0}) × Sink → Result IoError File
wrote f (ok _, s) = ok (record f { sink = s })
wrote f (err e, s) = err e
wrote f (stuck, s) = stuck

unfoldable pub file_write : Bytes → File → Result IoError File
file_write bs f = wrote f (write_all bs f.sink)

-- `read_exact` at the position of the file
unfoldable pub file_read : ℕ → File → Result IoError (Bytes × File)
file_read n f =
    let rest = drop f.position f.sink.bytes in
    if leb n (length rest)
    then ok (take n rest, record f { position = f.position + n })
    else err eof_error

abbrev pub spool_error : String → IoError
spool_error message = record { kind = other; message = message }

abbrev pub framing_error : IoError
framing_error = record { kind = invalid_data; message = "Invalid spool block framing header" }

abbrev pub tampering_error : IoError
tampering_error = record { kind = invalid_data; message = "Spool disk tampering detected" }

abbrev pub exceeds : Option ℕ → ℕ → Bool
exceeds none total = false
exceeds (some max) total = ltb max total

abbrev pub limit_error : Option ℕ → String
limit_error none = ""
limit_error (some max) =
    "Stream exceeded maximum allowed size ceiling (" <> (decimal max <> " bytes)")

module _ (C : Crypto) where
  open C use {encrypt, decrypt}

  -- The file of the spooler, which is opened when there is none.
  abbrev pub open_file : Option File → Io IoError File
  open_file (some f) = pure f
  open_file none = open_anonymous_tmpfile

  unfoldable pub flush_single_block_to_disk : Bytes → StreamSpooler → Io IoError StreamSpooler
  flush_single_block_to_disk block s = do
    file ← open_file s.disk_file
    let nonce = build_spool_nonce s.block_counter
    let aad = build_spool_aad s.block_counter (length block)
    (ct, tag) ← lift (
        map_err (λ e. spool_error ("Spool encrypt error: " <> e))
          (encrypt s.spool_key nonce aad block))
    file ← lift (file_write (be32 (length block)) file)
    file ← lift (file_write ct file)
    file ← lift (file_write tag file)
    pure (record s { disk_file = some file; block_counter = (s.block_counter + 1) % u64_mod })

  -- `for block in …chunks(SPOOL_CHUNK_SIZE)`
  unfoldable pub flush_blocks : List Bytes → StreamSpooler → Io IoError StreamSpooler
  flush_blocks [] s = pure s
  flush_blocks (block ∷ blocks) s = do s ← flush_single_block_to_disk block s; flush_blocks blocks s

  -- The branch of `write_chunk` that writes to disk.
  unfoldable pub spill : Bytes → StreamSpooler → Io String StreamSpooler
  spill bytes s = do
    s ←
        (if is_empty s.mem_buffer
          then pure s
          else map_err_of (λ e. "Spool spill error: " <> e.message)
              (flush_blocks (chunks spool_chunk_size s.mem_buffer) (record s { mem_buffer = [] })))
    map_err_of (λ e. "Spool disk write error: " <> e.message)
        (flush_blocks (chunks spool_chunk_size bytes) s)

  unfoldable pub write_chunk : Bytes → StreamSpooler → Io String StreamSpooler
  write_chunk bytes old = do
    let s = record old { total_bytes = (old.total_bytes + length bytes) % u64_mod }
    ensure_not (exceeds s.max_size s.total_bytes) (limit_error s.max_size)
    (if not (is_some s.disk_file) && leb (length s.mem_buffer + length bytes) memory_spool_limit
        then pure (record s { mem_buffer = s.mem_buffer ++ bytes })
        else spill bytes s)

  -- `left` blocks from block `idx` on.
  unfoldable pub release_blocks : ℕ → ℕ → Bytes → File → Io IoError (Unit {0})
  release_blocks zero idx key file = pure tt
  release_blocks (suc left) idx key file = do
    (len_bytes, file) ← lift (file_read 4 file)
    let len = from_be32 len_bytes
    ensure_not (ltb spool_chunk_size len || len == 0) framing_error
    (ct, file) ← lift (file_read len file)
    (tag, file) ← lift (file_read spool_tag_size file)
    let nonce = build_spool_nonce idx
    let aad = build_spool_aad idx len
    plain ← lift (map_err (λ _. tampering_error) (decrypt key nonce aad ct tag))
    stdout_write plain
    release_blocks left (idx + 1) key file

  -- `file.seek(SeekFrom::Start(0))`, and the blocks; or the buffer. `flush` follows both.
  abbrev release_from : Option File → StreamSpooler → Io IoError (Unit {0})
  release_from none s = stdout_write s.mem_buffer
  release_from (some file) s =
      release_blocks s.block_counter 0 s.spool_key (record file { position = 0 })

  unfoldable pub release_to : StreamSpooler → Io IoError (Unit {0})
  release_to s = release_from s.disk_file s
