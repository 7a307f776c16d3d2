-- ===== src/Spool/Ends.antt =====
-- A write to the spooler returns, whatever the disk does.
use pipek.Prelude.{
  ◌+◌, ◌<>◌, String, ◌&&◌, not, Option, none, some, List, [], ◌∷◌, Result, ok, err, stuck, IsDone,
  Bool-cases, inl, inr, Option-cases, arith, lift, map_err, is_empty, is_some, leb, length,
}
use pipek.Prelude.Bytes.{Bytes, be32}
use pipek.Prelude.Chunks.{chunks}
use pipek.Error.{IoError}
use pipek.Io.{Sink, write_all}
use pipek.World.{fill_bytes}
use pipek.World.Files.{create_file, remove_file}
use pipek.Prelude.Text.{decimal}
use pipek.World.Ends.{
  IsCalm, Takes-at, Takes-of, IsCalm-bind, IsCalm-lift, IsCalm-if, IsCalm-pure, IsCalm-test,
  Takes-mapped,
}
use pipek.World.Ends.Streams.{fill_bytes-IsCalm, write_all-IsDone}
use pipek.Crypto.{Crypto, IsTotal}
use pipek.Spool.{
  File, StreamSpooler, open_anonymous_tmpfile, named_tmpfile, open_file, flush_single_block_to_disk,
  flush_blocks, spill, write_chunk, file_write, wrote, tmp_dir, empty_file, ignore, from_le,
}

pub map_err-IsDone : {E F A : Type 0} (f : E → F) (r : Result E A) → IsDone r → IsDone (map_err f r)
map_err-IsDone f (ok a) h = h
map_err-IsDone f (err e) h = h
map_err-IsDone f stuck h = h

wrote-IsDone : (f : File) (a : Result IoError (Unit {0}) × Sink) → IsDone a.0 → IsDone (wrote f a)
wrote-IsDone f (ok u, s) h = tt
wrote-IsDone f (err e, s) h = tt
wrote-IsDone f (stuck, s) h = h

file_write-IsCalm : (bs : Bytes) (f : File) → IsCalm (lift (file_write bs f))
unfolding file_write
file_write-IsCalm bs f =
    IsCalm-lift _ (wrote-IsDone f (write_all bs f.sink) (write_all-IsDone bs f.sink))

create_file-IsCalm : (path : String) → IsCalm (create_file path)
unfolding create_file
create_file-IsCalm path = Takes-at _ _ λ w. elim (Option-cases (w.create path)) [
  | inl e ↦ rw (create_file, e) (tt, omega arith)
  | inr (x, e) ↦ rw (create_file, e) (tt, tt)
]

ignore_remove-IsCalm : (path : String) → IsCalm (ignore (remove_file path))
unfolding remove_file
ignore_remove-IsCalm path = Takes-at _ _ λ w. elim (Option-cases (w.unlink path)) [
  | inl e ↦ rw (remove_file, e) (tt, omega arith)
  | inr (x, e) ↦ rw (remove_file, e) (tt, omega arith)
]

opened-IsCalm : IsCalm {E = IoError} (λ v. (ok (empty_file v), v))
opened-IsCalm = Takes-at _ _ λ v. (tt, omega arith)

named_tmpfile-IsCalm : (dir : String) → IsCalm (named_tmpfile dir)
unfolding named_tmpfile
named_tmpfile-IsCalm dir = Takes-at _ _ λ w.
    Takes-of _ _
      (IsCalm-bind (fill_bytes 8) _ (fill_bytes-IsCalm IoError 8) λ random.
        IsCalm-bind _ _
          (create_file-IsCalm
            (dir <> ("/.pipe-k1_spool_" <> (decimal w.pid <> ("_" <> decimal (from_le random))))))
          λ _. IsCalm-bind _ _ (ignore_remove-IsCalm _) λ _. opened-IsCalm)
      w

open_file-IsCalm : (C : Crypto) (f : Option File) → IsCalm (open_file C f)
unfolding open_anonymous_tmpfile
open_file-IsCalm C (some f) = IsCalm-pure IoError f
open_file-IsCalm C none = Takes-at _ _ λ w. elim (Bool-cases (w.o_tmpfile (tmp_dir w))) [
  | inl e ↦ rw e (tt, omega arith)
  | inr e ↦ rw e (Takes-of _ _ (named_tmpfile-IsCalm (tmp_dir w)) w)
]

module _ (C : Crypto) (T : IsTotal C) where
  flush_block-IsCalm : (b : Bytes) (s : StreamSpooler) → IsCalm (flush_single_block_to_disk C b s)
  unfolding flush_single_block_to_disk
  flush_block-IsCalm b s = IsCalm-bind _ _ (open_file-IsCalm C s.disk_file) λ file.
      IsCalm-bind _ _ (IsCalm-lift _ (map_err-IsDone _ _ (T.encrypts s.spool_key _ _ b))) λ sealed.
        IsCalm-bind _ _ (file_write-IsCalm (be32 (length b)) file) λ file.
          IsCalm-bind _ _ (file_write-IsCalm sealed.0 file)
            λ file. IsCalm-bind _ _ (file_write-IsCalm sealed.1 file) λ file. IsCalm-pure IoError _

  flush_blocks-IsCalm : (bs : List Bytes) (s : StreamSpooler) → IsCalm (flush_blocks C bs s)
  unfolding flush_blocks
  flush_blocks-IsCalm [] s = IsCalm-pure IoError s
  flush_blocks-IsCalm (b ∷ bs) s = IsCalm-bind _ _ (flush_block-IsCalm b s) (flush_blocks-IsCalm bs)

  spill-IsCalm : (bytes : Bytes) (s : StreamSpooler) → IsCalm (spill C bytes s)
  unfolding spill
  spill-IsCalm bytes s =
      IsCalm-bind _ _
        (IsCalm-if (is_empty s.mem_buffer) _ _ (IsCalm-pure String s) (
          Takes-mapped _ _ _
            (flush_blocks-IsCalm (chunks 65536 s.mem_buffer) (record s { mem_buffer = [] }))))
        λ s. Takes-mapped _ _ _ (flush_blocks-IsCalm (chunks 65536 bytes) s)

  pub write_chunk-IsCalm : (bytes : Bytes) (s : StreamSpooler) → IsCalm (write_chunk C bytes s)
  unfolding write_chunk
  write_chunk-IsCalm bytes s = IsCalm-bind _ _ (IsCalm-test _ _) λ _.
      IsCalm-if (not (is_some s.disk_file) && leb (length s.mem_buffer + length bytes) 16777216) _ _
        (IsCalm-pure String _) (spill-IsCalm bytes _)
