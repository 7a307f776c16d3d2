-- ===== src/Io.antt =====
-- The outside of the process: standard input as the results of its `read` calls, output sinks, and
-- the standard library's loops over them.
pub mod Input
use pipek.Prelude.{
  ℕ, ◌+◌, ◌-◌, ◌≡◌, ap, Bool, true, false, Option, none, some, List, [], ◌∷◌, ◌++◌, ◌==◌, leb,
  length, take, drop, if◌then◌else◌, Result, ok, err,
}
use pipek.Prelude.Bytes.{Bytes}
use pipek.Error.{IoKind, IoError, interrupted, unexpected_eof}

-- What the next `read` calls find: bytes, or a failure (a signal is one, of kind `interrupted`).
-- A `chunk []` is a read of 0 bytes, and so is every read behind the last event.
pub data Event : Type 0 where
  chunk : Bytes → Event
  failed : IoError → Event

abbrev pub Reader : Type 0
Reader = List Event

-- `e.kind() == io::ErrorKind::Interrupted`
abbrev pub is_signal : IoKind → Bool
is_signal interrupted = true
is_signal _ = false

abbrev pub eof_error : IoError
eof_error = record { kind = unexpected_eof; message = "failed to fill whole buffer" }

-- All bytes that an input can give, behind failures too.
abbrev pub capacity : Reader → ℕ
capacity [] = 0
capacity (chunk bs ∷ r) = length bs + capacity r
capacity (failed e ∷ r) = capacity r

-- One `read` into a buffer of `n` bytes.
unfoldable pub read : ℕ → Reader → Result IoError Bytes × Reader
read n [] = (ok [], [])
read n (chunk bs ∷ r) =
    if leb (length bs) n then (ok bs, r) else (ok (take n bs), chunk (drop n bs) ∷ r)
read n (failed e ∷ r) = (err e, r)

-- `fill_buffer` with `left` bytes of the buffer free and `got` read so far: it reads on until the
-- buffer is full or a read gives 0 bytes, and tries again after a signal.
unfoldable pub fill_from : ℕ → Bytes → Reader → Result IoError Bytes × Reader
fill_from left got [] = (ok got, [])
fill_from left got (chunk bs ∷ r) =
    let more = fill_from (left - length bs) (got ++ bs) r in
    if left == 0
    then (ok got, chunk bs ∷ r)
    else if length bs == 0
    then (ok got, r)
    else if leb (length bs) left
    then more
    else (ok (got ++ take left bs), chunk (drop left bs) ∷ r)
fill_from left got (failed e ∷ r) =
    let more = fill_from left got r in
    if left == 0 then (ok got, failed e ∷ r) else if is_signal e.kind then more else (err e, r)

abbrev pub fill_buffer : ℕ → Reader → Result IoError Bytes × Reader
fill_buffer n r = fill_from n [] r

-- `read_exact` makes the same reads, and a short one is an error.
abbrev pub require_full : ℕ → Result IoError Bytes × Reader → Result IoError Bytes × Reader
require_full n (ok bs, r) = if length bs == n then (ok bs, r) else (err eof_error, r)
require_full n (e, r) = (e, r)

unfoldable pub read_exact : ℕ → Reader → Result IoError Bytes × Reader
read_exact n r = require_full n (fill_buffer n r)

-- `read_to_end` with `got` read so far.
unfoldable pub read_rest : Bytes → Reader → Result IoError Bytes × Reader
read_rest got [] = (ok got, [])
read_rest got (chunk bs ∷ r) =
    let more = read_rest (got ++ bs) r in if length bs == 0 then (ok got, r) else more
read_rest got (failed e ∷ r) =
    let more = read_rest got r in if is_signal e.kind then more else (err e, r)

-- Where bytes are written: what has arrived, and how many more are taken before writes fail.
pub record Sink : Type 0 where
  pub bytes : Bytes
  pub room : Option ℕ
  pub fault : IoError

abbrev take_in : Option ℕ → Bytes → Sink → Result IoError (Unit {0}) × Sink
take_in none bs s = (ok tt, record s { bytes = s.bytes ++ bs })
take_in (some n) bs s =
    if leb (length bs) n
    then (ok tt, record s { bytes = s.bytes ++ bs; room = some (n - length bs) })
    else (err s.fault, record s { bytes = s.bytes ++ take n bs; room = some 0 })

-- `write_all`: when it fails, a part of the bytes may have been written.
unfoldable pub write_all : Bytes → Sink → Result IoError (Unit {0}) × Sink
write_all bs s = take_in s.room bs s

-- A sink without a bound takes everything.
pub write_all-unbounded :
    (bs : Bytes) (s : Sink)
    → s.room ≡ none
    → write_all bs s ≡ (ok tt, record s { bytes = s.bytes ++ bs })
unfolding write_all
write_all-unbounded bs s h = ap (λ o. take_in o bs s) h
