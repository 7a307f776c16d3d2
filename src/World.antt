-- ===== src/World.antt =====
-- The process and its surroundings: streams, environment, files, descriptors, randomness and clock.
-- Every function of the program that touches them is a computation over this state.
pub mod Files
pub mod Laws
pub mod Keeps
pub mod Silence
pub mod Ends
use pipek.Prelude.{
  ℕ, zero, suc, ◌+◌, ◌%◌, ◌^◌, String, ◌<>◌, Bool, Option, none, some, List, [], ◌∷◌, ◌++◌, Result,
  ok, err, stuck, Exec,
}
use pipek.Prelude.Bytes.{Bytes}
use pipek.Prelude.Int.{ℤ}
use pipek.Prelude.Text.{as_bytes}
use pipek.Error.{IoError}
use pipek.Io.{Reader, Sink, write_all, read, fill_buffer, read_exact, read_rest}

pub record World : Type 0 where
  pub stdin : Reader
  pub stdout : Sink
  -- the texts written to standard error, one after the other
  pub stderr : List String
  -- the environment block: entries `KEY=value`
  pub environ : List String
  -- open descriptors, with what reads of them find; standard input is kept apart from them, so that
  -- a descriptor 0 that is read here is not used up there
  pub fds : List (ℤ × Reader)
  -- the files, with what `fs::read` of a path gives; a path that is not here cannot be read
  pub files : List (String × Result IoError Bytes)
  -- the system's random bytes, and how many have been drawn
  pub rng : ℕ → ℕ
  pub drawn : ℕ
  -- seconds since 1970, `none` for a clock that stands before it
  pub clock : Option ℕ
  pub pid : ℕ
  -- whether `open` makes an `O_TMPFILE` in a directory, and the error of making a file at a path
  pub o_tmpfile : String → Bool
  pub create : String → Option IoError
  -- the error of removing the file at a path
  pub unlink : String → Option IoError
  -- what a new temporary file takes
  pub disk_room : Option ℕ
  pub disk_fault : IoError
  -- the descriptors that can be written to, but for 1 and 2
  pub sinks : List (ℤ × Sink)
  -- `git` with arguments: whether it exits with 0, and its output as `from_utf8_lossy` reads it;
  -- `none` if it cannot be run
  pub git : List String → Option (Bool × String)
  pub is_dir : String → Bool
  pub current_dir : Option String
  pub canonicalize : String → Option String

-- A computation of the program that fails with an `E`.
abbrev pub Io : Type 0 → Type 0 → Type 0
Io E A = Exec World E A

abbrev pub on_stdin : {E A : Type 0} → (Reader → Result E A × Reader) → Io E A
on_stdin f w = let (r, rest) = f w.stdin in (r, record w { stdin = rest })

unfoldable pub stdin_read : ℕ → Io IoError Bytes
stdin_read n = on_stdin (read n)

unfoldable pub stdin_fill : ℕ → Io IoError Bytes
stdin_fill n = on_stdin (fill_buffer n)

unfoldable pub stdin_read_exact : ℕ → Io IoError Bytes
stdin_read_exact n = on_stdin (read_exact n)

unfoldable pub stdin_read_to_end : Io IoError Bytes
stdin_read_to_end = on_stdin (read_rest [])

-- `io::stdout().write_all`. What is written arrives at once, so `flush` does nothing.
unfoldable pub stdout_write : Bytes → Io IoError (Unit {0})
stdout_write bs w = let (r, s) = write_all bs w.stdout in (r, record w { stdout = s })

unfoldable pub eprintln : {E : Type 0} → String → Io E (Unit {0})
eprintln line w = (ok tt, record w { stderr = w.stderr ++ ((line <> "\n") ∷ []) })

-- `println!`, which panics if the text cannot be written
abbrev pub or_panic : {E : Type 0} → Result IoError (Unit {0}) × World → Result E (Unit {0}) × World
or_panic (ok u, w) = (ok tt, w)
or_panic (_, w) = (stuck, w)

unfoldable pub println : {E : Type 0} → String → Io E (Unit {0})
unfolding stdout_write
println line w = or_panic (stdout_write (as_bytes (line <> "\n")) w)

unfoldable pub random_bytes : ℕ → ℕ → (ℕ → ℕ) → Bytes
random_bytes zero i rng = []
random_bytes (suc n) i rng = (rng i % 256) ∷ random_bytes n (i + 1) rng

-- `OsRng.fill_bytes` of a buffer of `n` bytes
unfoldable pub fill_bytes : {E : Type 0} → ℕ → Io E Bytes
unfolding random_bytes
fill_bytes n w = (ok (random_bytes n w.drawn w.rng), record w { drawn = w.drawn + n })
