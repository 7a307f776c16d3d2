-- ===== src/World/Files.antt =====
-- Descriptors, files and the environment block, as the standard library gives access to them.
use Prim.Native.Char.{code}
use pipek.Prelude.{
  ℕ, String, ◌<>◌, Bool, false, Option, none, some, List, [], ◌∷◌, Result, ok, err, stuck, str_eq,
  is_some, if◌then◌else◌, lift, ◌>>=◌, ◌==◌,
}
use pipek.Prelude.Bytes.{Bytes}
use pipek.Prelude.Int.{ℤ, negsuc, int_eq}
use pipek.Prelude.Text.{from_utf8, strip_prefix}
use pipek.Error.{IoError, other, invalid_data}
use pipek.Io.{Reader, read_rest, fill_buffer}
use pipek.World.{World, Io}

abbrev pub Descriptors : Type 0
Descriptors = List (ℤ × Reader)

abbrev pub bad_descriptor : IoError
bad_descriptor = record { kind = other; message = "Bad file descriptor (os error 9)" }

abbrev pub not_found : IoError
not_found = record { kind = other; message = "No such file or directory (os error 2)" }

abbrev pub not_utf8 : IoError
not_utf8 = record { kind = invalid_data; message = "stream did not contain valid UTF-8" }

-- What reads of a descriptor find, and the descriptors that are open after it is closed.
unfoldable pub take_descriptor : ℤ → Descriptors → Option Reader × Descriptors
take_descriptor fd [] = (none, [])
take_descriptor fd ((n, r) ∷ rest) =
    let (found, others) = take_descriptor fd rest in
    if int_eq fd n then (some r, rest) else (found, (n, r) ∷ others)

abbrev read_open : (Reader → Result IoError Bytes) → Option Reader → Result IoError Bytes
read_open f none = err bad_descriptor
read_open f (some r) = f r

-- `File::from_raw_fd`, reads, and the drop that closes the descriptor, which comes after a failed
-- read too. `from_raw_fd` panics on -1.
unfoldable pub with_descriptor : (Reader → Result IoError Bytes) → ℤ → Io IoError Bytes
unfolding take_descriptor
with_descriptor f fd w =
    if int_eq fd (negsuc 0)
    then (stuck, w)
    else let (r, fds) = take_descriptor fd w.fds in (read_open f r, record w { fds = fds })

unfoldable pub fd_read_to_end : ℤ → Io IoError Bytes
unfolding with_descriptor
fd_read_to_end fd = with_descriptor (λ r. (read_rest [] r).0) fd

-- `take(n)`, read to its end: no read goes beyond `n` bytes.
unfoldable pub fd_read_at_most : ℕ → ℤ → Io IoError Bytes
unfolding with_descriptor
fd_read_at_most n fd = with_descriptor (λ r. (fill_buffer n r).0) fd

abbrev pub require_utf8 : Option String → Result IoError String
require_utf8 none = err not_utf8
require_utf8 (some s) = ok s

unfoldable pub fd_read_to_string : ℤ → Io IoError String
unfolding fd_read_to_end
fd_read_to_string fd = do bytes ← fd_read_to_end fd; lift (require_utf8 (from_utf8 bytes))

unfoldable pub find_file :
    String → List (String × Result IoError Bytes) → Option (Result IoError Bytes)
find_file path [] = none
find_file path ((p, r) ∷ rest) = if str_eq path p then some r else find_file path rest

abbrev pub or_not_found : Option (Result IoError Bytes) → Result IoError Bytes
or_not_found none = err not_found
or_not_found (some r) = r

unfoldable pub fs_read : String → Io IoError Bytes
unfolding find_file
fs_read path w = (or_not_found (find_file path w.files), w)

unfoldable pub fs_read_to_string : String → Io IoError String
unfolding fs_read
fs_read_to_string path = do bytes ← fs_read path; lift (require_utf8 (from_utf8 bytes))

unfoldable pub without_file :
    String → List (String × Result IoError Bytes) → List (String × Result IoError Bytes)
without_file path [] = []
without_file path ((p, r) ∷ rest) =
    let others = without_file path rest in if str_eq path p then others else (p, r) ∷ others

-- `open` with `create(true)` and `truncate(true)`: there is an empty file at the path. What is written
-- to it is followed through its descriptor only.
unfoldable pub create_file : String → Io IoError (Unit {0})
create_file path w = elim (w.create path) [
  | none ↦ (ok tt, record w { files = (path, ok []) ∷ without_file path w.files })
  | some e ↦ (err e, w)
]

-- `fs::remove_file`
unfoldable pub remove_file : String → Io IoError (Unit {0})
remove_file path w = elim (w.unlink path) [
  | none ↦ (ok tt, record w { files = without_file path w.files })
  | some e ↦ (err e, w)
]

-- `Path::is_file`
unfoldable pub is_file : String → World → Bool
unfolding find_file
is_file path w = is_some (find_file path w.files)

-- `env::remove_var`
unfoldable pub remove_var : String → List String → List String
remove_var key [] = []
remove_var key (entry ∷ entries) =
    let rest = remove_var key entries in
    if is_some (strip_prefix (key <> "=") entry) then rest else entry ∷ rest

-- Zero bytes over the first entry of the key: what is left reads as an empty text.
unfoldable pub zero_entry : String → List String → List String
zero_entry key [] = []
zero_entry key (entry ∷ entries) =
    let rest = zero_entry key entries in
    if is_some (strip_prefix (key <> "=") entry) then "" ∷ entries else entry ∷ rest

ends_with_slash : String → Bool
ends_with_slash String.[] = false
ends_with_slash (String.◌∷◌ c String.[]) = code c == b'/'
ends_with_slash (String.◌∷◌ c s) = ends_with_slash s

-- `Path::join` with a relative path
unfoldable pub join : String → String → String
unfolding ends_with_slash
join dir name =
    if str_eq dir ""
    then name
    else if ends_with_slash dir
    then dir <> name
    else dir <> ("/" <> name)
