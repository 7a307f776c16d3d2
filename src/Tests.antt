-- ===== src/Tests.antt =====
-- Worlds, keys and inputs for the tests and the examples of the theorems.
pub mod Pipeline
pub mod Stages
pub mod Team
pub mod Lines
pub mod Shim
pub mod Verify
pub mod Parts
pub mod Ends
pub mod Streams
use pipek.Prelude.{
  ℕ, ◌+◌, String, Bool, true, false, Option, none, some, List, [], ◌∷◌, ◌++◌, replicate, Result, ok,
  err,
}
use pipek.Prelude.Bytes.{Bytes}
use pipek.Error.{IoError, other, interrupted}
use pipek.Io.{Reader, chunk, failed}
use pipek.World.{World}
use pipek.Keys.{KeyIntakeArgs, no_key_args}

abbrev pub disk_full : IoError
disk_full = record { kind = other; message = "No space left on device (os error 28)" }

abbrev pub signal : IoError
signal = record { kind = interrupted; message = "Interrupted system call (os error 4)" }

-- A process with an input and an environment, whose streams and disk work.
abbrev pub process : Reader → List String → World
process input environ = record {
  stdin = input;
  stdout = record { bytes = []; room = none; fault = disk_full };
  stderr = [];
  environ = environ;
  fds = [];
  files = [];
  rng = λ i. i + 1;
  drawn = 0;
  clock = some 1750000000;
  pid = 4242;
  o_tmpfile = λ _. true;
  create = λ _. none;
  unlink = λ _. none;
  disk_room = none;
  disk_fault = disk_full;
  sinks = [];
  git = λ args. none;
  is_dir = λ path. false;
  current_dir = none;
  canonicalize = λ path. none;
}

-- "hi!", in two reads with a signal between them
abbrev pub greeting : Reader
greeting = chunk (104 ∷ 105 ∷ []) ∷ failed signal ∷ chunk (33 ∷ []) ∷ []

abbrev pub recipient_key : Bytes
recipient_key = replicate 31 0 ++ (5 ∷ [])

abbrev pub recipient_hex : String
recipient_hex = "0000000000000000000000000000000000000000000000000000000000000005"

abbrev pub sender_secret : Bytes
sender_secret = replicate 31 0 ++ (9 ∷ [])

abbrev pub sender_hex : String
sender_hex = "0000000000000000000000000000000000000000000000000000000000000009"

abbrev pub sender_environ : List String
sender_environ =
    "HOME=/root"
    ∷ ("PIPE_K1_SEC_KEY=0000000000000000000000000000000000000000000000000000000000000009" ∷ [])

abbrev pub recipient_environ : List String
recipient_environ =
    "PIPEK1_SEC_KEY=0000000000000000000000000000000000000000000000000000000000000005" ∷ []
