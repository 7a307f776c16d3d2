-- ===== src/Tests/Ends.antt =====
-- Examples of the theorems about the ends of loops: an input that fails after a signal, and a
-- standard output and a disk that take little.
use pipek.Prelude.{false, none, some, [], ◌∷◌, IsDone}
use pipek.Io.{chunk, failed}
use pipek.World.{World}
use pipek.Crypto.Toy.{toy, toy-IsTotal}
use pipek.Spool.{StreamSpooler}
use pipek.Encrypt.{encrypt_stream}
use pipek.Encrypt.Ends.{encrypt_stream-IsDone}
use pipek.Decrypt.{Session, decrypt_stream}
use pipek.Decrypt.Ends.{decrypt_stream-IsDone}
use pipek.Commands.{absorb}
use pipek.Commands.Ends.{absorb-IsDone}
use pipek.Tests.{process, disk_full, signal}

abbrev failing : World
failing =
    record (process (chunk (1 ∷ 2 ∷ []) ∷ failed signal ∷ chunk (3 ∷ []) ∷ failed disk_full ∷ [])
      []) { stdout = record { bytes = []; room = some 10; fault = disk_full }; disk_room = some 1 }

abbrev spooler : StreamSpooler
spooler = record {
  mem_buffer = [];
  disk_file = none;
  spool_key = [];
  block_counter = 0;
  total_bytes = 0;
  max_size = some 100;
}

abbrev session : Session
session = record { mode = 1; recip_pub = []; header_hmac = []; payload_key = 7 ∷ [] }

encrypt_stream-IsDone_example : IsDone (encrypt_stream toy (7 ∷ []) 1 [] failing).0
encrypt_stream-IsDone_example = encrypt_stream-IsDone toy toy-IsTotal (7 ∷ []) 1 [] failing

decrypt_stream-IsDone_example : IsDone (decrypt_stream toy false session spooler failing).0
decrypt_stream-IsDone_example = decrypt_stream-IsDone toy toy-IsTotal false session spooler failing

absorb-IsDone_example : IsDone (absorb toy (some spooler) failing).0
absorb-IsDone_example = absorb-IsDone toy toy-IsTotal (some spooler) failing
