-- ===== src/Lib.antt =====
-- pipe-k1: a stateless filter for encryption and signatures over secp256k1.
--
-- The program reads standard input and writes standard output. `run_encrypt` draws an ephemeral key,
-- derives the keys of a stream from the secret that it shares with the recipient's public key, and
-- writes a header of 97 bytes, the input in sealed chunks of 64 KiB and, in mode 1, a signed trailer.
-- `run_decrypt` loads the recipient's key, checks the header, opens the chunks one by one into a
-- spooler, checks the trailer and the end of the input, and only then releases the plaintext. Keys come
-- from descriptors, files, the environment or a BIP-85 derivation. `sign` and `verify` make and check
-- detached signatures, which have a payload of their own. Called by git, the program is a shim that
-- signs and verifies commits: it prints armored signatures, and reports on a status descriptor whether
-- a signature is good and whether its key is in the files of allowed signers.
--
-- The parts, and the files that model them:
-- - rust/src/error.rs: Error. `Pipek1Error` with `display`, `source` and `exit_code`.
-- - rust/src/spool.rs: Spool. `StreamSpooler` is a record; `new`, `write_chunk`, `release_to` and the
--   helpers are functions of their names. The state of a spooler is in Spool/State, the image of its
--   file in Spool/Image.
-- - rust/src/main.rs, constants and lines 52 to 62 and 362 to 426: Wire. Its children state the layouts
--   as concatenations.
-- - rust/src/main.rs, lines 65 to 301: Keys. `load_secret_key` is cut into one function per source.
-- - rust/src/main.rs, `sign_stream_payload` and `verify_stream_payload`: Signature.
-- - rust/src/main.rs, `run_encrypt`: Encrypt. Stream says what the chunks of a plaintext look like on
--   the wire.
-- - rust/src/main.rs, `run_decrypt`: Decrypt. `verify_stream` is all of it but the release.
-- - rust/src/main.rs, `resolve_allowed_signers`: Signers has the loop over the candidate files,
--   Signers/Paths finds them.
-- - rust/src/main.rs, `write_status_fd` and `run_git_shim`: Shim, with Shim/Args for its arguments,
--   Armor for the armor, which `sign` and `verify` share, and Civil for the date of a signature.
--   Civil/Calendar counts days by the lengths of months, as the date is meant to.
-- - rust/src/main.rs, `parse_key_intake_args`, `print_usage` and `dispatch_command`: Options has the
--   loops over arguments as one function of what each argument means, Commands the commands, Cli their
--   options and the dispatcher.
-- - rust/src/main.rs, `real_main`: Main. It returns the exit code, and none where the program panics.
-- - The outside: Io has standard input as the results of its `read` calls (bytes in any cut, signals
--   and failures) and sinks that may run full; World has the process with its streams, environment,
--   files, descriptors, random bytes, clock and answers of git. A computation takes a world and
--   returns a result and a world; World/Ends says that it returns, and how much input it takes.
-- - Crypto: the functions of the crates sha2, hmac, hkdf, chacha20poly1305, k256, bech32, hex, base64,
--   bip39 and bip32 are a record that the definitions take as a parameter. What is relied on is stated
--   by IsAead, IsHash, IsSchnorr, IsDiffieHellman, IsBase64 and IsTotal. Crypto/Toy has functions that
--   meet all of them, with the base64 of Crypto/Strokes.
-- - Prelude: numbers, lists, bytes, text and the `Result` of the program.
-- - Tests: concrete runs.
--
-- Numbers are native ones. A counter of 64 bits wraps around in the model where the release build of
-- the program does; `checked_add` is an error. `stuck` stands for a panic or for fuel that has run out.
-- The loops over the input have the number of bytes that the input can still give, and one more, as
-- fuel: each round takes one byte at least, or ends. `rehash` has its fuel as an argument of
-- `run_encrypt`, since it ends with a probability only; without an entropy descriptor it is not run.
-- A buffer is a list of its bytes, and hashing is a function of all the bytes that were fed.
--
-- Not modelled: rust/src/lib.rs, which only passes names on, the tests, vectors and scripts, and `main`
-- itself but for `real_main`. The wiping of memory, `prctl` and the close-on-exec flag have no effect in
-- the model. What is written to standard output arrives at once, so that `flush` does nothing. What git
-- prints is text, and the current directory is absolute, with no slash at its end. Standard input is no
-- descriptor 0 for the key options. A spool file that is made by name has no content under its path.
pub mod Prelude
pub mod Error
pub mod Io
pub mod World
pub mod Crypto
pub mod Wire
pub mod Signature
pub mod Spool
pub mod Keys
pub mod Stream
pub mod Encrypt
pub mod Decrypt
pub mod Tests
pub mod Signers
pub mod Civil
pub mod Armor
pub mod Options
pub mod Shim
pub mod Commands
pub mod Cli
pub mod Main
