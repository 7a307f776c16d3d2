-- ===== src/Tests/Pipeline.antt =====
-- Runs of the encryptor and the decryptor, and examples of the theorems about them.
use pipek.Prelude.{
  ◌+◌, ◌≡◌, refl, true, false, none, some, [], ◌∷◌, append-nil, Result, ok, arith, length,
}
use pipek.Error.{Pipek1Error}
use pipek.Io.{chunk, fill_from, write_all}
use pipek.World.{World, fill_bytes, random_bytes, stdin_fill, stdout_write}
use pipek.World.Files.{remove_var, zero_entry}
use pipek.Prelude.Text.{trim, strip_prefix, env_lookup}
use pipek.Crypto.Toy.{
  toy, toy-IsAead, toy-IsHash, toy-IsSchnorr, toy-IsDiffieHellman, fit, mix, digest, total,
  sum_byte, is_key, nibble, join, hex_pairs, or_invalid, from_sec1, key_of,
}
use pipek.Wire.{
  build_nonce, build_aad, assemble_header, chunk_header, auth_transcript, tagged_hash, derive_keys,
  compute_header_hmac, lift_x, ecdh_shared_x,
}
use pipek.Keys.{
  no_key_args, load_secret_key, parse_key_bytes, scrub_env_var, scrub_all_sensitive_env,
}
use pipek.Spool.State.{DiskWorks}
use pipek.Encrypt.{
  run_encrypt, ephemeral, sender_key, complete_header, encrypt_stream, encrypt_loop, write_sealed,
  next_counter, write_trailer,
}
use pipek.Decrypt.RoundTrip.{decrypt-encrypt}
use pipek.Decrypt.{run_decrypt}
use pipek.Tests.{
  process, greeting, recipient_key, recipient_hex, sender_secret, sender_hex, sender_environ,
  recipient_environ,
}

abbrev plain_process : World
plain_process = process greeting sender_environ

abbrev encrypted : Result Pipek1Error (Unit {0}) × World
encrypted = run_encrypt toy 0 recipient_hex 1 no_key_args none plain_process

-- The header, one chunk of three bytes, and the trailer.
encrypted_size : length encrypted.1.stdout.bytes ≡ 97 + (5 + 3 + 16) + 96
unfolding run_encrypt ephemeral sender_key complete_header encrypt_stream encrypt_loop write_sealed
    next_counter write_trailer build_nonce build_aad assemble_header chunk_header auth_transcript
    tagged_hash derive_keys compute_header_hmac lift_x ecdh_shared_x load_secret_key parse_key_bytes
    scrub_env_var scrub_all_sensitive_env fill_bytes random_bytes stdin_fill stdout_write fill_from
    write_all fit mix digest total sum_byte is_key nibble join hex_pairs or_invalid from_sec1 key_of
    trim strip_prefix env_lookup remove_var zero_entry
encrypted_size = refl

abbrev started : World
started = record plain_process { drawn = 43 }

sender_loaded :
    sender_key toy 1 no_key_args started
    ≡ (ok (some sender_secret), (sender_key toy 1 no_key_args started).1)
unfolding sender_key load_secret_key parse_key_bytes scrub_env_var scrub_all_sensitive_env fit
    is_key nibble join hex_pairs or_invalid key_of trim strip_prefix env_lookup remove_var
    zero_entry
sender_loaded = refl

-- The recipient's process, which reads what was encrypted.
abbrev cipher_process : World
cipher_process = process (chunk encrypted.1.stdout.bytes ∷ []) recipient_environ

recipient_loaded :
    load_secret_key toy no_key_args cipher_process
    ≡ (ok recipient_key, (load_secret_key toy no_key_args cipher_process).1)
unfolding load_secret_key parse_key_bytes scrub_env_var scrub_all_sensitive_env fit is_key nibble
    join hex_pairs or_invalid key_of trim strip_prefix env_lookup remove_var zero_entry
recipient_loaded = refl

disk_works : DiskWorks (load_secret_key toy no_key_args cipher_process).1
unfolding load_secret_key parse_key_bytes scrub_env_var scrub_all_sensitive_env fit is_key nibble
    join hex_pairs or_invalid key_of trim strip_prefix env_lookup remove_var zero_entry
disk_works = record { opens = refl; room = refl }

pub parsed_recipient : parse_key_bytes toy recipient_hex ≡ ok (fit 32 recipient_key)
unfolding parse_key_bytes fit nibble join hex_pairs or_invalid trim
parsed_recipient = refl

pub parsed_sender : parse_key_bytes toy sender_hex ≡ ok (fit 32 sender_secret)
unfolding parse_key_bytes fit nibble join hex_pairs or_invalid trim
parsed_sender = refl

pub recipient_valid : key_of recipient_key ≡ ok recipient_key
unfolding key_of is_key
recipient_valid = refl

pub ephemeral_valid : key_of (random_bytes 32 0 (λ i. i + 1)) ≡ ok (random_bytes 32 0 (λ i. i + 1))
unfolding key_of is_key random_bytes
ephemeral_valid = refl

-- A limit of three bytes is enough for "hi!".
decrypt-encrypt_example :
    (encrypted.0 ≡ ok tt)
    × ((run_decrypt toy (some sender_hex) false false (some 3) no_key_args cipher_process).0
        ≡ ok tt)
    × ((run_decrypt toy
          (some sender_hex)
          false
          false
          (some 3)
          no_key_args
          cipher_process).1.stdout.bytes
        ≡ 104 ∷ 105 ∷ 33 ∷ [])
decrypt-encrypt_example =
    decrypt-encrypt toy toy-IsAead toy-IsHash toy-IsSchnorr toy-IsDiffieHellman true 0 recipient_hex
      1 no_key_args no_key_args (some sender_hex) false (some 3) recipient_key recipient_key
      (random_bytes 32 0 (λ i. i + 1)) (some sender_secret) plain_process
      (sender_key toy 1 no_key_args started).1 cipher_process
      (load_secret_key toy no_key_args cipher_process).1 parsed_recipient recipient_valid
      ephemeral_valid sender_loaded (omega arith, (refl, refl, (omega arith, tt))) (omega arith)
      refl refl recipient_loaded (refl, parsed_sender) (omega (arith, encrypted_size), tt)
      (append-nil encrypted.1.stdout.bytes) refl disk_works refl
