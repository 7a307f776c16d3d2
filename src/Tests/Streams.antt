-- ===== src/Tests/Streams.antt =====
-- A stream from the command line of its sender to that of its recipient.
use pipek.Prelude.{
  ◌+◌, ◌≡◌, refl, true, false, some, [], ◌∷◌, append-nil, ok, arith, length, String,
}
use pipek.Prelude.Text.{contains, trim, strip_prefix, env_lookup, parse_unsigned}
use pipek.Io.{chunk, fill_from, write_all}
use pipek.World.{World, fill_bytes, random_bytes, stdin_fill, stdout_write}
use pipek.World.Files.{remove_var, zero_entry}
use pipek.Crypto.Toy.{
  toy, toy-IsAead, toy-IsHash, toy-IsSchnorr, toy-IsDiffieHellman, fit, mix, digest, total,
  sum_byte, is_key, nibble, join, hex_pairs, or_invalid, from_sec1, key_of,
}
use pipek.Wire.{
  build_nonce, build_aad, assemble_header, chunk_header, auth_transcript, tagged_hash, derive_keys,
  compute_header_hmac, lift_x, ecdh_shared_x,
}
use pipek.Keys.{
  no_key_args, load_secret_key, parse_key_bytes, scrub_env_var, scrub_all_sensitive_env,
}
use pipek.Spool.State.{DiskWorks}
use pipek.Encrypt.{
  run_encrypt, ephemeral, sender_key, complete_header, encrypt_stream, encrypt_loop, write_sealed,
  next_counter, write_trailer,
}
use pipek.Options.{scan}
use pipek.Cli.{
  key_meaning, encrypt_meaning, parse_key_intake_args, encrypt_command, dispatch_command,
}
use pipek.Main.{base_name, base_name_from, is_git_invocation, real_main}
use pipek.Main.Pipeline.{encrypt_line, decrypt_line, decrypt_line-encrypt_line}
use pipek.Tests.Pipeline.{parsed_recipient, parsed_sender, recipient_valid, ephemeral_valid}
use pipek.Tests.{
  process, greeting, recipient_key, recipient_hex, sender_secret, sender_hex, sender_environ,
  recipient_environ,
}

abbrev binary : String
binary = "/usr/local/bin/pipe-k1"

abbrev sending : World
sending = process greeting sender_environ

-- The header, one chunk of three bytes, and the trailer.
sent_size :
    length (real_main toy 0 (encrypt_line binary recipient_hex) sending).1.stdout.bytes
    ≡ 97 + (5 + 3 + 16) + 96
unfolding real_main is_git_invocation base_name_from contains dispatch_command encrypt_command scan
    key_meaning encrypt_meaning parse_key_intake_args parse_unsigned run_encrypt ephemeral
    sender_key complete_header encrypt_stream encrypt_loop write_sealed next_counter write_trailer
    build_nonce build_aad assemble_header chunk_header auth_transcript tagged_hash derive_keys
    compute_header_hmac lift_x ecdh_shared_x load_secret_key parse_key_bytes scrub_env_var
    scrub_all_sensitive_env fill_bytes random_bytes stdin_fill stdout_write fill_from write_all fit
    mix digest total sum_byte is_key nibble join hex_pairs or_invalid from_sec1 key_of trim
    strip_prefix env_lookup remove_var zero_entry
sent_size = refl

abbrev receiving : World
receiving =
    process
      (chunk (real_main toy 0 (encrypt_line binary recipient_hex) sending).1.stdout.bytes ∷ [])
      recipient_environ

binary_plain : contains "git-shim" (base_name binary) ≡ false
unfolding contains base_name_from
binary_plain = refl

sender_read :
    load_secret_key toy no_key_args (record sending { drawn = 43 })
    ≡ (ok sender_secret, (load_secret_key toy no_key_args (record sending { drawn = 43 })).1)
unfolding load_secret_key parse_key_bytes scrub_env_var scrub_all_sensitive_env fit is_key nibble
    join hex_pairs or_invalid key_of trim strip_prefix env_lookup remove_var zero_entry
sender_read = refl

recipient_read :
    load_secret_key toy no_key_args receiving
    ≡ (ok recipient_key, (load_secret_key toy no_key_args receiving).1)
unfolding load_secret_key parse_key_bytes scrub_env_var scrub_all_sensitive_env fit is_key nibble
    join hex_pairs or_invalid key_of trim strip_prefix env_lookup remove_var zero_entry
recipient_read = refl

disk_open : DiskWorks (load_secret_key toy no_key_args receiving).1
unfolding load_secret_key parse_key_bytes scrub_env_var scrub_all_sensitive_env fit is_key nibble
    join hex_pairs or_invalid key_of trim strip_prefix env_lookup remove_var zero_entry
disk_open = record { opens = refl; room = refl }

key_of-sender : key_of sender_secret ≡ ok sender_secret
unfolding key_of is_key
key_of-sender = refl

decrypt_line-encrypt_line_example :
    ((real_main toy 0 (encrypt_line binary recipient_hex) sending).0 ≡ some 0)
    × ((real_main toy 0 (decrypt_line binary sender_hex) receiving).0 ≡ some 0)
    × ((real_main toy 0 (decrypt_line binary sender_hex) receiving).1.stdout.bytes
        ≡ 104 ∷ 105 ∷ 33 ∷ [])
decrypt_line-encrypt_line_example =
    decrypt_line-encrypt_line toy toy-IsAead toy-IsHash toy-IsSchnorr toy-IsDiffieHellman true 0
      binary recipient_hex sender_hex sender_secret recipient_key sender_secret recipient_key
      (random_bytes 32 0 (λ i. i + 1)) sending
      (load_secret_key toy no_key_args (record sending { drawn = 43 })).1 receiving
      (load_secret_key toy no_key_args receiving).1 binary_plain parsed_recipient recipient_valid
      ephemeral_valid sender_read key_of-sender parsed_sender
      (omega arith, (refl, refl, (omega arith, tt))) (omega arith) refl refl recipient_read
      (omega (arith, sent_size), tt)
      (append-nil (real_main toy 0 (encrypt_line binary recipient_hex) sending).1.stdout.bytes)
      disk_open refl
