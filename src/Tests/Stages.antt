-- ===== src/Tests/Stages.antt =====
-- Examples of the theorems about the stages of the encryptor and of the decryptor.
use pipek.Prelude.{
  suc, ◌≤◌, inl, append-nil, length-append, length-replicate, length, err, ℕ, ◌+◌, ◌≡◌, ◌≢◌, refl,
  String, true, false, none, some, [], ◌∷◌, ◌++◌, Result, ok, arith, ◌⊎◌, map_err_of, replicate,
  slice, get_or,
}
use pipek.Prelude.Bytes.{Bytes}
use pipek.Error.{Pipek1Error, io}
use pipek.Io.{Reader, chunk, fill_from, read_exact, write_all}
use pipek.Io.Input.{content, IsClean}
use pipek.World.{World, stdin_read_exact, stdout_write, eprintln, random_bytes}
use pipek.World.Laws.{emit, with_stdin}
use pipek.Crypto.Toy.{
  toy, toy-IsAead, toy-IsHash, toy-IsSchnorr, toy-IsDiffieHellman, fit, mix, digest, is_key, nibble,
  join, hex_pairs, or_invalid, key_of,
}
use pipek.Wire.{
  magic_header, build_nonce, build_aad, chunk_header, auth_transcript, tagged_hash, derive_keys,
  ecdh_shared_x,
}
use pipek.Stream.{sealed, wire}
use pipek.Spool.{StreamSpooler, release_to}
use pipek.Keys.{no_key_args, parse_key_bytes}
use pipek.Prelude.Text.{as_bytes, trim}
use pipek.Encrypt.{rehash, is_err, run_encrypt, sender_key, encrypt_stream}
use pipek.Encrypt.Entropy.{mixed_after, is_bad, rehash_enough}
use pipek.Encrypt.Loop.{encrypt_stream-wire}
use pipek.Encrypt.Run.{stream, run_encrypt-stream}
use pipek.Encrypt.Trailer.{trailer}
use pipek.Decrypt.{
  Session, check_header, check_framing, read_chunk, deliver, decrypt_loop, check_sender,
  check_trailer, check_origin, verify_stream, run_decrypt, encode_npub,
}
use pipek.Decrypt.Header.{IsAllowed, check_header_sound}
use pipek.Decrypt.Truncated.{wire_prefix, premature_eof, decrypt_loop_truncated}
use pipek.Decrypt.Unverified.{decrypt_loop-emit}
use pipek.Decrypt.Accept.{Accepted, decrypt_loop-Accepted}
use pipek.Decrypt.Release.{IsSigned, run_decrypt-withholds, check_origin-IsSigned}
use pipek.Tests.{
  process, greeting, recipient_key, recipient_hex, sender_secret, sender_hex, recipient_environ,
}

abbrev quiet_process : World
quiet_process = process greeting []

-- Mode 2 takes no sender's key, so the world is that before it.
run_encrypt-stream_example :
    (ikm : Bytes) × (hk : Bytes) × (pk : Bytes) × (rest : Reader) × (ecdh_shared_x toy recipient_key
        (fit 32 (random_bytes 32 0 (λ i. i + 1)))
      ≡ ok ikm)
    × (derive_keys toy ikm (random_bytes 11 32 (λ i. i + 1)) ≡ ok (hk, pk))
    × (run_encrypt toy 0 recipient_hex 2 no_key_args none quiet_process ≡ (
      ok tt,
      emit
          (stream toy 2
            (fit 32 (random_bytes 32 0 (λ i. i + 1)))
            (fit 32 recipient_key)
            (random_bytes 11 32 (λ i. i + 1))
            hk
            pk
            none
            (104 ∷ 105 ∷ 33 ∷ []))
          (with_stdin rest (record quiet_process { drawn = 43 })),
    ))
unfolding parse_key_bytes fit nibble join hex_pairs or_invalid trim key_of is_key random_bytes
    sender_key
run_encrypt-stream_example =
    run_encrypt-stream toy toy-IsAead toy-IsHash toy-IsSchnorr toy-IsDiffieHellman true 0
      recipient_hex 2 no_key_args recipient_key recipient_key (random_bytes 32 0 (λ i. i + 1)) none
      quiet_process (record quiet_process { drawn = 43 }) refl refl refl refl
      (omega arith, (refl, refl, (omega arith, tt))) (omega arith) refl

encrypt_stream-wire_example :
    (rest : Reader) × (encrypt_stream toy (1 ∷ []) 1 recipient_key quiet_process ≡ (
      ok (104 ∷ 105 ∷ 33 ∷ []),
      emit
          (wire toy (1 ∷ []) 1 recipient_key (104 ∷ 105 ∷ 33 ∷ []))
          (with_stdin rest quiet_process),
    ))
    × (content rest ≡ [])
    × IsClean true rest
encrypt_stream-wire_example =
    encrypt_stream-wire toy toy-IsAead (1 ∷ []) 1 recipient_key true quiet_process
      (omega arith, (refl, refl, (omega arith, tt))) (omega arith) refl

-- A stream that is cut off within its header.
abbrev cut_process : World
cut_process = process (chunk (80 ∷ 75 ∷ 48 ∷ []) ∷ []) recipient_environ

run_decrypt-withholds_example :
    let run = run_decrypt toy none false false none no_key_args cut_process in
    ((run.0 ≢ ok tt) × (run.1.stdout ≡ cut_process.stdout))
    ⊎ ((s : StreamSpooler) × (v : World) × (verify_stream toy none false false none no_key_args
            cut_process
          ≡ (ok s, v))
        × (v.stdout ≡ cut_process.stdout)
        × (run ≡ map_err_of io (release_to toy s) v))
run_decrypt-withholds_example = run_decrypt-withholds toy none false none no_key_args cut_process

abbrev header_of_mode_2 : Bytes
header_of_mode_2 = 80 ∷ 75 ∷ 48 ∷ 49 ∷ 1 ∷ 2 ∷ []

check_header_sound_example :
    (cut_process ≡ cut_process)
    × (slice 0 4 header_of_mode_2 ≡ magic_header)
    × (get_or header_of_mode_2 4 0 ≡ 1)
    × IsAllowed (get_or header_of_mode_2 5 0) none false
unfolding check_header
check_header_sound_example =
    check_header_sound header_of_mode_2 none false cut_process cut_process refl

abbrev session : ℕ → Session
session mode = record {
  mode = mode;
  recip_pub = recipient_key;
  header_hmac = replicate 16 7;
  payload_key = 1 ∷ [];
}

abbrev spooler : StreamSpooler
spooler = record {
  mem_buffer = [];
  disk_file = none;
  spool_key = replicate 32 3;
  block_counter = 0;
  total_bytes = 0;
  max_size = none;
}

-- One chunk of two bytes, and the three bytes behind it.
abbrev chunk_process : World
chunk_process =
    process
      (chunk (sealed toy (1 ∷ []) 1 recipient_key 0 1 (104 ∷ 105 ∷ []) ++ (7 ∷ 8 ∷ 9 ∷ [])) ∷ []) []

abbrev decrypted : Result Pipek1Error (Bytes × StreamSpooler) × World
decrypted = decrypt_loop toy 2 true (session 1) 0 [] spooler chunk_process

decrypt_loop-Accepted_example :
    Accepted toy (session 1) true 0 [] chunk_process (104 ∷ 105 ∷ []) decrypted.1
unfolding decrypt_loop read_chunk deliver check_framing stdin_read_exact read_exact fill_from
    stdout_write write_all sealed chunk_header build_nonce build_aad digest mix fit
decrypt_loop-Accepted_example =
    decrypt_loop-Accepted toy (session 1) true true 2 0 [] (104 ∷ 105 ∷ []) spooler spooler
      chunk_process decrypted.1 (omega arith, tt) refl

abbrev trailer_process : World
trailer_process =
    process
      (chunk (trailer toy (some sender_secret) (replicate 16 7) (digest 32 (104 ∷ 105 ∷ []))) ∷ [])
      []

abbrev checked : Result Pipek1Error (Unit {0}) × World
checked = check_origin toy (session 1) (some sender_hex) false (104 ∷ 105 ∷ []) trailer_process

check_origin-IsSigned_example :
    (pk : Bytes) × IsSigned toy trailer_process pk (replicate 16 7) (digest 32 (104 ∷ 105 ∷ []))
    × ((e : String) → some sender_hex ≡ some e → parse_key_bytes toy e ≡ ok pk)
unfolding check_origin check_trailer check_sender encode_npub eprintln trailer stdin_read_exact
    read_exact fill_from parse_key_bytes fit mix digest nibble join hex_pairs or_invalid trim
    auth_transcript tagged_hash as_bytes
check_origin-IsSigned_example =
    check_origin-IsSigned toy (session 1) (some sender_hex) false (104 ∷ 105 ∷ []) trailer_process
      checked.1 refl refl

-- A full chunk of zeros, and two bytes of the header behind it.
abbrev zeros : Bytes
zeros = replicate 65536 0

abbrev truncated : Bytes
truncated = wire_prefix toy (session 2) 0 (zeros ∷ []) ++ (0 ∷ 1 ∷ [])

abbrev truncated_process : World
truncated_process = process (chunk truncated ∷ []) []

decrypt_loop_truncated_example :
    (u : World) × (decrypt_loop toy
        (suc (length (content truncated_process.stdin)))
        false
        (session 2)
        0
        []
        spooler
        truncated_process
      ≡ (err premature_eof, u))
decrypt_loop_truncated_example =
    let size = length-append (wire_prefix toy (session 2) 0 (zeros ∷ [])) (0 ∷ 1 ∷ []) in
    let full = length-replicate {A = ℕ} 65536 0 in
    let small = length-append zeros [] in
    decrypt_loop_truncated toy toy-IsAead (session 2) false
      (suc (length (content truncated_process.stdin))) 0 (zeros ∷ []) (0 ∷ 1 ∷ []) [] spooler []
      truncated_process (omega (arith, size), tt) (append-nil truncated) (omega arith) (full, tt)
      (omega arith) (inl (record { closed = refl; buffer = refl; counter = refl })) refl refl
      (omega (arith, full, small)) (record { opens = refl; room = refl }) (omega arith)

-- The zeros are no key, and their hash is one.
rehash_enough_example :
    (j : ℕ) × (j ≤ 1)
    × (rehash toy 2 (replicate 32 0) ≡ ok (mixed_after toy j (replicate 32 0)))
    × (is_bad toy (mixed_after toy j (replicate 32 0)) ≡ false)
unfolding tagged_hash as_bytes digest mix fit key_of is_key is_err
rehash_enough_example = rehash_enough toy 1 2 (replicate 32 0) refl (omega arith)

decrypt_loop-emit_example :
    (rest : Reader) × (decrypt_loop toy
        (suc (length (content chunk_process.stdin)))
        true
        (session 1)
        0
        []
        spooler
        chunk_process
      ≡ (ok (104 ∷ 105 ∷ [], spooler), emit (104 ∷ 105 ∷ []) (with_stdin rest chunk_process)))
    × (content rest ≡ 7 ∷ 8 ∷ 9 ∷ [])
    × IsClean false rest
decrypt_loop-emit_example =
    let first = sealed toy (1 ∷ []) 1 recipient_key 0 1 (104 ∷ 105 ∷ []) in
    let size = length-append first (7 ∷ 8 ∷ 9 ∷ []) in
    decrypt_loop-emit toy toy-IsAead (session 1) false (suc (length (content chunk_process.stdin)))
      0 (104 ∷ 105 ∷ []) [] [] spooler (7 ∷ 8 ∷ 9 ∷ []) chunk_process (omega arith) (omega arith)
      refl (omega (arith, size), tt) (append-nil (first ++ (7 ∷ 8 ∷ 9 ∷ []))) (omega arith)
