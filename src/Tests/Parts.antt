-- ===== src/Tests/Parts.antt =====
-- Examples of the theorems about the parts.
use pipek.Prelude.{
  ℕ, ◌+◌, ◌%◌, ◌≤◌, ◌≡◌, refl, true, false, Option, none, some, [], ◌∷◌, ◌++◌, ok, arith, length,
  replicate, slice, get_or, map_err_of, ◌>>=◌, ◌⊎◌, inl,
}
use pipek.Prelude.Bytes.{Bytes, from_be32}
use pipek.Prelude.Text.{as_bytes}
use pipek.Io.{Reader, fill_buffer}
use pipek.Io.Input.{content, IsClean, fill_buffer-take}
use pipek.World.{World}
use pipek.World.Laws.{emit}
use pipek.Crypto.Toy.{toy, toy-IsAead, toy-IsHash, toy-IsSchnorr, fit, mix, digest}
use pipek.Wire.{magic_signature, tag_sign, tag_sign_legacy, tagged_hash}
use pipek.Wire.Layout.{build_nonce-injective}
use pipek.Signature.{ts_and_digest, payload_of, sign_stream_payload, verify_stream_payload}
use pipek.Signature.RoundTrip.{verify-sign, verify_sound}
use pipek.Keys.{no_key_args, load_secret_key, scrub_all_sensitive_env}
use pipek.Keys.Sources.{OnlyFds, OnlyUsage, load_secret_key-scrubs}
use pipek.Keys.Sizes.{IsSized, load_secret_key-IsSized}
use pipek.Keys.Scrub.{Hidden, load_secret_key-Hidden}
use pipek.Spool.{StreamSpooler, new, write_chunk, release_to, exceeds}
use pipek.Spool.State.{Holds}
use pipek.Spool.Traces.{OnlyDisk, NoNewFile, write_chunk-NoNewFile}
use pipek.Spool.Write.{write_chunk-Holds}
use pipek.Spool.Limits.{write_chunk_bounds}
use pipek.Spool.RoundTrip.{write_chunks, release-write_chunks}
use pipek.Tests.{process, greeting, sender_secret, sender_environ}

abbrev idle : World
idle = process [] []

abbrev spooler : Option ℕ → Bytes → StreamSpooler
spooler max held = record {
  mem_buffer = held;
  disk_file = none;
  spool_key = replicate 32 3;
  block_counter = 0;
  total_bytes = length held;
  max_size = max;
}

release-write_chunks_example :
    (do
      s ← new (some 5)
      t ← write_chunks toy ((1 ∷ 2 ∷ []) ∷ (3 ∷ []) ∷ []) s
      map_err_of (λ e. e.message) (release_to toy t))
      idle
    ≡ (ok tt, emit (1 ∷ 2 ∷ 3 ∷ []) (record idle { drawn = 32 }))
release-write_chunks_example =
    release-write_chunks toy toy-IsAead (some 5) ((1 ∷ 2 ∷ []) ∷ (3 ∷ []) ∷ []) idle refl
      (omega arith) (record { opens = refl; room = refl }) refl

write_chunk-Holds_example :
    (s' : StreamSpooler) × (write_chunk toy (3 ∷ []) (spooler (some 5) (1 ∷ 2 ∷ [])) idle
      ≡ (ok s', idle))
    × Holds toy s' (1 ∷ 2 ∷ 3 ∷ [])
    × (s'.total_bytes ≡ 3)
    × (s'.max_size ≡ some 5)
write_chunk-Holds_example =
    write_chunk-Holds toy toy-IsAead (3 ∷ []) (spooler (some 5) (1 ∷ 2 ∷ [])) (1 ∷ 2 ∷ []) idle
      (inl (record { closed = refl; buffer = refl; counter = refl })) refl refl (omega arith)
      (record { opens = refl; room = refl })

-- No `O_TMPFILE`, and a file that is as large as to be spilled.
abbrev shared_disk : World
shared_disk = record idle { o_tmpfile = λ dir. false; files = ("/tmp/notes", ok (1 ∷ [])) ∷ [] }

write_chunk-NoNewFile_example :
    let after = (write_chunk toy (replicate 16777217 3) (spooler none []) shared_disk).1 in
    OnlyDisk shared_disk after × NoNewFile shared_disk after
write_chunk-NoNewFile_example =
    write_chunk-NoNewFile toy (replicate 16777217 3) (spooler none []) shared_disk λ p. refl

abbrev after : StreamSpooler
after = spooler (some 5) (1 ∷ 2 ∷ 3 ∷ [])

write_chunk_bounds_example :
    (length after.mem_buffer ≤ 16777216)
    × (after.total_bytes ≡ (2 + 1) % 18446744073709551616)
    × (after.max_size ≡ some 5)
    × (exceeds after.max_size after.total_bytes ≡ false)
unfolding write_chunk
write_chunk_bounds_example =
    write_chunk_bounds toy (3 ∷ []) (spooler (some 5) (1 ∷ 2 ∷ [])) after idle idle refl

load_secret_key-Hidden_example :
    Hidden (load_secret_key toy no_key_args (process [] sender_environ)).1.environ
load_secret_key-Hidden_example = load_secret_key-Hidden toy no_key_args (process [] sender_environ)

load_secret_key-scrubs_example :
    OnlyFds
      (scrub_all_sensitive_env (process [] sender_environ))
      (load_secret_key toy no_key_args (process [] sender_environ)).1
    × OnlyUsage (load_secret_key toy no_key_args (process [] sender_environ)).0
load_secret_key-scrubs_example = load_secret_key-scrubs toy no_key_args (process [] sender_environ)

verify-sign_example :
    (payload : Bytes) × (sign_stream_payload toy sender_secret (replicate 32 6) 1750000000
      ≡ ok payload)
    × (length payload ≡ 105)
    × (verify_stream_payload toy payload (replicate 32 6) ≡ ok (fit 32 sender_secret))
verify-sign_example =
    verify-sign toy toy-IsSchnorr toy-IsHash sender_secret (replicate 32 6) 1750000000 (omega arith)

-- A payload that the toy's verification accepts.
abbrev payload : Bytes
payload =
    payload_of 5 sender_secret
      (fit 64 (sender_secret ++ tagged_hash toy tag_sign (ts_and_digest 5 (replicate 32 6))))

verify_sound_example :
    (v : Bytes) × (s : Bytes) × (slice 0 4 payload ≡ magic_signature)
    × (get_or payload 4 0 ≡ 1)
    × (sender_secret ≡ slice 9 41 payload)
    × (toy.verifying_key sender_secret ≡ ok v)
    × (toy.signature (slice 41 105 payload) ≡ ok s)
    × let m = ts_and_digest (from_be32 (slice 5 9 payload)) (replicate 32 6) in
      ((toy.verify_raw v (tagged_hash toy tag_sign m) s ≡ ok tt)
        ⊎ (toy.verify_raw v (tagged_hash toy tag_sign_legacy m) s ≡ ok tt))
unfolding verify_stream_payload payload_of ts_and_digest tagged_hash as_bytes fit mix digest
verify_sound_example = verify_sound toy payload (replicate 32 6) sender_secret refl

build_nonce-injective_example : (◌≡◌ {A = ℕ} 7 7) × (◌≡◌ {A = ℕ} 1 1)
build_nonce-injective_example = build_nonce-injective 7 7 1 1 (omega arith) (omega arith) refl

fill_buffer-take_example :
    (rest : Reader) × (fill_buffer 2 greeting ≡ (ok (104 ∷ 105 ∷ []), rest))
    × (content rest ≡ 33 ∷ [])
    × IsClean true rest
fill_buffer-take_example =
    fill_buffer-take true 2 greeting (omega arith, (refl, refl, (omega arith, tt)))

load_secret_key-IsSized_example :
    IsSized (load_secret_key toy no_key_args (process [] sender_environ)).0
load_secret_key-IsSized_example =
    load_secret_key-IsSized toy toy-IsHash no_key_args (process [] sender_environ)
