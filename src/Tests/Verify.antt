-- ===== src/Tests/Verify.antt =====
-- A signature file that is not armored, and examples of the theorems about verification.
use pipek.Error.{Pipek1Error}
use pipek.Prelude.{
  ℕ, length, Result, ◌≡◌, ◌≢◌, refl, false, none, some, [], ◌∷◌, ◌++◌, ok, arith, Option, IsDone,
  subst, sym, ◌∙◌, ◌==◌, ◌⊎◌,
}
use pipek.Prelude.Bytes.{Bytes}
use pipek.Prelude.Text.{as_bytes, contains, from_utf8, trim}
use pipek.Io.{chunk, read, read_rest}
use pipek.World.{World, stdin_read, stdin_read_to_end}
use pipek.World.Files.{find_file, fs_read}
use pipek.World.Laws.{with_stdin}
use pipek.Wire.{tag_sign, tagged_hash}
use pipek.Crypto.Toy.{toy, toy-IsAead, fit, mix, digest, nibble, join, hex_pairs, or_invalid}
use pipek.Keys.{parse_key_bytes}
use pipek.Signature.{ts_and_digest, payload_of, verify_stream_payload}
use pipek.Spool.{StreamSpooler}
use pipek.Armor.{is_armored, is_begin, detach_armor}
use pipek.Shim.{read_data}
use pipek.Commands.{
  VerifyArgs, spool_chunk, absorb_loop, absorb, read_signature, new_spooler, check_expected,
  verify_input, release, verify,
}
use pipek.Main.{real_main}
use pipek.Main.GitLines.{git_verify_line}
use pipek.Main.Malformed.{git_verify_line_unusable, unusable_status}
use pipek.Commands.Release.{verify-withholds}
use pipek.Commands.Sound.{Verified, verify_input-Verified}
use pipek.Commands.Absorb.{Tracks, absorb-content}
use pipek.Tests.{process, sender_secret, sender_hex}

-- The signature of "hi" by the sender at second 1750000000.
abbrev signed : Bytes
signed = payload_of 1750000000 (fit 32 sender_secret) (
    fit 64 (
      fit 32 sender_secret
      ++ tagged_hash toy tag_sign (ts_and_digest 1750000000 (digest 32 (104 ∷ 105 ∷ [])))))

abbrev verifier : World
verifier = record (process (chunk (104 ∷ []) ∷ chunk (105 ∷ []) ∷ []) []) {
  files = ("hi.sig", ok signed) ∷ [];
}

abbrev options : VerifyArgs
options = record {
  sig_path = some "hi.sig";
  expected_pub = some sender_hex;
  max_size = none;
  pass_through = false;
}

accepted :
    verify_input toy options verifier ≡ (ok (fit 32 sender_secret, none), with_stdin [] verifier)
unfolding verify_input read_signature detach_armor new_spooler absorb absorb_loop spool_chunk
    check_expected stdin_read read fs_read find_file from_utf8 is_armored is_begin contains
    verify_stream_payload payload_of ts_and_digest tagged_hash as_bytes parse_key_bytes trim fit mix
    digest nibble join hex_pairs or_invalid
accepted = refl

verify_input-Verified_example :
    Verified toy options (104 ∷ 105 ∷ []) (fit 32 sender_secret) verifier
    × Tracks toy none false none (104 ∷ 105 ∷ [])
verify_input-Verified_example =
    verify_input-Verified toy toy-IsAead options verifier (with_stdin [] verifier)
      (fit 32 sender_secret) none (omega arith, (omega arith, tt)) tt accepted

verify-withholds_example :
    let run = verify toy options verifier in
    ((run.0 ≢ ok tt) × (run.1.stdout ≡ verifier.stdout))
    ⊎ ((pk : Bytes) × (o : Option StreamSpooler) × (v : World) × (verify_input toy options verifier
          ≡ (ok (pk, o), v))
        × (v.stdout ≡ verifier.stdout)
        × (run ≡ release toy pk o v))
verify-withholds_example = verify-withholds toy options verifier

input_read : read_data "-" verifier ≡ (ok (104 ∷ 105 ∷ []), with_stdin [] verifier)
unfolding read_data stdin_read_to_end read_rest
input_read = refl

absorb-content_example :
    (t : Option StreamSpooler) × (absorb toy none verifier
      ≡ (ok (104 ∷ 105 ∷ [], t), with_stdin [] verifier))
    × Tracks toy none false t (104 ∷ 105 ∷ [])
absorb-content_example =
    absorb-content toy toy-IsAead none false none verifier (omega arith, (omega arith, tt)) refl tt

-- The signature file was cut off.
abbrev cut_off : World
cut_off = record verifier { files = ("hi.sig", ok (80 ∷ 75 ∷ 83 ∷ [])) ∷ [] }

cut_off_found : fs_read "hi.sig" cut_off ≡ (ok (80 ∷ 75 ∷ 83 ∷ []), cut_off)
unfolding fs_read find_file
cut_off_found = refl

cut_off_plain : detach_armor toy (80 ∷ 75 ∷ 83 ∷ []) ≡ ok (80 ∷ 75 ∷ 83 ∷ [])
unfolding detach_armor from_utf8 is_armored is_begin contains
cut_off_plain = refl

abbrev unwrapped : Result Pipek1Error Bytes → ℕ
unwrapped (ok payload) = length payload
unwrapped _ = 0

cut_off_short :
    (payload : Bytes)
    → detach_armor toy (80 ∷ 75 ∷ 83 ∷ []) ≡ ok payload
    → (length payload == 105) ≡ false
cut_off_short payload e = subst (λ r. (unwrapped r == 105) ≡ false) (sym cut_off_plain ∙ e) refl

git_verify_line_unusable_example :
    let run = real_main toy 0 (git_verify_line "/usr/bin/pipe-k1" "hi.sig") cut_off in
    (run.0 ≡ some 1)
    × (run.1.stdout.bytes ≡ as_bytes (unusable_status (detach_armor toy (80 ∷ 75 ∷ 83 ∷ []))))
    × (run.1.stdin ≡ cut_off.stdin)
git_verify_line_unusable_example =
    git_verify_line_unusable toy 0 "/usr/bin/pipe-k1" "hi.sig" (80 ∷ 75 ∷ 83 ∷ []) cut_off
      cut_off_found (subst IsDone (sym cut_off_plain) tt) cut_off_short refl
