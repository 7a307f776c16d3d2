-- ===== src/Tests/Lines.antt =====
-- Command lines of two processes, and examples of the theorems about the commands.
use pipek.Prelude.{◌≡◌, refl, String, false, some, [], ◌∷◌, ok, arith, List}
use pipek.Prelude.Text.{as_bytes, contains, trim, strip_prefix, env_lookup}
use pipek.Io.{chunk, Reader}
use pipek.World.{World}
use pipek.World.Files.{remove_var, zero_entry, find_file, fs_read}
use pipek.World.Laws.{with_stdin}
use pipek.Crypto.Toy.{
  toy, toy-IsAead, toy-IsHash, toy-IsSchnorr, toy-IsBase64, fit, is_key, nibble, join, hex_pairs,
  or_invalid, key_of,
}
use pipek.Keys.{
  no_key_args, parse_key_bytes, load_secret_key, scrub_env_var, scrub_all_sensitive_env,
}
use pipek.Spool.State.{DiskWorks}
use pipek.Signers.Paths.{resolve_allowed_signers}
use pipek.Shim.{find_identity}
use pipek.Shim.Status.{good_status}
use pipek.Main.{base_name, base_name_from, real_main}
use pipek.Main.RoundTrip.{sign_line, verify_line, verify_line-sign_line}
use pipek.Main.GitLines.{git_sign_line, git_verify_line}
use pipek.Main.GitSound.{IsAccepted, git_verify_line_sound}
use pipek.Prelude.Bytes.{Bytes}
use pipek.Main.Git.{git_verify_line-git_sign_line}
use pipek.Tests.{process, sender_secret, sender_hex, sender_environ}

abbrev pub program : String
program = "/usr/bin/pipe-k1"

-- The signer reads "hi", and so do the verifiers, in two reads.
abbrev signer : World
signer = process (chunk (104 ∷ 105 ∷ []) ∷ []) sender_environ

abbrev signature_file : List String → World
signature_file line = record (process (chunk (104 ∷ []) ∷ chunk (105 ∷ []) ∷ []) []) {
  files = ("hi.sig", ok (real_main toy 0 line signer).1.stdout.bytes) ∷ [];
}

abbrev verifier : World
verifier = signature_file (sign_line program)

abbrev git_verifier : World
git_verifier = signature_file (git_sign_line program sender_hex)

key_loaded : (load_secret_key toy no_key_args signer).0 ≡ ok sender_secret
unfolding load_secret_key parse_key_bytes scrub_env_var scrub_all_sensitive_env fit is_key nibble
    join hex_pairs or_invalid key_of trim strip_prefix env_lookup remove_var zero_entry
key_loaded = refl

key_valid : key_of sender_secret ≡ ok sender_secret
unfolding key_of is_key
key_valid = refl

parsed_key : parse_key_bytes toy sender_hex ≡ ok (fit 32 sender_secret)
unfolding parse_key_bytes fit nibble join hex_pairs or_invalid trim
parsed_key = refl

plain_name : contains "git-shim" (base_name program) ≡ false
unfolding contains base_name_from
plain_name = refl

found_file :
    fs_read "hi.sig" verifier
    ≡ (ok (real_main toy 0 (sign_line program) signer).1.stdout.bytes, verifier)
unfolding fs_read find_file
found_file = refl

found_git_file :
    fs_read "hi.sig" git_verifier
    ≡ (ok (real_main toy 0 (git_sign_line program sender_hex) signer).1.stdout.bytes, git_verifier)
unfolding fs_read find_file
found_git_file = refl

disk : DiskWorks verifier
disk = record { opens = refl; room = refl }

verify_line-sign_line_example :
    ((real_main toy 0 (sign_line program) signer).0 ≡ some 0)
    × ((real_main toy 0 (verify_line program "hi.sig" sender_hex) verifier).0 ≡ some 0)
    × ((real_main toy 0 (verify_line program "hi.sig" sender_hex) verifier).1.stdout.bytes
        ≡ 104 ∷ 105 ∷ [])
verify_line-sign_line_example =
    verify_line-sign_line toy 0 toy-IsAead toy-IsSchnorr toy-IsHash toy-IsBase64 program "hi.sig"
      sender_hex sender_secret sender_secret 1750000000 signer verifier plain_name key_loaded
      key_valid (omega arith, tt) refl refl refl (omega arith, (omega arith, tt)) refl found_file
      parsed_key (refl, omega arith, disk) refl

git_verify_line-git_sign_line_example :
    (rest : Reader) × (((real_main toy 0 (git_sign_line program sender_hex) signer).0 ≡ some 0)
      × ((real_main toy 0 (git_verify_line program "hi.sig") git_verifier).0 ≡ some 0)
      × ((real_main toy 0 (git_verify_line program "hi.sig") git_verifier).1.stdout.bytes
          ≡ as_bytes (
              good_status toy (fit 32 sender_secret) 1750000000 (
                find_identity
                  (fit 32 sender_secret)
                  (resolve_allowed_signers toy (with_stdin rest git_verifier))))))
git_verify_line-git_sign_line_example =
    git_verify_line-git_sign_line toy toy-IsSchnorr toy-IsHash toy-IsBase64 0 false program "hi.sig"
      sender_hex sender_secret sender_secret 1750000000 signer git_verifier key_loaded key_valid
      parsed_key (omega arith, tt) refl refl refl (omega arith, (omega arith, tt)) refl
      found_git_file refl

git_accepts : (real_main toy 0 (git_verify_line program "hi.sig") git_verifier).0 ≡ some 0
git_accepts =
    (git_verify_line-git_sign_line toy toy-IsSchnorr toy-IsHash toy-IsBase64 0 false program
      "hi.sig" sender_hex sender_secret sender_secret 1750000000 signer git_verifier key_loaded
      key_valid parsed_key (omega arith, tt) refl refl refl (omega arith, (omega arith, tt)) refl
      found_git_file refl).1.1

git_verify_line_sound_example :
    (written : Bytes) × ((real_main toy 0
        (git_verify_line program "hi.sig")
        git_verifier).1.stdout.bytes
      ≡ written)
    × IsAccepted toy "hi.sig" git_verifier written
git_verify_line_sound_example =
    git_verify_line_sound toy 0 program "hi.sig" git_verifier refl git_accepts
