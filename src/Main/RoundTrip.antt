-- ===== src/Main/RoundTrip.antt =====
-- The command lines of `sign --armor` and `verify`, one after the other.
use pipek.Prelude.{
  ℕ, ◌≡◌, refl, ap, sym, ◌∙◌, true, false, none, some, String, [], ◌∷◌, ◌++◌, List, subst, Result,
  ok, err, stuck, length,
}
use pipek.Prelude.Bytes.{Bytes}
use pipek.Prelude.Text.{contains}
use pipek.Error.{Pipek1Error}
use pipek.Io.Input.{content, IsClean}
use pipek.World.{World}
use pipek.World.Files.{fs_read}
use pipek.Crypto.{Crypto, IsAead, IsHash, IsSchnorr, IsBase64}
use pipek.Keys.Sources.{load_secret_key-keeps}
use pipek.Keys.{no_key_args, parse_key_bytes, load_secret_key}
use pipek.Options.{scan}
use pipek.Commands.{sign, verify}
use pipek.Commands.Absorb.{Fits}
use pipek.Commands.RoundTrip.{Signed, sign-Signed, verify-Signed}
use pipek.Cli.{key_meaning, sign_meaning, verify_meaning, parse_key_intake_args, dispatch_command}
use pipek.Main.{base_name, is_git_invocation, exit_of, real_main}

abbrev pub sign_line : String → List String
sign_line exe = exe ∷ "sign" ∷ "--armor" ∷ []

abbrev pub verify_line : String → String → String → List String
verify_line exe path exp = exe ∷ "verify" ∷ "--sig" ∷ path ∷ "--pub" ∷ exp ∷ "--pass-through" ∷ []

pub exit_of-ok :
    (out : Result Pipek1Error (Unit {0}) × World)
    → out.0 ≡ ok tt
    → ((exit_of out).0 ≡ some 0) × ((exit_of out).1 ≡ out.1)
exit_of-ok (ok u, w) h = (refl, refl)
exit_of-ok (err e, w) h = cc
exit_of-ok (stuck, w) h = cc

module _ (C : Crypto) (fuel : ℕ) where
  sign_line-sign :
      (exe : String) (w : World)
      → contains "git-shim" (base_name exe) ≡ false
      → real_main C fuel (sign_line exe) w ≡ exit_of (sign C true no_key_args w)
  unfolding real_main is_git_invocation dispatch_command scan key_meaning sign_meaning
      parse_key_intake_args
  sign_line-sign exe w h = rw h refl

  verify_line-verify :
      (exe path exp : String) (w : World)
      → contains "git-shim" (base_name exe) ≡ false
      → real_main C fuel (verify_line exe path exp) w
        ≡ exit_of (
            verify C
              (record {
                sig_path = some path;
                expected_pub = some exp;
                max_size = none;
                pass_through = true;
              })
              w)
  unfolding real_main is_git_invocation dispatch_command scan key_meaning verify_meaning
      parse_key_intake_args
  verify_line-verify exe path exp w h = rw h refl

  -- A process with a valid key and a clock signs its working input by `sign --armor`, into an empty
  -- output. Another with the same working input, a file with what the first one wrote, the signer's
  -- public key as `--pub` and a working disk runs `verify --sig --pub --pass-through`, neither
  -- being called by a name for the git shim. Then both exit with 0, and the second has written
  -- exactly the input.
  pub verify_line-sign_line :
      (A : IsAead C) (S : IsSchnorr C) (H : IsHash C) (B : IsBase64 C) (exe path exp : String)
      (sk : Bytes) (key : C.SigningKey) (seconds : ℕ) (w v : World)
      → contains "git-shim" (base_name exe) ≡ false
      → (load_secret_key C no_key_args w).0 ≡ ok sk
      → C.signing_key sk ≡ ok key
      → IsClean false w.stdin
      → w.clock ≡ some seconds
      → w.stdout.room ≡ none
      → w.stdout.bytes ≡ []
      → IsClean false v.stdin
      → content v.stdin ≡ content w.stdin
      → fs_read path v ≡ (ok (real_main C fuel (sign_line exe) w).1.stdout.bytes, v)
      → parse_key_bytes C exp ≡ ok (C.public_bytes key)
      → Fits none true (length (content v.stdin)) v
      → v.stdout.room ≡ none
      → let verified = real_main C fuel (verify_line exe path exp) v in
        ((real_main C fuel (sign_line exe) w).0 ≡ some 0)
        × (verified.0 ≡ some 0)
        × (verified.1.stdout.bytes ≡ v.stdout.bytes ++ content w.stdin)
  verify_line-sign_line A S H B exe path exp sk key seconds w v name loaded valid clean clock room
        empty clean' same found parsed fits room' =
      let u : World = (load_secret_key C no_key_args w).1 in
      let keeps = load_secret_key-keeps C no_key_args w in
      let input : u.stdin ≡ w.stdin = ap (λ t. t.stdin) keeps in
      let out : u.stdout ≡ w.stdout = ap (λ t. t.stdout) keeps in
      let (text, signed, s) =
        sign-Signed C A S H B no_key_args sk key seconds w u (ap (λ r. (r, u)) loaded) valid
          (rw input clean) (ap (λ t. t.clock) keeps ∙ clock) (ap (λ t. t.room) out ∙ room) in
      let run = sign_line-sign exe w name ∙ ap exit_of signed in
      let written : (real_main C fuel (sign_line exe) w).1.stdout.bytes ≡ text =
        ap (λ p. p.1.stdout.bytes) run
        ∙ ap (λ t. t.bytes ++ text) out
        ∙ ap (λ t. t ++ text) empty in
      let (accepted, passed) =
        verify-Signed C A S H B key text path exp none true v clean'
          (subst (λ m. Signed C key m text) (ap content input ∙ sym same) s)
          (found ∙ ap (λ t. (ok t, v)) written) parsed fits room' in
      let (code, world) =
        exit_of-ok
          (verify C
            (record {
              sig_path = some path;
              expected_pub = some exp;
              max_size = none;
              pass_through = true;
            })
            v)
          accepted in
      (
        ap (λ p. p.0) run,
        ap (λ p. p.0) (verify_line-verify exe path exp v name) ∙ code,
        ap (λ p. p.1.stdout.bytes) (verify_line-verify exe path exp v name)
            ∙ ap (λ t. t.stdout.bytes) world
            ∙ passed
            ∙ ap (λ t. v.stdout.bytes ++ t) same,
      )
