-- ===== src/Main/Pipeline.antt =====
-- The command lines by which a stream is encrypted by its sender and decrypted by its recipient.
use pipek.Prelude.{
  ℕ, ◌+◌, ◌<◌, ◌≡◌, refl, ◌∙◌, ap, false, none, some, String, [], ◌∷◌, ◌++◌, List, Bool, Result, ok,
  err, stuck, length,
}
use pipek.Prelude.Text.{contains, parse_unsigned}
use pipek.Prelude.Bytes.{Bytes}
use pipek.Io.Input.{content, IsClean}
use pipek.Error.{Pipek1Error}
use pipek.World.{World, random_bytes, eprintln}
use pipek.Crypto.{Crypto, IsAead, IsHash, IsSchnorr, IsDiffieHellman}
use pipek.Keys.{KeyIntakeArgs, no_key_args, parse_key_bytes, load_secret_key}
use pipek.Spool.State.{DiskWorks}
use pipek.Encrypt.{run_encrypt, sender_key}
use pipek.Decrypt.{run_decrypt}
use pipek.Decrypt.RoundTrip.{decrypt-encrypt}
use pipek.Options.{at_end, scan}
use pipek.Cli.{
  key_meaning, parse_key_intake_args, no_encrypt_args, encrypt_meaning, no_decrypt_args,
  decrypt_meaning, encrypt_command, decrypt_command, dispatch_command,
}
use pipek.Cli.Encrypt.{same_or_other}
use pipek.Main.{base_name, is_git_invocation, exit_of, real_main}
use pipek.Main.RoundTrip.{exit_of-ok}

abbrev pub encrypt_line : String → String → List String
encrypt_line exe recip = exe ∷ "encrypt" ∷ "--mode" ∷ "1" ∷ "--recipient" ∷ recip ∷ []

abbrev pub decrypt_line : String → String → List String
decrypt_line exe exp = exe ∷ "decrypt" ∷ "--sender" ∷ exp ∷ []

-- A last argument is no key option with a value.
last_key : (a : String) (k : KeyIntakeArgs) → at_end key_meaning (key_meaning a) k ≡ k
unfolding key_meaning
last_key a k =
    let P : String → Type 0 = λ s. at_end key_meaning (key_meaning s) k ≡ k in
    same_or_other P a "--sec-fd" refl λ e1. same_or_other P a "--sec-file" refl λ e2.
      same_or_other P a "--mnemonic-fd" refl λ e3. same_or_other P a "--passphrase-fd" refl λ e4.
        same_or_other P a "--bip85-identity" refl
          λ e5. same_or_other P a "--bip85-index" refl λ e6. rw (e1, e2, e3, e4, e5, e6) refl

keys_of-encrypt :
    (recip : String)
    → parse_key_intake_args ("--mode" ∷ "1" ∷ "--recipient" ∷ recip ∷ []) ≡ no_key_args
unfolding parse_key_intake_args scan key_meaning
keys_of-encrypt recip = last_key recip no_key_args

keys_of-decrypt : (exp : String) → parse_key_intake_args ("--sender" ∷ exp ∷ []) ≡ no_key_args
unfolding parse_key_intake_args scan key_meaning
keys_of-decrypt exp = last_key exp no_key_args

options_of-encrypt :
    (recip : String)
    → scan encrypt_meaning ("--mode" ∷ "1" ∷ "--recipient" ∷ recip ∷ []) no_encrypt_args
      ≡ record { recipient = some recip; mode = 1; entropy_fd = none }
unfolding scan encrypt_meaning parse_unsigned
options_of-encrypt recip = refl

options_of-decrypt :
    (exp : String)
    → scan decrypt_meaning ("--sender" ∷ exp ∷ []) no_decrypt_args ≡ record {
      sender = some exp;
      allow_untrusted = false;
      allow_unverified = false;
      max_size = none;
    }
unfolding scan decrypt_meaning
options_of-decrypt exp = refl

module _ (C : Crypto) (fuel : ℕ) where
  encrypt_line-run :
      (exe recip : String) (w : World)
      → contains "git-shim" (base_name exe) ≡ false
      → real_main C fuel (encrypt_line exe recip) w
        ≡ exit_of (run_encrypt C fuel recip 1 no_key_args none w)
  unfolding real_main is_git_invocation dispatch_command encrypt_command
  encrypt_line-run exe recip w h = rw (h, keys_of-encrypt recip, options_of-encrypt recip) refl

  decrypt_line-run :
      (exe exp : String) (w : World)
      → contains "git-shim" (base_name exe) ≡ false
      → real_main C fuel (decrypt_line exe exp) w
        ≡ exit_of (run_decrypt C (some exp) false false none no_key_args w)
  unfolding real_main is_git_invocation dispatch_command decrypt_command
  decrypt_line-run exe exp w h = rw (h, keys_of-decrypt exp, options_of-decrypt exp) refl

  sender_key-loaded :
      (sk : Bytes) (key : C.SigningKey) (w w' : World)
      → load_secret_key C no_key_args w ≡ (ok sk, w')
      → C.signing_key sk ≡ ok key
      → sender_key C 1 no_key_args w ≡ (ok (some key), w')
  unfolding sender_key
  sender_key-loaded sk key w w' loaded valid = rw (loaded, valid) refl

-- The exit leaves standard output as it was.
exit_of-stdout :
    (out : Result Pipek1Error (Unit {0}) × World) → (exit_of out).1.stdout ≡ out.1.stdout
unfolding eprintln
exit_of-stdout (ok u, w) = refl
exit_of-stdout (err e, w) = refl
exit_of-stdout (stuck, w) = refl

module _ (C : Crypto) (A : IsAead C) (H : IsHash C) (S : IsSchnorr C) (D : IsDiffieHellman C) where
  open C use {SigningKey, signing_key, public_bytes}

  -- A sender runs `encrypt --mode 1 --recipient`, with a valid key, working streams, an empty
  -- output and an input of fewer than 2^64 - 1 bytes. The system's random bytes are a valid
  -- ephemeral key. The recipient, who has the secret key of the public key that is named, runs
  -- `decrypt --sender` with the sender's public key on what the first one wrote, with working
  -- streams and a working disk. Neither is called by a name for the git shim. Then both exit with
  -- 0, and the second has written exactly the input of the first.
  pub decrypt_line-encrypt_line :
      (signals : Bool) (fuel : ℕ) (exe recip exp : String) (sk priv : Bytes)
      (key kr ke : SigningKey) (w w' v v' : World)
      → contains "git-shim" (base_name exe) ≡ false
      → parse_key_bytes C recip ≡ ok (public_bytes kr)
      → signing_key priv ≡ ok kr
      → signing_key (random_bytes 32 w.drawn w.rng) ≡ ok ke
      → load_secret_key C no_key_args (record w { drawn = w.drawn + 32 + 11 }) ≡ (ok sk, w')
      → signing_key sk ≡ ok key
      → parse_key_bytes C exp ≡ ok (public_bytes key)
      → IsClean signals w.stdin
      → length (content w.stdin) + 1 < 18446744073709551616
      → w.stdout.room ≡ none
      → w.stdout.bytes ≡ []
      → load_secret_key C no_key_args v ≡ (ok priv, v')
      → IsClean false v.stdin
      → content v.stdin ≡ (real_main C fuel (encrypt_line exe recip) w).1.stdout.bytes
      → DiskWorks v'
      → v.stdout.room ≡ none
      → let decrypted = real_main C fuel (decrypt_line exe exp) v in
        ((real_main C fuel (encrypt_line exe recip) w).0 ≡ some 0)
        × (decrypted.0 ≡ some 0)
        × (decrypted.1.stdout.bytes ≡ v.stdout.bytes ++ content w.stdin)
  decrypt_line-encrypt_line signals fuel exe recip exp sk priv key kr ke w w' v v' plain parsed
        key_r key_e sender valid expected clean few room nothing loaded clean_v input works room_v =
      let enc = encrypt_line-run C fuel exe recip w plain in
      let dec = decrypt_line-run C fuel exe exp v plain in
      let sent = run_encrypt C fuel recip 1 no_key_args none w in
      let got = run_decrypt C (some exp) false false none no_key_args v in
      let through : content v.stdin ≡ sent.1.stdout.bytes =
        input ∙ ap (λ o. o.1.stdout.bytes) enc ∙ ap (λ o. o.bytes) (exit_of-stdout sent) in
      let (done, done', bytes) =
        decrypt-encrypt C A H S D signals fuel recip 1 no_key_args no_key_args (some exp) false none
          priv kr ke (some key) w w' v v' parsed key_r key_e
          (sender_key-loaded C fuel sk key _ w' sender valid) clean few room nothing loaded
          (refl, expected) clean_v through refl works room_v in
      (
        ap (λ o. o.0) enc ∙ (exit_of-ok sent done).0,
        ap (λ o. o.0) dec ∙ (exit_of-ok got done').0,
        ap (λ o. o.1.stdout.bytes) dec ∙ ap (λ o. o.bytes) (exit_of-stdout got) ∙ bytes,
      )
