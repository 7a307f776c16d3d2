-- ===== src/Cli.antt =====
-- The command line of rust/src/main.rs: `parse_key_intake_args`, `print_usage`, `dispatch_command` and
-- `real_main`.
pub mod Encrypt
use Prim.Native.Char.{code}
use Prim.Native.String
use pipek.Prelude.{
  ℕ, String, ◌<>◌, Bool, true, false, ◌||◌, Option, none, some, List, [], ◌∷◌, Result, ok, err,
  stuck, str_eq, starts_with, ◌==◌, if◌then◌else◌, fail, lift, ◌>>=◌, ◌>>◌,
}
use pipek.Prelude.Int.{ℤ}
use pipek.Prelude.Text.{parse_i32, parse_unsigned, contains}
use pipek.Error.{Pipek1Error, usage_error, display, exit_code}
use pipek.World.{World, Io, eprintln}
use pipek.Crypto.{Crypto}
use pipek.Wire.{tag_sign}
use pipek.Keys.{KeyIntakeArgs, no_key_args, unwrap_or}
use pipek.Encrypt.{run_encrypt}
use pipek.Decrypt.{run_decrypt}
use pipek.Options.{Meaning, skip, switch, takes, scan}
use pipek.Shim.{or_usage, run_git_shim}
use pipek.Commands.{VerifyArgs, sign, verify, pubkey, hash, inspect_header, inspect_chunk}

abbrev u32_max : ℕ
u32_max = 4294967295

abbrev u64_max : ℕ
u64_max = 18446744073709551615

unfoldable pub key_meaning : String → Meaning KeyIntakeArgs
key_meaning arg =
    if str_eq arg "--sec-fd"
    then takes (λ v k. record k { sec_fd = parse_i32 v })
    else if str_eq arg "--sec-file"
    then takes (λ v k. record k { sec_file = some v })
    else if str_eq arg "--mnemonic-fd"
    then takes (λ v k. record k { mnemonic_fd = parse_i32 v })
    else if str_eq arg "--passphrase-fd"
    then takes (λ v k. record k { passphrase_fd = parse_i32 v })
    else if str_eq arg "--bip85-identity"
    then takes (λ v k. record k { bip85_identity = parse_unsigned u32_max v })
    else if str_eq arg "--bip85-index"
    then takes (λ v k. record k { bip85_index = parse_unsigned u32_max v })
    else skip

-- The arguments from the index 2 on. The index that it returns beside them is never used.
unfoldable pub parse_key_intake_args : List String → KeyIntakeArgs
parse_key_intake_args args = scan key_meaning args no_key_args

unfoldable pub print_usage : {E : Type 0} → Io E (Unit {0})
print_usage = do
  eprintln "pipe-k1 v0.1.0 - Stateless secp256k1 UNIX cryptographic stream filter"
  eprintln "Usage:"
  eprintln
      "  pipe-k1 encrypt --recipient <npub|hex> [--entropy-fd <N>]  # Authenticated stream encryption"
  eprintln
      "  pipe-k1 decrypt                                           # Spool-and-verify stream decryption"
  eprintln
      "  pipe-k1 sign [-a|--armor]                                 # Sign stdin stream using PIPE_K1_SEC_KEY env"
  eprintln
      "  pipe-k1 verify --sig <file> [--pub <npub|hex>]            # Verify stdin stream against signature file"
  eprintln
      "  pipe-k1 pubkey                                            # Display public key and npub from PIPE_K1_SEC_KEY"
  eprintln
      "  pipe-k1 hash [tag]                                        # Compute BIP-340 tagged hash over stdin"
  eprintln
      "  pipe-k1 inspect-header                                    # Parse 97-byte wire header from stdin"
  eprintln
      "  pipe-k1 inspect-chunk                                     # Parse 5-byte chunk framing header from stdin"

pub record EncryptArgs : Type 0 where
  pub recipient : Option String
  pub mode : ℕ
  pub entropy_fd : Option ℤ

-- Mode 2, the anonymous one, is the default.
abbrev pub no_encrypt_args : EncryptArgs
no_encrypt_args = record { recipient = none; mode = 2; entropy_fd = none }

unfoldable pub encrypt_meaning : String → Meaning EncryptArgs
encrypt_meaning arg =
    if str_eq arg "--recipient"
    then takes (λ v s. record s { recipient = some v })
    else if str_eq arg "--mode"
    then takes (λ v s. record s { mode = unwrap_or 2 (parse_unsigned 255 v) })
    else if str_eq arg "--entropy-fd"
    then takes (λ v s. record s { entropy_fd = parse_i32 v })
    else skip

pub record DecryptArgs : Type 0 where
  pub sender : Option String
  pub allow_untrusted : Bool
  pub allow_unverified : Bool
  pub max_size : Option ℕ

abbrev pub no_decrypt_args : DecryptArgs
no_decrypt_args = record {
  sender = none;
  allow_untrusted = false;
  allow_unverified = false;
  max_size = none;
}

unfoldable pub decrypt_meaning : String → Meaning DecryptArgs
decrypt_meaning arg =
    if str_eq arg "--sender"
    then takes (λ v s. record s { sender = some v })
    else if str_eq arg "--allow-untrusted-sender"
    then switch (λ s. record s { allow_untrusted = true })
    else if str_eq arg "--allow-unverified-stream"
    then switch (λ s. record s { allow_unverified = true })
    else if str_eq arg "--max-size"
    then takes (λ v s. record s { max_size = parse_unsigned u64_max v })
    else skip

unfoldable pub sign_meaning : String → Meaning Bool
sign_meaning arg = if str_eq arg "-a" || str_eq arg "--armor" then switch (λ armor. true) else skip

abbrev pub no_verify_args : VerifyArgs
no_verify_args = record {
  sig_path = none;
  expected_pub = none;
  max_size = none;
  pass_through = false;
}

unfoldable pub verify_meaning : String → Meaning VerifyArgs
verify_meaning arg =
    if str_eq arg "--sig"
    then takes (λ v s. record s { sig_path = some v })
    else if str_eq arg "--pub"
    then takes (λ v s. record s { expected_pub = some v })
    else if str_eq arg "--pass-through"
    then switch (λ s. record s { pass_through = true })
    else if str_eq arg "--max-size"
    then takes (λ v s. record s { max_size = parse_unsigned u64_max v })
    else skip

abbrev first_or : String → List String → String
first_or other [] = other
first_or other (arg ∷ args) = arg

module _ (C : Crypto) (fuel : ℕ) where
  unfoldable pub encrypt_command : List String → Io Pipek1Error (Unit {0})
  unfolding parse_key_intake_args
  encrypt_command args = do
    let key_args = parse_key_intake_args args
    let parsed = scan encrypt_meaning args no_encrypt_args
    recip ← lift (or_usage "Missing mandatory argument: --recipient <npub|hex>" parsed.recipient)
    run_encrypt C fuel recip parsed.mode key_args parsed.entropy_fd

  unfoldable pub decrypt_command : List String → Io Pipek1Error (Unit {0})
  unfolding parse_key_intake_args
  decrypt_command args =
      let parsed = scan decrypt_meaning args no_decrypt_args in
      run_decrypt C parsed.sender parsed.allow_untrusted parsed.allow_unverified parsed.max_size
        (parse_key_intake_args args)

  unfoldable pub unknown_command : Io Pipek1Error (Unit {0})
  unfolding print_usage
  unknown_command = do print_usage; fail (usage_error "Unknown command")

  -- The command is the argument with the index 1, and `args` are those behind it.
  unfoldable pub dispatch_command : String → List String → Io Pipek1Error (Unit {0})
  unfolding parse_key_intake_args
  dispatch_command command args =
      if str_eq command "encrypt"
      then encrypt_command args
      else if str_eq command "decrypt"
      then decrypt_command args
      else if str_eq command "pubkey"
      then pubkey C (parse_key_intake_args args)
      else if str_eq command "sign"
      then sign C (scan sign_meaning args false) (parse_key_intake_args args)
      else if str_eq command "verify"
      then verify C (scan verify_meaning args no_verify_args)
      else if str_eq command "hash"
      then hash C (first_or tag_sign args)
      else if str_eq command "inspect-header"
      then inspect_header C
      else if str_eq command "inspect-chunk"
      then inspect_chunk C
      else unknown_command
