-- ===== src/Keys.antt =====
-- Key intake of rust/src/main.rs: `parse_key_bytes`, the scrubbing of the environment, the BIP-85
-- derivation and `load_secret_key`. `set_cloexec`, `prctl` and the wiping of buffers have no part
-- in the model.
pub mod Scrub
pub mod Sources
pub mod Sizes
use pipek.Prelude.{
  ℕ, String, ◌<>◌, Bool, true, false, ◌||◌, not, Option, none, some, List, [], ◌∷◌, Result, ok, err,
  stuck, map_err, and_then, starts_with, length, slice, replicate, bytes_eq, ◌==◌, if◌then◌else◌,
  lift, pure, fail, ◌>>=◌, ◌>>◌, map_err_of,
}
use pipek.Prelude.Bytes.{Bytes}
use pipek.Prelude.Int.{ℤ}
use pipek.Prelude.Text.{trim, decimal, as_bytes, env_lookup}
use pipek.Error.{Pipek1Error, usage_error, IoError}
use pipek.World.{World, Io}
use pipek.World.Files.{fd_read_to_string, fs_read_to_string, is_file, join, remove_var, zero_entry}
use pipek.Crypto.{Crypto}

pub record KeyIntakeArgs : Type 0 where
  pub sec_fd : Option ℤ
  pub sec_file : Option String
  pub mnemonic_fd : Option ℤ
  pub passphrase_fd : Option ℤ
  pub bip85_identity : Option ℕ
  pub bip85_index : Option ℕ

-- `KeyIntakeArgs::default()`
abbrev pub no_key_args : KeyIntakeArgs
no_key_args = record {
  sec_fd = none;
  sec_file = none;
  mnemonic_fd = none;
  passphrase_fd = none;
  bip85_identity = none;
  bip85_index = none;
}

unfoldable pub scrub_env_var : String → World → World
unfolding remove_var zero_entry
scrub_env_var key w = record w { environ = remove_var key (zero_entry key w.environ) }

unfoldable pub scrub_all_sensitive_env : World → World
unfolding scrub_env_var
scrub_all_sensitive_env w =
    let w = scrub_env_var "PIPE_K1_SEC_KEY" w in
    let w = scrub_env_var "PIPEK1_SEC_KEY" w in
    let w = scrub_env_var "PIPE_K1_MNEMONIC" w in
    let w = scrub_env_var "PIPEK1_MNEMONIC" w in
    let w = scrub_env_var "PIPE_K1_PASSPHRASE" w in scrub_env_var "PIPEK1_PASSPHRASE" w

abbrev pub or_else : Option String → Option String → Option String
or_else none other = other
or_else (some s) other = some s

abbrev pub unwrap_or {ℓ} : {A : Type ℓ} → A → Option A → A
unwrap_or d none = d
unwrap_or d (some a) = a

-- `env::var(current).or_else(|_| env::var(old)).ok()`
abbrev pub env_either : String → String → List String → Option String
env_either current old environ = or_else (env_lookup current environ) (env_lookup old environ)

-- A read whose failure is a usage error.
abbrev reading : String → Io IoError String → Io Pipek1Error String
reading text m = map_err_of (λ e. usage_error (text <> e.message)) m

abbrev passphrase : Option ℤ → Option String → Io Pipek1Error String
passphrase (some fd) env_passphrase =
    reading "Failed to read --passphrase-fd: " (fd_read_to_string fd)
passphrase none env_passphrase = pure (unwrap_or "" env_passphrase)

abbrev mnemonic_input : Option ℤ → Option String → Io Pipek1Error (Option String)
mnemonic_input (some fd) env_mnemonic = do
  s ← reading "Failed to read --mnemonic-fd: " (fd_read_to_string fd)
  pure (some s)
mnemonic_input none env_mnemonic = pure env_mnemonic

module _ (C : Crypto) where
  open C use {
    hmac_sha512, signing_key, bech32_decode, hex_decode, mnemonic, to_seed, xprv, derivation_path,
    derive_child, private_bytes, XPrv, ChildNumber,
  }

  require_32 : String → Bytes → Result String Bytes
  require_32 message bytes =
      if not (length bytes == 32) then err (message <> decimal (length bytes)) else ok bytes

  unfoldable pub parse_key_bytes : String → Result String Bytes
  unfolding require_32
  parse_key_bytes input =
      let trimmed = trim input in
      if starts_with trimmed "nsec1" || starts_with trimmed "npub1"
      then and_then (map_err (λ e. "Bech32 error: " <> e) (bech32_decode trimmed))
          (λ (hrp, payload). require_32 "Expected 32 bytes in Bech32 data, got " payload)
      else and_then (map_err (λ e. "Hex decode error: " <> e) (hex_decode trimmed))
          (λ payload. require_32 "Expected 32 bytes of hex, got " payload)

  -- `for child_num in path`
  derive_children : List ChildNumber → XPrv → Result Pipek1Error XPrv
  derive_children [] current = ok current
  derive_children (n ∷ path) current =
      and_then
        (map_err (λ e. usage_error ("BIP-85 child derivation failed: " <> e))
          (derive_child current n))
        (λ child. derive_children path child)

  -- The checks of the operational key, at the end of the derivation.
  checked_key : Bytes → Result Pipek1Error Bytes
  checked_key operational_sk =
      if bytes_eq operational_sk (replicate 32 0)
      then err (usage_error "Derived BIP-85 scalar is zero")
      else and_then
          (map_err (λ e. usage_error ("Derived BIP-85 scalar invalid on secp256k1: " <> e))
            (signing_key operational_sk))
          (λ _. ok operational_sk)

  unfoldable pub derive_bip85_operational_key : String → String → ℕ → ℕ → Result Pipek1Error Bytes
  unfolding derive_children checked_key
  derive_bip85_operational_key mnemonic_str passphrase_str identity index =
      and_then
        (map_err (λ e. usage_error ("Invalid BIP-39 mnemonic: " <> e))
          (mnemonic (trim mnemonic_str)))
        λ m.
          let seed = to_seed m (trim passphrase_str) in
          and_then
            (map_err (λ e. usage_error ("BIP-32 root key derivation failed: " <> e)) (xprv seed))
            λ root.
              let path_str =
                "m/83696968'/128002'/" <> (decimal identity <> ("'/" <> (decimal index <> "'"))) in
              and_then
                (map_err
                  (λ e.
                    usage_error ("Invalid BIP-85 derivation path '" <> (path_str <> ("': " <> e))))
                  (derivation_path path_str))
                λ path. and_then (derive_children path root) λ current.
                  checked_key (
                    slice 0 32
                      (hmac_sha512 (as_bytes "bip-entropy-from-k") (private_bytes current)))

  abbrev no_key_error : Pipek1Error
  no_key_error =
      usage_error
        "No secret key provided: set PIPE_K1_SEC_KEY (or PIPEK1_SEC_KEY), pass --sec-fd / --sec-file, or supply --mnemonic-fd / PIPE_K1_MNEMONIC for BIP-85"

  -- A key in the text that an action gives.
  abbrev parse_text : Io Pipek1Error String → Io Pipek1Error Bytes
  parse_text m = do s ← m; lift (map_err usage_error (parse_key_bytes s))

  -- The key that the git key file holds; failures are passed over.
  key_or_none : Result String Bytes → Result Pipek1Error Bytes
  key_or_none (ok k) = ok k
  key_or_none (err e) = err no_key_error
  key_or_none stuck = stuck

  parse_git_key : Result IoError String × World → Result Pipek1Error Bytes × World
  unfolding key_or_none
  parse_git_key (ok s, w) = (key_or_none (parse_key_bytes s), w)
  parse_git_key (err e, w) = (err no_key_error, w)
  parse_git_key (stuck, w) = (stuck, w)

  -- `~/.config/pipe-k1/git_key`, or else `~/.config/pipek1/git_key`, if the home directory is known
  abbrev git_key_path : Option String → World → Option String
  git_key_path none w = none
  git_key_path (some home) w =
      let p1 = join home ".config/pipe-k1/git_key" in
      let p2 = join home ".config/pipek1/git_key" in
      if is_file p1 w then some p1 else if is_file p2 w then some p2 else none

  abbrev read_git_key : Option String → Io Pipek1Error Bytes
  read_git_key none w = (err no_key_error, w)
  read_git_key (some path) w = parse_git_key (fs_read_to_string path w)

  from_git_key : Io Pipek1Error Bytes
  unfolding parse_git_key
  from_git_key w = read_git_key (git_key_path (env_lookup "HOME" w.environ) w) w

  from_env_key : Option String → Io Pipek1Error Bytes
  unfolding from_git_key
  from_env_key (some value) = lift (map_err usage_error (parse_key_bytes value))
  from_env_key none = from_git_key

  from_mnemonic :
      KeyIntakeArgs → Option String → Option String → Option String → Io Pipek1Error Bytes
  unfolding from_env_key
  from_mnemonic args env_passphrase env_sec_key (some m_str) = do
    passphrase_str ← passphrase args.passphrase_fd env_passphrase
    lift (
        derive_bip85_operational_key m_str passphrase_str (unwrap_or 0 args.bip85_identity)
          (unwrap_or 0 args.bip85_index))
  from_mnemonic args env_passphrase env_sec_key none = from_env_key env_sec_key

  from_sec_file :
      Option String
      → KeyIntakeArgs
      → Option String
      → Option String
      → Option String
      → Io Pipek1Error Bytes
  unfolding from_mnemonic
  from_sec_file (some path) args env_mnemonic env_passphrase env_sec_key =
      parse_text (reading "Failed to read --sec-file: " (fs_read_to_string path))
  from_sec_file none args env_mnemonic env_passphrase env_sec_key = do
    input ← mnemonic_input args.mnemonic_fd env_mnemonic
    from_mnemonic args env_passphrase env_sec_key input

  from_sec_fd :
      Option ℤ
      → KeyIntakeArgs
      → Option String
      → Option String
      → Option String
      → Io Pipek1Error Bytes
  unfolding from_sec_file
  from_sec_fd (some fd) args env_mnemonic env_passphrase env_sec_key =
      parse_text (reading "Failed to read --sec-fd: " (fd_read_to_string fd))
  from_sec_fd none args env_mnemonic env_passphrase env_sec_key =
      from_sec_file args.sec_file args env_mnemonic env_passphrase env_sec_key

  unfoldable pub load_secret_key : KeyIntakeArgs → Io Pipek1Error Bytes
  unfolding from_sec_fd
  load_secret_key args w =
      let env_mnemonic = env_either "PIPE_K1_MNEMONIC" "PIPEK1_MNEMONIC" w.environ in
      let env_passphrase = env_either "PIPE_K1_PASSPHRASE" "PIPEK1_PASSPHRASE" w.environ in
      let env_sec_key = env_either "PIPE_K1_SEC_KEY" "PIPEK1_SEC_KEY" w.environ in
      from_sec_fd args.sec_fd args env_mnemonic env_passphrase env_sec_key
        (scrub_all_sensitive_env w)
