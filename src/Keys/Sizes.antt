-- ===== src/Keys/Sizes.antt =====
-- Every key that is taken in has 32 bytes.
use pipek.Prelude.{
  ℕ, ◌≡◌, String, ◌<>◌, ◌||◌, Option, none, some, Result, ok, err, stuck, map_err, arith, length,
  length-take, and_then, continue, Bool-cases, bytes_eq, replicate, slice, inl, inr, starts_with,
  ◌==◌,
}
use pipek.Prelude.Bytes.{Bytes}
use pipek.Prelude.Int.{ℤ}
use pipek.Prelude.Text.{trim, decimal, as_bytes}
use pipek.Error.{Pipek1Error, usage_error, IoError}
use pipek.World.{World, Io}
use pipek.World.Files.{fd_read_to_string, fs_read_to_string}
use pipek.Crypto.{Crypto, IsHash}
use pipek.Keys.{
  KeyIntakeArgs, parse_key_bytes, require_32, derive_bip85_operational_key, load_secret_key,
  scrub_all_sensitive_env, derive_children, checked_key, reading, parse_text, passphrase,
  mnemonic_input, from_git_key, from_env_key, from_mnemonic, from_sec_file, from_sec_fd,
  parse_git_key, key_or_none, read_git_key, unwrap_or,
}

-- A success is a string of 32 bytes.
abbrev pub IsSized : {E : Type 0} → Result E Bytes → Type 0
IsSized (ok k) = length k ≡ 32
IsSized (err e) = Unit
IsSized stuck = Unit

IsSized-and_then :
    {E A : Type 0} (r : Result E A) (f : A → Result E Bytes)
    → ((a : A) → IsSized (f a))
    → IsSized (and_then r f)
IsSized-and_then (ok a) f h = h a
IsSized-and_then (err e) f h = tt
IsSized-and_then stuck f h = tt

IsSized-continue :
    {A : Type 0} (r : Result Pipek1Error A) (f : A → Io Pipek1Error Bytes) (w : World)
    → ((a : A) (v : World) → IsSized (f a v).0)
    → IsSized (continue r f w).0
IsSized-continue (ok a) f w h = h a w
IsSized-continue (err e) f w h = tt
IsSized-continue stuck f w h = tt

IsSized-map_err :
    {E F : Type 0} (f : E → F) (r : Result E Bytes) → IsSized r → IsSized (map_err f r)
IsSized-map_err f (ok k) h = h
IsSized-map_err f (err e) h = tt
IsSized-map_err f stuck h = tt

module _ (C : Crypto) where
  require_32-IsSized : (message : String) (bytes : Bytes) → IsSized (require_32 C message bytes)
  unfolding require_32
  require_32-IsSized message bytes = elim (Bool-cases (length bytes == 32)) [
    | inl same ↦ rw same (ground arith)
    | inr other ↦ rw other tt
  ]

  parse_key_bytes-IsSized : (input : String) → IsSized (parse_key_bytes C input)
  unfolding parse_key_bytes
  parse_key_bytes-IsSized input =
      elim (Bool-cases (starts_with (trim input) "nsec1" || starts_with (trim input) "npub1")) [
        | inl text ↦ rw text (
            IsSized-and_then (map_err (λ e. "Bech32 error: " <> e) (C.bech32_decode (trim input))) _
              λ pair. require_32-IsSized "Expected 32 bytes in Bech32 data, got " pair.1)
        | inr hex ↦ rw hex (
            IsSized-and_then (map_err (λ e. "Hex decode error: " <> e) (C.hex_decode (trim input)))
              _ (require_32-IsSized "Expected 32 bytes of hex, got "))
      ]

  text_key-IsSized : (input : String) → IsSized (map_err usage_error (parse_key_bytes C input))
  text_key-IsSized input =
      IsSized-map_err usage_error (parse_key_bytes C input) (parse_key_bytes-IsSized input)

  parse_text-IsSized : (m : Io Pipek1Error String) (w : World) → IsSized (parse_text C m w).0
  parse_text-IsSized m w = IsSized-continue (m w).0 _ (m w).1 λ s v. text_key-IsSized s

  key_or_none-IsSized : (r : Result String Bytes) → IsSized r → IsSized (key_or_none C r)
  unfolding key_or_none
  key_or_none-IsSized (ok k) h = h
  key_or_none-IsSized (err e) h = tt
  key_or_none-IsSized stuck h = tt

  parse_git_key-IsSized :
      (r : Result IoError String) (w : World) → IsSized (parse_git_key C (r, w)).0
  unfolding parse_git_key
  parse_git_key-IsSized (ok s) w =
      key_or_none-IsSized (parse_key_bytes C s) (parse_key_bytes-IsSized s)
  parse_git_key-IsSized (err e) w = tt
  parse_git_key-IsSized stuck w = tt

  read_git_key-IsSized : (o : Option String) (w : World) → IsSized (read_git_key C o w).0
  read_git_key-IsSized none w = tt
  read_git_key-IsSized (some path) w =
      parse_git_key-IsSized (fs_read_to_string path w).0 (fs_read_to_string path w).1

  from_env_key-IsSized : (o : Option String) (w : World) → IsSized (from_env_key C o w).0
  unfolding from_env_key from_git_key
  from_env_key-IsSized (some v) w = text_key-IsSized v
  from_env_key-IsSized none w = read_git_key-IsSized _ w

  module _ (H : IsHash C) where
    checked_key-IsSized : (sk : Bytes) → length sk ≡ 32 → IsSized (checked_key C sk)
    unfolding checked_key
    checked_key-IsSized sk size = elim (Bool-cases (bytes_eq sk (replicate 32 0))) [
      | inl zero ↦ rw zero tt
      | inr nonzero ↦ rw nonzero (
          IsSized-and_then
            (map_err (λ e. usage_error ("Derived BIP-85 scalar invalid on secp256k1: " <> e))
              (C.signing_key sk))
            (λ _. ok sk) (λ _. size))
    ]

    derive-IsSized :
        (m p : String) (identity index : ℕ)
        → IsSized (derive_bip85_operational_key C m p identity index)
    unfolding derive_bip85_operational_key
    derive-IsSized m p identity index =
        let path_str =
          "m/83696968'/128002'/" <> (decimal identity <> ("'/" <> (decimal index <> "'"))) in
        IsSized-and_then
          (map_err (λ e. usage_error ("Invalid BIP-39 mnemonic: " <> e)) (C.mnemonic (trim m))) _
          λ m'.
            IsSized-and_then
              (map_err (λ e. usage_error ("BIP-32 root key derivation failed: " <> e))
                (C.xprv (C.to_seed m' (trim p))))
              _
              λ root.
                IsSized-and_then
                  (map_err
                    (λ e.
                      usage_error
                        ("Invalid BIP-85 derivation path '" <> (path_str <> ("': " <> e))))
                    (C.derivation_path path_str))
                  _
                  λ path. IsSized-and_then (derive_children C path root) _ λ k.
                    checked_key-IsSized
                      (slice 0 32
                        (C.hmac_sha512 (as_bytes "bip-entropy-from-k") (C.private_bytes k)))
                      (omega (
                        arith,
                        length-take 32
                            (C.hmac_sha512 (as_bytes "bip-entropy-from-k") (C.private_bytes k)),
                        H.hmac512_size (as_bytes "bip-entropy-from-k") (C.private_bytes k),
                      ))

    from_mnemonic-IsSized :
        (args : KeyIntakeArgs) (p k m : Option String) (w : World)
        → IsSized (from_mnemonic C args p k m w).0
    unfolding from_mnemonic
    from_mnemonic-IsSized args p k none w = from_env_key-IsSized k w
    from_mnemonic-IsSized args p k (some m) w =
        IsSized-continue (passphrase args.passphrase_fd p w).0 _
          (passphrase args.passphrase_fd p w).1
          λ s v. derive-IsSized m s (unwrap_or 0 args.bip85_identity) (unwrap_or 0 args.bip85_index)

    from_sec_file-IsSized :
        (o : Option String) (args : KeyIntakeArgs) (m p k : Option String) (w : World)
        → IsSized (from_sec_file C o args m p k w).0
    unfolding from_sec_file
    from_sec_file-IsSized (some path) args m p k w =
        parse_text-IsSized (reading "Failed to read --sec-file: " (fs_read_to_string path)) w
    from_sec_file-IsSized none args m p k w =
        IsSized-continue (mnemonic_input args.mnemonic_fd m w).0 _
          (mnemonic_input args.mnemonic_fd m w).1 (from_mnemonic-IsSized args p k)

    from_sec_fd-IsSized :
        (o : Option ℤ) (args : KeyIntakeArgs) (m p k : Option String) (w : World)
        → IsSized (from_sec_fd C o args m p k w).0
    unfolding from_sec_fd
    from_sec_fd-IsSized (some fd) args m p k w =
        parse_text-IsSized (reading "Failed to read --sec-fd: " (fd_read_to_string fd)) w
    from_sec_fd-IsSized none args m p k w = from_sec_file-IsSized args.sec_file args m p k w

    -- Whatever source a key comes from, and whatever the text or the derivation gives: a key that is
    -- returned has 32 bytes.
    pub load_secret_key-IsSized :
        (args : KeyIntakeArgs) (w : World) → IsSized (load_secret_key C args w).0
    unfolding load_secret_key
    load_secret_key-IsSized args w =
        from_sec_fd-IsSized args.sec_fd args _ _ _ (scrub_all_sensitive_env w)
