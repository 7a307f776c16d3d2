-- ===== src/Keys/Sources.antt =====
-- What every way through `load_secret_key` has in common.
use pipek.Prelude.{
  ℕ, ◌≡◌, refl, ◌∙◌, ap, sym, String, ◌<>◌, Option, none, some, List, [], ◌∷◌, Result, ok, err,
  stuck, map_err, arith, lift, pure, ◌>>=◌, and_then, continue, Bool-cases, bytes_eq, replicate,
  slice, inl, inr,
}
use pipek.Prelude.Bytes.{Bytes}
use pipek.Prelude.Int.{ℤ}
use pipek.Error.{Pipek1Error, usage_error, IoError, exit_code}
use pipek.World.{World, Io}
use pipek.World.Files.{
  with_descriptor, fd_read_to_end, fd_read_to_string, fs_read, fs_read_to_string,
}
use pipek.Prelude.Text.{trim, decimal, as_bytes}
use pipek.Crypto.{Crypto}
use pipek.Keys.{
  KeyIntakeArgs, parse_key_bytes, derive_bip85_operational_key, load_secret_key, scrub_env_var,
  scrub_all_sensitive_env, derive_children, checked_key, reading, parse_text, passphrase,
  mnemonic_input, from_git_key, from_env_key, from_mnemonic, from_sec_file, from_sec_fd, unwrap_or,
  parse_git_key, key_or_none,
}

-- The worlds differ in the open descriptors at most.
abbrev pub OnlyFds : World → World → Type 0
OnlyFds w u = u ≡ record w { fds = u.fds }

-- `r` is no error, or one of the exit code 2.
abbrev pub OnlyUsage : {A : Type 0} → Result Pipek1Error A → Type 0
OnlyUsage (ok a) = Unit
OnlyUsage (err e) = exit_code e ≡ 2
OnlyUsage stuck = Unit

-- The computation changes nothing but the open descriptors, and fails with usage errors only.
abbrev Gentle : {A : Type 0} → World → Result Pipek1Error A × World → Type 0
Gentle w out = OnlyFds w out.1 × OnlyUsage out.0

OnlyFds-trans : (w u v : World) → OnlyFds w u → OnlyFds u v → OnlyFds w v
OnlyFds-trans w u v h k = k ∙ ap {A = World} (λ t. record t { fds = v.fds }) h

fd_read_to_string-OnlyFds : (fd : ℤ) (w : World) → OnlyFds w (fd_read_to_string fd w).1
unfolding fd_read_to_string fd_read_to_end with_descriptor
fd_read_to_string-OnlyFds fd w = ground arith

fs_read_to_string-OnlyFds : (p : String) (w : World) → OnlyFds w (fs_read_to_string p w).1
unfolding fs_read_to_string fs_read
fs_read_to_string-OnlyFds p w = ground arith

OnlyUsage-map_err :
    {A : Type 0} (text : String → String) (r : Result String A)
    → OnlyUsage (map_err (λ e. usage_error (text e)) r)
unfolding exit_code
OnlyUsage-map_err text (ok a) = tt
OnlyUsage-map_err text (err x) = refl
OnlyUsage-map_err text stuck = tt

OnlyUsage-and_then :
    {A B : Type 0} (r : Result Pipek1Error A) (f : A → Result Pipek1Error B)
    → OnlyUsage r
    → ((a : A) → OnlyUsage (f a))
    → OnlyUsage (and_then r f)
OnlyUsage-and_then (ok a) f h k = k a
OnlyUsage-and_then (err e) f h k = h
OnlyUsage-and_then stuck f h k = tt

Gentle-continue :
    {A B : Type 0} (w u : World) (r : Result Pipek1Error A) (f : A → Io Pipek1Error B)
    → OnlyFds w u
    → OnlyUsage r
    → ((a : A) (v : World) → Gentle v (f a v))
    → Gentle w (continue r f u)
Gentle-continue w u (ok a) f e h k = (OnlyFds-trans w u _ e (k a u).0, (k a u).1)
Gentle-continue w u (err x) f e h k = (e, h)
Gentle-continue w u stuck f e h k = (e, tt)

-- Both halves of a `do` block.
Gentle-bind :
    {A B : Type 0} (m : Io Pipek1Error A) (f : A → Io Pipek1Error B)
    → ((v : World) → Gentle v (m v))
    → ((a : A) (v : World) → Gentle v (f a v))
    → (w : World) → Gentle w ((m >>= f) w)
Gentle-bind m f g k w = Gentle-continue w (m w).1 (m w).0 f (g w).0 (g w).1 k

Gentle-reading :
    (text : String) (m : Io IoError String)
    → ((v : World) → OnlyFds v (m v).1)
    → (w : World) → Gentle w (reading text m w)
Gentle-reading text m e w = (e w, mapped (m w).0)
  where
    mapped :
        (r : Result IoError String) → OnlyUsage (map_err (λ x. usage_error (text <> x.message)) r)
    mapped (ok a) = tt
    mapped (err x) = unfold exit_code in refl
    mapped stuck = tt

module _ (C : Crypto) where
  derive_children-OnlyUsage :
      (path : List C.ChildNumber) (k : C.XPrv) → OnlyUsage (derive_children C path k)
  unfolding derive_children
  derive_children-OnlyUsage [] k = tt
  derive_children-OnlyUsage (n ∷ path) k =
      OnlyUsage-and_then _ _
        (OnlyUsage-map_err (λ e. "BIP-85 child derivation failed: " <> e) (C.derive_child k n))
        (derive_children-OnlyUsage path)

  checked_key-OnlyUsage : (sk : Bytes) → OnlyUsage (checked_key C sk)
  unfolding checked_key exit_code
  checked_key-OnlyUsage sk = elim (Bool-cases (bytes_eq sk (replicate 32 0))) [
    | inl zero ↦ rw zero refl
    | inr nonzero ↦ rw nonzero (
        OnlyUsage-and_then _ _
          (OnlyUsage-map_err (λ e. "Derived BIP-85 scalar invalid on secp256k1: " <> e)
            (C.signing_key sk))
          (λ _. tt))
  ]

  derive-OnlyUsage :
      (m p : String) (identity index : ℕ)
      → OnlyUsage (derive_bip85_operational_key C m p identity index)
  unfolding derive_bip85_operational_key
  derive-OnlyUsage m p identity index =
      let path_str =
        "m/83696968'/128002'/" <> (decimal identity <> ("'/" <> (decimal index <> "'"))) in
      OnlyUsage-and_then _ _
        (OnlyUsage-map_err (λ e. "Invalid BIP-39 mnemonic: " <> e) (C.mnemonic (trim m)))
        λ m'.
          OnlyUsage-and_then _ _
            (OnlyUsage-map_err (λ e. "BIP-32 root key derivation failed: " <> e)
              (C.xprv (C.to_seed m' (trim p))))
            λ root.
              OnlyUsage-and_then _ _
                (OnlyUsage-map_err
                  (λ e. "Invalid BIP-85 derivation path '" <> (path_str <> ("': " <> e)))
                  (C.derivation_path path_str))
                λ path. OnlyUsage-and_then _ _ (derive_children-OnlyUsage path root) λ k.
                  checked_key-OnlyUsage
                    (slice 0 32 (C.hmac_sha512 (as_bytes "bip-entropy-from-k") (C.private_bytes k)))

  parse_text-Gentle :
      (m : Io Pipek1Error String)
      → ((v : World) → Gentle v (m v))
      → (w : World) → Gentle w (parse_text C m w)
  parse_text-Gentle m g w =
      Gentle-bind m (λ s. lift (map_err usage_error (parse_key_bytes C s))) g
        (λ s v. (refl, OnlyUsage-map_err (λ e. e) (parse_key_bytes C s))) w

  from_git_key-Gentle : (w : World) → Gentle w (from_git_key C w)
  unfolding from_git_key parse_git_key key_or_none fs_read_to_string exit_code
  from_git_key-Gentle w = ground arith

  from_env_key-Gentle : (o : Option String) (w : World) → Gentle w (from_env_key C o w)
  unfolding from_env_key
  from_env_key-Gentle (some v) w = (refl, OnlyUsage-map_err (λ e. e) (parse_key_bytes C v))
  from_env_key-Gentle none w = from_git_key-Gentle w

  from_mnemonic-Gentle :
      (args : KeyIntakeArgs) (p k m : Option String) (w : World)
      → Gentle w (from_mnemonic C args p k m w)
  unfolding from_mnemonic
  from_mnemonic-Gentle args p k none w = from_env_key-Gentle k w
  from_mnemonic-Gentle args p k (some m) w =
      Gentle-bind (passphrase args.passphrase_fd p)
        (λ s. lift (
          derive_bip85_operational_key C m s (unwrap_or 0 args.bip85_identity)
            (unwrap_or 0 args.bip85_index)))
        (given args.passphrase_fd)
        (λ s v. (
          refl,
          derive-OnlyUsage m s (unwrap_or 0 args.bip85_identity) (unwrap_or 0 args.bip85_index),
        ))
        w
    where
      given : (o : Option ℤ) (v : World) → Gentle v (passphrase o p v)
      given (some fd) v =
          Gentle-reading "Failed to read --passphrase-fd: " (fd_read_to_string fd)
            (fd_read_to_string-OnlyFds fd) v
      given none v = (refl, tt)

  from_sec_file-Gentle :
      (o : Option String) (args : KeyIntakeArgs) (m p k : Option String) (w : World)
      → Gentle w (from_sec_file C o args m p k w)
  unfolding from_sec_file
  from_sec_file-Gentle (some path) args m p k w =
      parse_text-Gentle (reading "Failed to read --sec-file: " (fs_read_to_string path))
        (Gentle-reading "Failed to read --sec-file: " (fs_read_to_string path)
          (fs_read_to_string-OnlyFds path))
        w
  from_sec_file-Gentle none args m p k w =
      Gentle-bind (mnemonic_input args.mnemonic_fd m) (from_mnemonic C args p k)
        (given args.mnemonic_fd) (from_mnemonic-Gentle args p k) w
    where
      given : (o : Option ℤ) (v : World) → Gentle v (mnemonic_input o m v)
      given (some fd) v =
          Gentle-bind (reading "Failed to read --mnemonic-fd: " (fd_read_to_string fd))
            (λ s. pure (some s))
            (Gentle-reading "Failed to read --mnemonic-fd: " (fd_read_to_string fd)
              (fd_read_to_string-OnlyFds fd))
            (λ s u. (refl, tt)) v
      given none v = (refl, tt)

  from_sec_fd-Gentle :
      (o : Option ℤ) (args : KeyIntakeArgs) (m p k : Option String) (w : World)
      → Gentle w (from_sec_fd C o args m p k w)
  unfolding from_sec_fd
  from_sec_fd-Gentle (some fd) args m p k w =
      parse_text-Gentle (reading "Failed to read --sec-fd: " (fd_read_to_string fd))
        (Gentle-reading "Failed to read --sec-fd: " (fd_read_to_string fd)
          (fd_read_to_string-OnlyFds fd))
        w
  from_sec_fd-Gentle none args m p k w = from_sec_file-Gentle args.sec_file args m p k w

  -- From whatever source the key is taken, and whether or not that succeeds, what is left is the
  -- world with the scrubbed environment, changed in its open descriptors at most, and every failure
  -- is a usage error, of exit code 2.
  pub load_secret_key-scrubs :
      (args : KeyIntakeArgs) (w : World)
      → OnlyFds (scrub_all_sensitive_env w) (load_secret_key C args w).1
        × OnlyUsage (load_secret_key C args w).0
  unfolding load_secret_key
  load_secret_key-scrubs args w =
      from_sec_fd-Gentle args.sec_fd args _ _ _ (scrub_all_sensitive_env w)

  -- In terms of the world before.
  pub load_secret_key-keeps :
      (args : KeyIntakeArgs) (w : World)
      → let u = (load_secret_key C args w).1 in u ≡ record w { environ = u.environ; fds = u.fds }
  unfolding scrub_all_sensitive_env scrub_env_var
  load_secret_key-keeps args w =
      let (only, _) = load_secret_key-scrubs args w in
      let u = (load_secret_key C args w).1 in
      let scrubbed : scrub_all_sensitive_env w
          ≡ record w { environ = (scrub_all_sensitive_env w).environ } =
        refl in
      let env : u.environ ≡ (scrub_all_sensitive_env w).environ = ap (λ t. t.environ) only in
      only
      ∙ ap {A = World} (λ t. record t { fds = u.fds }) scrubbed
      ∙ ap (λ t. record w { environ = t; fds = u.fds }) (sym env)
