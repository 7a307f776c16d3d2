-- ===== src/Cli/Encrypt.antt =====
-- The command line of `encrypt`.
use text.Mathlib.TextEquality.{eq_iff}
use pipek.Prelude.{
  ℕ, ◌≡◌, sym, false, Bool-cases, inl, inr, String, [], ◌∷◌, Option, none, some, starts_with,
  str_eq, if◌then◌else◌, lift, ◌>>=◌, subst,
}
use pipek.Prelude.Text.{parse_i32, parse_unsigned}
use pipek.Error.{Pipek1Error}
use pipek.World.{Io}
use pipek.Crypto.{Crypto}
use pipek.Keys.{KeyIntakeArgs, unwrap_or}
use pipek.Encrypt.{run_encrypt}
use pipek.Options.Pairs.{Pairs, last_value}
use pipek.Shim.{or_usage}
use pipek.Cli.{EncryptArgs}

-- The parsed value of the last pair with a flag, or what stood there before.
abbrev pub chosen {ℓ} : {A : Type ℓ} → A → Option String → (String → A) → A
chosen old none parse = old
chosen old (some value) parse = parse value

abbrev pub u32 : String → Option ℕ
u32 value = parse_unsigned 4294967295 value

-- What the options of a command line say, each by its last pair.
abbrev pub key_options : KeyIntakeArgs → Pairs → KeyIntakeArgs
key_options k pairs = record {
  sec_fd = chosen k.sec_fd (last_value "--sec-fd" pairs) parse_i32;
  sec_file = chosen k.sec_file (last_value "--sec-file" pairs) some;
  mnemonic_fd = chosen k.mnemonic_fd (last_value "--mnemonic-fd" pairs) parse_i32;
  passphrase_fd = chosen k.passphrase_fd (last_value "--passphrase-fd" pairs) parse_i32;
  bip85_identity = chosen k.bip85_identity (last_value "--bip85-identity" pairs) u32;
  bip85_index = chosen k.bip85_index (last_value "--bip85-index" pairs) u32;
}

abbrev pub encrypt_options : EncryptArgs → Pairs → EncryptArgs
encrypt_options a pairs = record {
  recipient = chosen a.recipient (last_value "--recipient" pairs) some;
  mode = chosen a.mode (last_value "--mode" pairs) (λ v. unwrap_or 2 (parse_unsigned 255 v));
  entropy_fd = chosen a.entropy_fd (last_value "--entropy-fd" pairs) parse_i32;
}

abbrev one_key_option : String → String → KeyIntakeArgs → KeyIntakeArgs
one_key_option flag v k = record {
  sec_fd = if str_eq flag "--sec-fd" then parse_i32 v else k.sec_fd;
  sec_file = if str_eq flag "--sec-file" then some v else k.sec_file;
  mnemonic_fd = if str_eq flag "--mnemonic-fd" then parse_i32 v else k.mnemonic_fd;
  passphrase_fd = if str_eq flag "--passphrase-fd" then parse_i32 v else k.passphrase_fd;
  bip85_identity = if str_eq flag "--bip85-identity" then u32 v else k.bip85_identity;
  bip85_index = if str_eq flag "--bip85-index" then u32 v else k.bip85_index;
}

-- A property of a text that is compared with another: either it is that text, or it is not.
pub same_or_other : (P : String → Type 0) (s t : String) → P t → (str_eq s t ≡ false → P s) → P s
same_or_other P s t h k = elim (Bool-cases (str_eq s t)) [
  | inl e ↦ subst P (sym ((eq_iff s t).0 e)) h
  | inr e ↦ k e
]

abbrev one_encrypt_option : String → String → EncryptArgs → EncryptArgs
one_encrypt_option flag v a = record {
  recipient = if str_eq flag "--recipient" then some v else a.recipient;
  mode = if str_eq flag "--mode" then unwrap_or 2 (parse_unsigned 255 v) else a.mode;
  entropy_fd = if str_eq flag "--entropy-fd" then parse_i32 v else a.entropy_fd;
}

-- No value begins like a flag.
abbrev pub NoFlags : Pairs → Type 0
NoFlags [] = Unit
NoFlags ((flag, value) ∷ pairs) = (starts_with value "--" ≡ false) × NoFlags pairs

-- What the command does with its recipient.
abbrev pub encrypt_with :
    (C : Crypto) (fuel : ℕ) → EncryptArgs → KeyIntakeArgs → Io Pipek1Error (Unit {0})
encrypt_with C fuel a k = do
  recip ← lift (or_usage "Missing mandatory argument: --recipient <npub|hex>" a.recipient)
  run_encrypt C fuel recip a.mode k a.entropy_fd
