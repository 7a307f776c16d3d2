-- ===== src/Shim.antt =====
-- The git shim of rust/src/main.rs: `write_status_fd` and `run_git_shim`, which git calls in place of
-- gpg.
pub mod Status
pub mod Trust
pub mod Args
use Prim.Native.String
use pipek.Prelude.{
  ℕ, zero, suc, ◌-◌, ◌/◌, ◌%◌, String, ◌<>◌, Bool, true, false, ◌&&◌, ◌||◌, not, Option, none, some,
  List, [], ◌∷◌, ◌++◌, Result, ok, err, stuck, map_err, str_eq, starts_with, length, slice,
  bytes_eq, ltb, ◌==◌, if◌then◌else◌, lift, pure, fail, ◌>>=◌, ◌>>◌, map_err_of,
}
use pipek.Prelude.Bytes.{Bytes, from_be32}
use pipek.Prelude.Int.{ℤ, pos, negsuc, int_eq}
use pipek.Prelude.Text.{as_bytes, decimal, parse_i32, contains, strip_prefix}
use pipek.Error.{Pipek1Error, wire_corruption, auth_failure, usage_error, io, IoError}
use pipek.Io.{Sink, write_all}
use pipek.World.{World, Io, stdout_write, stdin_read_to_end, eprintln}
use pipek.World.Files.{fs_read}
use pipek.Crypto.{Crypto}
use pipek.Wire.{signature_payload_size}
use pipek.Keys.{no_key_args, parse_key_bytes, load_secret_key, unwrap_or}
use pipek.Signature.{sign_stream_payload, verify_stream_payload}
use pipek.Decrypt.{encode_npub}
use pipek.Signers.{Signers}
use pipek.Signers.Paths.{resolve_allowed_signers}
use pipek.Armor.{detach_armor, print_armored}
use pipek.Civil.{Date, civil_date}
use pipek.Shim.Args.{ShimArgs, shim_args}

-- What a write to a descriptor adds to it; its failure is passed over.
unfoldable pub write_sink : ℤ → Bytes → List (ℤ × Sink) → List (ℤ × Sink)
write_sink fd bs [] = []
write_sink fd bs ((n, s) ∷ sinks) =
    let others = write_sink fd bs sinks in
    if int_eq fd n then (n, (write_all bs s).1) ∷ sinks else (n, s) ∷ others

-- `from_raw_fd` panics on -1.
abbrev status_to : {E : Type 0} → ℤ → String → Io E (Unit {0})
status_to fd line w =
    if int_eq fd (pos 1)
    then (ok tt, (stdout_write (as_bytes line) w).1)
    else if int_eq fd (pos 2)
    then (ok tt, record w { stderr = w.stderr ++ (line ∷ []) })
    else if int_eq fd (negsuc 0)
    then (stuck, w)
    else (ok tt, record w { sinks = write_sink fd (as_bytes line) w.sinks })

unfoldable pub write_status_fd : {E : Type 0} → Option ℤ → String → Io E (Unit {0})
write_status_fd none line = pure tt
write_status_fd (some fd) line = status_to fd line

zeros : ℕ → String
zeros zero = ""
zeros (suc n) = "0" <> zeros n

-- The format `{:0width}`
unfoldable pub padded : ℕ → ℕ → String
unfolding zeros
padded width n = zeros (width - String.len (decimal n)) <> decimal n

unfoldable pub date_str : Date → String
date_str t = padded 4 t.year <> ("-" <> (padded 2 t.month <> ("-" <> padded 2 t.day)))

-- `allowed.iter().find(|(_, k)| *k == key)`
unfoldable pub find_identity : Bytes → Signers → Option String
find_identity key [] = none
find_identity key ((identity, k) ∷ signers) =
    let later = find_identity key signers in if bytes_eq k key then some identity else later

-- `SystemTime::now()` as a `u32`
abbrev clock_of : Option ℕ → Result Pipek1Error ℕ
clock_of none = err (usage_error "Clock error: second time provided was later than self")
clock_of (some seconds) = ok (seconds % 4294967296)

unfoldable pub now_u32 : Io Pipek1Error ℕ
now_u32 w = (clock_of w.clock, w)

abbrev pub or_usage : String → Option String → Result Pipek1Error String
or_usage message none = err (usage_error message)
or_usage message (some s) = ok s

abbrev malformed : String
malformed = "malformed or unrecognized signature format"

unfoldable pub read_data : String → Io Pipek1Error Bytes
read_data path = map_err_of io (if str_eq path "-" then stdin_read_to_end else fs_read path)

module _ (C : Crypto) where
  open C use {SigningKey, signing_key, public_bytes, sha256, hex_encode}

  -- The lines for a good signature, of a signer in the database or of another.
  abbrev trust_of : Bytes → Option String → String × String × String
  trust_of signer_pk (some ident) = (ident, "ultimate", "[GNUPG:] TRUST_ULTIMATE 0 pgp\n")
  trust_of signer_pk none = (encode_npub C signer_pk, "unknown", "[GNUPG:] TRUST_UNDEFINED 0 pgp\n")

  unfoldable pub good_lines : {E : Type 0} → Option ℤ → Bytes → ℕ → Option String → Io E (Unit {0})
  good_lines status_fd signer_pk timestamp matched_identity = do
    let hex_pk = hex_encode signer_pk
    let date = date_str (civil_date (timestamp / 86400))
    let trust = trust_of signer_pk matched_identity
    eprintln ("gpg: Signature made " <> (date <> (" using secp256k1 key " <> hex_pk)))
    eprintln ("gpg: Good signature from \"" <> (trust.0 <> ("\" [" <> (trust.1 <> "]"))))
    write_status_fd status_fd ("[GNUPG:] GOODSIG " <> (hex_pk <> (" " <> (trust.0 <> "\n"))))
    write_status_fd status_fd (
        "[GNUPG:] VALIDSIG "
        <> (hex_pk
            <> (" "
                <> (date
                    <> (" " <> (decimal timestamp <> (" 0 4 0 1 8 00 " <> (hex_pk <> "\n"))))))))
    write_status_fd status_fd trust.2

  unfoldable pub good_signature : Option ℤ → Bytes → Bytes → Io Pipek1Error (Unit {0})
  good_signature status_fd payload signer_pk w =
      let timestamp = from_be32 (slice 5 9 payload) in
      let allowed = resolve_allowed_signers C w in
      (do
        write_status_fd status_fd "[GNUPG:] NEWSIG\n"
        good_lines status_fd signer_pk timestamp (find_identity signer_pk allowed))
        w

  unfoldable pub bad_signature : Option ℤ → Bytes → String → Io Pipek1Error (Unit {0})
  bad_signature status_fd payload e = do
    let signer_pk = slice 9 41 payload
    write_status_fd status_fd "[GNUPG:] NEWSIG\n"
    write_status_fd status_fd
        ("[GNUPG:] BADSIG " <> (hex_encode signer_pk <> (" " <> (encode_npub C signer_pk <> "\n"))))
    eprintln ("pipe-k1-git-shim: signature verification failed: " <> e)
    fail (auth_failure ("signature verification failed: " <> e))

  unfoldable pub report : Option ℤ → Bytes → Result String Bytes → Io Pipek1Error (Unit {0})
  report status_fd payload (ok signer_pk) = good_signature status_fd payload signer_pk
  report status_fd payload (err e) = bad_signature status_fd payload e
  report status_fd payload stuck = lift stuck

  unfoldable pub malformed_signature : Option ℤ → Io Pipek1Error (Unit {0})
  malformed_signature status_fd = do
    write_status_fd status_fd
        "[GNUPG:] NEWSIG\n[GNUPG:] ERRSIG 0000000000000000 1 8 00 0000000000 9\n"
    eprintln ("pipe-k1-git-shim: error: " <> malformed)
    fail (wire_corruption malformed)

  unfoldable pub check_payload : Option ℤ → String → Bytes → Io Pipek1Error (Unit {0})
  check_payload status_fd data_path payload = do
    data_bytes ← read_data data_path
    report status_fd payload (verify_stream_payload C payload (sha256 data_bytes))

  unfoldable pub shim_verify : ShimArgs → Io Pipek1Error (Unit {0})
  shim_verify args = do
    sig_path ← lift (or_usage "Missing signature path for --verify" args.verify_sig_path)
    let data_path = unwrap_or "-" args.verify_data_path
    sig_raw ←
        map_err_of (λ e. usage_error ("Cannot read signature: " <> e.message)) (fs_read sig_path)
    sig_bytes ← lift (detach_armor C sig_raw)
    (if not (length sig_bytes == signature_payload_size)
        then malformed_signature args.status_fd
        else check_payload args.status_fd data_path sig_bytes)

  -- A key that `-u` names must be the one that signs; a name that is no key is passed over.
  abbrev compare_key : Option ℤ → String → Bytes → Result String Bytes → Io Pipek1Error (Unit {0})
  compare_key status_fd kid pk_x (ok exp_bytes) =
      if not (bytes_eq exp_bytes pk_x)
      then (do
        write_status_fd status_fd ("[GNUPG:] INV_SGNR 0 " <> (kid <> "\n"))
        eprintln (
            "pipe-k1-git-shim: error: signing key "
            <> (kid <> " does not match configured secret key"))
        fail (usage_error ("signing key " <> (kid <> " does not match configured secret key"))))
      else pure tt
  compare_key status_fd kid pk_x (err e) = pure tt
  compare_key status_fd kid pk_x stuck = lift stuck

  unfoldable pub check_key_id : Option ℤ → Option String → Bytes → Io Pipek1Error (Unit {0})
  check_key_id status_fd none pk_x = pure tt
  check_key_id status_fd (some kid) pk_x = compare_key status_fd kid pk_x (parse_key_bytes C kid)

  unfoldable pub shim_sign : ShimArgs → Io Pipek1Error (Unit {0})
  shim_sign args = do
    sk_bytes ← load_secret_key C no_key_args
    key ←
        lift (
          map_err (λ e. usage_error ("Invalid secp256k1 secret key: " <> e)) (signing_key sk_bytes))
    let pk_x = public_bytes key
    check_key_id args.status_fd args.key_id pk_x
    commit_data ← map_err_of io stdin_read_to_end
    now ← now_u32
    sig_payload ← lift (map_err usage_error (sign_stream_payload C key (sha256 commit_data) now))
    write_status_fd args.status_fd
        ("[GNUPG:] SIG_CREATED D 1 8 00 " <> (decimal now <> (" " <> (hex_encode pk_x <> "\n"))))
    print_armored C "PGP" sig_payload

  unfoldable pub run_git_shim : List String → Io Pipek1Error (Unit {0})
  run_git_shim args =
      let parsed = shim_args args in
      if parsed.is_verify then shim_verify parsed else shim_sign parsed
