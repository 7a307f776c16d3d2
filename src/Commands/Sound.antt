-- ===== src/Commands/Sound.antt =====
-- What it takes for `verify` to accept its input.
use pipek.Prelude.{
  ◌≡◌, refl, ◌∙◌, ap, sym, Bool, true, false, not, ◌&&◌, Option, none, some, [], String, ◌<>◌,
  Result, ok, lift, pure, ensure_not, ◌>>=◌, ◌>>◌, map_err, map_err_of, arith, length, ◌==◌,
  is_some, >>=-eq-ok, map_err-eq-ok, map_err_of-eq-ok, bytes_eq, subst, bytes_eq→eq,
}
use pipek.Prelude.Bytes.{Bytes}
use pipek.Prelude.Text.{decimal}
use pipek.Error.{Pipek1Error, wire_corruption, auth_failure, usage_error, IoError}
use pipek.Io.Input.{content, IsClean}
use pipek.World.{World, Io}
use pipek.World.Files.{fs_read}
use pipek.World.Laws.{with_stdin}
use pipek.Crypto.{Crypto, IsAead}
use pipek.Keys.{parse_key_bytes}
use pipek.Signature.{verify_stream_payload}
use pipek.Spool.{StreamSpooler}
use pipek.Decrypt.{encode_npub}
use pipek.Decrypt.Sound.{lift_sound, pure_sound}
use pipek.Armor.{detach_armor}
use pipek.Shim.{or_usage}
use pipek.Commands.{VerifyArgs, absorb, read_signature, new_spooler, check_expected, verify_input}
use pipek.Commands.Absorb.{Tracks, Fits, Fits-drawn, absorb-content, new_spooler-Tracks}

-- The expected key, if there is one, is this one.
abbrev pub Expects : (C : Crypto) → Option String → Bytes → Type 0
Expects C none pk = Unit
Expects C (some exp) pk = parse_key_bytes C exp ≡ ok pk

-- The file holds a payload, armored or not, that is accepted for the message under the key.
pub record Verified (C : Crypto) (args : VerifyArgs) (message pk : Bytes) (w : World) : Type 0 where
  pub path : String
  pub raw : Bytes
  pub payload : Bytes
  pub named : args.sig_path ≡ some path
  pub read : (fs_read path w).0 ≡ ok raw
  pub detached : detach_armor C raw ≡ ok payload
  pub size : length payload ≡ 105
  pub accepted : verify_stream_payload C payload (C.sha256 message) ≡ ok pk
  pub expected : Expects C args.expected_pub pk

ensure_not-eq-ok :
    {E : Type 0} (b : Bool) (e : E) (w u : World) {x : Unit {0}}
    → ensure_not b e w ≡ (ok x, u)
    → (b ≡ false) × (w ≡ u)
ensure_not-eq-ok true e w u h = cc
ensure_not-eq-ok false e w u h = (refl, ap (λ p. p.1) h)

or_usage-eq-ok :
    (message : String) (o : Option String) {s : String} → or_usage message o ≡ ok s → o ≡ some s
or_usage-eq-ok message none h = cc
or_usage-eq-ok message (some t) h = ground arith

fs_read_same : (path : String) (w : World) → (fs_read path w).1 ≡ w
unfolding fs_read
fs_read_same path w = refl

module _ (C : Crypto) where
  read_signature_sound :
      (path : String) (w u : World) {payload : Bytes}
      → read_signature C path w ≡ (ok payload, u)
      → (raw : Bytes) × ((fs_read path w).0 ≡ ok raw)
        × (detach_armor C raw ≡ ok payload)
        × (length payload ≡ 105)
        × (u ≡ w)
  unfolding read_signature
  read_signature_sound path w u {payload} h =
      let checked : Bytes → Io Pipek1Error Bytes = λ bs.
        ensure_not (not (length bs == 105)) (
          wire_corruption
            ("Signature payload must be exactly 105 bytes (got " <> (decimal (length bs) <> ")")))
        >> pure bs in
      let detach : Bytes → Io Pipek1Error Bytes = λ raw. lift (detach_armor C raw) >>= checked in
      let wrong : IoError → Pipek1Error =
        λ e. usage_error ("Failed to read signature file '" <> (path <> ("': " <> e.message))) in
      let (raw, w1, e1, h1) = >>=-eq-ok (map_err_of wrong (fs_read path)) detach w h in
      let found = map_err_of-eq-ok wrong (fs_read path) w e1 in
      let (bs, w2, e2, h2) = >>=-eq-ok (lift (detach_armor C raw)) checked w1 h1 in
      let (detached, same2) = lift_sound (detach_armor C raw) bs w1 w2 e2 in
      let (_, w3, e3, h3) = >>=-eq-ok (ensure_not _ _) (λ _. pure bs) w2 h2 in
      let (size, same3) = ensure_not-eq-ok (not (length bs == 105)) _ w2 w3 e3 in
      let (same, same4) = pure_sound bs payload w3 u h3 in
      (
        raw,
        ap (λ p. p.0) found,
        detached ∙ ap ok same,
        sym (ap length same) ∙ ground arith,
        sym (sym (fs_read_same path w) ∙ ap (λ p. p.1) found ∙ same2 ∙ same3 ∙ same4),
      )

  check_expected_sound :
      (exp : Option String) (pk : Bytes) (w u : World) {x : Unit {0}}
      → check_expected C exp pk w ≡ (ok x, u)
      → Expects C exp pk
  unfolding check_expected
  check_expected_sound none pk w u h = tt
  check_expected_sound (some exp) pk w u h =
      let test : Bytes → Io Pipek1Error (Unit {0}) = λ exp_pk.
        ensure_not (not (bytes_eq exp_pk pk)) (
          auth_failure
            ("Signer key " <> (encode_npub C pk <> (" does not match expected key " <> exp)))) in
      let parsed : Result Pipek1Error Bytes = map_err usage_error (parse_key_bytes C exp) in
      let (exp_pk, w1, e1, h1) = >>=-eq-ok (lift parsed) test w h in
      let (read, _) = lift_sound parsed exp_pk w w1 e1 in
      let (same, _) = ensure_not-eq-ok (not (bytes_eq exp_pk pk)) _ w1 u h1 in
      map_err-eq-ok usage_error (parse_key_bytes C exp) read
      ∙ ap ok (bytes_eq→eq exp_pk pk (ground arith))

  -- The parts of `verify_input` behind the reading of the signature.
  answer : VerifyArgs → Option StreamSpooler → Bytes → Io Pipek1Error (Bytes × Option StreamSpooler)
  answer args o signer = check_expected C args.expected_pub signer >> pure (signer, o)

  judged : Bytes → Bytes → Result Pipek1Error Bytes
  judged payload fed =
      map_err (λ e. auth_failure ("Verification FAILED: " <> e))
        (verify_stream_payload C payload (C.sha256 fed))

  judge :
      VerifyArgs
      → Bytes
      → Bytes × Option StreamSpooler
      → Io Pipek1Error (Bytes × Option StreamSpooler)
  unfolding judged answer
  judge args payload fed = lift (judged payload fed.0) >>= answer args fed.1

  feed : VerifyArgs → Bytes → Option StreamSpooler → Io Pipek1Error (Bytes × Option StreamSpooler)
  unfolding judge
  feed args payload o = absorb C o >>= judge args payload

  judge_sound :
      (args : VerifyArgs) (payload message pk : Bytes) (o o' : Option StreamSpooler) (w v : World)
      → judge args payload (message, o) w ≡ (ok (pk, o'), v)
      → (verify_stream_payload C payload (C.sha256 message) ≡ ok pk)
        × Expects C args.expected_pub pk
        × (o ≡ o')
  unfolding judge
  judge_sound args payload message pk o o' w v h =
      let verdict : Result Pipek1Error Bytes = judged payload message in
      let (signer, w1, e1, h1) = >>=-eq-ok (lift verdict) (answer args o) w h in
      let (accepted, _) = lift_sound verdict signer w w1 e1 in
      let (_, w2, e2, h2) =
        >>=-eq-ok (check_expected C args.expected_pub signer) (λ _. pure (signer, o)) w1 h1 in
      let (answered, _) = pure_sound (signer, o) (pk, o') w2 v h2 in
      let same : signer ≡ pk = ap (λ p. p.0) answered in
      let read =
        map_err-eq-ok (λ e. auth_failure ("Verification FAILED: " <> e))
          (verify_stream_payload C payload (C.sha256 message)) accepted in
      (
        read ∙ ap ok same,
        subst (Expects C args.expected_pub) same
            (check_expected_sound args.expected_pub signer w1 w2 e2),
        ap (λ p. p.1) answered,
      )

  record Opened (args : VerifyArgs) (w : World)
      (out : Result Pipek1Error (Bytes × Option StreamSpooler) × World) : Type 0 where
    path : String
    raw : Bytes
    payload : Bytes
    named : args.sig_path ≡ some path
    read : (fs_read path w).0 ≡ ok raw
    detached : detach_armor C raw ≡ ok payload
    size : length payload ≡ 105
    goes_on : (new_spooler C args >>= feed args payload) w ≡ out

  verify_input-Opened :
      (args : VerifyArgs) (w v : World) (r : Bytes × Option StreamSpooler)
      → verify_input C args w ≡ (ok r, v)
      → Opened args w (ok r, v)
  unfolding verify_input feed
  verify_input-Opened args w v r h =
      let open_spooler : Bytes → Io Pipek1Error (Bytes × Option StreamSpooler) =
        λ payload. new_spooler C args >>= feed args payload in
      let load : String → Io Pipek1Error (Bytes × Option StreamSpooler) =
        λ path. read_signature C path >>= open_spooler in
      let name : Result Pipek1Error String =
        or_usage "Missing mandatory argument: --sig <file>" args.sig_path in
      let rest : Unit {0} → Io Pipek1Error (Bytes × Option StreamSpooler) =
        λ _. lift name >>= load in
      let (_, w1, e1, h1) = >>=-eq-ok (ensure_not _ _) rest w h in
      let (_, same1) =
        ensure_not-eq-ok (args.pass_through && not (is_some args.expected_pub)) _ w w1 e1 in
      let (path, w2, e2, h2) = >>=-eq-ok (lift name) load w1 h1 in
      let (has_path, same2) = lift_sound name path w1 w2 e2 in
      let (payload, w3, e3, h3) = >>=-eq-ok (read_signature C path) open_spooler w2 h2 in
      let (raw, found, detached, size, same3) =
        read_signature_sound path w2 w3 {payload = payload} e3 in
      record {
        path = path;
        raw = raw;
        payload = payload;
        named = or_usage-eq-ok _ args.sig_path has_path;
        read = ap (λ t. (fs_read path t).0) (same1 ∙ same2) ∙ found;
        detached = detached;
        size = size;
        goes_on = ap (λ t. open_spooler payload t) (same1 ∙ same2 ∙ sym same3) ∙ h3;
      }

module _ (C : Crypto) (A : IsAead C) where
  -- If `verify` accepts an input that works, within the ceiling and with a working disk if it is to be
  -- passed through, then the signature file holds a payload, armored or not, that is accepted for the
  -- whole input under the key that is returned, which is the expected one if there is one.
  pub verify_input-Verified :
      (args : VerifyArgs) (w v : World) (pk : Bytes) (o : Option StreamSpooler)
      → IsClean false w.stdin
      → Fits args.max_size args.pass_through (length (content w.stdin)) w
      → verify_input C args w ≡ (ok (pk, o), v)
      → Verified C args (content w.stdin) pk w
        × Tracks C args.max_size args.pass_through o (content w.stdin)
  verify_input-Verified args w v pk o clean fits h =
      let f : Opened C args w (ok (pk, o), v) = verify_input-Opened C args w v (pk, o) h in
      let message : Bytes = content w.stdin in
      let (o1, n, made, tracks) = new_spooler-Tracks C args w in
      let w1 : World = record w { drawn = n } in
      let (o2, fed, tracks') =
        absorb-content C A args.max_size args.pass_through o1 w1 clean tracks
          (Fits-drawn args.max_size args.pass_through _ n w fits) in
      let step : judge C args f.payload (message, o2) (with_stdin [] w1) ≡ (ok (pk, o), v) =
        unfold feed in (rw (made, fed) at f.goes_on) in
      let (accepted, expected, same) =
        judge_sound C args f.payload message pk o2 o (with_stdin [] w1) v step in
      (
        record {
          path = f.path;
          raw = f.raw;
          payload = f.payload;
          named = f.named;
          read = f.read;
          detached = f.detached;
          size = f.size;
          accepted = accepted;
          expected = expected;
        },
        subst (λ t. Tracks C args.max_size args.pass_through t message) same tracks',
      )
