-- ===== src/Decrypt/Release.antt =====
-- When `run_decrypt` releases plaintext.
use pipek.Prelude.{
  ℕ, ◌≡◌, ◌≢◌, subst, refl, ◌∙◌, ap, String, ◌<>◌, Bool, true, false, Bool-cases, not, Option, some,
  Result, ok, err, stuck, arith, ◌⊎◌, inl, inr, lift, pure, ◌>>=◌, continue, map_err, map_err_of,
  slice, bytes_eq, bytes_eq→eq, ensure_not, ◌==◌, >>=-eq-ok, map_err-eq-ok, map_err_of-eq-ok,
}
use pipek.Prelude.Bytes.{Bytes}
use pipek.Error.{Pipek1Error, io, wire_corruption, auth_failure, usage_error}
use pipek.World.{World, Io, eprintln, stdin_read_exact}
use pipek.World.Keeps.{Keeps-of}
use pipek.Crypto.{Crypto}
use pipek.Wire.{tag_auth, auth_transcript, tagged_hash}
use pipek.Keys.{KeyIntakeArgs, parse_key_bytes}
use pipek.Spool.{StreamSpooler, release_to}
use pipek.Decrypt.{
  Session, encode_npub, verify_stream, run_decrypt, check_sender, check_trailer, check_origin,
}
use pipek.Decrypt.Silence.{verify_stream-IsSilent}
use pipek.Decrypt.Sound.{lift_sound, pure_sound}

module _ (C : Crypto) where
  -- Without `--allow-unverified-stream`: either the run fails and standard output is as it was
  -- before, or every check of the stream has passed, up to its end, with standard output as it was
  -- before, and what is left of the run is the release of the spooler.
  pub run_decrypt-withholds :
      (expected : Option String) (allow : Bool) (max : Option ℕ) (key_args : KeyIntakeArgs)
      (w : World)
      → let run = run_decrypt C expected allow false max key_args w in
        ((run.0 ≢ ok tt) × (run.1.stdout ≡ w.stdout))
        ⊎ ((s : StreamSpooler) × (v : World) × (verify_stream C expected allow false max key_args w
              ≡ (ok s, v))
            × (v.stdout ≡ w.stdout)
            × (run ≡ map_err_of io (release_to C s) v))
  unfolding run_decrypt
  run_decrypt-withholds expected allow max key_args w =
      cases (verify_stream C expected allow false max key_args w).0
        (verify_stream C expected allow false max key_args w).1 refl
        (Keeps-of _ _ (verify_stream-IsSilent C expected allow max key_args) w)
    where
      release : StreamSpooler → Io Pipek1Error (Unit {0})
      release s = map_err_of io (release_to C s)

      cases :
          (r : Result Pipek1Error StreamSpooler) (v : World)
          → verify_stream C expected allow false max key_args w ≡ (r, v)
          → v.stdout ≡ w.stdout
          → (((continue r release v).0 ≢ ok tt) × ((continue r release v).1.stdout ≡ w.stdout))
            ⊎ ((s : StreamSpooler) × (u : World) × (verify_stream C expected allow false max
                    key_args w
                  ≡ (ok s, u))
                × (u.stdout ≡ w.stdout)
                × (continue r release v ≡ map_err_of io (release_to C s) u))
      cases (ok s) v e same = inr (s, v, e, same, refl)
      cases (err x) v e same = inl ((λ h. cc h), same)
      cases stuck v e same = inl ((λ h. cc h), same)

  -- The next 96 bytes of the input are a key and a signature under it on a stream.
  pub record IsSigned (w : World) (pk hmac digest : Bytes) : Type 0 where
    pub trailer : Bytes
    pub rest : World
    pub vk : C.VerifyingKey
    pub sig : C.Signature
    pub found : stdin_read_exact 96 w ≡ (ok trailer, rest)
    pub sender : slice 0 32 trailer ≡ pk
    pub key_read : C.verifying_key (slice 0 32 trailer) ≡ ok vk
    pub signature_read : C.signature (slice 32 96 trailer) ≡ ok sig
    pub verifies :
        C.verify_raw vk (tagged_hash C tag_auth (auth_transcript hmac digest)) sig ≡ ok tt

  check_sender_sound :
      (e : String) (allow : Bool) (pk : Bytes) (w u : World)
      → check_sender C (some e) allow pk w ≡ (ok tt, u)
      → parse_key_bytes C e ≡ ok pk
  unfolding check_sender eprintln
  check_sender_sound e allow pk w u h =
      let parsed : Result Pipek1Error Bytes = map_err usage_error (parse_key_bytes C e) in
      let compare : Bytes → Io Pipek1Error (Unit {0}) = λ b.
        ensure_not (not (bytes_eq b pk)) (
          auth_failure (
            "Authenticated sender "
            <> (encode_npub C pk <> (" does not match expected sender " <> e))))
        >>= λ _.
            eprintln ("Notice: Authenticated Mode 1 stream verified from " <> encode_npub C pk) in
      let (b, w1, h1, k1) = >>=-eq-ok (lift parsed) compare w h in
      elim (Bool-cases (bytes_eq b pk)) [
        | inl same ↦
            map_err-eq-ok usage_error (parse_key_bytes C e) (lift_sound parsed b w w1 h1).0
            ∙ ap ok (bytes_eq→eq b pk same)
        | inr other ↦ absurd (cc (rw other at k1))
      ]

  check_trailer-IsSigned :
      (hmac digest pk : Bytes) (w u : World)
      → check_trailer C hmac digest w ≡ (ok pk, u)
      → IsSigned w pk hmac digest
  unfolding check_trailer
  check_trailer-IsSigned hmac digest pk w u h =
      let answer : Bytes → Unit {0} → Io Pipek1Error Bytes =
        λ trailer _. pure (slice 0 32 trailer) in
      let verified : C.VerifyingKey → C.Signature → Result Pipek1Error (Unit {0}) = λ vk sig.
        map_err (λ e. auth_failure ("Mode 1 trailer signature verification failed: " <> e))
          (C.verify_raw vk (tagged_hash C tag_auth (auth_transcript hmac digest)) sig) in
      let key : Bytes → Result Pipek1Error C.VerifyingKey = λ trailer.
        map_err (λ e. wire_corruption ("Invalid sender public key in trailer: " <> e))
          (C.verifying_key (slice 0 32 trailer)) in
      let signature : Bytes → Result Pipek1Error C.Signature = λ trailer.
        map_err (λ e. wire_corruption ("Invalid signature framing in trailer: " <> e))
          (C.signature (slice 32 96 trailer)) in
      let verifying : Bytes → C.VerifyingKey → C.Signature → Io Pipek1Error Bytes =
        λ trailer vk sig. lift (verified vk sig) >>= answer trailer in
      let signing : Bytes → C.VerifyingKey → Io Pipek1Error Bytes =
        λ trailer vk. lift (signature trailer) >>= verifying trailer vk in
      let keyed : Bytes → Io Pipek1Error Bytes =
        λ trailer. lift (key trailer) >>= signing trailer in
      let (trailer, w1, h1, k1) =
        >>=-eq-ok
          (map_err_of
            (λ e.
              wire_corruption ("Missing or truncated Mode 1 authenticated trailer: " <> e.message))
            (stdin_read_exact 96))
          keyed w h in
      let (vk, w2, h2, k2) = >>=-eq-ok (lift (key trailer)) (signing trailer) w1 k1 in
      let (sig, w3, h3, k3) = >>=-eq-ok (lift (signature trailer)) (verifying trailer vk) w2 k2 in
      let (_, w4, h4, k4) = >>=-eq-ok (lift (verified vk sig)) (answer trailer) w3 k3 in
      let (pk_is, _) = pure_sound (slice 0 32 trailer) pk w4 u k4 in
      record {
        trailer = trailer;
        rest = w1;
        vk = vk;
        sig = sig;
        found = map_err_of-eq-ok _ (stdin_read_exact 96) w h1;
        sender = pk_is;
        key_read =
            map_err-eq-ok (λ e. wire_corruption ("Invalid sender public key in trailer: " <> e))
              (C.verifying_key (slice 0 32 trailer)) (lift_sound (key trailer) vk w1 w2 h2).0;
        signature_read =
            map_err-eq-ok (λ e. wire_corruption ("Invalid signature framing in trailer: " <> e))
              (C.signature (slice 32 96 trailer)) (lift_sound (signature trailer) sig w2 w3 h3).0;
        verifies =
            map_err-eq-ok
              (λ e. auth_failure ("Mode 1 trailer signature verification failed: " <> e))
              (C.verify_raw vk (tagged_hash C tag_auth (auth_transcript hmac digest)) sig)
              (lift_sound (verified vk sig) tt w3 w4 h4).0;
      }

  -- If the end of a mode 1 stream is accepted, then the next 96 bytes of the input are a key, in the
  -- first 32, and a signature, in the last 64, which verifies under this key for the header's HMAC
  -- and the digest of all that was fed to the hasher; and the key is the expected one if there is
  -- one.
  pub check_origin-IsSigned :
      (session : Session) (expected : Option String) (allow : Bool) (hashed : Bytes) (w u : World)
      → session.mode ≡ 1
      → check_origin C session expected allow hashed w ≡ (ok tt, u)
      → (pk : Bytes) × IsSigned w pk session.header_hmac (C.sha256 hashed)
        × ((e : String) → expected ≡ some e → parse_key_bytes C e ≡ ok pk)
  unfolding check_origin
  check_origin-IsSigned session expected allow hashed w u one h =
      let test : (session.mode == 1) ≡ true = ground arith in
      let (pk, w1, signed, sender) =
        >>=-eq-ok (check_trailer C session.header_hmac (C.sha256 hashed))
          (check_sender C expected allow) w (rw test at h) in
      (
        pk,
        check_trailer-IsSigned session.header_hmac (C.sha256 hashed) pk w w1 signed,
        λ e given.
            check_sender_sound e allow pk w1 u
              (subst (λ x. check_sender C x allow pk w1 ≡ (ok tt, u)) given sender),
      )
