-- ===== src/Main/GitSound.antt =====
-- When git is told that a signature is good.
use pipek.Prelude.{
  ℕ, ◌≡◌, refl, sym, ap, ◌∙◌, Bool-cases, none, some, String, ◌<>◌, ◌++◌, Result, ok, err, stuck,
  length, slice, ◌==◌, inl, inr, arith, not, if◌then◌else◌, lift, ◌>>=◌, map_err_of, >>=-eq-ok,
  map_err_of-eq-ok,
}
use pipek.Prelude.Bytes.{Bytes, from_be32}
use pipek.Prelude.Int.{pos}
use pipek.Prelude.Text.{as_bytes}
use pipek.Error.{Pipek1Error, IoError, usage_error, exit_code}
use pipek.World.{World, Io, eprintln, stdin_read_to_end}
use pipek.World.Files.{fs_read}
use pipek.Crypto.{Crypto}
use pipek.Signature.{verify_stream_payload}
use pipek.Signers.Paths.{resolve_allowed_signers}
use pipek.Armor.{detach_armor}
use pipek.Decrypt.Sound.{lift_sound}
use pipek.Shim.{
  write_status_fd, malformed_signature, find_identity, read_data, report, check_payload,
  shim_verify,
}
use pipek.Shim.Status.{good_status, outcome, check_payload-outcome}
use pipek.Main.{exit_of, real_main}
use pipek.Main.GitLines.{git_verify_line, verifying, git_verify_line-shim}

exit_of-some_0 :
    (out : Result Pipek1Error (Unit {0}) × World)
    → (exit_of out).0 ≡ some 0
    → (out.0 ≡ ok tt) × ((exit_of out).1 ≡ out.1)
unfolding exit_code
exit_of-some_0 (ok u, w) h = (refl, refl)
exit_of-some_0 (err e, w) h = absurd (ground arith)
exit_of-some_0 (stuck, w) h = cc

fs_read-same : (path : String) (w : World) → (fs_read path w).1 ≡ w
unfolding fs_read
fs_read-same path w = refl

-- Reading the data from standard input changes nothing else.
read_data-stdout : (w : World) → (read_data "-" w).1.stdout ≡ w.stdout
unfolding read_data stdin_read_to_end
read_data-stdout w = refl

module _ (C : Crypto) where
  -- The file holds a signature, armored or not, that is accepted for the data on standard input, and
  -- what was written says so, of its key and its time.
  pub record IsAccepted (path : String) (w : World) (written : Bytes) : Type 0 where
    pub raw : Bytes
    pub payload : Bytes
    pub message : Bytes
    pub rest : World
    pub pk : Bytes
    pub found : (fs_read path w).0 ≡ ok raw
    pub detached : detach_armor C raw ≡ ok payload
    pub size : length payload ≡ 105
    pub read : read_data "-" w ≡ (ok message, rest)
    pub accepted : verify_stream_payload C payload (C.sha256 message) ≡ ok pk
    pub status :
        written
        ≡ as_bytes (
            good_status C pk
              (from_be32 (slice 5 9 payload))
              (find_identity pk (resolve_allowed_signers C rest)))

  outcome_good :
      (r : Result String Bytes) (payload : Bytes) (v : World)
      → (outcome C r payload v).0 ≡ ok tt
      → (pk : Bytes) × (r ≡ ok pk)
  outcome_good (ok pk) payload v h = (pk, refl)
  outcome_good (err e) payload v h = cc
  outcome_good stuck payload v h = cc

  malformed-fails : (w u : World) → malformed_signature C (some (pos 1)) w ≡ (ok tt, u) → ⊥
  unfolding malformed_signature write_status_fd eprintln
  malformed-fails w u h = cc

  check_payload-reads :
      (payload : Bytes) (w u : World)
      → check_payload C (some (pos 1)) "-" payload w ≡ (ok tt, u)
      → (message : Bytes) × (v : World) × (read_data "-" w ≡ (ok message, v))
  unfolding check_payload
  check_payload-reads payload w u h =
      let (message, v, read, _) =
        >>=-eq-ok (read_data "-")
          (λ m. report C (some (pos 1)) payload (verify_stream_payload C payload (C.sha256 m))) w
          h in
      (message, v, read)

  -- The payload that was taken from the file, and the rest of the run.
  shim_verify_sound :
      (path : String) (w u : World)
      → shim_verify C (verifying path) w ≡ (ok tt, u)
      → (raw : Bytes) × (payload : Bytes) × ((fs_read path w).0 ≡ ok raw)
        × (detach_armor C raw ≡ ok payload)
        × (length payload ≡ 105)
        × (check_payload C (some (pos 1)) "-" payload w ≡ (ok tt, u))
  unfolding shim_verify
  shim_verify_sound path w u h =
      let checked : Bytes → Io Pipek1Error (Unit {0}) = λ bs.
        if not (length bs == 105)
        then malformed_signature C (some (pos 1))
        else check_payload C (some (pos 1)) "-" bs in
      let wrong : IoError → Pipek1Error =
        λ e. usage_error ("Cannot read signature: " <> e.message) in
      let (raw, w1, e1, h1) =
        >>=-eq-ok (map_err_of wrong (fs_read path)) (λ raw. lift (detach_armor C raw) >>= checked) w
          h in
      let found = map_err_of-eq-ok wrong (fs_read path) w e1 in
      let (bs, w2, e2, h2) = >>=-eq-ok (lift (detach_armor C raw)) checked w1 h1 in
      let (detached, same) = lift_sound (detach_armor C raw) bs w1 w2 e2 in
      let back : w2 ≡ w = sym same ∙ sym (ap (λ p. p.1) found) ∙ fs_read-same path w in
      elim (Bool-cases (length bs == 105)) [
        | inl size ↦
            (raw, bs, ap (λ p. p.0) found, detached, ground arith, rw back at (rw size at h2))
        | inr size ↦ absurd (malformed-fails w2 u (rw size at h2))
      ]

  -- If git has a signature verified and the exit code is 0, with a standard output that takes all,
  -- then the file holds a payload of 105 bytes, armored or not, that is accepted for the data on
  -- standard input, and what was written is exactly the status of a good signature: of the key that
  -- verifies it, at the time in the payload, with the identity that the database of allowed signers
  -- has for the key, if any.
  pub git_verify_line_sound :
      (fuel : ℕ) (exe path : String) (w : World)
      → w.stdout.room ≡ none
      → (real_main C fuel (git_verify_line exe path) w).0 ≡ some 0
      → (written : Bytes) × ((real_main C fuel (git_verify_line exe path) w).1.stdout.bytes
          ≡ w.stdout.bytes ++ written)
        × IsAccepted path w written
  git_verify_line_sound fuel exe path w room h =
      let run = git_verify_line-shim C fuel exe path w in
      let out = shim_verify C (verifying path) w in
      let (good, world) = exit_of-some_0 out (sym (ap (λ p. p.0) run) ∙ h) in
      let (raw, payload, found, detached, size, checked) =
        shim_verify_sound path w out.1 (ap (λ r. (r, out.1)) good) in
      let (message, v, read) = check_payload-reads payload w out.1 checked in
      let same : v.stdout ≡ w.stdout = sym (ap (λ p. p.1.stdout) read) ∙ read_data-stdout w in
      let verdict = verify_stream_payload C payload (C.sha256 message) in
      let (code, bytes) =
        check_payload-outcome C "-" payload message w v read (ap (λ t. t.room) same ∙ room) in
      let (pk, accepted) = outcome_good verdict payload v (sym code ∙ ap (λ p. p.0) checked) in
      let status : String =
        good_status C pk (from_be32 (slice 5 9 payload))
          (find_identity pk (resolve_allowed_signers C v)) in
      (
        as_bytes status,
        ap (λ p. p.1.stdout.bytes) run
            ∙ ap (λ t. t.stdout.bytes) world
            ∙ sym (ap (λ p. p.1.stdout.bytes) checked)
            ∙ bytes
            ∙ ap (λ t. t.bytes ++ as_bytes (outcome C verdict payload v).1) same
            ∙ ap (λ r. w.stdout.bytes ++ as_bytes (outcome C r payload v).1) accepted,
        record {
          raw = raw;
          payload = payload;
          message = message;
          rest = v;
          pk = pk;
          found = found;
          detached = detached;
          size = size;
          read = read;
          accepted = accepted;
          status = refl;
        },
      )
