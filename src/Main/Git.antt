-- ===== src/Main/Git.antt =====
-- What git signs is verified by git.
use pipek.Prelude.{
  ℕ, ◌%◌, ◌≡◌, refl, ap, sym, subst, ◌∙◌, Bool, Option, none, some, String, [], ◌∷◌, ◌++◌, ok,
  arith, bytes_eq_refl, length, slice, ◌<>◌,
}
use pipek.Prelude.Bytes.{Bytes, from_be32}
use pipek.Prelude.Int.{pos}
use pipek.Prelude.Text.{as_bytes, decimal}
use pipek.Io.{Reader}
use pipek.Io.Input.{content, IsClean, read_to_end_lem}
use pipek.World.{World, stdin_read_to_end}
use pipek.World.Files.{fs_read}
use pipek.World.Laws.{emit, with_stdin}
use pipek.Crypto.{Crypto, IsHash, IsSchnorr, IsBase64}
use pipek.Keys.{no_key_args, parse_key_bytes, load_secret_key}
use pipek.Keys.Sources.{load_secret_key-keeps}
use pipek.Signature.{verify_stream_payload}
use pipek.Signature.RoundTrip.{verify-sign, sign-timestamp}
use pipek.Signers.Paths.{resolve_allowed_signers}
use pipek.Armor.RoundTrip.{detach_armor-armor_text, print_armored-emit}
use pipek.Armor.Markers.{armor_text, IsMarker-pgp}
use pipek.Shim.{find_identity, read_data, check_key_id, write_status_fd, shim_sign, shim_verify}
use pipek.Shim.Status.{good_status, outcome, check_payload-outcome}
use pipek.Commands.RoundTrip.{now_u32_lem}
use pipek.Main.{exit_of, real_main}
use pipek.Main.RoundTrip.{exit_of-ok}
use pipek.Main.GitLines.{
  git_sign_line, git_verify_line, signing, verifying, git_sign_line-shim, git_verify_line-shim,
}

read_stdin :
    (signals : Bool) (w : World)
    → IsClean signals w.stdin
    → (rest : Reader) × (stdin_read_to_end w ≡ (ok (content w.stdin), with_stdin rest w))
unfolding stdin_read_to_end
read_stdin signals w clean =
    let (rest, e) = read_to_end_lem signals w.stdin clean in
    (rest, ap (λ p. (p.0, with_stdin p.1 w)) e)

module _ (C : Crypto) (S : IsSchnorr C) (H : IsHash C) (B : IsBase64 C) where
  -- What the shim prints when it signs, and what it is for.
  record Printed (key : C.SigningKey) (message : Bytes) (timestamp : ℕ) (text : Bytes)
      : Type 0 where
    payload : Bytes
    size : length payload ≡ 105
    accepted : verify_stream_payload C payload (C.sha256 message) ≡ ok (C.public_bytes key)
    time : from_be32 (slice 5 9 payload) ≡ timestamp
    written : text ≡ as_bytes (armor_text "PGP" (C.base64_encode payload))

  check_key_id-same :
      (kid : String) (pk : Bytes) (w : World)
      → parse_key_bytes C kid ≡ ok pk
      → check_key_id C (some (pos 2)) (some kid) pk w ≡ (ok tt, w)
  unfolding check_key_id
  check_key_id-same kid pk w e = rw (e, bytes_eq_refl pk)

  shim_sign-Printed :
      (signals : Bool) (kid : String) (sk : Bytes) (key : C.SigningKey) (seconds : ℕ) (w v : World)
      → load_secret_key C no_key_args w ≡ (ok sk, v)
      → C.signing_key sk ≡ ok key
      → parse_key_bytes C kid ≡ ok (C.public_bytes key)
      → IsClean signals v.stdin
      → v.clock ≡ some seconds
      → v.stdout.room ≡ none
      → (text : Bytes) × (u : World) × (shim_sign C (signing kid) w ≡ (ok tt, u))
        × (u.stdout.bytes ≡ v.stdout.bytes ++ text)
        × Printed key (content v.stdin) (seconds % 4294967296) text
  unfolding shim_sign write_status_fd
  shim_sign-Printed signals kid sk key seconds w v loaded valid parsed clean clock room =
      let now : ℕ = seconds % 4294967296 in
      let digest : Bytes = C.sha256 (content v.stdin) in
      let (rest, input) = read_stdin signals v clean in
      let v1 : World = with_stdin rest v in
      let (payload, made, size, accepted) = verify-sign C S H key digest now (omega arith) in
      let status : String =
        "[GNUPG:] SIG_CREATED D 1 8 00 "
        <> (decimal now <> (" " <> (C.hex_encode (C.public_bytes key) <> "\n"))) in
      let v2 : World = record v1 { stderr = v1.stderr ++ (status ∷ []) } in
      let text : Bytes = as_bytes (armor_text "PGP" (C.base64_encode payload)) in
      (
        text,
        emit text v2,
        rw
            (
              loaded,
              valid,
              check_key_id-same kid (C.public_bytes key) v parsed,
              input,
              now_u32_lem seconds v1 clock,
              made,
            )
            (print_armored-emit C B "PGP" payload v2 room),
        refl,
        record {
          payload = payload;
          size = size;
          accepted = accepted;
          time = sign-timestamp C S H key digest payload now (omega arith) made;
          written = refl;
        },
      )

  shim_verify-Printed :
      (signals : Bool) (key : C.SigningKey) (timestamp : ℕ) (text : Bytes) (path : String)
      (w : World)
      → Printed key (content w.stdin) timestamp text
      → fs_read path w ≡ (ok text, w)
      → IsClean signals w.stdin
      → w.stdout.room ≡ none
      → (rest : Reader) × let run = shim_verify C (verifying path) w in
          (run.0 ≡ ok tt)
          × (run.1.stdout.bytes
              ≡ w.stdout.bytes
                ++ as_bytes (
                    good_status C (C.public_bytes key) timestamp (
                      find_identity
                        (C.public_bytes key)
                        (resolve_allowed_signers C (with_stdin rest w)))))
  unfolding shim_verify
  shim_verify-Printed signals key timestamp text path w p found clean room =
      let (rest, input) = read_stdin signals w clean in
      let v : World = with_stdin rest w in
      let pk : Bytes = C.public_bytes key in
      let database : Reader → Option String =
        λ rest. find_identity pk (resolve_allowed_signers C (with_stdin rest w)) in
      let data_read : read_data "-" w ≡ (ok (content w.stdin), v) = unfold read_data in rw input in
      let (code, bytes) =
        check_payload-outcome C "-" p.payload (content w.stdin) w v data_read room in
      (
        rest,
        rw (found, p.written, detach_armor-armor_text C B "PGP" p.payload IsMarker-pgp, p.size)
            (
              code ∙ ap (λ r. (outcome C r p.payload v).0) p.accepted,
              bytes
                  ∙ ap (λ r. w.stdout.bytes ++ as_bytes (outcome C r p.payload v).1) p.accepted
                  ∙ ap (λ t. w.stdout.bytes ++ as_bytes (good_status C pk t (database rest)))
                      p.time,
            ),
      )

  -- Git has a commit signed, with the key that it names, by a process with a working input, a clock and
  -- an empty output. It has the signature verified by another with the same working input, from a file
  -- that holds what the first one wrote. Then both exit with 0, and the second has written the status
  -- lines of a good signature of the key at the time of signing modulo 2^32. They say that the trust
  -- is ultimate, under the identity that is found, if the key is in the database of allowed signers,
  -- and that it is undefined if not.
  pub git_verify_line-git_sign_line :
      (fuel : ℕ) (signals : Bool) (exe path kid : String) (sk : Bytes) (key : C.SigningKey)
      (seconds : ℕ) (w v : World)
      → (load_secret_key C no_key_args w).0 ≡ ok sk
      → C.signing_key sk ≡ ok key
      → parse_key_bytes C kid ≡ ok (C.public_bytes key)
      → IsClean signals w.stdin
      → w.clock ≡ some seconds
      → w.stdout.room ≡ none
      → w.stdout.bytes ≡ []
      → IsClean signals v.stdin
      → content v.stdin ≡ content w.stdin
      → fs_read path v ≡ (ok (real_main C fuel (git_sign_line exe kid) w).1.stdout.bytes, v)
      → v.stdout.room ≡ none
      → (rest : Reader) × let verified = real_main C fuel (git_verify_line exe path) v in
          let ident =
            find_identity (C.public_bytes key) (resolve_allowed_signers C (with_stdin rest v)) in
          ((real_main C fuel (git_sign_line exe kid) w).0 ≡ some 0)
          × (verified.0 ≡ some 0)
          × (verified.1.stdout.bytes
              ≡ v.stdout.bytes
                ++ as_bytes (good_status C (C.public_bytes key) (seconds % 4294967296) ident))
  git_verify_line-git_sign_line fuel signals exe path kid sk key seconds w v loaded valid parsed
        clean clock room empty clean' same found room' =
      let u : World = (load_secret_key C no_key_args w).1 in
      let keeps = load_secret_key-keeps C no_key_args w in
      let input : u.stdin ≡ w.stdin = ap (λ t. t.stdin) keeps in
      let out : u.stdout ≡ w.stdout = ap (λ t. t.stdout) keeps in
      let (text, t, signed, bytes, p) =
        shim_sign-Printed signals kid sk key seconds w u (ap (λ r. (r, u)) loaded) valid parsed
          (subst (IsClean signals) (sym input) clean) (ap (λ t. t.clock) keeps ∙ clock)
          (ap (λ t. t.room) out ∙ room) in
      let run = git_sign_line-shim C fuel exe kid w ∙ ap exit_of signed in
      let written : (real_main C fuel (git_sign_line exe kid) w).1.stdout.bytes ≡ text =
        ap (λ p. p.1.stdout.bytes) run
        ∙ bytes
        ∙ ap (λ t. t.bytes ++ text) out
        ∙ ap (λ t. t ++ text) empty in
      let (rest, (accepted, status)) =
        shim_verify-Printed signals key (seconds % 4294967296) text path v
          (subst (λ m. Printed key m (seconds % 4294967296) text) (ap content input ∙ sym same) p)
          (found ∙ ap (λ t. (ok t, v)) written) clean' room' in
      let checked = git_verify_line-shim C fuel exe path v in
      let (code, world) = exit_of-ok (shim_verify C (verifying path) v) accepted in
      (
        rest,
        (
          ap (λ p. p.0) run,
          ap (λ p. p.0) checked ∙ code,
          ap (λ p. p.1.stdout.bytes) checked ∙ ap (λ t. t.stdout.bytes) world ∙ status,
        ),
      )
