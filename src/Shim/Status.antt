-- ===== src/Shim/Status.antt =====
-- What git reads on the status descriptor when it verifies.
use pipek.Prelude.{
  ℕ, ◌/◌, ◌≡◌, refl, ap, sym, ◌∙◌, Option, none, some, String, ◌<>◌, [], ◌∷◌, ◌++◌, Result, ok, err,
  stuck, slice, append_assoc, append-nil, ◌>>◌,
}
use pipek.Prelude.Bytes.{Bytes, from_be32}
use pipek.Prelude.Int.{pos}
use pipek.Prelude.Text.{as_bytes, decimal}
use pipek.Prelude.Text.Laws.{as_bytes-append}
use pipek.Error.{Pipek1Error, auth_failure}
use pipek.World.{World, Io, eprintln}
use pipek.World.Laws.{emit, stdout_write-emit}
use pipek.Crypto.{Crypto}
use pipek.Signature.{verify_stream_payload}
use pipek.Decrypt.{encode_npub}
use pipek.Signers.Paths.{resolve_allowed_signers}
use pipek.Civil.{civil_date}
use pipek.Shim.{
  write_status_fd, date_str, find_identity, good_lines, good_signature, bad_signature, report,
  read_data, check_payload,
}

-- The computation succeeds with standard output longer by a text, if that has no bound.
abbrev Writes : String → Io Pipek1Error (Unit {0}) → Type 0
Writes text m =
    (w : World)
    → w.stdout.room ≡ none
    → (u : World) × (m w ≡ (ok tt, u))
      × (u.stdout.bytes ≡ w.stdout.bytes ++ as_bytes text)
      × (u.stdout.room ≡ none)

Writes-status : (line : String) → Writes line (write_status_fd (some (pos 1)) line)
unfolding write_status_fd
Writes-status line w room =
    (emit (as_bytes line) w, rw (stdout_write-emit (as_bytes line) w room), refl, room)

Writes-eprintln : (line : String) → Writes "" (eprintln line)
unfolding eprintln as_bytes
Writes-eprintln line w room = (
  record w { stderr = w.stderr ++ ((line <> "\n") ∷ []) },
  refl,
  sym (append-nil w.stdout.bytes),
  room,
)

Writes-both :
    (a b : String) (w u v : World)
    → u.stdout.bytes ≡ w.stdout.bytes ++ as_bytes a
    → v.stdout.bytes ≡ u.stdout.bytes ++ as_bytes b
    → v.stdout.bytes ≡ w.stdout.bytes ++ as_bytes (a <> b)
Writes-both a b w u v bytes bytes' =
    bytes'
    ∙ ap (λ t. t ++ as_bytes b) bytes
    ∙ append_assoc w.stdout.bytes (as_bytes a) (as_bytes b)
    ∙ ap (λ t. w.stdout.bytes ++ t) (sym (as_bytes-append a b))

Writes-then :
    (a b : String) (m n : Io Pipek1Error (Unit {0}))
    → Writes a m
    → Writes b n
    → Writes (a <> b) (m >> n)
Writes-then a b m n f g w room =
    let (u, step, bytes, room') = f w room in
    let (v, step', bytes', room'') = g u room' in
    (v, rw (step, step'), Writes-both a b w u v bytes bytes', room'')

-- A note on standard error in front changes nothing.
Writes-noted :
    (line b : String) (n : Io Pipek1Error (Unit {0})) → Writes b n → Writes b (eprintln line >> n)
unfolding as_bytes
Writes-noted line b n g w room =
    let (u, step, bytes, room') = Writes-eprintln line w room in
    let (v, step', bytes', room'') = g u room' in
    (
      v,
      rw (step, step'),
      bytes' ∙ ap (λ t. t ++ as_bytes b) (bytes ∙ append-nil w.stdout.bytes),
      room'',
    )

module _ (C : Crypto) where
  -- The status of a good signature: its signer is in the database under a name, or is not in it.
  abbrev pub trust_status : Bytes → Option String → String × String
  trust_status pk (some ident) = (ident, "[GNUPG:] TRUST_ULTIMATE 0 pgp\n")
  trust_status pk none = (encode_npub C pk, "[GNUPG:] TRUST_UNDEFINED 0 pgp\n")

  abbrev pub good_rest : Bytes → ℕ → Option String → String
  good_rest pk timestamp ident =
      (("[GNUPG:] GOODSIG " <> (C.hex_encode pk <> (" " <> ((trust_status pk ident).0 <> "\n"))))
        <> (("[GNUPG:] VALIDSIG "
              <> (C.hex_encode pk
                  <> (" "
                      <> (date_str (civil_date (timestamp / 86400))
                          <> (" "
                              <> (decimal timestamp
                                  <> (" 0 4 0 1 8 00 " <> (C.hex_encode pk <> "\n"))))))))
            <> (trust_status pk ident).1))

  abbrev pub good_status : Bytes → ℕ → Option String → String
  good_status pk timestamp ident = "[GNUPG:] NEWSIG\n" <> good_rest pk timestamp ident

  abbrev pub bad_status : Bytes → String
  bad_status pk =
      "[GNUPG:] NEWSIG\n"
      <> ("[GNUPG:] BADSIG " <> (C.hex_encode pk <> (" " <> (encode_npub C pk <> "\n"))))

  -- The outcome and the status for what verification answers.
  abbrev pub Outcome : Type 0
  Outcome = Result Pipek1Error (Unit {0}) × String

  abbrev pub outcome : Result String Bytes → Bytes → World → Outcome
  outcome (ok pk) payload w = (
    ok tt,
    good_status pk (from_be32 (slice 5 9 payload)) (find_identity pk (resolve_allowed_signers C w)),
  )
  outcome (err e) payload w =
      (err (auth_failure ("signature verification failed: " <> e)), bad_status (slice 9 41 payload))
  outcome stuck payload w = (stuck, "")

  good_lines-Writes :
      (pk : Bytes) (timestamp : ℕ) (ident : Option String)
      → Writes (good_rest pk timestamp ident) (good_lines C (some (pos 1)) pk timestamp ident)
  unfolding good_lines
  good_lines-Writes pk timestamp (some ident) = Writes-noted _ _ _ (
      Writes-noted _ _ _ (
        Writes-then _ _ _ _ (Writes-status _)
          (Writes-then _ _ _ _ (Writes-status _) (Writes-status _))))
  good_lines-Writes pk timestamp none = Writes-noted _ _ _ (
      Writes-noted _ _ _ (
        Writes-then _ _ _ _ (Writes-status _)
          (Writes-then _ _ _ _ (Writes-status _) (Writes-status _))))

  report-outcome :
      (payload : Bytes) (w : World)
      → w.stdout.room ≡ none
      → (r : Result String Bytes)
      → let run = report C (some (pos 1)) payload r w in
        (run.0 ≡ (outcome r payload w).0)
        × (run.1.stdout.bytes ≡ w.stdout.bytes ++ as_bytes (outcome r payload w).1)
  unfolding report good_signature bad_signature eprintln as_bytes
  report-outcome payload w room (ok pk) =
      let timestamp : ℕ = from_be32 (slice 5 9 payload) in
      let ident : Option String = find_identity pk (resolve_allowed_signers C w) in
      let (u, step, bytes, _) =
        Writes-then "[GNUPG:] NEWSIG\n" (good_rest pk timestamp ident) _ _ (Writes-status _)
          (good_lines-Writes pk timestamp ident) w room in
      (ap (λ p. p.0) step, ap (λ p. p.1.stdout.bytes) step ∙ bytes)
  report-outcome payload w room (err e) =
      let pk : Bytes = slice 9 41 payload in
      let bad : String =
        "[GNUPG:] BADSIG " <> (C.hex_encode pk <> (" " <> (encode_npub C pk <> "\n"))) in
      let (u, step, bytes, room1) = Writes-status "[GNUPG:] NEWSIG\n" w room in
      let (v, step', bytes', _) = Writes-status bad u room1 in
      let whole = Writes-both "[GNUPG:] NEWSIG\n" bad w u v bytes bytes' in
      rw (step, step') (refl, whole)
  report-outcome payload w room stuck = (refl, sym (append-nil w.stdout.bytes))

  -- A verification on the status descriptor 1, for a payload of 105 bytes and data that can be read:
  -- with an accepted signature it succeeds and writes the lines of a good one, with its trust decided
  -- by the database of allowed signers; otherwise it fails and writes the line of a bad one, with the
  -- key and its npub, whether or not the key is in the database.
  pub check_payload-outcome :
      (path : String) (payload data_bytes : Bytes) (w v : World)
      → read_data path w ≡ (ok data_bytes, v)
      → v.stdout.room ≡ none
      → let run = check_payload C (some (pos 1)) path payload w in
        let answer = outcome (verify_stream_payload C payload (C.sha256 data_bytes)) payload v in
        (run.0 ≡ answer.0) × (run.1.stdout.bytes ≡ v.stdout.bytes ++ as_bytes answer.1)
  unfolding check_payload
  check_payload-outcome path payload data_bytes w v read room =
      rw read
        (report-outcome payload v room (verify_stream_payload C payload (C.sha256 data_bytes)))
