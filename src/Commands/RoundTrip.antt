-- ===== src/Commands/RoundTrip.antt =====
-- `sign --armor` and then `verify`.
use pipek.Prelude.{
  ℕ, ◌%◌, ◌≡◌, refl, sym, Bool, true, false, Option, none, some, String, [], ◌++◌, ok, arith,
  length, append-nil, bytes_eq_refl, if◌then◌else◌, ◌&&◌,
}
use pipek.Prelude.Bytes.{Bytes}
use pipek.Prelude.Text.{as_bytes}
use pipek.Io.Input.{content, IsClean}
use pipek.World.{World, eprintln}
use pipek.World.Files.{fs_read}
use pipek.World.Laws.{emit, with_stdin}
use pipek.Crypto.{Crypto, IsAead, IsHash, IsSchnorr, IsBase64}
use pipek.Keys.{KeyIntakeArgs, parse_key_bytes, load_secret_key}
use pipek.Signature.{verify_stream_payload}
use pipek.Signature.RoundTrip.{verify-sign}
use pipek.Spool.{StreamSpooler}
use pipek.Spool.Release.{release_to-emit}
use pipek.Armor.RoundTrip.{detach_armor-armor_text, print_armored-emit}
use pipek.Armor.Markers.{armor_text, IsMarker-pipe_k1}
use pipek.Shim.{now_u32}
use pipek.Commands.{
  VerifyArgs, load_signing_key, sign, write_signature, read_signature, check_expected, verify_input,
  release, verify,
}
use pipek.Commands.Absorb.{Tracks, Fits, Fits-drawn, absorb-content, new_spooler-Tracks}

pub now_u32_lem :
    (seconds : ℕ) (w : World) → w.clock ≡ some seconds → now_u32 w ≡ (ok (seconds % 4294967296), w)
unfolding now_u32
now_u32_lem seconds w h = rw h

module _ (C : Crypto) where
  -- A payload that is accepted for a message, and its armored text.
  pub record Signed (key : C.SigningKey) (message : Bytes) (text : Bytes) : Type 0 where
    pub payload : Bytes
    pub size : length payload ≡ 105
    pub accepted : verify_stream_payload C payload (C.sha256 message) ≡ ok (C.public_bytes key)
    pub written : text ≡ as_bytes (armor_text "PIPE-K1" (C.base64_encode payload))

module _ (C : Crypto) (A : IsAead C) (S : IsSchnorr C) (H : IsHash C) (B : IsBase64 C) where
  pub sign-Signed :
      (key_args : KeyIntakeArgs) (sk : Bytes) (key : C.SigningKey) (seconds : ℕ) (w v : World)
      → load_secret_key C key_args w ≡ (ok sk, v)
      → C.signing_key sk ≡ ok key
      → IsClean false v.stdin
      → v.clock ≡ some seconds
      → v.stdout.room ≡ none
      → (text : Bytes) × (sign C true key_args w ≡ (ok tt, emit text (with_stdin [] v)))
        × Signed C key (content v.stdin) text
  unfolding sign load_signing_key write_signature
  sign-Signed key_args sk key seconds w v loaded valid clean clock room =
      let message : Bytes = content v.stdin in
      let (payload, made, size, accepted) =
        verify-sign C S H key (C.sha256 message) (seconds % 4294967296) (omega arith) in
      let (o, fed, e) = absorb-content C A none false none v clean refl tt in
      (
        as_bytes (armor_text "PIPE-K1" (C.base64_encode payload)),
        rw (loaded, valid, fed, now_u32_lem seconds (with_stdin [] v) clock, made)
            (print_armored-emit C B "PIPE-K1" payload (with_stdin [] v) room),
        record { payload = payload; size = size; accepted = accepted; written = refl },
      )

  read_signature-Signed :
      (key : C.SigningKey) (message text : Bytes) (path : String) (w : World)
      → (s : Signed C key message text) → fs_read path w ≡ (ok text, w)
      → read_signature C path w ≡ (ok s.payload, w)
  unfolding read_signature
  read_signature-Signed key message text path w s found =
      rw
        (found, s.written, detach_armor-armor_text C B "PIPE-K1" s.payload IsMarker-pipe_k1, s.size)

  check_expected-same :
      (exp : String) (pk : Bytes) (w : World)
      → parse_key_bytes C exp ≡ ok pk
      → check_expected C (some exp) pk w ≡ (ok tt, w)
  unfolding check_expected
  check_expected-same exp pk w e = rw (e, bytes_eq_refl pk)

  -- What a release writes.
  abbrev pub released : Bool → Bytes → Bytes
  released pass_through message = if pass_through then message else []

  release-released :
      (pk message : Bytes) (max : Option ℕ) (spools : Bool) (o : Option StreamSpooler) (w : World)
      → Tracks C max spools o message
      → w.stdout.room ≡ none
      → ((release C pk o w).0 ≡ ok tt)
        × ((release C pk o w).1.stdout.bytes ≡ w.stdout.bytes ++ released spools message)
  unfolding release eprintln
  release-released pk message max false o w e room = rw e (refl, sym (append-nil w.stdout.bytes))
  release-released pk message max true o w (s, e, holds, counted, limit) room =
      rw (e, release_to-emit C A s message w holds room) (refl, refl)

  -- A signed message is verified, and passed through if that is asked for.
  pub verify-Signed :
      (key : C.SigningKey) (text : Bytes) (path exp : String) (max : Option ℕ) (pass_through : Bool)
      (w : World)
      → IsClean false w.stdin
      → Signed C key (content w.stdin) text
      → fs_read path w ≡ (ok text, w)
      → parse_key_bytes C exp ≡ ok (C.public_bytes key)
      → Fits max pass_through (length (content w.stdin)) w
      → w.stdout.room ≡ none
      → let run =
          verify C
            (record {
              sig_path = some path;
              expected_pub = some exp;
              max_size = max;
              pass_through = pass_through;
            })
            w in
        (run.0 ≡ ok tt)
        × (run.1.stdout.bytes ≡ w.stdout.bytes ++ released pass_through (content w.stdin))
  unfolding verify verify_input
  verify-Signed key text path exp max pass_through w clean s found parsed fits room =
      let args : VerifyArgs = record {
        sig_path = some path;
        expected_pub = some exp;
        max_size = max;
        pass_through = pass_through;
      } in
      let message : Bytes = content w.stdin in
      let (o, n, made, tracks) = new_spooler-Tracks C args w in
      let w1 : World = record w { drawn = n } in
      let fits1 : Fits max pass_through (length message) w1 =
        Fits-drawn max pass_through _ n w fits in
      let (t, fed, tracks') = absorb-content C A max pass_through o w1 clean tracks fits1 in
      let w2 : World = with_stdin [] w1 in
      let allowed : (pass_through && false) ≡ false = ground arith in
      rw
        (
          allowed,
          read_signature-Signed key message text path w s found,
          made,
          fed,
          s.accepted,
          check_expected-same exp (C.public_bytes key) w2 parsed,
        )
        (release-released (C.public_bytes key) message max pass_through t w2 tracks' room)
