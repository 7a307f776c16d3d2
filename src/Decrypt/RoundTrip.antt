-- ===== src/Decrypt/RoundTrip.antt =====
-- Decryption of what was encrypted.
use pipek.Prelude.{
  ℕ, ◌+◌, ◌<◌, ◌≡◌, refl, ◌∙◌, ap, String, Bool, false, Option, none, some, List, [], ◌++◌, ok,
  length, arith, inl,
}
use pipek.Prelude.Bytes.{Bytes}
use pipek.Io.{Reader}
use pipek.Io.Input.{content, IsClean}
use pipek.World.{World, fill_bytes, random_bytes}
use pipek.World.Laws.{with_stdin}
use pipek.Crypto.{Crypto, IsAead, IsHash, IsSchnorr, IsDiffieHellman}
use pipek.Wire.{derive_keys, ecdh_shared_x}
use pipek.Stream.{wire}
use pipek.Keys.{KeyIntakeArgs, load_secret_key, parse_key_bytes}
use pipek.Keys.Sources.{load_secret_key-keeps}
use pipek.Encrypt.{run_encrypt, sender_key}
use pipek.Encrypt.Loop.{fed}
use pipek.Encrypt.Trailer.{trailer}
use pipek.Encrypt.Run.{
  stream, header_mac, run_encrypt-stream, length-header_hmac, length-random_bytes,
}
use pipek.Spool.{StreamSpooler, exceeds, new}
use pipek.Spool.State.{Holds, DiskWorks}
use pipek.Spool.Release.{release_to-emit}
use pipek.Decrypt.{Session, verify_stream, run_decrypt}
use pipek.Decrypt.Header.{IsAllowed, read_header-authentic}
use pipek.Decrypt.Stream.{
  IsExpected, check_origin-IsExpected, check_trailing-nil, decrypt_stream-wire, noticed,
}

IsExpected-IsAllowed :
    (C : Crypto) (mode : ℕ) (sender : Option C.SigningKey) (expected : Option String) (allow : Bool)
    → IsExpected C mode sender expected allow
    → IsAllowed mode expected allow
IsExpected-IsAllowed C mode none expected allow (two, e) = rw (two, e) (refl, refl, refl)
IsExpected-IsAllowed C mode (some key) none allow (one, e) = rw (one, e) (refl, refl, refl)
IsExpected-IsAllowed C mode (some key) (some x) allow (one, e) = rw one (refl, refl, refl)

module _ (C : Crypto) (A : IsAead C) (H : IsHash C) (S : IsSchnorr C) where
  -- The keys of a stream, at its recipient.
  verify_stream-stream :
      (mode : ℕ) (eph salt ikm hk pk plain priv : Bytes) (kr : C.SigningKey)
      (sender : Option C.SigningKey) (expected : Option String) (allow : Bool) (max : Option ℕ)
      (key_args : KeyIntakeArgs) (w v : World)
      → length eph ≡ 32
      → length salt ≡ 11
      → IsExpected C mode sender expected allow
      → load_secret_key C key_args w ≡ (ok priv, v)
      → C.signing_key priv ≡ ok kr
      → ecdh_shared_x C priv eph ≡ ok ikm
      → derive_keys C ikm salt ≡ ok (hk, pk)
      → IsClean false v.stdin
      → content v.stdin ≡ stream C mode eph (C.public_bytes kr) salt hk pk sender plain
      → exceeds max (length plain) ≡ false
      → length plain < 18446744073709551616
      → DiskWorks v
      → (t : StreamSpooler) × (rest : Reader) × (lines : List String) × (verify_stream C expected
            allow false max key_args w
          ≡ (ok t, noticed lines (with_stdin rest (record v { drawn = v.drawn + 32 }))))
        × Holds C t plain
  unfolding verify_stream new fill_bytes
  verify_stream-stream mode eph salt ikm hk pk plain priv kr sender expected allow max key_args w v
        e1 e3 options loaded key shared keys clean at below few works =
      let recip : Bytes = C.public_bytes kr in
      let hmac : Bytes = header_mac C mode eph recip salt hk pk sender in
      let session : Session = record {
        mode = mode;
        recip_pub = recip;
        header_hmac = hmac;
        payload_key = pk;
      } in
      let end : Bytes = trailer C sender hmac (C.sha256 (fed mode [] plain)) in
      let (r1, header, left1, clean1) =
        read_header-authentic C false mode eph salt ikm hk pk (wire C pk mode recip plain ++ end)
          priv kr expected allow key_args w v e1 (S.public_size kr) e3 (length-header_hmac C H hk _)
          (IsExpected-IsAllowed C mode sender expected allow options) loaded key shared keys clean
          at in
      let v1 : World = record (with_stdin r1 v) { drawn = v.drawn + 32 } in
      let s : StreamSpooler = record {
        mem_buffer = [];
        disk_file = none;
        spool_key = random_bytes 32 v.drawn v.rng;
        block_counter = 0;
        total_bytes = 0;
        max_size = max;
      } in
      let empty : Holds C s [] = inl (record { closed = refl; buffer = refl; counter = refl }) in
      let works1 : DiskWorks v1 = record { opens = works.opens; room = works.room } in
      let (r2, t, opened, left2, clean2, holds) =
        decrypt_stream-wire C A session false plain end s v1 empty refl below few works1 clean1
          left1 in
      let (r3, lines, origin, left3, clean3) =
        check_origin-IsExpected C H S false session sender expected allow (fed mode [] plain)
          (with_stdin r2 v1) options clean2 left2 in
      (
        t,
        r3,
        lines,
        rw
            (
              header,
              opened,
              origin,
              check_trailing-nil (noticed lines (with_stdin r3 v1)) clean3 left3,
            )
            refl,
        holds,
      )

-- The sender's key is loaded without a change to the streams.
sender_key-keeps :
    (C : Crypto) (mode : ℕ) (key_args : KeyIntakeArgs) (w : World)
    → let v = (sender_key C mode key_args w).1 in v ≡ record w { environ = v.environ; fds = v.fds }
unfolding sender_key
sender_key-keeps C mode key_args w = ground (arith, load_secret_key-keeps C key_args w)

module _ (C : Crypto) (A : IsAead C) (H : IsHash C) (S : IsSchnorr C) (D : IsDiffieHellman C) where
  open C use {SigningKey, signing_key, public_bytes}

  -- The entropy descriptor is not used, the output of the encryptor is empty before, and its input
  -- has fewer than 2^64 - 1 bytes. The recipient has the secret key `priv` of the public key
  -- `recipient`; the system's random bytes are a valid ephemeral key; the sender's key, if the mode
  -- takes one, can be loaded; the streams of the encryptor and of the decryptor work, and the input
  -- of the decryptor is the output of the encryptor, however the reads cut it; its options go with
  -- the origin of the stream, its size limit is not exceeded, and its disk works. Then both runs
  -- succeed, and the second one writes exactly the plaintext, behind what was written before.
  pub decrypt-encrypt :
      (signals : Bool) (fuel : ℕ) (recipient : String) (mode : ℕ)
      (sender_args key_args : KeyIntakeArgs) (expected : Option String) (allow : Bool)
      (max : Option ℕ) (priv : Bytes) (kr ke : SigningKey) (sender : Option SigningKey)
      (w w' v v' : World)
      → parse_key_bytes C recipient ≡ ok (public_bytes kr)
      → signing_key priv ≡ ok kr
      → signing_key (random_bytes 32 w.drawn w.rng) ≡ ok ke
      → sender_key C mode sender_args (record w { drawn = w.drawn + 32 + 11 }) ≡ (ok sender, w')
      → IsClean signals w.stdin
      → length (content w.stdin) + 1 < 18446744073709551616
      → w.stdout.room ≡ none
      → w.stdout.bytes ≡ []
      → load_secret_key C key_args v ≡ (ok priv, v')
      → IsExpected C mode sender expected allow
      → IsClean false v.stdin
      → content v.stdin ≡ (run_encrypt C fuel recipient mode sender_args none w).1.stdout.bytes
      → exceeds max (length (content w.stdin)) ≡ false
      → DiskWorks v'
      → v.stdout.room ≡ none
      → ((run_encrypt C fuel recipient mode sender_args none w).0 ≡ ok tt)
        × ((run_decrypt C expected allow false max key_args v).0 ≡ ok tt)
        × ((run_decrypt C expected allow false max key_args v).1.stdout.bytes
            ≡ v.stdout.bytes ++ content w.stdin)
  unfolding run_decrypt
  decrypt-encrypt signals fuel recipient mode sender_args key_args expected allow max priv kr ke
        sender w w' v v' parsed key_r key_e sender_loaded clean few room nothing loaded options
        clean_v input below works room_v =
      let plain : Bytes = content w.stdin in
      let salt : Bytes = random_bytes 11 (w.drawn + 32) w.rng in
      let w0 : World = record w { drawn = w.drawn + 32 + 11 } in
      let same_w : w' ≡ record w0 { environ = w'.environ; fds = w'.fds } =
        rw sender_loaded at (sender_key-keeps C mode sender_args w0) in
      let same_v : v' ≡ record v { environ = v'.environ; fds = v'.fds } =
        rw loaded at (load_secret_key-keeps C key_args v) in
      let in_w : w'.stdin ≡ w.stdin = ap (λ t. t.stdin) same_w in
      let out_w : w'.stdout ≡ w.stdout = ap (λ t. t.stdout) same_w in
      let in_v : v'.stdin ≡ v.stdin = ap (λ t. t.stdin) same_v in
      let out_v : v'.stdout ≡ v.stdout = ap (λ t. t.stdout) same_v in
      let (ikm, hk, pk, rest, shared, keys, run) =
        run_encrypt-stream C A H S D signals fuel recipient mode sender_args priv kr ke sender w w'
          parsed key_r key_e sender_loaded (rw in_w clean) (rw in_w few) (rw out_w room) in
      let written : Bytes → Bytes =
        stream C mode (public_bytes ke) (public_bytes kr) salt hk pk sender in
      let at : content v'.stdin ≡ written plain =
        ap content in_v
        ∙ input
        ∙ ap (λ o. o.1.stdout.bytes) run
        ∙ ap (λ o. o ++ written (content w'.stdin)) (ap (λ o. o.bytes) out_w ∙ nothing)
        ∙ ap (λ r. written (content r)) in_w in
      let (t, rest', lines, verified, holds) =
        verify_stream-stream C A H S mode (public_bytes ke) salt ikm hk pk plain priv kr sender
          expected allow max key_args v v' (S.public_size ke)
          (length-random_bytes 11 (w.drawn + 32) w.rng) options loaded key_r shared keys
          (rw in_v clean_v) at below (omega arith) works in
      let u : World = noticed lines (with_stdin rest' (record v' { drawn = v'.drawn + 32 })) in
      let released = release_to-emit C A t plain u holds (ap (λ o. o.room) out_v ∙ room_v) in
      (
        ap (λ o. o.0) run,
        rw (verified, released) refl,
        rw (verified, released) (ap (λ o. o.bytes ++ plain) out_v),
      )
