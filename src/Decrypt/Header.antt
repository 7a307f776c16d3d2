-- ===== src/Decrypt/Header.antt =====
-- Reading the header that the encryptor writes.
use pipek.Prelude.{
  ℕ, ◌≡◌, refl, ap, sym, String, Bool, true, false, not, ◌&&◌, ◌||◌, Option, ◌++◌, ok, length,
  slice, get_or, bytes_eq, bytes_eq_refl, bytes_eq→eq, is_some, ◌>>◌, ensure_not, arith, ◌==◌,
}
use pipek.Prelude.Bytes.{Bytes}
use pipek.Error.{Pipek1Error}
use pipek.Io.{Reader}
use pipek.Io.Input.{content, IsClean}
use pipek.World.{World, Io}
use pipek.World.Laws.{with_stdin, stdin_read_exact-Reads}
use pipek.Crypto.{Crypto}
use pipek.Wire.{magic_header, compute_header_hmac, derive_keys, ecdh_shared_x}
use pipek.Wire.Header.{
  header_bytes, front, length-header_bytes, slice-front, slice-eph, slice-recip, slice-salt,
  slice-hmac,
}
use pipek.Keys.{KeyIntakeArgs, load_secret_key}
use pipek.Decrypt.{check_header, read_header}

-- The options that go with a mode.
abbrev pub IsAllowed : ℕ → Option String → Bool → Type 0
IsAllowed mode expected allow =
    (((mode == 1) || (mode == 2)) ≡ true)
    × ((is_some expected && mode == 2) ≡ false)
    × ((mode == 1 && (not (is_some expected) && not allow)) ≡ false)

-- A test that has passed.
tested :
    (b : Bool) (e : Pipek1Error) (w u : World)
    → ensure_not b e w ≡ (ok tt, u)
    → (b ≡ false) × (u ≡ w)
tested true e w u h = absurd (cc h)
tested false e w u h = (refl, ap (λ p. p.1) (sym h))

passed :
    (b : Bool) (e : Pipek1Error) (more : Io Pipek1Error (Unit {0})) (w u : World)
    → (ensure_not b e >> more) w ≡ (ok tt, u)
    → (b ≡ false) × (more w ≡ (ok tt, u))
passed true e more w u h = absurd (cc h)
passed false e more w u h = (refl, h)

check_header-IsAllowed :
    (mode : ℕ) (eph recip salt hmac : Bytes) (expected : Option String) (allow : Bool) (w : World)
    → IsAllowed mode expected allow
    → check_header (header_bytes mode eph recip salt hmac) expected allow w ≡ (ok tt, w)
unfolding check_header
check_header-IsAllowed mode eph recip salt hmac expected allow w (known, a, b) =
    let m : (not (mode == 1) && not (mode == 2)) ≡ false = ground arith in rw (m, a, b) refl

-- The checks leave the world as it is, and they pass only a header with the magic and the version 1
-- and with a mode that the options allow: 1 or 2, not 2 if a sender is expected, and not 1 if none is
-- expected nor an untrusted one allowed.
pub check_header_sound :
    (header : Bytes) (expected : Option String) (allow : Bool) (w u : World)
    → check_header header expected allow w ≡ (ok tt, u)
    → (u ≡ w)
      × (slice 0 4 header ≡ magic_header)
      × (get_or header 4 0 ≡ 1)
      × IsAllowed (get_or header 5 0) expected allow
unfolding check_header
check_header_sound header expected allow w u h =
    let (magic, h1) = passed (not (bytes_eq (slice 0 4 header) magic_header)) _ _ w u h in
    let (version, h2) = passed (not (get_or header 4 0 == 1)) _ _ w u h1 in
    let (known, h3) =
      passed (not (get_or header 5 0 == 1) && not (get_or header 5 0 == 2)) _ _ w u h2 in
    let (bypass, h4) = passed (is_some expected && get_or header 5 0 == 2) _ _ w u h3 in
    let (trust, same) =
      tested (get_or header 5 0 == 1 && (not (is_some expected) && not allow)) _ w u h4 in
    (
      same,
      bytes_eq→eq _ _ (ground (arith, magic)),
      ground (arith, version),
      (ground (arith, known), bypass, trust),
    )

module _ (C : Crypto) where
  open C use {SigningKey, signing_key, public_bytes}

  -- A header that is authentic for the loaded key is accepted.
  pub read_header-authentic :
      (signals : Bool) (mode : ℕ) (eph salt ikm hk pk body priv : Bytes) (kr : SigningKey)
      (expected : Option String) (allow : Bool) (key_args : KeyIntakeArgs) (w v : World)
      → length eph ≡ 32
      → length (public_bytes kr) ≡ 32
      → length salt ≡ 11
      → let hmac = compute_header_hmac C hk (front mode eph (public_bytes kr) salt) in
        length hmac ≡ 16
        → IsAllowed mode expected allow
        → load_secret_key C key_args w ≡ (ok priv, v)
        → signing_key priv ≡ ok kr
        → ecdh_shared_x C priv eph ≡ ok ikm
        → derive_keys C ikm salt ≡ ok (hk, pk)
        → IsClean signals v.stdin
        → content v.stdin ≡ header_bytes mode eph (public_bytes kr) salt hmac ++ body
        → (rest : Reader) × (read_header C expected allow key_args w ≡ (
          ok (record {
            mode = mode;
            recip_pub = public_bytes kr;
            header_hmac = hmac;
            payload_key = pk;
          }),
          with_stdin rest v,
        ))
          × (content rest ≡ body)
          × IsClean signals rest
  unfolding read_header
  read_header-authentic signals mode eph salt ikm hk pk body priv kr expected allow key_args w v e1
        e2 e3 e4 allowed loaded key shared keys clean at =
      let recip : Bytes = public_bytes kr in
      let hmac : Bytes = compute_header_hmac C hk (front mode eph recip salt) in
      let (rest, got, left, clean') =
        stdin_read_exact-Reads signals 97 (header_bytes mode eph recip salt hmac) body v clean at
          (length-header_bytes mode eph recip salt e1 e2 e3 hmac e4) in
      (
        rest,
        rw
            (
              loaded,
              key,
              got,
              check_header-IsAllowed mode eph recip salt hmac expected allow (with_stdin rest v)
                  allowed,
              slice-recip mode eph recip salt e1 e2 e3 hmac,
              bytes_eq_refl recip,
              slice-eph mode eph recip salt e1 e2 e3 hmac,
              shared,
              slice-salt mode eph recip salt e1 e2 e3 hmac,
              keys,
              slice-front mode eph recip salt e1 e2 e3 hmac,
              slice-hmac mode eph recip salt e1 e2 e3 hmac e4,
              bytes_eq_refl hmac,
            )
            refl,
        left,
        clean',
      )
