-- ===== src/Wire/Layout.antt =====
-- The buffers of the wire format as the concatenations that the specification draws.
use pipek.Prelude.{
  ℕ, ◌<◌, ◌/◌, ◌≡◌, refl, ◌∙◌, ap, [], ◌∷◌, ◌++◌, arith, length, replicate, slice, get_or,
  append_assoc, length-append, append-nil,
}
use pipek.Prelude.Bytes.{
  Bytes, be32, be64, from_be32, from_be32-be32_mod, copy_range, copy_range-append,
}
use pipek.Wire.{magic_header, build_nonce, build_aad, assemble_header, auth_transcript}

pub build_nonce_lem :
    (counter term : ℕ) → build_nonce counter term ≡ be64 counter ++ (0 ∷ 0 ∷ 0 ∷ term ∷ [])
unfolding build_nonce
build_nonce_lem counter term = refl

-- Two chunks whose counters are below 2^64 have one nonce only if they have one counter and one
-- terminal tag.
pub build_nonce-injective :
    (c d s t : ℕ)
    → c < 18446744073709551616
    → d < 18446744073709551616
    → build_nonce c s ≡ build_nonce d t
    → (c ≡ d) × (s ≡ t)
unfolding build_nonce
build_nonce-injective c d s t hc hd e =
    let high : from_be32 (be32 (c / 4294967296)) ≡ from_be32 (be32 (d / 4294967296)) =
      ap (λ l. from_be32 (slice 0 4 l)) e in
    let low : from_be32 (be32 c) ≡ from_be32 (be32 d) = ap (λ l. from_be32 (slice 4 8 l)) e in
    (
      omega (
        arith,
        high,
        low,
        from_be32-be32_mod (c / 4294967296),
        from_be32-be32_mod (d / 4294967296),
        from_be32-be32_mod c,
        from_be32-be32_mod d,
      ),
      ap (λ l. get_or l 11 0) e,
    )

-- With a magic of 4 bytes and a recipient's key of 32, the associated data is the concatenation of
-- the magic, the version, the mode, the key, the chunk's length and counter in big-endian order, and
-- the terminal tag.
pub build_aad_lem :
    (magic : Bytes) (version mode : ℕ) (recip : Bytes) (len counter term : ℕ)
    → length magic ≡ 4
    → length recip ≡ 32
    → build_aad magic version mode recip len counter term
      ≡ magic ++ (version ∷ mode ∷ (recip ++ (be32 len ++ (be64 counter ++ (term ∷ [])))))
unfolding build_aad
build_aad_lem magic version mode recip len counter term em er =
    let a2 : Bytes = magic ++ (version ∷ []) in
    let a3 : Bytes = a2 ++ (mode ∷ []) in
    let a4 : Bytes = a3 ++ recip in
    let a5 : Bytes = a4 ++ be32 len in
    let a6 : Bytes = a5 ++ be64 counter in
    let l2 : length a2 ≡ 5 = omega (arith, length-append magic (version ∷ [])) in
    let l3 : length a3 ≡ 6 = omega (arith, length-append a2 (mode ∷ [])) in
    let l4 : length a4 ≡ 38 = omega (arith, length-append a3 recip) in
    let l5 : length a5 ≡ 42 = omega (arith, length-append a4 (be32 len)) in
    let l6 : length a6 ≡ 50 = omega (arith, length-append a5 (be64 counter)) in
    ap (copy_range 50 51 (term ∷ [])) (
      ap (copy_range 42 50 (be64 counter)) (
        ap (copy_range 38 42 (be32 len)) (
          ap (copy_range 6 38 recip) (
            ap (copy_range 5 6 (mode ∷ [])) (
              ap (copy_range 4 5 (version ∷ [])) (copy_range-append 0 4 4 47 magic [] refl em refl)
              ∙ copy_range-append 4 5 1 46 (version ∷ []) magic em refl refl)
            ∙ copy_range-append 5 6 1 45 (mode ∷ []) a2 l2 refl refl)
          ∙ copy_range-append 6 38 32 13 recip a3 l3 er refl)
        ∙ copy_range-append 38 42 4 9 (be32 len) a4 l4 refl refl)
      ∙ copy_range-append 42 50 8 1 (be64 counter) a5 l5 refl refl)
    ∙ copy_range-append 50 51 1 0 (term ∷ []) a6 l6 refl refl
    ∙ simp (append_assoc, append-nil)

-- With keys of 32 bytes and a salt of 11, the buffer of the header holds after its assembly the
-- concatenation of the magic, the version, the mode, the ephemeral key, the recipient's key and the
-- salt, and 16 zeros where the HMAC goes.
pub assemble_header_lem :
    (mode : ℕ) (eph recip salt : Bytes)
    → length eph ≡ 32
    → length recip ≡ 32
    → length salt ≡ 11
    → assemble_header mode eph recip salt
      ≡ magic_header ++ (1 ∷ mode ∷ (eph ++ (recip ++ (salt ++ replicate 16 0))))
unfolding assemble_header
assemble_header_lem mode eph recip salt e1 e2 e3 =
    let pre : Bytes = magic_header ++ (1 ∷ mode ∷ []) in
    let two : Bytes = pre ++ eph in
    let three : Bytes = two ++ recip in
    let s2 : length two ≡ 38 = omega (arith, length-append pre eph) in
    let s3 : length three ≡ 70 = omega (arith, length-append two recip) in
    ap (copy_range 70 81 salt) (
      ap (copy_range 38 70 recip) (copy_range-append 6 38 32 59 eph pre refl e1 refl)
      ∙ copy_range-append 38 70 32 27 recip two s2 e2 refl)
    ∙ copy_range-append 70 81 11 16 salt three s3 e3 refl
    ∙ simp append_assoc

pub auth_transcript_lem :
    (hmac digest : Bytes)
    → length hmac ≡ 16
    → length digest ≡ 32
    → auth_transcript hmac digest ≡ hmac ++ digest
unfolding auth_transcript
auth_transcript_lem hmac digest e1 e2 =
    ap (copy_range 16 48 digest) (copy_range-append 0 16 16 32 hmac [] refl e1 refl)
    ∙ copy_range-append 16 48 32 0 digest hmac e1 e2 refl
    ∙ append-nil (hmac ++ digest)
