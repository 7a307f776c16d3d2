-- ===== src/Wire/Header.antt =====
-- The header on the wire as a concatenation, and what is read back from it.
use pipek.Prelude.{
  ℕ, ◌+◌, ◌-◌, ◌≡◌, refl, ◌∙◌, ap, sym, [], ◌∷◌, ◌++◌, arith, length, take, replicate, slice,
  append_assoc, append-nil, take-append_exact, drop-append_exact, length-append,
}
use pipek.Prelude.Bytes.{Bytes, copy_range, copy_range_parts}
use pipek.Wire.{magic_header, assemble_header}
use pipek.Wire.Layout.{assemble_header_lem}

slice_parts :
    (lo hi : ℕ) (a b c : Bytes)
    → length a ≡ lo
    → lo + length b ≡ hi
    → slice lo hi (a ++ (b ++ c)) ≡ b
slice_parts lo hi a b c ea eb =
    ap (take (hi - lo)) (drop-append_exact lo a (b ++ c) ea)
    ∙ take-append_exact (hi - lo) b c (omega arith)

module _ (mode : ℕ) (eph recip salt : Bytes) where
  -- What the HMAC authenticates.
  abbrev pub front : Bytes
  front = magic_header ++ (1 ∷ mode ∷ (eph ++ (recip ++ salt)))

  abbrev pub header_bytes : Bytes → Bytes
  header_bytes hmac = magic_header ++ (1 ∷ mode ∷ (eph ++ (recip ++ (salt ++ hmac))))

  abbrev start : Bytes
  start = magic_header ++ (1 ∷ mode ∷ [])

  front-append : (tail : Bytes) → header_bytes tail ≡ front ++ tail
  front-append tail =
      ap (λ t. start ++ t)
        (ap (λ t. eph ++ t) (sym (append_assoc recip salt tail))
          ∙ sym (append_assoc eph (recip ++ salt) tail))

  module _ (e1 : length eph ≡ 32) (e2 : length recip ≡ 32) (e3 : length salt ≡ 11) where
    length-front : length front ≡ 81
    length-front = omega (arith, length-append eph (recip ++ salt), length-append recip salt)

    -- The assembled buffer, its authenticated part, and the buffer with its HMAC.
    pub assemble-front : assemble_header mode eph recip salt ≡ front ++ replicate 16 0
    assemble-front =
        assemble_header_lem mode eph recip salt e1 e2 e3 ∙ front-append (replicate 16 0)

    pub slice-assemble : slice 0 81 (assemble_header mode eph recip salt) ≡ front
    slice-assemble =
        ap (slice 0 81) assemble-front
        ∙ slice_parts 0 81 [] front (replicate 16 0) refl (omega (arith, length-front))

    pub hmac-assemble :
        (hmac : Bytes)
        → copy_range 81 97 hmac (assemble_header mode eph recip salt) ≡ header_bytes hmac
    hmac-assemble hmac =
        ap (copy_range 81 97 hmac)
          (assemble-front ∙ ap (λ t. front ++ t) (sym (append-nil (replicate 16 0))))
        ∙ copy_range_parts 81 97 hmac front (replicate 16 0) [] length-front refl
        ∙ ap (λ t. front ++ t) (append-nil hmac)
        ∙ sym (front-append hmac)

    pub length-header_bytes : (hmac : Bytes) → length hmac ≡ 16 → length (header_bytes hmac) ≡ 97
    length-header_bytes hmac e4 =
        ap length (front-append hmac) ∙ omega (arith, length-append front hmac, length-front)

    -- The fields are where the decryptor looks for them.
    pub slice-front : (hmac : Bytes) → slice 0 81 (header_bytes hmac) ≡ front
    slice-front hmac =
        ap (slice 0 81) (front-append hmac)
        ∙ slice_parts 0 81 [] front hmac refl (omega (arith, length-front))

    pub slice-eph : (hmac : Bytes) → slice 6 38 (header_bytes hmac) ≡ eph
    slice-eph hmac = slice_parts 6 38 start eph (recip ++ (salt ++ hmac)) refl (omega arith)

    pub slice-recip : (hmac : Bytes) → slice 38 70 (header_bytes hmac) ≡ recip
    slice-recip hmac =
        ap (slice 38 70) (sym (append_assoc start eph (recip ++ (salt ++ hmac))))
        ∙ slice_parts 38 70 (start ++ eph) recip (salt ++ hmac)
            (omega (arith, length-append start eph)) (omega arith)

    pub slice-salt : (hmac : Bytes) → slice 70 81 (header_bytes hmac) ≡ salt
    slice-salt hmac =
        let before : Bytes = start ++ (eph ++ recip) in
        ap (λ t. slice 70 81 (start ++ t)) (sym (append_assoc eph recip (salt ++ hmac)))
        ∙ ap (slice 70 81) (sym (append_assoc start (eph ++ recip) (salt ++ hmac)))
        ∙ slice_parts 70 81 before salt hmac
            (omega (arith, length-append start (eph ++ recip), length-append eph recip))
            (omega arith)

    pub slice-hmac : (hmac : Bytes) → length hmac ≡ 16 → slice 81 97 (header_bytes hmac) ≡ hmac
    slice-hmac hmac e4 =
        ap (slice 81 97) (front-append hmac ∙ ap (λ t. front ++ t) (sym (append-nil hmac)))
        ∙ slice_parts 81 97 front hmac [] length-front (omega arith)
