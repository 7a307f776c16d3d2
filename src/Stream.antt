-- ===== src/Stream.antt =====
-- The chunk stream of the wire format, as a function of the plaintext: what the encryptor is to
-- write and the decryptor is to accept.
use pipek.Prelude.{
  ℕ, zero, suc, ◌+◌, ◌<◌, ◌≤◌, ◌≡◌, refl, ◌∙◌, ap, sym, String, List, [], ◌∷◌, ◌++◌, Result, ok,
  err, stuck, arith, length, take, drop, length-append, length-take, length-drop, take-append-drop,
  drop_all, drop-nil,
}
use pipek.Prelude.Bytes.{Bytes}
use pipek.Prelude.Chunks.{
  chunks, chunks-AllBlocks, length-le-length-concat, chunks_from, concat, concat-chunks,
}
use native.Mathlib.Decide.{dec_lt}
use pipek.Crypto.{Crypto}
use pipek.Wire.{magic_header, build_nonce, build_aad, chunk_header}

-- The blocks of what is not empty begin with a full one.
chunks_from_enough :
    (n f g : ℕ) (xs : Bytes)
    → 0 < n
    → length xs ≤ f
    → length xs ≤ g
    → chunks_from n f xs ≡ chunks_from n g xs
chunks_from_enough n zero zero xs p hf hg = refl
chunks_from_enough n zero (suc g) [] p hf hg = refl
chunks_from_enough n zero (suc g) (x ∷ xs) p hf hg = absurd (omega arith)
chunks_from_enough n (suc f) zero [] p hf hg = refl
chunks_from_enough n (suc f) zero (x ∷ xs) p hf hg = absurd (omega arith)
chunks_from_enough n (suc f) (suc g) [] p hf hg = refl
chunks_from_enough n (suc f) (suc g) (x ∷ xs) p hf hg =
    ap (λ t. take n (x ∷ xs) ∷ t)
      (chunks_from_enough n f g (drop n (x ∷ xs)) p (rw (length-drop n (x ∷ xs)) (omega arith))
        (rw (length-drop n (x ∷ xs)) (omega arith)))

pub chunks_nil : (n : ℕ) → chunks n [] ≡ []
unfolding chunks
chunks_nil n = refl

pub chunks_step :
    (n : ℕ) (xs : Bytes) → 0 < n → 0 < length xs → chunks n xs ≡ take n xs ∷ chunks n (drop n xs)
unfolding chunks
chunks_step n [] p h = absurd (omega arith)
chunks_step n (x ∷ xs) p h =
    ap (λ t. take n (x ∷ xs) ∷ t)
      (chunks_from_enough n (length xs) (length (drop n (x ∷ xs))) (drop n (x ∷ xs)) p
        (rw (length-drop n (x ∷ xs)) (omega arith)) (omega arith))

-- Every chunk but the last has `n` bytes, and the last has `n` at most.
abbrev pub IsSplit : ℕ → Bytes → List Bytes → Type 0
IsSplit n cur [] = length cur ≤ n
IsSplit n cur (next ∷ more) = (length cur ≡ n) × IsSplit n next more

IsSplit-short : (n : ℕ) (xs : Bytes) → length xs ≤ n → IsSplit n (take n xs) (chunks n (drop n xs))
IsSplit-short n xs h = rw (drop_all n xs h, chunks_nil n) (rw (length-take n xs) (omega arith))

IsSplit-chunks_by :
    (n fuel : ℕ) (xs : Bytes)
    → 0 < n
    → length xs ≤ fuel
    → IsSplit n (take n xs) (chunks n (drop n xs))
IsSplit-chunks_by n zero xs p h = IsSplit-short n xs (omega arith)
IsSplit-chunks_by n (suc fuel) xs p h = elim (dec_lt n (length xs)) [
  | no short ↦ IsSplit-short n xs (omega arith)
  | yes long ↦ rw (chunks_step n (drop n xs) p (rw (length-drop n xs) (omega arith))) (
    rw (length-take n xs) (omega arith),
    IsSplit-chunks_by n fuel (drop n xs) p (rw (length-drop n xs) (omega arith)),
  )
]

-- A block of the wire's chunk size, and what lies behind it. They stay shut, so that no proof
-- unrolls the 65536.
unfoldable pub first_chunk : Bytes → Bytes
first_chunk plain = take 65536 plain

unfoldable pub behind : Bytes → Bytes
behind plain = drop 65536 plain

unfoldable pub later_chunks : Bytes → List Bytes
later_chunks plain = chunks 65536 plain

pub IsSplit-chunks :
    (plain : Bytes) → IsSplit 65536 (first_chunk plain) (later_chunks (behind plain))
unfolding first_chunk behind later_chunks
IsSplit-chunks plain = IsSplit-chunks_by 65536 (length plain) plain (omega arith) (omega arith)

pub concat-later_chunks : (plain : Bytes) → concat (later_chunks plain) ≡ plain
unfolding later_chunks
concat-later_chunks plain = concat-chunks 65536 plain (omega arith)

pub length-later_chunks : (plain : Bytes) → length (later_chunks plain) ≤ length plain
unfolding later_chunks
length-later_chunks plain = omega (
  arith,
  length-le-length-concat 65536 (chunks 65536 plain) (chunks-AllBlocks 65536 plain (omega arith)),
  ap length (concat-chunks 65536 plain (omega arith)),
)

pub first-append-behind : (plain : Bytes) → first_chunk plain ++ behind plain ≡ plain
unfolding first_chunk behind
first-append-behind plain = take-append-drop 65536 plain

pub later_chunks-nil :
    (plain : Bytes) → length (first_chunk plain) ≡ 0 → (plain ≡ []) × (later_chunks plain ≡ [])
unfolding first_chunk later_chunks
later_chunks-nil [] h = (refl, chunks_nil 65536)
later_chunks-nil (x ∷ xs) h = absurd (empty_take 65535 x xs h)
  where
    empty_take : (n : ℕ) (x : ℕ) (xs : Bytes) → length (take (suc n) (x ∷ xs)) ≡ 0 → ⊥
    empty_take n x xs h = omega arith

pub later_chunks-cons :
    (plain : Bytes)
    → 0 < length (first_chunk plain)
    → later_chunks plain ≡ first_chunk plain ∷ later_chunks (behind plain)
unfolding first_chunk behind later_chunks
later_chunks-cons [] h = absurd (omega arith)
later_chunks-cons (x ∷ xs) h = chunks_step 65536 (x ∷ xs) (omega arith) (omega arith)

pub behind-nil : behind [] ≡ []
unfolding behind
behind-nil = drop-nil 65536

pub first_chunk-le : (plain : Bytes) → length (first_chunk plain) ≤ 65536
unfolding first_chunk
first_chunk-le plain = omega (arith, length-take 65536 plain)

pub length-first_chunk :
    (plain : Bytes) → length (first_chunk plain) + length (behind plain) ≡ length plain
length-first_chunk plain =
    sym (length-append (first_chunk plain) (behind plain)) ∙ ap length (first-append-behind plain)

module _ (C : Crypto) (key : Bytes) (mode : ℕ) (recip : Bytes) where
  abbrev pub sealed_of : ℕ → ℕ → Result String (Bytes × Bytes) → Bytes
  sealed_of len term (ok (ct, tag)) = chunk_header len term ++ (ct ++ tag)
  sealed_of len term (err e) = []
  sealed_of len term stuck = []

  -- The chunk with a counter and a terminal tag on the wire.
  unfoldable pub sealed : ℕ → ℕ → Bytes → Bytes
  sealed counter term b = sealed_of (length b) term (
      C.encrypt key (build_nonce counter term)
        (build_aad magic_header 1 mode recip (length b) counter term) b)

  pub sealed_lem :
      (counter term : ℕ) (b ct tag : Bytes)
      → C.encrypt key
          (build_nonce counter term)
          (build_aad magic_header 1 mode recip (length b) counter term)
          b
        ≡ ok (ct, tag)
      → sealed counter term b ≡ chunk_header (length b) term ++ (ct ++ tag)
  unfolding sealed
  sealed_lem counter term b ct tag e = ap (sealed_of (length b) term) e

  -- The chunk `cur` with this counter and the chunks behind it; the last has the terminal tag 1.
  abbrev pub wire_from : ℕ → Bytes → List Bytes → Bytes
  wire_from counter cur [] = sealed counter 1 cur
  wire_from counter cur (next ∷ more) = sealed counter 0 cur ++ wire_from (counter + 1) next more

  -- The stream of a plaintext.
  abbrev pub wire : Bytes → Bytes
  wire plain = wire_from 0 (first_chunk plain) (later_chunks (behind plain))
