-- ===== src/Prelude/Chunks.antt =====
-- `slice::chunks`.
use pipek.Prelude.{
  ℕ, zero, suc, ◌≤◌, ◌<◌, ◌≡◌, refl, ◌∙◌, ap, List, [], ◌∷◌, ◌++◌, arith, length, take, drop,
  take-append-drop, length-take, length-drop, length-append, append_assoc, sym,
}
use pipek.Prelude.Bytes.{Bytes}

-- The blocks of `n` bytes of `xs`, the last one shorter, with fuel for the blocks.
abbrev pub chunks_from : ℕ → ℕ → Bytes → List Bytes
chunks_from n zero xs = []
chunks_from n (suc fuel) [] = []
chunks_from n (suc fuel) (x ∷ xs) = take n (x ∷ xs) ∷ chunks_from n fuel (drop n (x ∷ xs))

-- A block has a byte at least, so the length is fuel enough.
unfoldable pub chunks : ℕ → Bytes → List Bytes
chunks n xs = chunks_from n (length xs) xs

abbrev pub concat : List Bytes → Bytes
concat [] = []
concat (b ∷ bs) = b ++ concat bs

-- Every block has a byte at least and `n` at most.
abbrev pub AllBlocks : ℕ → List Bytes → Type 0
AllBlocks n [] = Unit
AllBlocks n (b ∷ bs) = (0 < length b) × (length b ≤ n) × AllBlocks n bs

concat-chunks_from :
    (n fuel : ℕ) (xs : Bytes) → 0 < n → length xs ≤ fuel → concat (chunks_from n fuel xs) ≡ xs
concat-chunks_from n zero [] p h = refl
concat-chunks_from n zero (x ∷ xs) p h = absurd (omega arith)
concat-chunks_from n (suc fuel) [] p h = refl
concat-chunks_from n (suc fuel) (x ∷ xs) p h =
    ap (λ t. take n (x ∷ xs) ++ t)
      (concat-chunks_from n fuel (drop n (x ∷ xs)) p (rw (length-drop n (x ∷ xs)) (omega arith)))
    ∙ take-append-drop n (x ∷ xs)

pub concat-chunks : (n : ℕ) (xs : Bytes) → 0 < n → concat (chunks n xs) ≡ xs
unfolding chunks
concat-chunks n xs p = concat-chunks_from n (length xs) xs p (omega arith)

chunks_from-AllBlocks : (n fuel : ℕ) (xs : Bytes) → 0 < n → AllBlocks n (chunks_from n fuel xs)
chunks_from-AllBlocks n zero xs p = tt
chunks_from-AllBlocks n (suc fuel) [] p = tt
chunks_from-AllBlocks n (suc fuel) (x ∷ xs) p = (
  rw (length-take n (x ∷ xs)) (omega arith),
  rw (length-take n (x ∷ xs)) (omega arith),
  chunks_from-AllBlocks n fuel (drop n (x ∷ xs)) p,
)

pub chunks-AllBlocks : (n : ℕ) (xs : Bytes) → 0 < n → AllBlocks n (chunks n xs)
unfolding chunks
chunks-AllBlocks n xs p = chunks_from-AllBlocks n (length xs) xs p

pub concat-append : (bs cs : List Bytes) → concat (bs ++ cs) ≡ concat bs ++ concat cs
concat-append [] cs = refl
concat-append (b ∷ bs) cs =
    ap (λ t. b ++ t) (concat-append bs cs) ∙ sym (append_assoc b (concat bs) (concat cs))

pub AllBlocks-append :
    (n : ℕ) (bs cs : List Bytes) → AllBlocks n bs → AllBlocks n cs → AllBlocks n (bs ++ cs)
AllBlocks-append n [] cs h k = k
AllBlocks-append n (b ∷ bs) cs (pos, small, h) k = (pos, small, AllBlocks-append n bs cs h k)

-- There are no more blocks than bytes.
pub length-le-length-concat :
    (n : ℕ) (bs : List Bytes) → AllBlocks n bs → length bs ≤ length (concat bs)
length-le-length-concat n [] h = omega arith
length-le-length-concat n (b ∷ bs) (pos, small, h) =
    omega (arith, length-append b (concat bs), length-le-length-concat n bs h)
