-- ===== src/Spool/Image.antt =====
-- What the temporary file of a spooler holds, block by block.
use pipek.Prelude.{
  ℕ, suc, ◌+◌, ◌≤◌, ◌≡◌, ◌∙◌, ap, sym, List, [], ◌∷◌, ◌++◌, Result, ok, err, stuck, arith, length,
  drop, append_assoc, String, length-append, drop-drop, take-append_exact, drop-append_exact,
  le→leb,
}
use pipek.Prelude.Bytes.{Bytes, be32}
use pipek.Crypto.{Crypto}
use pipek.Spool.{File, build_spool_nonce, build_spool_aad, file_read}

-- A read that finds its bytes.
pub file_read_lem :
    (n : ℕ) (got rest : Bytes) (f : File)
    → drop f.position f.sink.bytes ≡ got ++ rest
    → length got ≡ n
    → (file_read n f ≡ ok (got, record f { position = f.position + n }))
      × (drop (f.position + n) f.sink.bytes ≡ rest)
unfolding file_read
file_read_lem n got rest f e size =
    let enough : n ≤ length (got ++ rest) = rw (length-append got rest) (omega arith) in
    (
      rw (e, le→leb n (length (got ++ rest)) enough, take-append_exact n got rest size),
      sym (drop-drop n f.position f.sink.bytes) ∙ ap (drop n) e ∙ drop-append_exact n got rest size,
    )

module _ (C : Crypto) (key : Bytes) where
  abbrev pub frame_of : ℕ → Result String (Bytes × Bytes) → Bytes
  frame_of len (ok (ct, tag)) = be32 len ++ (ct ++ tag)
  frame_of len (err e) = []
  frame_of len stuck = []

  -- Length, ciphertext and tag of the block with the index `i`.
  unfoldable pub frame : ℕ → Bytes → Bytes
  frame i b =
      frame_of (length b) (C.encrypt key (build_spool_nonce i) (build_spool_aad i (length b)) b)

  pub frame_lem :
      (i : ℕ) (b ct tag : Bytes)
      → C.encrypt key (build_spool_nonce i) (build_spool_aad i (length b)) b ≡ ok (ct, tag)
      → frame i b ≡ be32 (length b) ++ (ct ++ tag)
  unfolding frame
  frame_lem i b ct tag e = ap (frame_of (length b)) e

  abbrev pub image : ℕ → List Bytes → Bytes
  image i [] = []
  image i (b ∷ bs) = frame i b ++ image (i + 1) bs

  pub image-append :
      (i : ℕ) (bs cs : List Bytes) → image i (bs ++ cs) ≡ image i bs ++ image (i + length bs) cs
  image-append i [] cs = let e : i + 0 ≡ i = omega arith in rw e
  image-append i (b ∷ bs) cs =
      let e : i + 1 + length bs ≡ i + suc (length bs) = omega arith in
      rw (image-append (i + 1) bs cs, e)
        (sym (append_assoc (frame i b) (image (i + 1) bs) (image (i + suc (length bs)) cs)))
