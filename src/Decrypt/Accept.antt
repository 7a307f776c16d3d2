-- ===== src/Decrypt/Accept.antt =====
-- What the decryption loop has accepted when it succeeds.
use pipek.Prelude.{
  ℕ, zero, suc, ◌+◌, ◌%◌, ◌≡◌, ◌≢◌, subst, Bool-cases, ==_iff, ◌∙◌, ap, sym, Bool, true, false,
  List, [], ◌∷◌, ◌++◌, ok, arith, length, append_assoc, append-nil, ◌==◌, if◌then◌else◌, ◌⊎◌, inl,
  inr, pure, ◌>>=◌, >>=-eq-ok,
}
use pipek.Prelude.Bytes.{Bytes}
use pipek.Prelude.Chunks.{concat}
use pipek.Error.{Pipek1Error}
use pipek.Io.Input.{content, IsClean}
use pipek.World.{World, Io, stdout_write}
use pipek.Crypto.{Crypto}
use pipek.Encrypt.Loop.{fed, fed-fed}
use pipek.Spool.{StreamSpooler}
use pipek.Spool.Traces.{write_chunk-OnlyDisk}
use pipek.Decrypt.{Session, read_chunk, deliver, decrypt_loop}
use pipek.Decrypt.Sound.{IsChunk, read_chunk_sound, pure_sound}

module _ (C : Crypto) (session : Session) where
  deliver-stdin :
      (unverified : Bool) (plain : Bytes) (s : StreamSpooler) (w : World)
      → (deliver C unverified plain s w).1.stdin ≡ w.stdin
  unfolding deliver stdout_write
  deliver-stdin true plain s w = ground arith
  deliver-stdin false plain s w = ap (λ u. u.stdin) (write_chunk-OnlyDisk C plain s w)

  -- The bytes are chunks that open to `plains` one by one, numbered from `counter` on modulo 2^64;
  -- the last one, and no other, has the terminal tag 1.
  pub data IsStream : ℕ → Bytes → List Bytes → Type 0 where
    last :
        {counter : ℕ} {bytes plain : Bytes}
        → IsChunk C session counter 1 bytes plain
        → IsStream counter bytes (plain ∷ [])
    next :
        {counter : ℕ} {bytes plain more : Bytes} {plains : List Bytes}
        → IsChunk C session counter 0 bytes plain
        → IsStream ((counter + 1) % 18446744073709551616) more plains
        → IsStream counter (bytes ++ more) (plain ∷ plains)

  -- What the loop took from the input, and what it has fed to the hasher.
  abbrev pub Accepted : Bool → ℕ → Bytes → World → Bytes → World → Type 0
  Accepted signals counter hashed w hashed' u =
      (bytes : Bytes) × (plains : List Bytes) × IsStream counter bytes plains
      × (content w.stdin ≡ bytes ++ content u.stdin)
      × (hashed' ≡ fed session.mode hashed (concat plains))
      × IsClean signals u.stdin

  out_of_fuel :
      (unverified : Bool) (counter : ℕ) (hashed : Bytes) (s : StreamSpooler) (w u : World)
      {x : Bytes × StreamSpooler}
      → decrypt_loop C zero unverified session counter hashed s w ≡ (ok x, u)
      → ⊥
  unfolding decrypt_loop
  out_of_fuel unverified counter hashed s w u h = cc h

  -- One successful round: a chunk is read and delivered; it ends the loop, or the loop goes on.
  abbrev Round : Bool → ℕ → ℕ → Bytes → World → Bytes → StreamSpooler → World → Type 0
  Round unverified fuel counter hashed w hashed' t u =
      (term : ℕ) × (plain : Bytes) × (w1 : World) × (w2 : World) × (read_chunk C session counter w
        ≡ (ok (term, plain), w1))
      × (w2.stdin ≡ w1.stdin)
      × (((term ≡ 1) × (fed session.mode hashed plain ≡ hashed') × (w2 ≡ u))
          ⊎ ((s : StreamSpooler) × (term ≢ 1)
              × (decrypt_loop C fuel unverified session ((counter + 1) % 18446744073709551616)
                    (fed session.mode hashed plain) s w2
                  ≡ (ok (hashed', t), u))))

  decrypt_loop-Round :
      (unverified : Bool) (fuel counter : ℕ) (hashed hashed' : Bytes) (s t : StreamSpooler)
      (w u : World)
      → decrypt_loop C (suc fuel) unverified session counter hashed s w ≡ (ok (hashed', t), u)
      → Round unverified fuel counter hashed w hashed' t u
  unfolding decrypt_loop
  decrypt_loop-Round unverified fuel counter hashed hashed' s t w u h =
      let rest : ℕ → Bytes → StreamSpooler → Io Pipek1Error (Bytes × StreamSpooler) =
        λ term plain s.
          if term == 1
          then pure (fed session.mode hashed plain, s)
          else decrypt_loop C fuel unverified session ((counter + 1) % 18446744073709551616)
              (fed session.mode hashed plain) s in
      let put : ℕ × Bytes → Io Pipek1Error (Bytes × StreamSpooler) =
        λ chunk. deliver C unverified chunk.1 s >>= rest chunk.0 chunk.1 in
      let ((term, plain), w1, got, h1) = >>=-eq-ok (read_chunk C session counter) put w h in
      let (s2, w2, delivered, h2) =
        >>=-eq-ok (deliver C unverified plain s) (rest term plain) w1 h1 in
      (
        term,
        plain,
        w1,
        w2,
        got,
        ap (λ p. p.1.stdin) (sym delivered) ∙ deliver-stdin unverified plain s w1,
        (elim (Bool-cases (term == 1)) [
          | inl one ↦
              let (fed_is, ends) =
                pure_sound (fed session.mode hashed plain, s2) (hashed', t) w2 u (rw one at h2) in
              inl ((==_iff term 1).0 one, ap (λ p. p.0) fed_is, ends)
          | inr other ↦ inr (s2, (λ e. cc (sym other ∙ (==_iff term 1).1 e)), rw other at h2)
        ]),
      )

  -- Whatever the loop accepts from an input in working order is a stream of chunks, numbered from
  -- `counter` on, that stands at the head of the input, and the rest of the input is left. In mode 1
  -- the hasher has been fed their plaintexts in order.
  pub decrypt_loop-Accepted :
      (signals : Bool) (unverified : Bool) (fuel counter : ℕ) (hashed hashed' : Bytes)
      (s t : StreamSpooler) (w u : World)
      → IsClean signals w.stdin
      → decrypt_loop C fuel unverified session counter hashed s w ≡ (ok (hashed', t), u)
      → Accepted signals counter hashed w hashed' u
  decrypt_loop-Accepted signals unverified zero counter hashed hashed' s t w u clean h =
      absurd (out_of_fuel unverified counter hashed s w u h)
  decrypt_loop-Accepted signals unverified (suc fuel) counter hashed hashed' s t w u clean h =
      let (term, plain, w1, w2, got, input, ends) =
        decrypt_loop-Round unverified fuel counter hashed hashed' s t w u h in
      let (bytes, chunk, at, clean1) =
        read_chunk_sound C session signals counter term plain w w1 clean got in
      elim ends [
        | inl (one, hashed_is, same) ↦ (
          bytes,
          plain ∷ [],
          last (subst (λ n. IsChunk C session counter n bytes plain) one chunk),
          at ∙ ap (λ r. bytes ++ content r) (sym input ∙ ap (λ x. x.stdin) same),
          sym hashed_is ∙ ap (fed session.mode hashed) (sym (append-nil plain)),
          subst (λ r. IsClean signals r) (sym input ∙ ap (λ x. x.stdin) same) clean1,
        )
        | inr (s2, other, more) ↦
            let (bytes', plains, stream, at', hashed_is, clean') =
              decrypt_loop-Accepted signals unverified fuel ((counter + 1) % 18446744073709551616)
                (fed session.mode hashed plain) hashed' s2 t w2 u
                (subst (λ r. IsClean signals r) (sym input) clean1) more in
            (
              bytes ++ bytes',
              plain ∷ plains,
              next
                  (subst (λ n. IsChunk C session counter n bytes plain)
                    (zero_of term (length chunk.ct) other chunk.framed.1) chunk)
                  stream,
              at
                  ∙ ap (λ r. bytes ++ content r) (sym input)
                  ∙ ap (λ t. bytes ++ t) at'
                  ∙ sym (append_assoc bytes bytes' (content u.stdin)),
              hashed_is ∙ fed-fed session.mode hashed plain (concat plains),
              clean',
            )
      ]
    where
      zero_of : (term len : ℕ) → term ≢ 1 → (term ≡ 1) ⊎ ((term ≡ 0) × (len ≡ 65536)) → term ≡ 0
      zero_of term len h (inl e) = absurd (h e)
      zero_of term len h (inr e) = e.0
