-- ===== src/Decrypt/Sound.antt =====
-- What the decryptor has accepted when it succeeds.
use pipek.Prelude.{
  ℕ, ◌≤◌, ◌≡◌, refl, ◌∙◌, ap, sym, Bool, ◌++◌, Result, ok, arith, length, length-take, take, drop,
  take-append-drop, append_assoc, ◌⊎◌, lift, pure, ◌>>=◌, map_err, map_err_of, slice, get_or,
  >>=-eq-ok, map_err-eq-ok, map_err_of-eq-ok, ok-injective,
}
use native.Mathlib.Decide.{dec_lt}
use pipek.Prelude.Bytes.{Bytes, from_be32}
use pipek.Error.{Pipek1Error, wire_corruption, IoError, io}
use pipek.Io.Input.{content, IsClean, read_exact-take, read_exact-eof}
use pipek.World.{World, Io, stdin_read_exact}
use pipek.World.Laws.{with_stdin}
use pipek.Crypto.{Crypto}
use pipek.Wire.{magic_header, build_nonce, build_aad}
use pipek.Decrypt.{Session, check_framing, chunk_header_error, read_chunk}

check_framing_sound :
    (len term : ℕ) (w u : World)
    → check_framing len term w ≡ (ok tt, u)
    → (u ≡ w) × (len ≤ 65536) × ((term ≡ 1) ⊎ ((term ≡ 0) × (len ≡ 65536)))
unfolding check_framing
check_framing_sound len term w u h = ground arith

-- A successful read took its bytes from the front of the input.
stdin_read_exact_sound :
    (signals : Bool) (n : ℕ) (bs : Bytes) (w u : World)
    → IsClean signals w.stdin
    → stdin_read_exact n w ≡ (ok bs, u)
    → (content w.stdin ≡ bs ++ content u.stdin) × (length bs ≡ n) × IsClean signals u.stdin
unfolding stdin_read_exact
stdin_read_exact_sound signals n bs w u clean h = elim (dec_lt (length (content w.stdin)) n) [
  | yes short ↦
      let (rest, failed) = read_exact-eof signals n w.stdin clean short in
      absurd (cc (ap (λ p. p.0) (sym h) ∙ ap (λ p. p.0) failed))
  | no enough ↦
      let (rest, got, left, clean') = read_exact-take signals n w.stdin clean (omega arith) in
      let both : ◌≡◌ {A = Result IoError Bytes × World}
          (ok (take n (content w.stdin)), with_stdin rest w) (ok bs, u) =
        sym (ap (λ p. (p.0, with_stdin p.1 w)) got) ∙ h in
      let same : take n (content w.stdin) ≡ bs = ok-injective both in
      let after : rest ≡ u.stdin = ap (λ p. p.1.stdin) both in
      (
        sym (take-append-drop n (content w.stdin))
            ∙ ap (λ t. t ++ drop n (content w.stdin)) same
            ∙ ap (λ t. bs ++ t) (sym left ∙ ap content after),
        ap length (sym same) ∙ length-take n (content w.stdin) ∙ omega arith,
        rw after at clean',
      )
]

pub mapped_read_sound :
    (signals : Bool) (f : IoError → Pipek1Error) (n : ℕ) (bs : Bytes) (w u : World)
    → IsClean signals w.stdin
    → map_err_of f (stdin_read_exact n) w ≡ (ok bs, u)
    → (content w.stdin ≡ bs ++ content u.stdin) × (length bs ≡ n) × IsClean signals u.stdin
mapped_read_sound signals f n bs w u clean h =
    stdin_read_exact_sound signals n bs w u clean (map_err_of-eq-ok f (stdin_read_exact n) w h)

pub lift_sound :
    {A : Type 0} (r : Result Pipek1Error A) (a : A) (w u : World)
    → lift r w ≡ (ok a, u)
    → (r ≡ ok a) × (w ≡ u)
lift_sound r a w u h = (ap (λ p. p.0) h, ap (λ p. p.1) h)

pub pure_sound :
    {A : Type 0} (a b : A) (w u : World)
    → pure {E = Pipek1Error} a w ≡ (ok b, u)
    → (a ≡ b) × (w ≡ u)
pure_sound a b w u h = (ok-injective h, ap (λ p. p.1) h)

module _ (C : Crypto) (session : Session) where
  open C use {decrypt}

  -- The bytes are a chunk of the session: with this counter and terminal tag, it opens to `plain`.
  pub record IsChunk (counter term : ℕ) (bytes plain : Bytes) : Type 0 where
    pub head : Bytes
    pub ct : Bytes
    pub tag : Bytes
    pub parts : bytes ≡ head ++ (ct ++ tag)
    pub head_size : length head ≡ 5
    pub terminal : get_or head 4 0 ≡ term
    pub ct_size : length ct ≡ from_be32 (slice 0 4 head)
    pub framed : (length ct ≤ 65536) × ((term ≡ 1) ⊎ ((term ≡ 0) × (length ct ≡ 65536)))
    pub opened :
        decrypt session.payload_key
          (build_nonce counter term)
          (build_aad magic_header 1 session.mode session.recip_pub (length ct) counter term)
          ct
          tag
        ≡ ok plain

  IsChunk-of :
      (signals : Bool) (counter term t : ℕ) (plain p head ct tag : Bytes) (w w1 w2 w3 w4 u : World)
      → content w.stdin ≡ head ++ content w1.stdin
      → length head ≡ 5
      → w2 ≡ w1
      → from_be32 (slice 0 4 head) ≤ 65536
      → (t ≡ 1) ⊎ ((t ≡ 0) × (from_be32 (slice 0 4 head) ≡ 65536))
      → content w2.stdin ≡ ct ++ content w3.stdin
      → length ct ≡ from_be32 (slice 0 4 head)
      → content w3.stdin ≡ tag ++ content w4.stdin
      → IsClean signals w4.stdin
      → decrypt session.payload_key
          (build_nonce counter t)
          (build_aad magic_header 1 session.mode session.recip_pub
            (from_be32 (slice 0 4 head))
            counter
            t)
          ct
          tag
        ≡ ok p
      → w4 ≡ u
      → ◌≡◌ {A = ℕ × Bytes} (t, p) (term, plain)
      → get_or head 4 0 ≡ t
      → (bytes : Bytes) × IsChunk counter term bytes plain
        × (content w.stdin ≡ bytes ++ content u.stdin)
        × IsClean signals u.stdin
  IsChunk-of signals counter term t plain p head ct tag w w1 w2 w3 w4 u at1 size1 same small framed
        at3 size3 at4 clean4 opens ends answered at =
      let t_is : t ≡ term = ap (λ x. x.0) answered in
      let p_is : p ≡ plain = ap (λ x. x.1) answered in
      (
        head ++ (ct ++ tag),
        record {
          head = head;
          ct = ct;
          tag = tag;
          parts = refl;
          head_size = size1;
          terminal = at ∙ t_is;
          ct_size = size3;
          framed = rw size3 (small, rw t_is at framed);
          opened = rw (← t_is, ← p_is, size3) opens;
        },
        at1
            ∙ ap (λ t. head ++ t)
                (ap (λ x. content x.stdin) (sym same) ∙ at3 ∙ ap (λ t. ct ++ t) at4)
            ∙ ap (λ x. head ++ (ct ++ (tag ++ content x.stdin))) ends
            ∙ ap (λ t. head ++ t) (sym (append_assoc ct tag (content u.stdin)))
            ∙ sym (append_assoc head (ct ++ tag) (content u.stdin)),
        rw ends at clean4,
      )

  -- What a successful read of a chunk took from the input.
  pub read_chunk_sound :
      (signals : Bool) (counter term : ℕ) (plain : Bytes) (w u : World)
      → IsClean signals w.stdin
      → read_chunk C session counter w ≡ (ok (term, plain), u)
      → (bytes : Bytes) × IsChunk counter term bytes plain
        × (content w.stdin ≡ bytes ++ content u.stdin)
        × IsClean signals u.stdin
  unfolding read_chunk
  read_chunk_sound signals counter term plain w u clean h =
      let open_with : Bytes → Bytes → Bytes → Result Pipek1Error Bytes = λ head ct tag.
        map_err (λ _. wire_corruption "Poly1305 AEAD tag verification failed (tampered chunk)")
          (decrypt session.payload_key (build_nonce counter (get_or head 4 0))
            (build_aad magic_header 1 session.mode session.recip_pub (from_be32 (slice 0 4 head))
              counter (get_or head 4 0))
            ct tag) in
      let answer : Bytes → Bytes → Io Pipek1Error (ℕ × Bytes) =
        λ head plain. pure (get_or head 4 0, plain) in
      let opening : Bytes → Bytes → Bytes → Io Pipek1Error (ℕ × Bytes) =
        λ head ct tag. lift (open_with head ct tag) >>= answer head in
      let tagging : Bytes → Bytes → Io Pipek1Error (ℕ × Bytes) =
        λ head ct. map_err_of io (stdin_read_exact 16) >>= opening head ct in
      let ciphering : Bytes → Io Pipek1Error (ℕ × Bytes) =
        λ head. map_err_of io (stdin_read_exact (from_be32 (slice 0 4 head))) >>= tagging head in
      let framing : Bytes → Io Pipek1Error (ℕ × Bytes) = λ head.
        check_framing (from_be32 (slice 0 4 head)) (get_or head 4 0) >>= λ _. ciphering head in
      let (head, w1, h1, k1) =
        >>=-eq-ok (map_err_of chunk_header_error (stdin_read_exact 5)) framing w h in
      let (_, w2, h2, k2) =
        >>=-eq-ok (check_framing (from_be32 (slice 0 4 head)) (get_or head 4 0))
          (λ _. ciphering head) w1 k1 in
      let (ct, w3, h3, k3) =
        >>=-eq-ok (map_err_of io (stdin_read_exact (from_be32 (slice 0 4 head)))) (tagging head) w2
          k2 in
      let (tag, w4, h4, k4) =
        >>=-eq-ok (map_err_of io (stdin_read_exact 16)) (opening head ct) w3 k3 in
      let (p, w5, h5, k5) = >>=-eq-ok (lift (open_with head ct tag)) (answer head) w4 k4 in
      let (at1, size1, clean1) =
        mapped_read_sound signals chunk_header_error 5 head w w1 clean h1 in
      let (same, small, framed) =
        check_framing_sound (from_be32 (slice 0 4 head)) (get_or head 4 0) w1 w2 h2 in
      let (at3, size3, clean3) =
        mapped_read_sound signals io (from_be32 (slice 0 4 head)) ct w2 w3 (rw same clean1) h3 in
      let (at4, size4, clean4) = mapped_read_sound signals io 16 tag w3 w4 clean3 h4 in
      let (opens, same5) = lift_sound (open_with head ct tag) p w4 w5 h5 in
      let (answered, same6) = pure_sound (get_or head 4 0, p) (term, plain) w5 u k5 in
      IsChunk-of signals counter term (get_or head 4 0) plain p head ct tag w w1 w2 w3 w4 u at1
        size1 same small framed at3 size3 at4 clean4
        (map_err-eq-ok
          (λ _. wire_corruption "Poly1305 AEAD tag verification failed (tampered chunk)") _ opens)
        (same5 ∙ same6) answered refl
