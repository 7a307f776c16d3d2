-- ===== src/Commands/Absorb.antt =====
-- What the loop of `sign` and `verify` makes of an input that works.
use pipek.Prelude.{
  ℕ, zero, suc, ◌+◌, ◌≤◌, ◌<◌, ◌≡◌, refl, ap, sym, ◌∙◌, Bool, true, false, Option, none, some, [],
  ◌∷◌, ◌++◌, ok, arith, leb, length, take, drop, append-nil, append_assoc, subst, length-append,
  length-take, length-drop, take-append-drop, Bool-cases, inl, inr, ◌==◌,
}
use pipek.Prelude.Bytes.{Bytes}
use pipek.Io.{Reader, chunk, failed, read}
use pipek.Io.Input.{content, IsClean}
use pipek.World.{World, stdin_read, fill_bytes, random_bytes}
use pipek.World.Laws.{with_stdin}
use pipek.Crypto.{Crypto, IsAead}
use pipek.Spool.{StreamSpooler, exceeds, u64_mod, new}
use pipek.Spool.State.{Holds, DiskWorks}
use pipek.Spool.Write.{write_chunk-Holds}
use pipek.Spool.RoundTrip.{exceeds_mono}
use pipek.Io.{capacity}
use pipek.Commands.{VerifyArgs, spool_chunk, absorb_loop, absorb, new_spooler}

-- There is a spooler, which has been given these bytes; or there is none.
abbrev pub Tracks : (C : Crypto) → Option ℕ → Bool → Option StreamSpooler → Bytes → Type 0
Tracks C max false o bs = o ≡ none
Tracks C max true o bs =
    (s : StreamSpooler) × (o ≡ some s)
    × Holds C s bs
    × (s.total_bytes ≡ length bs)
    × (s.max_size ≡ max)

-- If there is a spooler, so many bytes are within its ceiling, and its disk works.
abbrev pub Fits : Option ℕ → Bool → ℕ → World → Type 0
Fits max false n w = Unit
Fits max true n w = (exceeds max n ≡ false) × (n < u64_mod) × DiskWorks w

Fits-less :
    (max : Option ℕ) (spools : Bool) (n m : ℕ) (w : World)
    → n ≤ m
    → Fits max spools m w
    → Fits max spools n w
Fits-less max false n m w h f = tt
Fits-less max true n m w h (e, f, d) = (exceeds_mono max n m h e, omega arith, d)

Fits-stdin :
    (max : Option ℕ) (spools : Bool) (n : ℕ) (r : Reader) (w : World)
    → Fits max spools n w
    → Fits max spools n (with_stdin r w)
Fits-stdin max false n r w f = tt
Fits-stdin max true n r w (e, f, d) = (e, f, record { opens = d.opens; room = d.room })

pub Fits-drawn :
    (max : Option ℕ) (spools : Bool) (size n : ℕ) (w : World)
    → Fits max spools size w
    → Fits max spools size (record w { drawn = n })
Fits-drawn max false size n w f = tt
Fits-drawn max true size n w (e, f, d) = (e, f, record { opens = d.opens; room = d.room })

-- One read of a working input gives some of its bytes, none at the end only.
record Step (r : Reader) : Type 0 where
  got : Bytes
  rest : Reader
  found : read 65536 r ≡ (ok got, rest)
  whole : got ++ content rest ≡ content r
  clean : IsClean false rest
  some_bytes : 0 < length got
  less : capacity rest < capacity r

read-Step : (bs : Bytes) (r : Reader) → IsClean false (chunk bs ∷ r) → Step (chunk bs ∷ r)
unfolding read
read-Step bs r c = elim (Bool-cases (leb (length bs) 65536)) [
  | inl e ↦ record {
    got = bs;
    rest = r;
    found = rw e;
    whole = refl;
    clean = c.1;
    some_bytes = c.0;
    less = omega (arith, c.0);
  }
  | inr e ↦
      let big : 65536 < length bs = ground arith in
      record {
        got = take 65536 bs;
        rest = chunk (drop 65536 bs) ∷ r;
        found = rw e;
        whole =
            sym (append_assoc (take 65536 bs) (drop 65536 bs) (content r))
            ∙ ap (λ t. t ++ content r) (take-append-drop 65536 bs);
        clean = (omega (arith, length-drop 65536 bs), c.1);
        some_bytes = omega (arith, length-take 65536 bs);
        less = omega (arith, length-drop 65536 bs);
      }
]

module _ (C : Crypto) where
  -- The spooler of `verify`, if it is asked for.
  pub new_spooler-Tracks :
      (args : VerifyArgs) (w : World)
      → (o : Option StreamSpooler) × (n : ℕ) × (new_spooler C args w
          ≡ (ok o, record w { drawn = n }))
        × Tracks C args.max_size args.pass_through o []
  unfolding new_spooler new fill_bytes
  new_spooler-Tracks args w = elim (Bool-cases args.pass_through) [
    | inl on ↦
        let s : StreamSpooler = record {
          mem_buffer = [];
          disk_file = none;
          spool_key = random_bytes 32 w.drawn w.rng;
          block_counter = 0;
          total_bytes = 0;
          max_size = args.max_size;
        } in
        let fresh : Holds C s [] = inl (record { closed = refl; buffer = refl; counter = refl }) in
        (
          some s,
          w.drawn + 32,
          rw on,
          subst (λ b. Tracks C args.max_size b (some s) []) (sym on) (s, refl, fresh, refl, refl),
        )
    | inr off ↦
        (none, w.drawn, rw off, subst (λ b. Tracks C args.max_size b none []) (sym off) refl)
  ]

module _ (C : Crypto) (A : IsAead C) (max : Option ℕ) where
  spool_chunk-Tracks :
      (spools : Bool) (bs hashed : Bytes) (o : Option StreamSpooler) (w : World)
      → Tracks C max spools o hashed
      → Fits max spools (length hashed + length bs) w
      → (t : Option StreamSpooler) × (spool_chunk C bs o w ≡ (ok t, w))
        × Tracks C max spools t (hashed ++ bs)
  unfolding spool_chunk
  spool_chunk-Tracks false bs hashed o w e f = (none, rw e, refl)
  spool_chunk-Tracks true bs hashed o w (s, e, holds, counted, limit) (below, fits, works) =
      let (s', step, holds', counted', limit') =
        write_chunk-Holds C A bs s hashed w holds counted (rw limit below) fits works in
      (some s', rw (e, step), (s', refl, holds', counted', limit' ∙ limit))

  absorb_loop_end :
      (fuel : ℕ) (hashed : Bytes) (o : Option StreamSpooler) (w : World)
      → absorb_loop C (suc fuel) hashed o (with_stdin [] w) ≡ (ok (hashed, o), with_stdin [] w)
  unfolding absorb_loop stdin_read read
  absorb_loop_end fuel hashed o w = refl

  absorb_loop_more :
      (fuel : ℕ) (hashed : Bytes) (o t : Option StreamSpooler) (r : Reader) (w : World) (s : Step r)
      → spool_chunk C s.got o (with_stdin s.rest w) ≡ (ok t, with_stdin s.rest w)
      → absorb_loop C (suc fuel) hashed o (with_stdin r w)
        ≡ absorb_loop C fuel (hashed ++ s.got) t (with_stdin s.rest w)
  unfolding absorb_loop stdin_read
  absorb_loop_more fuel hashed o t r w s e =
      let more : (length s.got == 0) ≡ false = ground (arith, s.some_bytes) in rw (s.found, more, e)

  -- With fuel for every byte the loop ends at the end of the input and has been fed all of it.
  absorb_loop-content :
      (spools : Bool) (fuel : ℕ) (hashed : Bytes) (o : Option StreamSpooler) (r : Reader)
      (w : World)
      → IsClean false r
      → capacity r < fuel
      → Tracks C max spools o hashed
      → Fits max spools (length hashed + length (content r)) w
      → (t : Option StreamSpooler) × (absorb_loop C fuel hashed o (with_stdin r w)
          ≡ (ok (hashed ++ content r, t), with_stdin [] w))
        × Tracks C max spools t (hashed ++ content r)
  absorb_loop-content spools zero hashed o r w c enough tracks fits = absurd (omega arith)
  absorb_loop-content spools (suc fuel) hashed o [] w c enough tracks fits =
      (o, rw (append-nil hashed) (absorb_loop_end fuel hashed o w), rw (append-nil hashed) tracks)
  absorb_loop-content spools (suc fuel) hashed o (failed e ∷ r) w c enough tracks fits = cc (c.0)
  absorb_loop-content spools (suc fuel) hashed o (chunk bs ∷ r) w c enough tracks fits =
      let s = read-Step bs r c in
      let cut = length-append s.got (content s.rest) in
      let all : length s.got + length (content s.rest) ≡ length (content (chunk bs ∷ r)) =
        sym cut ∙ ap length s.whole in
      let fit : Fits max spools (length hashed + length s.got) (with_stdin s.rest w) =
        Fits-stdin max spools _ s.rest w (Fits-less max spools _ _ w (omega (arith, all)) fits) in
      let (t, step, tracks') =
        spool_chunk-Tracks spools s.got hashed o (with_stdin s.rest w) tracks fit in
      let size : length (hashed ++ s.got) + length (content s.rest)
          ≡ length hashed + length (content (chunk bs ∷ r)) =
        omega (arith, all, length-append hashed s.got) in
      let (u, rest, tracks'') =
        absorb_loop-content spools fuel (hashed ++ s.got) t s.rest w s.clean (omega (arith, s.less))
          tracks' (rw size fits) in
      let whole : (hashed ++ s.got) ++ content s.rest ≡ hashed ++ content (chunk bs ∷ r) =
        append_assoc hashed s.got (content s.rest) ∙ ap (λ t. hashed ++ t) s.whole in
      (
        u,
        absorb_loop_more fuel hashed o t (chunk bs ∷ r) w s step
            ∙ rest
            ∙ ap (λ bs. (ok (bs, u), with_stdin [] w)) whole,
        subst (Tracks C max spools u) whole tracks'',
      )

  -- The loop of `sign` and `verify` ends on every working input, within the ceiling and with a working
  -- disk if there is a spooler. The hasher has then been fed the whole input, in order, and a spooler
  -- that was empty before has been given the same.
  pub absorb-content :
      (spools : Bool) (o : Option StreamSpooler) (w : World)
      → IsClean false w.stdin
      → Tracks C max spools o []
      → Fits max spools (length (content w.stdin)) w
      → (t : Option StreamSpooler) × (absorb C o w ≡ (ok (content w.stdin, t), with_stdin [] w))
        × Tracks C max spools t (content w.stdin)
  unfolding absorb
  absorb-content spools o w c tracks fits =
      let size : 0 + length (content w.stdin) ≡ length (content w.stdin) = omega arith in
      absorb_loop-content spools (suc (capacity w.stdin)) [] o w.stdin w c (omega arith) tracks
        (rw size fits)
