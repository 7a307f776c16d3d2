-- ===== src/Encrypt/Loop.antt =====
-- The encryption loop writes the stream of its input.
use pipek.Prelude.{
  ℕ, zero, suc, ◌+◌, ◌<◌, ◌≤◌, ◌≡◌, refl, ◌∙◌, ap, Bool, true, false, none, [], ◌∷◌, ◌++◌, Result,
  ok, arith, length, length-append, append_assoc, append-nil, ◌==◌, if◌then◌else◌,
}
use pipek.Prelude.Bytes.{Bytes}
use pipek.Error.{Pipek1Error}
use pipek.Io.{Reader, chunk, failed}
use pipek.Io.Input.{content, IsClean}
use pipek.World.{World, stdin_fill}
use pipek.World.Laws.{emit, emit-emit, with_stdin, stdin_fill-Reads, stdout_write-emit}
use native.Mathlib.Decide.{dec_lt}
use pipek.Crypto.{Crypto, IsAead}
use pipek.Wire.{magic_header, chunk_size, build_nonce, build_aad, chunk_header}
use pipek.Stream.{
  sealed, sealed_lem, wire_from, wire, first_chunk, behind, later_chunks, later_chunks-nil,
  later_chunks-cons, length-first_chunk, first-append-behind, behind-nil, first_chunk-le,
}
use pipek.Encrypt.{next_counter, write_sealed, encrypt_loop, encrypt_stream}
use pipek.Io.{capacity}

pub length-content-le : (r : Reader) → length (content r) ≤ capacity r
length-content-le [] = omega arith
length-content-le (chunk bs ∷ r) = omega (arith, length-append bs (content r), length-content-le r)
length-content-le (failed e ∷ r) = ground (arith, length-content-le r)

pub stdin_fill-first :
    (signals : Bool) (w : World)
    → IsClean signals w.stdin
    → (rest : Reader) × (stdin_fill chunk_size w
        ≡ (ok (first_chunk (content w.stdin)), with_stdin rest w))
      × (content rest ≡ behind (content w.stdin))
      × IsClean signals rest
unfolding first_chunk behind
stdin_fill-first signals w c = stdin_fill-Reads signals chunk_size w c

-- What the hasher has been fed after `bytes` more: it is used in mode 1 only.
abbrev pub fed : ℕ → Bytes → Bytes → Bytes
fed mode hashed bytes = if mode == 1 then hashed ++ bytes else hashed

pub fed-fed : (mode : ℕ) (h a b : Bytes) → fed mode (fed mode h a) b ≡ fed mode h (a ++ b)
fed-fed mode h a b = ground (arith, append_assoc h a b)

module _ (C : Crypto) (A : IsAead C) (key : Bytes) (mode : ℕ) (recip : Bytes) where
  write_sealed-emit :
      (counter term : ℕ) (cur : Bytes) (w : World)
      → length cur ≤ 65536
      → w.stdout.room ≡ none
      → write_sealed C key mode recip counter term cur w
        ≡ (ok tt, emit (sealed C key mode recip counter term cur) w)
  unfolding write_sealed
  write_sealed-emit counter term cur w small room =
      let head : Bytes = chunk_header (length cur) term in
      let (ct, tag, encrypted, _, _, _) =
        A.seal key (build_nonce counter term)
          (build_aad magic_header 1 mode recip (length cur) counter term) cur small in
      let all = sealed_lem C key mode recip counter term cur ct tag encrypted in
      rw
        (
          stdout_write-emit head w room,
          encrypted,
          stdout_write-emit ct (emit head w) room,
          stdout_write-emit tag (emit ct (emit head w)) room,
          all,
        )
        (ap (λ t. (ok tt, t)) (emit-emit ct tag (emit head w) ∙ emit-emit head (ct ++ tag) w))

  next_counter_lem : (n : ℕ) → n + 1 < 18446744073709551616 → next_counter n ≡ ok (n + 1)
  unfolding next_counter
  next_counter_lem n h = ground arith

  -- What the loop leaves: the stream of `cur` and of the rest of the input is written.
  abbrev Streamed : Bool → ℕ → Bytes → Bytes → World → Result Pipek1Error Bytes × World → Type 0
  Streamed signals counter cur hashed w out =
      (rest : Reader) × (out ≡ (
        ok (fed mode hashed (cur ++ content w.stdin)),
        emit (wire_from C key mode recip counter cur (later_chunks (content w.stdin)))
            (with_stdin rest w),
      ))
      × (content rest ≡ [])
      × IsClean signals rest

  -- The chunk `cur` and the stream of what is behind it are the stream of both.
  Streamed-step :
      (counter : ℕ) (cur hashed : Bytes) (w : World) (rest rest' : Reader)
      → content rest ≡ behind (content w.stdin)
      → 0 < length (first_chunk (content w.stdin))
      → ◌≡◌ {A = Result Pipek1Error Bytes × World}
          (
            ok (fed mode (fed mode hashed cur) (first_chunk (content w.stdin) ++ content rest)),
            emit
                (wire_from C key mode recip
                  (counter + 1)
                  (first_chunk (content w.stdin))
                  (later_chunks (content rest)))
                (emit (sealed C key mode recip counter 0 cur) (with_stdin rest' w)),
          )
          (
            ok (fed mode hashed (cur ++ content w.stdin)),
            emit
                (wire_from C key mode recip counter cur (later_chunks (content w.stdin)))
                (with_stdin rest' w),
          )
  Streamed-step counter cur hashed w rest rest' left full =
      let here : Bytes = content w.stdin in
      rw (left, first-append-behind here, fed-fed mode hashed cur here, later_chunks-cons here full)
        (ap (λ t. (ok (fed mode hashed (cur ++ here)), t))
          (emit-emit (sealed C key mode recip counter 0 cur)
            (wire_from C key mode recip (counter + 1) (first_chunk here)
              (later_chunks (behind here)))
            (with_stdin rest' w)))

  -- One round: in front of a further chunk, and at the end.
  module _ (fuel counter : ℕ) (cur hashed next : Bytes) (w : World) (rest : Reader)
      (filled : stdin_fill chunk_size w ≡ (ok next, with_stdin rest w)) (small : length cur ≤ 65536)
      (few : counter + 1 < 18446744073709551616) (room : w.stdout.room ≡ none) where
    encrypt_loop-more :
        0 < length next
        → encrypt_loop C (suc fuel) key mode recip counter cur hashed w
          ≡ encrypt_loop C fuel key mode recip
              (counter + 1)
              next
              (fed mode hashed cur)
              (emit (sealed C key mode recip counter 0 cur) (with_stdin rest w))
    unfolding encrypt_loop
    encrypt_loop-more full =
        let test : (length next == 0) ≡ false = ground arith in
        rw
          (
            filled,
            test,
            write_sealed-emit counter 0 cur (with_stdin rest w) small room,
            next_counter_lem counter few,
          )
          refl

    encrypt_loop-last :
        length next ≡ 0
        → encrypt_loop C (suc fuel) key mode recip counter cur hashed w ≡ (
          ok (fed mode hashed cur),
          emit (sealed C key mode recip counter 1 cur) (with_stdin rest w),
        )
    unfolding encrypt_loop
    encrypt_loop-last empty =
        let test : (length next == 0) ≡ true = ground arith in
        rw
          (
            filled,
            test,
            write_sealed-emit counter 1 cur (with_stdin rest w) small room,
            next_counter_lem counter few,
          )
          refl

  pub encrypt_loop-Streamed :
      (signals : Bool) (fuel counter : ℕ) (cur hashed : Bytes) (w : World)
      → IsClean signals w.stdin
      → length cur ≤ 65536
      → length (content w.stdin) < fuel
      → counter + length (content w.stdin) + 1 < 18446744073709551616
      → w.stdout.room ≡ none
      → Streamed signals counter cur hashed w
          (encrypt_loop C fuel key mode recip counter cur hashed w)
  encrypt_loop-Streamed signals zero counter cur hashed w clean small enough few room =
      absurd (omega arith)
  encrypt_loop-Streamed signals (suc fuel) counter cur hashed w clean small enough few room =
      let (rest, filled, left, clean') = stdin_fill-first signals w clean in
      let here : Bytes = content w.stdin in
      let next : Bytes = first_chunk here in
      elim (dec_lt 0 (length next)) [
        | no empty ↦
            let (gone, no_more) = later_chunks-nil here (omega arith) in
            (
              rest,
              encrypt_loop-last fuel counter cur hashed next w rest filled small (omega arith) room
                    (omega arith)
                  ∙ rw (no_more, gone, append-nil cur) refl,
              left ∙ ap behind gone ∙ behind-nil,
              clean',
            )
        | yes full ↦
            let fewer : length next + length (content rest) ≡ length here =
              rw left (length-first_chunk here) in
            let (rest', done, left', clean'') =
              encrypt_loop-Streamed signals fuel (counter + 1) next (fed mode hashed cur)
                (emit (sealed C key mode recip counter 0 cur) (with_stdin rest w)) clean'
                (first_chunk-le here) (omega arith) (omega arith) room in
            (
              rest',
              encrypt_loop-more fuel counter cur hashed next w rest filled small (omega arith) room
                    full
                  ∙ done
                  ∙ Streamed-step counter cur hashed w rest rest' left full,
              left',
              clean'',
            )
      ]

  encrypt_stream-start :
      (w : World) (here : Bytes) (rest : Reader)
      → stdin_fill chunk_size w ≡ (ok (first_chunk here), with_stdin rest w)
      → encrypt_stream C key mode recip w
        ≡ encrypt_loop C
            (suc (capacity rest))
            key
            mode
            recip
            0
            (first_chunk here)
            []
            (with_stdin rest w)
  unfolding encrypt_stream
  encrypt_stream-start w here rest filled = rw filled refl

  -- From an input in working order, of fewer than 2^64 - 1 bytes, and to an output without a bound,
  -- the loop succeeds: it takes all of the input, writes the chunk stream of its bytes, and returns
  -- what the hasher was fed, which is those bytes in mode 1 and nothing else.
  pub encrypt_stream-wire :
      (signals : Bool) (w : World)
      → IsClean signals w.stdin
      → length (content w.stdin) + 1 < 18446744073709551616
      → w.stdout.room ≡ none
      → (rest : Reader) × (encrypt_stream C key mode recip w ≡ (
        ok (fed mode [] (content w.stdin)),
        emit (wire C key mode recip (content w.stdin)) (with_stdin rest w),
      ))
        × (content rest ≡ [])
        × IsClean signals rest
  encrypt_stream-wire signals w clean few room =
      let (rest, filled, left, clean') = stdin_fill-first signals w clean in
      let here : Bytes = content w.stdin in
      let size : length (first_chunk here) + length (content rest) ≡ length here =
        rw left (length-first_chunk here) in
      let fits = length-content-le rest in
      let (rest', done, left', clean'') =
        encrypt_loop-Streamed signals (suc (capacity rest)) 0 (first_chunk here) []
          (with_stdin rest w) clean' (first_chunk-le here) (omega arith) (omega arith) room in
      (
        rest',
        encrypt_stream-start w here rest filled ∙ (done ∙ rw (left, first-append-behind here) refl),
        left',
        clean'',
      )
