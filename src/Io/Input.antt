-- ===== src/Io/Input.antt =====
-- What the reading loops get from an input that does not fail, however its bytes arrive.
use pipek.Prelude.{
  ℕ, zero, suc, ◌-◌, ◌≤◌, ◌<◌, ◌≡◌, refl, ◌∙◌, ap, sym, Bool, true, false, [], ◌∷◌, ◌++◌, arith,
  ◌==◌, leb, length, take, drop, if◌then◌else◌, Result, ok, err, stuck, append-nil, append_assoc,
  take-nil, drop-nil, Bool-cases, inl, inr, take-append_ge, drop-append_ge, take-append_le,
  drop-append_le, length-take, length-drop,
}
use pipek.Prelude.Bytes.{Bytes}
use pipek.Error.{IoError}
use pipek.Io.{
  chunk, failed, Reader, read, fill_from, fill_buffer, read_exact, eof_error, read_rest, is_signal,
}

-- The bytes up to the end of the input.
abbrev pub content : Reader → Bytes
content [] = []
content (chunk bs ∷ r) = bs ++ content r
content (failed e ∷ r) = if is_signal e.kind then content r else []

-- No read fails, but that it may be interrupted if `signals` is true, and none gives 0 bytes before
-- the end.
abbrev pub IsClean : Bool → Reader → Type 0
IsClean signals [] = Unit
IsClean signals (chunk bs ∷ r) = (0 < length bs) × IsClean signals r
IsClean signals (failed e ∷ r) = (signals ≡ true) × (is_signal e.kind ≡ true) × IsClean signals r

suc-ne-zero : (n : ℕ) → (suc n == 0) ≡ false
suc-ne-zero n = ground arith

leb_false→lt : (a b : ℕ) → leb a b ≡ false → b < a
leb_false→lt a b h = ground arith

abbrev pub Filled : Bool → ℕ → Bytes → Reader → Result IoError Bytes × Reader → Type 0
Filled signals left got r out =
    (rest : Reader) × (out ≡ (ok (got ++ take left (content r)), rest))
    × (content rest ≡ drop left (content r))
    × IsClean signals rest

-- A chunk that fits leaves the rest to the later events.
fits :
    (left : ℕ) (got bs later : Bytes)
    → length bs ≤ left
    → ((got ++ bs) ++ take (left - length bs) later ≡ got ++ take left (bs ++ later))
      × (drop (left - length bs) later ≡ drop left (bs ++ later))
fits left got bs later h = (
  rw (take-append_ge left bs later h) (append_assoc got bs _),
  sym (drop-append_ge left bs later h),
)

fill_from-chunk_fits :
    (signals : Bool) (n : ℕ) (got bs : Bytes) (r : Reader) {out : Result IoError Bytes × Reader}
    → length bs ≤ n
    → Filled signals (n - length bs) (got ++ bs) r out
    → Filled signals n got (chunk bs ∷ r) out
fill_from-chunk_fits signals n got bs r h (rest, e, d, c) =
    let f = fits n got bs (content r) h in (rest, rw (← f.0) e, d ∙ f.1, c)

fill_from-Filled :
    (signals : Bool) (left : ℕ) (got : Bytes) (r : Reader)
    → IsClean signals r
    → Filled signals left got r (fill_from left got r)
unfolding fill_from
fill_from-Filled signals left got [] c = ([], rw (take-nil, append-nil), rw drop-nil, tt)
fill_from-Filled signals zero got (chunk bs ∷ r) c = (chunk bs ∷ r, rw append-nil, refl, c)
fill_from-Filled signals (suc n) got (chunk bs ∷ r) c =
    let nonempty : (length bs == 0) ≡ false = ground (arith, c.0) in
    elim (Bool-cases (leb (length bs) (suc n))) [
      | inl e ↦
          rw (suc-ne-zero n, nonempty, e)
            (fill_from-chunk_fits signals (suc n) got bs r (ground arith)
              (fill_from-Filled signals (suc n - length bs) (got ++ bs) r c.1))
      | inr e ↦
          rw (suc-ne-zero n, nonempty, e)
            (
              chunk (drop (suc n) bs) ∷ r,
              rw (take-append_le (suc n) bs (content r) (ground arith)),
              sym (drop-append_le (suc n) bs (content r) (ground arith)),
              (rw (length-drop (suc n) bs) (omega (arith, leb_false→lt _ _ e)), c.1),
            )
    ]
fill_from-Filled signals zero got (failed e ∷ r) c = (failed e ∷ r, rw append-nil, rw c.1, c)
fill_from-Filled signals (suc n) got (failed e ∷ r) c =
    rw (suc-ne-zero n, c.1) (fill_from-Filled signals (suc n) got r c.2)

-- However the bytes of an input in working order arrive, `fill_buffer` returns the first `n` of the
-- input, or all if there are fewer, and leaves the rest.
pub fill_buffer-take :
    (signals : Bool) (n : ℕ) (r : Reader)
    → IsClean signals r
    → (rest : Reader) × (fill_buffer n r ≡ (ok (take n (content r)), rest))
      × (content rest ≡ drop n (content r))
      × IsClean signals rest
fill_buffer-take signals n r c = fill_from-Filled signals n [] r c

-- With `n` bytes left `read_exact` returns them.
pub read_exact-take :
    (signals : Bool) (n : ℕ) (r : Reader)
    → IsClean signals r
    → n ≤ length (content r)
    → (rest : Reader) × (read_exact n r ≡ (ok (take n (content r)), rest))
      × (content rest ≡ drop n (content r))
      × IsClean signals rest
unfolding read_exact
read_exact-take signals n r c h =
    let (rest, e, d, c') = fill_buffer-take signals n r c in
    let full : (length (take n (content r)) == n) ≡ true =
      rw (length-take n (content r)) (ground arith) in
    (rest, rw (e, full), d, c')

-- With fewer it fails.
pub read_exact-eof :
    (signals : Bool) (n : ℕ) (r : Reader)
    → IsClean signals r
    → length (content r) < n
    → (rest : Reader) × (read_exact n r ≡ (err eof_error, rest))
unfolding read_exact
read_exact-eof signals n r c h =
    let (rest, e, d, c') = fill_buffer-take signals n r c in
    let short : (length (take n (content r)) == n) ≡ false =
      rw (length-take n (content r)) (ground arith) in
    (rest, rw (e, short))

read_rest-content :
    (signals : Bool) (got : Bytes) (r : Reader)
    → IsClean signals r
    → (rest : Reader) × (read_rest got r ≡ (ok (got ++ content r), rest))
unfolding read_rest
read_rest-content signals got [] c = ([], rw append-nil)
read_rest-content signals got (chunk bs ∷ r) c =
    let nonempty : (length bs == 0) ≡ false = ground (arith, c.0) in
    let (rest, e) = read_rest-content signals (got ++ bs) r c.1 in
    (rest, rw nonempty (e ∙ ap (λ t. (ok t, rest)) (append_assoc got bs (content r))))
read_rest-content signals got (failed e ∷ r) c = rw c.1 (read_rest-content signals got r c.2)

-- `read_to_end` returns all that is left.
pub read_to_end_lem :
    (signals : Bool) (r : Reader)
    → IsClean signals r
    → (rest : Reader) × (read_rest [] r ≡ (ok (content r), rest))
read_to_end_lem signals r c = read_rest-content signals [] r c

abbrev pub after_read : ℕ → Bytes → Result IoError Bytes × Reader → Result IoError Bytes × Reader
after_read left got (ok bs, r) =
    if length bs == 0 then (ok got, r) else fill_from (left - length bs) (got ++ bs) r
after_read left got (err e, r) = if is_signal e.kind then fill_from left got r else (err e, r)
after_read left got (stuck, r) = (stuck, r)

fill_from_full : (n : ℕ) (got : Bytes) (r : Reader) → n ≡ 0 → fill_from n got r ≡ (ok got, r)
unfolding fill_from
fill_from_full n got [] h = refl
fill_from_full n got (chunk bs ∷ r) h = ground arith
fill_from_full n got (failed e ∷ r) h = ground arith

-- One round of the loop of `fill_buffer` in terms of one `read`: a full buffer or a read of 0 bytes
-- ends it, a signal is tried again, another failure is returned.
pub fill_from-read :
    (left : ℕ) (got : Bytes) (r : Reader)
    → fill_from left got r ≡ (if left == 0 then (ok got, r) else after_read left got (read left r))
unfolding fill_from read
fill_from-read left got [] = ground arith
fill_from-read left got (failed e ∷ r) = refl
fill_from-read left got (chunk bs ∷ r) = ground (
  arith,
  length-take left bs,
  fill_from_full (left - length (take left bs)) (got ++ take left bs) (chunk (drop left bs) ∷ r),
)
