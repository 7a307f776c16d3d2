-- ===== src/World/Ends/Streams.antt =====
-- The reads and writes of the streams return, and how much a read takes.
use pipek.Prelude.{
  ℕ, ◌+◌, ◌-◌, ◌≤◌, ◌≡◌, [], ◌∷◌, ◌++◌, Result, ok, err, stuck, IsDone, arith, length, take,
  length-append, length-take, length-drop, leb, ◌==◌, Bool-cases, inl, inr, Option-cases,
}
use pipek.Prelude.Bytes.{Bytes}
use pipek.Error.{IoError}
use pipek.Io.{
  Reader, chunk, failed, capacity, read, fill_from, fill_buffer, read_exact, require_full,
  is_signal, Sink, write_all,
}
use pipek.World.{World, stdin_read, stdin_fill, stdin_read_exact, stdout_write, fill_bytes}
use pipek.World.Ends.{Left, Takes, Takes-at, IsCalm}

-- Bytes were read, of those that were read before and those that could be read.
abbrev Given : ℕ → Result IoError Bytes × Reader → Type 0
Given n (ok bs, rest) = length bs + capacity rest ≤ n
Given n (err e, rest) = Unit
Given n (stuck, rest) = ⊥

read-Given : (n : ℕ) (r : Reader) → Given (capacity r) (read n r)
unfolding read
read-Given n [] = omega arith
read-Given n (failed e ∷ r) = tt
read-Given n (chunk bs ∷ r) = elim (Bool-cases (leb (length bs) n)) [
  | inl e ↦ rw e (omega arith)
  | inr e ↦ rw e (omega (arith, length-take n bs, length-drop n bs))
]

Given-mono : (n m : ℕ) (a : Result IoError Bytes × Reader) → n ≤ m → Given n a → Given m a
Given-mono n m (ok bs, r) h g = omega arith
Given-mono n m (err e, r) h g = tt
Given-mono n m (stuck, r) h g = absurd g

fill_from-Given :
    (left : ℕ) (got : Bytes) (r : Reader) → Given (length got + capacity r) (fill_from left got r)
unfolding fill_from
fill_from-Given left got [] = omega arith
fill_from-Given left got (chunk bs ∷ r) =
    let more = fill_from-Given (left - length bs) (got ++ bs) r in
    elim (Bool-cases (left == 0)) [
      | inl e ↦ rw e (omega arith)
      | inr e ↦ rw e (elim (Bool-cases (length bs == 0)) [
        | inl z ↦ rw z (omega arith)
        | inr z ↦ rw z (elim (Bool-cases (leb (length bs) left)) [
          | inl fits ↦ rw fits (Given-mono _ _ _ (omega (arith, length-append got bs)) more)
          | inr long ↦ rw long (
              omega
                (arith, length-append got (take left bs), length-take left bs, length-drop left bs))
        ])
      ])
    ]
fill_from-Given left got (failed e ∷ r) =
    let more = fill_from-Given left got r in
    elim (Bool-cases (left == 0)) [
      | inl z ↦ rw z (omega arith)
      | inr z ↦ rw z (elim (Bool-cases (is_signal e.kind)) [
        | inl signal ↦ rw signal more
        | inr other ↦ rw other tt
      ])
    ]

fill_buffer-Given : (n : ℕ) (r : Reader) → Given (capacity r) (fill_buffer n r)
fill_buffer-Given n r = Given-mono (0 + capacity r) _ _ (omega arith) (fill_from-Given n [] r)

-- What is known of a read, as a step over the world.
length-Left :
    (w : World) (a : Result IoError Bytes × Reader)
    → Given (capacity w.stdin) a
    → IsDone a.0 × Left (length {A = ℕ}) w a.0 (record w { stdin = a.1 })
length-Left w (ok bs, r) g = (tt, g)
length-Left w (err e, r) g = (tt, tt)
length-Left w (stuck, r) g = absurd g

full-Left :
    (n : ℕ) (w : World) (a : Result IoError Bytes × Reader)
    → Given (capacity w.stdin) a
    → IsDone (require_full n a).0
      × Left {E = IoError} {A = Bytes}
          (λ _. n)
          w
          (require_full n a).0
          (record w { stdin = (require_full n a).1 })
full-Left n w (ok bs, r) g = elim (Bool-cases (length bs == n)) [
  | inl e ↦ let same : length bs ≡ n = ground arith in rw e (tt, omega arith)
  | inr e ↦ rw e (tt, tt)
]
full-Left n w (err e, r) g = (tt, tt)
full-Left n w (stuck, r) g = absurd g

pub stdin_read-Takes : (n : ℕ) → Takes (length {A = ℕ}) (stdin_read n)
unfolding stdin_read
stdin_read-Takes n = Takes-at _ _ λ w. length-Left w (read n w.stdin) (read-Given n w.stdin)

pub stdin_fill-Takes : (n : ℕ) → Takes (length {A = ℕ}) (stdin_fill n)
unfolding stdin_fill
stdin_fill-Takes n =
    Takes-at _ _ λ w. length-Left w (fill_buffer n w.stdin) (fill_buffer-Given n w.stdin)

pub stdin_read_exact-Takes : (n : ℕ) → Takes (λ _. n) (stdin_read_exact n)
unfolding stdin_read_exact read_exact
stdin_read_exact-Takes n =
    Takes-at _ _ λ w. full-Left n w (fill_buffer n w.stdin) (fill_buffer-Given n w.stdin)

pub write_all-IsDone : (bs : Bytes) (s : Sink) → IsDone (write_all bs s).0
unfolding write_all
write_all-IsDone bs s = elim (Option-cases s.room) [
  | inl e ↦ rw e tt
  | inr (n, e) ↦ rw e (elim (Bool-cases (leb (length bs) n)) [ inl h ↦ rw h tt | inr h ↦ rw h tt ])
]

abbrev Still : World → Result IoError (Unit {0}) → World → Type 0
Still w r u = IsDone r × Left {E = IoError} {A = Unit {0}} (λ _. 0) w r u

still :
    (w : World) (r : Result IoError (Unit {0})) (s : Sink)
    → IsDone r
    → Still w r (record w { stdout = s })
still w (ok u) s h = (h, omega arith)
still w (err e) s h = (h, tt)
still w stuck s h = (h, tt)

pub stdout_write-IsCalm : (bs : Bytes) → IsCalm (stdout_write bs)
unfolding stdout_write
stdout_write-IsCalm bs =
    Takes-at _ _ λ w.
      still w (write_all bs w.stdout).0 (write_all bs w.stdout).1 (write_all-IsDone bs w.stdout)

pub fill_bytes-IsCalm : (E : Type 0) (n : ℕ) → IsCalm {E = E} (fill_bytes n)
unfolding fill_bytes
fill_bytes-IsCalm E n = Takes-at _ _ λ w. (tt, omega arith)
