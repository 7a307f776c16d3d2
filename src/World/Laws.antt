-- ===== src/World/Laws.antt =====
-- What the stream operations do when the stream works.
use pipek.Prelude.{
  String, ◌<>◌, ℕ, Bool, ◌≤◌, ◌≡◌, ◌∙◌, ap, none, [], ◌++◌, arith, length, take, drop, Result, ok,
  append_assoc, append-nil, length-append, take-append_exact, drop-append_exact,
}
use pipek.Prelude.Bytes.{Bytes}
use pipek.Prelude.Text.{as_bytes}
use pipek.Error.{IoError}
use pipek.Io.{Reader, write_all-unbounded}
use pipek.Io.Input.{content, IsClean, fill_buffer-take, read_exact-take}
use pipek.World.{World, stdin_fill, stdin_read_exact, stdout_write, println}

-- The world after `bs` has arrived at standard output.
abbrev pub emit : Bytes → World → World
emit bs w = record w { stdout = record w.stdout { bytes = w.stdout.bytes ++ bs } }

pub emit-emit : (a b : Bytes) (w : World) → emit b (emit a w) ≡ emit (a ++ b) w
emit-emit a b w =
    ap (λ t. record w { stdout = record w.stdout { bytes = t } }) (append_assoc w.stdout.bytes a b)

pub emit-nil : (w : World) → emit [] w ≡ w
emit-nil w =
    ap (λ t. record w { stdout = record w.stdout { bytes = t } }) (append-nil w.stdout.bytes)

pub stdout_write-emit :
    (bs : Bytes) (w : World) → w.stdout.room ≡ none → stdout_write bs w ≡ (ok tt, emit bs w)
unfolding stdout_write
stdout_write-emit bs w h =
    ap (λ p. (p.0, record w { stdout = p.1 })) (write_all-unbounded bs w.stdout h)

pub println-emit :
    {E : Type 0} (line : String) (w : World)
    → w.stdout.room ≡ none
    → println {E = E} line w ≡ (ok tt, emit (as_bytes (line <> "\n")) w)
unfolding println
println-emit line w h = rw (stdout_write-emit (as_bytes (line <> "\n")) w h)

-- The world with another input left.
abbrev pub with_stdin : Reader → World → World
with_stdin r w = record w { stdin = r }

-- `out` is a success with `got`, and leaves the input `left`, which is in working order.
abbrev pub Reads : Bool → Bytes → Bytes → World → Result IoError Bytes × World → Type 0
Reads signals got left w out =
    (rest : Reader) × (out ≡ (ok got, with_stdin rest w))
    × (content rest ≡ left)
    × IsClean signals rest

pub stdin_fill-Reads :
    (signals : Bool) (n : ℕ) (w : World)
    → IsClean signals w.stdin
    → Reads signals (take n (content w.stdin)) (drop n (content w.stdin)) w (stdin_fill n w)
unfolding stdin_fill
stdin_fill-Reads signals n w c =
    let (rest, e, d, c') = fill_buffer-take signals n w.stdin c in
    (rest, ap (λ p. (p.0, with_stdin p.1 w)) e, d, c')

-- If the input begins with `n` bytes `got`, then `read_exact` of `n` bytes returns them.
pub stdin_read_exact-Reads :
    (signals : Bool) (n : ℕ) (got left : Bytes) (w : World)
    → IsClean signals w.stdin
    → content w.stdin ≡ got ++ left
    → length got ≡ n
    → Reads signals got left w (stdin_read_exact n w)
unfolding stdin_read_exact
stdin_read_exact-Reads signals n got left w c e size =
    let enough : n ≤ length (content w.stdin) = rw (e, length-append got left) (omega arith) in
    let (rest, eq, d, c') = read_exact-take signals n w.stdin c enough in
    (
      rest,
      ap (λ p. (p.0, with_stdin p.1 w)) eq
          ∙ ap (λ t. (ok t, with_stdin rest w)) (ap (take n) e ∙ take-append_exact n got left size),
      d ∙ (ap (drop n) e ∙ drop-append_exact n got left size),
      c',
    )
