-- ===== src/Prelude/Bytes.antt =====
-- Byte strings: big-endian words and writes into fixed buffers.
use Prim.Native.Nat.{ℕ, ◌+◌, ◌*◌, ◌/◌, ◌%◌, ◌<◌}
use mathlib.Core.Path.{◌≡◌, sym, ap, ◌∙◌}
use mathlib.Core.List.{List, [], ◌∷◌, ◌++◌, append_assoc}
use native.Mathlib.Omega.{arith}
use pipek.Prelude.Lists.{
  replicate, length-replicate, replicate-add, length, take, drop, take-append_exact,
  drop-append_exact, length-append,
}

abbrev pub Bytes : Type 0
Bytes = List ℕ

-- `u32::to_be_bytes`
abbrev pub be32 : ℕ → Bytes
be32 n = (n / 16777216 % 256) ∷ (n / 65536 % 256) ∷ (n / 256 % 256) ∷ (n % 256) ∷ []

-- `u64::to_be_bytes`
abbrev pub be64 : ℕ → Bytes
be64 n = be32 (n / 4294967296) ++ be32 n

-- `u32::from_be_bytes` of a slice of four bytes
abbrev pub from_be32 : Bytes → ℕ
from_be32 (a ∷ b ∷ c ∷ d ∷ []) = a * 16777216 + b * 65536 + c * 256 + d
from_be32 _ = 0

pub from_be32-be32_mod : (n : ℕ) → from_be32 (be32 n) ≡ n % 4294967296
from_be32-be32_mod n = omega arith

pub from_be32-be32 : (n : ℕ) → n < 4294967296 → from_be32 (be32 n) ≡ n
from_be32-be32 n h = omega arith

-- `buf[lo..hi].copy_from_slice(src)`. It panics unless `src` has `hi - lo` bytes, which the array
-- types of the program's calls rule out.
abbrev pub copy_range : ℕ → ℕ → Bytes → Bytes → Bytes
copy_range lo hi src buf = take lo buf ++ (src ++ drop hi buf)

drop-middle : (n : ℕ) (a b c : Bytes) → length (a ++ b) ≡ n → drop n (a ++ (b ++ c)) ≡ c
drop-middle n a b c e = rw (← append_assoc a b c) (drop-append_exact n (a ++ b) c e)

-- A write into the middle one of three parts.
pub copy_range_parts :
    (lo hi : ℕ) (src a b c : Bytes)
    → length a ≡ lo
    → lo + length b ≡ hi
    → copy_range lo hi src (a ++ (b ++ c)) ≡ a ++ (src ++ c)
copy_range_parts lo hi src a b c ea eb =
    ap (λ t. t ++ (src ++ drop hi (a ++ (b ++ c)))) (take-append_exact lo a (b ++ c) ea)
    ∙ ap (λ t. a ++ (src ++ t)) (drop-middle hi a b c (rw (length-append a b) (omega arith)))

-- A write at the end of what is filled in of a zeroed buffer.
pub copy_range-append :
    (lo hi n z : ℕ) (src filled : Bytes)
    → length filled ≡ lo
    → length src ≡ n
    → lo + n ≡ hi
    → copy_range lo hi src (filled ++ replicate (n + z) 0) ≡ (filled ++ src) ++ replicate z 0
copy_range-append lo hi n z src filled ef es eh =
    ap (copy_range lo hi src) (ap (λ t. filled ++ t) (replicate-add n z 0))
    ∙ (copy_range_parts lo hi src filled (replicate n 0) (replicate z 0) ef
          (rw (length-replicate {A = ℕ} n 0) (omega arith))
        ∙ sym (append_assoc filled src (replicate z 0)))
