-- ===== src/Crypto/Strokes.antt =====
-- Bytes as text of base64 characters, to run the program on: each byte as strokes.
use Prim.Native.Char.{code}
use pipek.Prelude.{
  ℕ, zero, suc, ◌≡◌, refl, String, true, Option, none, some, [], ◌∷◌, ◌==◌, if◌then◌else◌,
}
use pipek.Prelude.Bytes.{Bytes}
use pipek.Prelude.Text.Laws.{all_codes}
use pipek.Crypto.{is_base64}

-- A byte as that many strokes and a mark.
stroke : ℕ → String → String
stroke zero s = String.◌∷◌ "B" s
stroke (suc n) s = String.◌∷◌ "A" (stroke n s)

unfoldable pub strokes : Bytes → String
unfolding stroke
strokes [] = ""
strokes (b ∷ bs) = stroke b (strokes bs)

add_stroke : Option Bytes → Option Bytes
add_stroke (some (b ∷ bs)) = some (suc b ∷ bs)
add_stroke _ = none

add_byte : Option Bytes → Option Bytes
add_byte (some bs) = some (0 ∷ bs)
add_byte none = none

unfoldable pub from_strokes : String → Option Bytes
unfolding add_stroke add_byte
from_strokes String.[] = some []
from_strokes (String.◌∷◌ c s) =
    let rest = from_strokes s in if code c == b'A' then add_stroke rest else add_byte rest

stroke-all :
    (n : ℕ) (s : String) → all_codes is_base64 s ≡ true → all_codes is_base64 (stroke n s) ≡ true
unfolding stroke all_codes is_base64
stroke-all zero s h = h
stroke-all (suc n) s h = stroke-all n s h

pub strokes-all : (bs : Bytes) → all_codes is_base64 (strokes bs) ≡ true
unfolding strokes
strokes-all [] = unfold all_codes in refl
strokes-all (b ∷ bs) = stroke-all b (strokes bs) (strokes-all bs)

from_strokes-stroke :
    (n : ℕ) (s : String) (bs : Bytes)
    → from_strokes s ≡ some bs
    → from_strokes (stroke n s) ≡ some (n ∷ bs)
unfolding from_strokes stroke
from_strokes-stroke zero s bs h = rw h
from_strokes-stroke (suc n) s bs h = rw (from_strokes-stroke n s bs h)

pub from_strokes-strokes : (bs : Bytes) → from_strokes (strokes bs) ≡ some bs
unfolding strokes
from_strokes-strokes [] = unfold from_strokes in refl
from_strokes-strokes (b ∷ bs) = from_strokes-stroke b (strokes bs) bs (from_strokes-strokes bs)
