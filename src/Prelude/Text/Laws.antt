-- ===== src/Prelude/Text/Laws.antt =====
-- Laws of the text functions.
use Prim.Native.Nat.{compare, Ordering}
use Prim.Native.Char.{Char, char, code}
use mathlib.Core.Option
use text.Mathlib.TextLemmas.{nil-append, cons-append, append_assoc as text_assoc}
use text.Mathlib.TextEquality.{Char-path, starts_with_iff, eq_iff}
use pipek.Prelude.{
  ℕ, String, ◌<>◌, Bool, true, false, ◌&&◌, ◌||◌, not, some, [], ◌∷◌, ◌++◌, ◌==◌, ltb, starts_with,
  str_eq, ◌≡◌, refl, ap, sym, ◌∙◌, arith, Bool-cases, inl, inr, append_assoc, lt→ltb, ◌<◌,
}
use pipek.Prelude.Bytes.{Bytes}
use pipek.Prelude.Text.{
  Scalar, scalar_of, as_bytes, encode_char, from_utf8, decode, push_char, to_char, trim, trim_start,
  trim_end, is_whitespace, contains, lines,
}

-- A test of every character.
unfoldable pub all_codes : (ℕ → Bool) → String → Bool
all_codes p String.[] = true
all_codes p (String.◌∷◌ c s) = p (code c) && all_codes p s

pub all_codes-append :
    (p : ℕ → Bool) (a b : String) → all_codes p (a <> b) ≡ (all_codes p a && all_codes p b)
unfolding all_codes
all_codes-append p String.[] b = rw (nil-append b) refl
all_codes-append p (String.◌∷◌ c a) b =
    rw (cons-append c a b) (ground (arith, all_codes-append p a b))

pub as_bytes-append : (a b : String) → as_bytes (a <> b) ≡ as_bytes a ++ as_bytes b
unfolding as_bytes
as_bytes-append String.[] b = rw (nil-append b) refl
as_bytes-append (String.◌∷◌ c a) b =
    rw (cons-append c a b, as_bytes-append a b)
      (sym (append_assoc (encode_char (code c)) (as_bytes a) (as_bytes b)))

starts_with-false :
    (p : ℕ → Bool) (s part : String)
    → all_codes p s ≡ true
    → all_codes p part ≡ false
    → starts_with s part ≡ false
starts_with-false p s part h miss = elim (Bool-cases (starts_with s part)) [
  | inr e ↦ e
  | inl e ↦
      let (rest, whole) = (starts_with_iff s part).0 e in
      let both : (all_codes p part && all_codes p rest) ≡ true =
        sym (all_codes-append p part rest) ∙ ap (all_codes p) whole ∙ h in
      absurd (cc (rw miss at both))
]

-- A text all of whose characters pass a test does not contain one with a character that fails it.
pub contains-false :
    (p : ℕ → Bool) (s part : String)
    → all_codes p s ≡ true
    → all_codes p part ≡ false
    → contains part s ≡ false
unfolding contains all_codes
contains-false p String.[] part h miss = elim (Bool-cases (str_eq part "")) [
  | inr e ↦ e
  | inl e ↦ absurd (cc (rw ((eq_iff part "").0 e) at miss))
]
contains-false p (String.◌∷◌ c s) part h miss =
    let h' : (p (code c) && all_codes p s) ≡ true = h in
    let later : all_codes p s ≡ true = ground arith in
    rw (starts_with-false p (String.◌∷◌ c s) part h miss) (contains-false p s part later miss)

contains_nil : (s : String) → contains "" s ≡ true
unfolding contains
contains_nil String.[] = refl
contains_nil (String.◌∷◌ c s) =
    rw ((starts_with_iff (String.◌∷◌ c s) "").1 (String.◌∷◌ c s, nil-append (String.◌∷◌ c s))) refl

or_right : (a b : Bool) → b ≡ true → (a || b) ≡ true
or_right a b h = ground arith

starts_with_longer :
    (part : String) (c : Char) (a b : String)
    → starts_with (String.◌∷◌ c a) part ≡ true
    → starts_with (String.◌∷◌ c (a <> b)) part ≡ true
starts_with_longer part c a b h =
    let (u, e) = (starts_with_iff (String.◌∷◌ c a) part).0 h in
    (starts_with_iff (String.◌∷◌ c (a <> b)) part).1
      (u <> b, sym (text_assoc part u b) ∙ ap (λ t. t <> b) e ∙ cons-append c a b)

pub contains-append : (part a b : String) → contains part a ≡ true → contains part (a <> b) ≡ true
unfolding contains
contains-append part String.[] b h = rw (nil-append b, (eq_iff part "").0 h) (contains_nil b)
contains-append part (String.◌∷◌ c a) b h =
    rw (cons-append c a b) (elim (Bool-cases (starts_with (String.◌∷◌ c a) part)) [
      | inl e ↦ rw (starts_with_longer part c a b e) refl
      | inr e ↦
          let later : contains part (a <> b) ≡ true = contains-append part a b (rw e at h) in
          or_right (starts_with (String.◌∷◌ c (a <> b)) part) _ later
    ])

trim_start_clean : (s : String) → all_codes (λ c. not (is_whitespace c)) s ≡ true → trim_start s ≡ s
unfolding trim_start all_codes
trim_start_clean String.[] h = refl
trim_start_clean (String.◌∷◌ c s) h = ground arith

trim_end_clean : (s : String) → all_codes (λ c. not (is_whitespace c)) s ≡ true → trim_end s ≡ s
unfolding trim_end all_codes
trim_end_clean String.[] h = refl
trim_end_clean (String.◌∷◌ c s) h = ground (arith, trim_end_clean s)

pub trim_clean : (s : String) → all_codes (λ c. not (is_whitespace c)) s ≡ true → trim s ≡ s
unfolding trim
trim_clean s h = rw (trim_start_clean s h) (trim_end_clean s h)

-- A line without a newline in it, and the lines behind it.
pub lines-newline :
    (a rest : String)
    → all_codes (λ c. not (c == 10)) a ≡ true
    → lines (a <> ("\n" <> rest)) ≡ a ∷ lines rest
unfolding lines all_codes
lines-newline String.[] rest h =
    rw (nil-append ("\n" <> rest), cons-append "\n" "" rest, nil-append rest) refl
lines-newline (String.◌∷◌ c a) rest h =
    let other : (code c == 10) ≡ false = ground arith in
    let later : all_codes (λ c. not (c == 10)) a ≡ true = ground arith in
    rw (cons-append c a ("\n" <> rest), other, lines-newline a rest later)
      (ap (λ t. t ∷ lines rest) (cons-append c "" a ∙ ap (String.◌∷◌ c) (nil-append a)))

scalar_of_low :
    (o p q : Ordering) → o ≡ Ordering.lt → (x : Scalar o p q) × (scalar_of o p q ≡ some x)
unfolding scalar_of
scalar_of_low Ordering.lt p q e = (tt, refl)
scalar_of_low Ordering.eq p q e = cc
scalar_of_low Ordering.gt p q e = cc

compare_low : (n : ℕ) → n < 128 → compare n 55296 ≡ Ordering.lt
compare_low n h = ground arith

to_char-code : (c : Char) → code c < 128 → to_char (code c) ≡ some c
unfolding to_char
to_char-code c h =
    let n : ℕ = code c in
    let (x, e) =
      scalar_of_low (compare n 55296) (compare 57343 n) (compare n 1114112) (compare_low n h) in
    ap (Option.map (char n)) e ∙ ap some (Char-path (char n x) c refl)

decode_ascii :
    (b bits least : ℕ) (bs : Bytes)
    → b < 128
    → decode 0 bits least (b ∷ bs) ≡ push_char (to_char b) (decode 0 0 0 bs)
unfolding decode
decode_ascii b bits least bs h = rw (lt→ltb b 128 h)

encode_ascii : (c : ℕ) → c < 128 → encode_char c ≡ c ∷ []
unfolding encode_char
encode_ascii c h = rw (lt→ltb c 128 h)

from_utf8-cons :
    (c : Char) (s : String)
    → code c < 128
    → from_utf8 (as_bytes s) ≡ some s
    → from_utf8 (as_bytes (String.◌∷◌ c s)) ≡ some (String.◌∷◌ c s)
unfolding from_utf8 as_bytes push_char
from_utf8-cons c s h e =
    rw (encode_ascii (code c) h, decode_ascii (code c) 0 0 (as_bytes s) h, to_char-code c h, e)

-- ASCII text is read back from its bytes.
pub from_utf8-as_bytes :
    (s : String) → all_codes (λ c. ltb c 128) s ≡ true → from_utf8 (as_bytes s) ≡ some s
unfolding from_utf8
from_utf8-as_bytes String.[] h = unfold as_bytes decode in refl
from_utf8-as_bytes (String.◌∷◌ c s) h =
    let small : code c < 128 = unfold all_codes in ground arith in
    let later : all_codes (λ c. ltb c 128) s ≡ true = unfold all_codes in ground arith in
    from_utf8-cons c s small (from_utf8-as_bytes s later)

-- A weaker test.
pub all_codes_mono :
    (p q : ℕ → Bool)
    → ((c : ℕ) → p c ≡ true → q c ≡ true)
    → (s : String) → all_codes p s ≡ true
    → all_codes q s ≡ true
unfolding all_codes
all_codes_mono p q f String.[] h = refl
all_codes_mono p q f (String.◌∷◌ c s) h =
    let both : (p (code c) && all_codes p s) ≡ true = h in
    let head : p (code c) ≡ true = ground arith in
    let later : all_codes p s ≡ true = ground arith in
    rw (f (code c) head) (all_codes_mono p q f s later)
