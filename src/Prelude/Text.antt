-- ===== src/Prelude/Text.antt =====
-- The standard library's text functions that the program uses. A `String` is native text.
pub mod Laws
use Prim.Native.Nat.{compare, Ordering}
use Prim.Native.Char.{Char, char, code, IsLt}
use Prim.Native.String
use mathlib.Core.Option
use pipek.Prelude.{
  ℕ, zero, suc, ◌+◌, ◌-◌, ◌*◌, ◌/◌, ◌%◌, String, ◌<>◌, Bool, ◌&&◌, ◌||◌, none, some, List, [], ◌∷◌,
  ◌++◌, str_eq, starts_with, ◌==◌, ltb, leb, if◌then◌else◌, ◌≡◌, refl,
}
use mathlib.Core.Option.{Option}
use pipek.Prelude.Bytes.{Bytes}
use pipek.Prelude.Int.{ℤ, pos, negsuc}

encode_char : ℕ → Bytes
encode_char c =
    if ltb c 0x80
    then c ∷ []
    else if ltb c 0x800
    then (0xc0 + c / 64) ∷ (0x80 + c % 64) ∷ []
    else if ltb c 0x10000
    then (0xe0 + c / 4096) ∷ (0x80 + c / 64 % 64) ∷ (0x80 + c % 64) ∷ []
    else (0xf0 + c / 262144) ∷ (0x80 + c / 4096 % 64) ∷ (0x80 + c / 64 % 64) ∷ (0x80 + c % 64) ∷ []

-- `str::as_bytes`
unfoldable pub as_bytes : String → Bytes
unfolding encode_char
as_bytes String.[] = []
as_bytes (String.◌∷◌ c s) = encode_char (code c) ++ as_bytes s

abbrev pub BothLt : Ordering → Ordering → Type 0
BothLt Ordering.lt o = IsLt o
BothLt Ordering.eq _ = ⊥
BothLt Ordering.gt _ = ⊥

-- `IsScalar n` at the three comparisons that it makes.
abbrev pub Scalar : Ordering → Ordering → Ordering → Type 0
Scalar Ordering.lt _ _ = Unit
Scalar Ordering.eq o p = BothLt o p
Scalar Ordering.gt o p = BothLt o p

both_of : (o p : Ordering) → Option (BothLt o p)
both_of Ordering.lt Ordering.lt = some tt
both_of _ _ = none

scalar_of : (o p q : Ordering) → Option (Scalar o p q)
unfolding both_of
scalar_of Ordering.lt p q = some tt
scalar_of Ordering.eq p q = both_of p q
scalar_of Ordering.gt p q = both_of p q

-- `char::from_u32`
to_char : ℕ → Option Char
unfolding scalar_of
to_char n = Option.map (char n) (scalar_of (compare n 55296) (compare 57343 n) (compare n 1114112))

push_char : Option Char → Option String → Option String
push_char (some c) (some s) = some (String.◌∷◌ c s)
push_char _ _ = none

-- The rest of a text behind `need` continuation bytes of a character, whose bits so far are `bits`
-- and which must be at least `least`.
decode : ℕ → ℕ → ℕ → Bytes → Option String
unfolding to_char push_char
decode zero bits least [] = some ""
decode (suc need) bits least [] = none
decode zero bits least (b ∷ bs) =
    if ltb b 0x80
    then push_char (to_char b) (decode 0 0 0 bs)
    else if leb 0xc0 b && ltb b 0xe0
    then decode 1 (b - 0xc0) 0x80 bs
    else if leb 0xe0 b && ltb b 0xf0
    then decode 2 (b - 0xe0) 0x800 bs
    else if leb 0xf0 b && ltb b 0xf8
    then decode 3 (b - 0xf0) 0x10000 bs
    else none
decode (suc need) bits least (b ∷ bs) =
    let v = bits * 64 + (b - 0x80) in
    if leb 0x80 b && ltb b 0xc0
    then (if need == 0
        then (if leb least v then push_char (to_char v) (decode 0 0 0 bs) else none)
        else decode need v least bs)
    else none

-- `str::from_utf8`
unfoldable pub from_utf8 : Bytes → Option String
unfolding decode
from_utf8 bs = decode 0 0 0 bs

-- `char::is_whitespace`
unfoldable pub is_whitespace : ℕ → Bool
is_whitespace c =
    (leb 9 c && leb c 13)
    || (c == 32)
    || (c == 0x85)
    || (c == 0xa0)
    || (c == 0x1680)
    || (leb 0x2000 c && leb c 0x200a)
    || (c == 0x2028)
    || (c == 0x2029)
    || (c == 0x202f)
    || (c == 0x205f)
    || (c == 0x3000)

trim_start : String → String
unfolding is_whitespace
trim_start String.[] = ""
trim_start (String.◌∷◌ c s) =
    let rest = trim_start s in if is_whitespace (code c) then rest else String.◌∷◌ c s

trim_end : String → String
unfolding is_whitespace
trim_end String.[] = ""
trim_end (String.◌∷◌ c s) =
    let rest = trim_end s in
    if is_whitespace (code c) && str_eq rest "" then "" else String.◌∷◌ c rest

unfoldable pub trim : String → String
unfolding trim_start trim_end
trim s = trim_end (trim_start s)

-- A decimal digit as a text.
digit_text : ℕ → String
digit_text n = String.slice "0123456789" n (n + 1)

decimal_from : ℕ → ℕ → String
unfolding digit_text
decimal_from zero n = ""
decimal_from (suc left) n =
    let front = decimal_from left (n / 10) in
    if ltb n 10 then digit_text n else front <> digit_text (n % 10)

-- `{}` of an unsigned integer. The 20 digits are those of a `u64`.
unfoldable pub decimal : ℕ → String
unfolding decimal_from
decimal n = decimal_from 20 n

-- The value of the digits, with `n` read so far; `none` when it passes `max` or at another character.
digits_from : ℕ → ℕ → String → Option ℕ
digits_from max n String.[] = some n
digits_from max n (String.◌∷◌ c s) =
    let next = n * 10 + (code c - 48) in
    let rest = digits_from max next s in
    if leb 48 (code c) && leb (code c) 57 && leb next max then rest else none

-- Digits, of which there must be one.
number : ℕ → String → Option ℕ
unfolding digits_from
number max String.[] = none
number max (String.◌∷◌ c s) = digits_from max 0 (String.◌∷◌ c s)

-- `str::parse` of an unsigned type with the largest value `max`: a plus sign may stand in front.
unfoldable pub parse_unsigned : ℕ → String → Option ℕ
unfolding number
parse_unsigned max String.[] = none
parse_unsigned max (String.◌∷◌ c s) =
    if code c == b'+' then number max s else number max (String.◌∷◌ c s)

negate : Option ℕ → Option ℤ
negate none = none
negate (some zero) = some (pos 0)
negate (some (suc n)) = some (negsuc n)

-- `str::parse::<i32>`
unfoldable pub parse_i32 : String → Option ℤ
unfolding number negate
parse_i32 String.[] = none
parse_i32 (String.◌∷◌ c s) =
    if code c == b'-'
    then negate (number 2147483648 s)
    else if code c == b'+'
    then Option.map pos (number 2147483647 s)
    else Option.map pos (number 2147483647 (String.◌∷◌ c s))

-- `str::contains` of a text
unfoldable pub contains : String → String → Bool
contains part String.[] = str_eq part ""
contains part (String.◌∷◌ c s) = starts_with (String.◌∷◌ c s) part || contains part s

parse_i32_tests :
    (parse_i32 "-12" ≡ some (negsuc 11))
    × (parse_i32 "2147483648" ≡ none)
    × (parse_unsigned 255 "+7" ≡ some 7)
unfolding parse_i32 parse_unsigned
parse_i32_tests = (refl, refl, refl)

utf8_test :
    (from_utf8 (as_bytes "aé€😀 ") ≡ some "aé€😀 ")
    × (from_utf8 (0xc0 ∷ 0x80 ∷ []) ≡ none)
    × (trim " a b\n" ≡ "a b")
    × (decimal 1207 ≡ "1207")
unfolding from_utf8 as_bytes trim decimal
utf8_test = (refl, refl, refl, refl)

-- The text behind a prefix.
unfoldable pub strip_prefix : String → String → Option String
strip_prefix String.[] s = some s
strip_prefix (String.◌∷◌ p ps) String.[] = none
strip_prefix (String.◌∷◌ p ps) (String.◌∷◌ c s) =
    if code p == code c then strip_prefix ps s else none

-- `env::var`: the value of the first entry `key=value` of the environment block.
unfoldable pub env_lookup : String → List String → Option String
unfolding strip_prefix
env_lookup key [] = none
env_lookup key (entry ∷ entries) =
    let rest = env_lookup key entries in
    elim (strip_prefix (key <> "=") entry) [ none ↦ rest | some value ↦ some value ]

-- Puts a character in front of the first piece.
abbrev pub prepend : String → List String → List String
prepend c [] = c ∷ []
prepend c (piece ∷ pieces) = (c <> piece) ∷ pieces

-- `str::lines`, where a carriage return is left at the end of its line: the callers trim it.
unfoldable pub lines : String → List String
lines String.[] = []
lines (String.◌∷◌ c s) =
    let rest = lines s in if code c == 10 then "" ∷ rest else prepend (String.◌∷◌ c String.[]) rest
