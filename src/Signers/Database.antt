-- ===== src/Signers/Database.antt =====
-- What the database of signers keeps.
use pipek.Prelude.{
  ◌≡◌, refl, ◌∙◌, ap, sym, String, true, false, Bool-cases, inl, inr, Option, none, some, List, [],
  ◌∷◌, ◌++◌, Result, ok, err, stuck, append-nil, append_assoc, bytes_eq, bytes_eq_refl, arith,
  if◌then◌else◌,
}
use pipek.Prelude.Bytes.{Bytes}
use pipek.Prelude.Text.{lines}
use pipek.Error.{IoError}
use pipek.World.{World}
use pipek.World.Files.{fs_read_to_string, is_file}
use pipek.Crypto.{Crypto}
use pipek.Signers.{Signers, has_key, add_signer, signer_of, read_lines, read_content, read_files}

-- No key stands in the list twice.
abbrev pub IsDistinct : Signers → Type 0
IsDistinct [] = Unit
IsDistinct ((identity, key) ∷ signers) = (has_key key signers ≡ false) × IsDistinct signers

-- The list has grown at its end.
abbrev pub Extends : Signers → Signers → Type 0
Extends old signers = (more : Signers) × (signers ≡ old ++ more)

Extends-trans : (a b c : Signers) → Extends a b → Extends b c → Extends a c
Extends-trans a b c (m, e) (n, f) = (m ++ n, f ∙ ap (λ t. t ++ n) e ∙ append_assoc a m n)

Extends-refl : (a : Signers) → Extends a a
Extends-refl a = ([], sym (append-nil a))

has_key-append : (key : Bytes) (a b : Signers) → has_key key a ≡ true → has_key key (a ++ b) ≡ true
has_key-append key [] b h = cc h
has_key-append key ((i, k) ∷ a) b h = elim (Bool-cases (bytes_eq k key)) [
  | inl same ↦ rw same refl
  | inr other ↦ rw other (has_key-append key a b (rw other at h))
]

bytes_eq_comm : (a b : Bytes) → bytes_eq a b ≡ bytes_eq b a
bytes_eq_comm [] [] = refl
bytes_eq_comm [] (y ∷ b) = refl
bytes_eq_comm (x ∷ a) [] = refl
bytes_eq_comm (x ∷ a) (y ∷ b) = ground (arith, bytes_eq_comm a b)

has_key_end :
    (key : Bytes) (a : Signers) (name : String) → has_key key (a ++ ((name, key) ∷ [])) ≡ true
has_key_end key [] name = rw (bytes_eq_refl key) refl
has_key_end key ((i, k) ∷ a) name = ground (arith, has_key_end key a name)

has_key_absent :
    (k key : Bytes) (a : Signers) (name : String)
    → has_key k a ≡ false
    → bytes_eq key k ≡ false
    → has_key k (a ++ ((name, key) ∷ [])) ≡ false
has_key_absent k key [] name h other = rw other refl
has_key_absent k key ((i, j) ∷ a) name h other = ground (arith, has_key_absent k key a name)

IsDistinct-end :
    (key : Bytes) (a : Signers) (name : String)
    → IsDistinct a
    → has_key key a ≡ false
    → IsDistinct (a ++ ((name, key) ∷ []))
IsDistinct-end key [] name d h = (refl, tt)
IsDistinct-end key ((i, k) ∷ a) name (new, d) h = elim (Bool-cases (bytes_eq k key)) [
  | inl same ↦ absurd (cc (rw same at h))
  | inr other ↦ (
    has_key_absent k key a name new (bytes_eq_comm key k ∙ other),
    IsDistinct-end key a name d (rw other at h),
  )
]

add_signer-IsDistinct :
    (o : Option (String × Bytes)) (a : Signers) → IsDistinct a → IsDistinct (add_signer o a)
add_signer-IsDistinct none a d = d
add_signer-IsDistinct (some (name, key)) a d = elim (Bool-cases (has_key key a)) [
  | inl old ↦ rw old d
  | inr new ↦ rw new (IsDistinct-end key a name d new)
]

add_signer-Extends : (o : Option (String × Bytes)) (a : Signers) → Extends a (add_signer o a)
add_signer-Extends none a = Extends-refl a
add_signer-Extends (some (name, key)) a = elim (Bool-cases (has_key key a)) [
  | inl old ↦ rw old (Extends-refl a)
  | inr new ↦ rw new ((name, key) ∷ [], refl)
]

add_signer-has_key :
    (name : String) (key : Bytes) (a : Signers)
    → has_key key (add_signer (some (name, key)) a) ≡ true
add_signer-has_key name key a = elim (Bool-cases (has_key key a)) [
  | inl old ↦ rw (old, old) refl
  | inr new ↦ rw new (has_key_end key a name)
]

has_key-Extends :
    (key : Bytes) (a b : Signers) → Extends a b → has_key key a ≡ true → has_key key b ≡ true
has_key-Extends key a b (more, e) h = rw e (has_key-append key a more h)

-- What one more step of reading keeps.
abbrev pub Grows : Signers → Signers → Type 0
Grows old signers = Extends old signers × (IsDistinct old → IsDistinct signers)

Grows-trans : (a b c : Signers) → Grows a b → Grows b c → Grows a c
Grows-trans a b c (m, d) (n, e) = (Extends-trans a b c m n, λ x. e (d x))

module _ (C : Crypto) where
  read_lines-Grows : (ls : List String) (a : Signers) → Grows a (read_lines C ls a)
  unfolding read_lines
  read_lines-Grows [] a = (Extends-refl a, λ d. d)
  read_lines-Grows (l ∷ ls) a =
      Grows-trans a (add_signer (signer_of C l) a) _
        (add_signer-Extends (signer_of C l) a, add_signer-IsDistinct (signer_of C l) a)
        (read_lines-Grows ls (add_signer (signer_of C l) a))

  read_content-Grows : (r : Result IoError String) (a : Signers) → Grows a (read_content C r a)
  read_content-Grows (ok content) a = read_lines-Grows (lines content) a
  read_content-Grows (err e) a = (Extends-refl a, λ d. d)
  read_content-Grows stuck a = (Extends-refl a, λ d. d)

  -- Reading files keeps the entries that were there, in front and in their order, so that the first
  -- identity of a key stays, and if no key stood twice in the list, none does afterwards.
  pub read_files-Grows :
      (paths : List String) (w : World) (a : Signers) → Grows a (read_files C paths w a)
  unfolding read_files
  read_files-Grows [] w a = (Extends-refl a, λ d. d)
  read_files-Grows (path ∷ paths) w a = elim (Bool-cases (is_file path w)) [
    | inl there ↦ rw there (
        Grows-trans a (read_content C (fs_read_to_string path w).0 a) _
          (read_content-Grows (fs_read_to_string path w).0 a) (read_files-Grows paths w _))
    | inr missing ↦ rw missing (read_files-Grows paths w a)
  ]

  read_lines-has_key :
      (front back : List String) (line name : String) (key : Bytes) (a : Signers)
      → signer_of C line ≡ some (name, key)
      → has_key key (read_lines C (front ++ (line ∷ back)) a) ≡ true
  unfolding read_lines
  read_lines-has_key [] back line name key a h =
      has_key-Extends key (add_signer (signer_of C line) a) _
        (read_lines-Grows back (add_signer (signer_of C line) a)).0
        (rw h (add_signer-has_key name key a))
  read_lines-has_key (l ∷ front) back line name key a h =
      read_lines-has_key front back line name key (add_signer (signer_of C l) a) h

  read_files-first :
      (path : String) (paths : List String) (content : String) (w : World) (a : Signers)
      → is_file path w ≡ true
      → (fs_read_to_string path w).0 ≡ ok content
      → read_files C (path ∷ paths) w a ≡ read_files C paths w (read_lines C (lines content) a)
  unfolding read_files
  read_files-first path paths content w a there read = rw (there, read) refl

  -- Every key that a line of a readable candidate file gives is in the database, wherever the line and
  -- the file stand.
  pub read_files-has_key :
      (before after : List String) (path content : String) (front back : List String)
      (line name : String) (key : Bytes) (w : World) (a : Signers)
      → is_file path w ≡ true
      → (fs_read_to_string path w).0 ≡ ok content
      → lines content ≡ front ++ (line ∷ back)
      → signer_of C line ≡ some (name, key)
      → has_key key (read_files C (before ++ (path ∷ after)) w a) ≡ true
  unfolding read_files
  read_files-has_key [] after path content front back line name key w a there read split h =
      rw (read_files-first path after content w a there read, split)
        (has_key-Extends key (read_lines C (front ++ (line ∷ back)) a) _
          (read_files-Grows after w (read_lines C (front ++ (line ∷ back)) a)).0
          (read_lines-has_key front back line name key a h))
  read_files-has_key (p ∷ before) after path content front back line name key w a there read split
        h =
      read_files-has_key before after path content front back line name key w
        (if is_file p w then read_content C (fs_read_to_string p w).0 a else a) there read split h
