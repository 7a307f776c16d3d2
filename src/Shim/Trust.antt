-- ===== src/Shim/Trust.antt =====
-- Which identity the shim finds for a signer: the database of allowed signers against all lines of
-- all candidate files.
use pipek.Prelude.{
  ◌≡◌, refl, ap, sym, ◌∙◌, true, Bool-cases, inl, inr, Option, none, some, String, List, [], ◌∷◌,
  ◌++◌, Result, ok, err, stuck, arith, bytes_eq, bytes_eq→eq, if◌then◌else◌,
}
use pipek.Prelude.Bytes.{Bytes}
use pipek.Prelude.Text.{lines}
use pipek.Error.{IoError}
use pipek.World.{World}
use pipek.World.Files.{fs_read_to_string, is_file}
use pipek.Crypto.{Crypto}
use pipek.Signers.{Signers, has_key, add_signer, signer_of, read_lines, read_content, read_files}
use pipek.Signers.Paths.{candidate_paths, resolve_allowed_signers}
use pipek.Shim.{find_identity}

-- The first answer.
abbrev first : Option String → Option String → Option String
first (some i) later = some i
first none later = later

first_assoc : (a b c : Option String) → first (first a b) c ≡ first a (first b c)
first_assoc (some i) b c = refl
first_assoc none b c = refl

first-none : (a : Option String) → first a none ≡ a
first-none (some i) = refl
first-none none = refl

find_identity-append :
    (key : Bytes) (a b : Signers)
    → find_identity key (a ++ b) ≡ first (find_identity key a) (find_identity key b)
unfolding find_identity
find_identity-append key [] b = refl
find_identity-append key ((i, k) ∷ a) b = ground (arith, find_identity-append key a b)

has_key-find :
    (key : Bytes) (a : Signers)
    → has_key key a ≡ true
    → (i : String) × (find_identity key a ≡ some i)
unfolding find_identity
has_key-find key [] h = cc
has_key-find key ((i, k) ∷ a) h = elim (Bool-cases (bytes_eq k key)) [
  | inl e ↦ (i, rw e)
  | inr e ↦ let (j, f) = has_key-find key a (rw e at h) in (j, rw e f)
]

abbrev of_entry : Option (String × Bytes) → Signers
of_entry none = []
of_entry (some e) = e ∷ []

-- Adding an entry answers as appending it does, whether or not its key is there.
find_identity-add_signer :
    (key : Bytes) (o : Option (String × Bytes)) (a : Signers)
    → find_identity key (add_signer o a)
      ≡ first (find_identity key a) (find_identity key (of_entry o))
unfolding find_identity
find_identity-add_signer key none a = sym (first-none (find_identity key a))
find_identity-add_signer key (some (i, k)) a = elim (Bool-cases (has_key k a)) [
  | inr new ↦ rw new (find_identity-append key a ((i, k) ∷ []))
  | inl old ↦ rw old (elim (Bool-cases (bytes_eq k key)) [
    | inr other ↦ rw other (sym (first-none (find_identity key a)))
    | inl same ↦
        let (j, found) = has_key-find k a old in
        let found' : find_identity key a ≡ some j =
          ap (λ t. find_identity t a) (sym (bytes_eq→eq k key same)) ∙ found in
        rw found'
  ])
]

module _ (C : Crypto) where
  -- All entries of the lines, one after the other, those of a repeated key too.
  unfoldable pub line_entries : List String → Signers
  line_entries [] = []
  line_entries (line ∷ lines) = of_entry (signer_of C line) ++ line_entries lines

  abbrev pub content_entries : Result IoError String → Signers
  content_entries (ok content) = line_entries (lines content)
  content_entries (err e) = []
  content_entries stuck = []

  unfoldable pub file_entries : List String → World → Signers
  file_entries [] w = []
  file_entries (path ∷ paths) w =
      (if is_file path w then content_entries (fs_read_to_string path w).0 else [])
      ++ file_entries paths w

  read_lines-entries :
      (key : Bytes) (ls : List String) (a : Signers)
      → find_identity key (read_lines C ls a)
        ≡ first (find_identity key a) (find_identity key (line_entries ls))
  unfolding read_lines line_entries
  read_lines-entries key [] a = unfold find_identity in sym (first-none (find_identity key a))
  read_lines-entries key (line ∷ ls) a =
      let o : Option (String × Bytes) = signer_of C line in
      read_lines-entries key ls (add_signer o a)
      ∙ ap (λ t. first t (find_identity key (line_entries ls))) (find_identity-add_signer key o a)
      ∙ first_assoc (find_identity key a) (find_identity key (of_entry o))
          (find_identity key (line_entries ls))
      ∙ ap (first (find_identity key a))
          (sym (find_identity-append key (of_entry o) (line_entries ls)))

  read_content-entries :
      (key : Bytes) (r : Result IoError String) (a : Signers)
      → find_identity key (read_content C r a)
        ≡ first (find_identity key a) (find_identity key (content_entries r))
  read_content-entries key (ok content) a = read_lines-entries key (lines content) a
  read_content-entries key (err e) a =
      unfold find_identity in sym (first-none (find_identity key a))
  read_content-entries key stuck a = unfold find_identity in sym (first-none (find_identity key a))

  read_files-entries :
      (key : Bytes) (paths : List String) (w : World) (a : Signers)
      → find_identity key (read_files C paths w a)
        ≡ first (find_identity key a) (find_identity key (file_entries paths w))
  unfolding read_files file_entries
  read_files-entries key [] w a = unfold find_identity in sym (first-none (find_identity key a))
  read_files-entries key (path ∷ paths) w a =
      let r : Result IoError String = (fs_read_to_string path w).0 in
      let rest : Signers = file_entries paths w in
      elim (Bool-cases (is_file path w)) [
        | inl there ↦ rw there (
            read_files-entries key paths w (read_content C r a)
            ∙ ap (λ t. first t (find_identity key rest)) (read_content-entries key r a)
            ∙ first_assoc (find_identity key a) (find_identity key (content_entries r))
                (find_identity key rest)
            ∙ ap (first (find_identity key a))
                (sym (find_identity-append key (content_entries r) rest)))
        | inr gone ↦ rw gone (read_files-entries key paths w a)
      ]

  -- The database answers as the list of all entries of the candidate files would, in the order of the
  -- files and of their lines: for every key with the identity of the first line that gives it, and with
  -- none if no line does.
  pub find_identity-refines :
      (key : Bytes) (w : World)
      → find_identity key (resolve_allowed_signers C w)
        ≡ find_identity key (file_entries (candidate_paths w) w)
  unfolding resolve_allowed_signers
  find_identity-refines key w =
      read_files-entries key (candidate_paths w) w [] ∙ unfold find_identity in refl
