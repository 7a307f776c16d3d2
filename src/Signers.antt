-- ===== src/Signers.antt =====
-- The database of allowed signers of rust/src/main.rs: the loop of `resolve_allowed_signers` over its
-- candidate files. Which files these are is an argument.
pub mod Database
pub mod Paths
use Prim.Native.Char.{code}
use Prim.Native.String
use pipek.Prelude.{
  ℕ, String, ◌<>◌, Bool, true, false, ◌||◌, not, Option, none, some, List, [], ◌∷◌, ◌++◌, Result,
  ok, err, stuck, str_eq, starts_with, bytes_eq, if◌then◌else◌, ◌==◌,
}
use pipek.Prelude.Bytes.{Bytes}
use pipek.Prelude.Text.{trim, is_whitespace, prepend, lines}
use pipek.Error.{IoError}
use pipek.World.{World}
use pipek.World.Files.{fs_read_to_string, is_file}
use pipek.Crypto.{Crypto}
use pipek.Keys.{parse_key_bytes}
use pipek.Decrypt.{encode_npub}

-- Identities and keys, in the order in which they were found.
abbrev pub Signers : Type 0
Signers = List (String × Bytes)

-- What lies between whitespace, empty pieces too.
unfoldable pub pieces : String → List String
unfolding is_whitespace
pieces String.[] = "" ∷ []
pieces (String.◌∷◌ c s) =
    let rest = pieces s in
    if is_whitespace (code c) then "" ∷ rest else prepend (String.◌∷◌ c String.[]) rest

unfoldable pub without_empty : List String → List String
without_empty [] = []
without_empty (piece ∷ pieces) =
    let rest = without_empty pieces in if str_eq piece "" then rest else piece ∷ rest

-- `str::split_whitespace`
unfoldable pub split_whitespace : String → List String
unfolding pieces without_empty
split_whitespace s = without_empty (pieces s)

-- The last of the tokens, and those before it.
unfoldable pub split_last : String → List String → List String × String
split_last token [] = ([], token)
split_last token (next ∷ tokens) =
    let (front, last) = split_last next tokens in (token ∷ front, last)

-- `[String]::join(" ")`
unfoldable pub join_words : List String → String
join_words [] = ""
join_words (word ∷ []) = word
join_words (word ∷ next ∷ words) = word <> (" " <> join_words (next ∷ words))

-- `signers.iter().any(|(_, k)| *k == key)`
abbrev pub has_key : Bytes → Signers → Bool
has_key key [] = false
has_key key ((identity, k) ∷ signers) = bytes_eq k key || has_key key signers

-- The first entry of a key stays.
abbrev pub add_signer : Option (String × Bytes) → Signers → Signers
add_signer none signers = signers
add_signer (some (identity, key)) signers =
    if not (has_key key signers) then signers ++ ((identity, key) ∷ []) else signers

module _ (C : Crypto) where
  -- The name in front of the key, or the key itself as an npub.
  unfoldable pub identity_of : List String → Bytes → String
  unfolding encode_npub join_words
  identity_of [] key = encode_npub C key
  identity_of (word ∷ words) key = join_words (word ∷ words)

  -- An entry, if the last token is a key.
  abbrev entry : List String → Result String Bytes → Option (String × Bytes)
  entry front (ok key) = some (identity_of front key, key)
  entry front (err e) = none
  entry front stuck = none

  unfoldable pub signer_of_tokens : List String → Option (String × Bytes)
  unfolding identity_of split_last
  signer_of_tokens [] = none
  signer_of_tokens (token ∷ tokens) =
      let (front, key_token) = split_last token tokens in entry front (parse_key_bytes C key_token)

  -- Empty lines and comments are passed over.
  unfoldable pub signer_of : String → Option (String × Bytes)
  unfolding signer_of_tokens split_whitespace
  signer_of line =
      let trimmed = trim line in
      if str_eq trimmed "" || starts_with trimmed "#"
      then none
      else signer_of_tokens (split_whitespace trimmed)

  unfoldable pub read_lines : List String → Signers → Signers
  unfolding signer_of
  read_lines [] signers = signers
  read_lines (line ∷ lines) signers = read_lines lines (add_signer (signer_of line) signers)

  abbrev pub read_content : Result IoError String → Signers → Signers
  read_content (ok content) signers = read_lines (lines content) signers
  read_content (err e) signers = signers
  read_content stuck signers = signers

  unfoldable pub read_files : List String → World → Signers → Signers
  unfolding read_lines lines
  read_files [] w signers = signers
  read_files (path ∷ paths) w signers =
      let found = read_content (fs_read_to_string path w).0 signers in
      read_files paths w (if is_file path w then found else signers)
