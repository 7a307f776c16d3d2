-- ===== src/Tests/Team.antt =====
-- A file of allowed signers, and examples of the theorems about the database.
use pipek.Prelude.{◌≡◌, refl, String, true, [], ◌∷◌, ok}
use pipek.Prelude.Text.{as_bytes, from_utf8, trim, is_whitespace, lines}
use pipek.World.{World}
use pipek.World.Files.{find_file, fs_read, fs_read_to_string, is_file}
use pipek.Crypto.Toy.{toy, nibble, join, hex_pairs, or_invalid}
use pipek.Keys.{parse_key_bytes}
use pipek.Signers.{
  Signers, has_key, read_files, pieces, without_empty, split_whitespace, split_last, join_words,
  identity_of, signer_of_tokens, signer_of, read_lines,
}
use pipek.Signers.Database.{Grows, read_files-Grows, read_files-has_key}
use pipek.Tests.{process, recipient_key, sender_secret}

abbrev team_text : String
team_text = "# the team\nAda L. 0000000000000000000000000000000000000000000000000000000000000005\n"

abbrev ada_line : String
ada_line = "Ada L. 0000000000000000000000000000000000000000000000000000000000000005"

abbrev pub team : World
team = record (process [] []) { files = ("/etc/signers", ok (as_bytes team_text)) ∷ [] }

-- Ada's key is known already under another name, which stays.
abbrev known : Signers
known = ("Lovelace", recipient_key) ∷ []

first_name_stays : read_files toy ("/etc/signers" ∷ []) team known ≡ known
unfolding read_files read_lines lines pieces without_empty split_whitespace split_last join_words
    identity_of signer_of_tokens signer_of find_file fs_read fs_read_to_string is_file as_bytes
    from_utf8 trim is_whitespace parse_key_bytes nibble join hex_pairs or_invalid
first_name_stays = refl

read_files-Grows_example : Grows known (read_files toy ("/etc/signers" ∷ "/none" ∷ []) team known)
read_files-Grows_example = read_files-Grows toy ("/etc/signers" ∷ "/none" ∷ []) team known

read_files-has_key_example :
    has_key recipient_key
      (read_files toy ("/none" ∷ "/etc/signers" ∷ []) team (("Grace", sender_secret) ∷ []))
    ≡ true
unfolding lines pieces without_empty split_whitespace split_last join_words identity_of
    signer_of_tokens signer_of find_file fs_read fs_read_to_string is_file as_bytes from_utf8 trim
    is_whitespace parse_key_bytes nibble join hex_pairs or_invalid
read_files-has_key_example =
    read_files-has_key toy ("/none" ∷ []) [] "/etc/signers" team_text ("# the team" ∷ []) []
      ada_line "Ada L." recipient_key team (("Grace", sender_secret) ∷ []) refl refl refl refl
