-- ===== src/Signers/Paths.antt =====
-- The candidate files of `resolve_allowed_signers` in rust/src/main.rs: from the configuration of git,
-- from the repository and from the home directory.
use Prim.Native.Char.{code}
use pipek.Prelude.{
  ℕ, ◌+◌, String, ◌<>◌, Bool, true, ◌&&◌, not, Option, none, some, List, [], ◌∷◌, ◌++◌, Result, ok,
  err, stuck, str_eq, starts_with, bytes_eq, leb, if◌then◌else◌, ◌==◌,
}
use pipek.Prelude.Text.{trim, lines, strip_prefix, env_lookup}
use pipek.Error.{IoError}
use pipek.World.{World}
use pipek.World.Files.{fs_read_to_string, is_file, join}
use pipek.Crypto.{Crypto}
use pipek.Keys.{or_else, unwrap_or}
use pipek.Signers.{Signers, read_files}

abbrev or_else_bool : Option Bool → Option Bool → Option Bool
or_else_bool none other = other
or_else_bool (some b) other = some b

abbrev nonempty : String → Option String
nonempty s = if str_eq s "" then none else some s

abbrev config_text : Option (Bool × String) → Option String
config_text none = none
config_text (some (success, out)) = if success then nonempty (trim out) else none

unfoldable pub get_config : String → World → Option String
get_config key w = config_text (w.git ("config" ∷ "--get" ∷ key ∷ []))

-- `to_lowercase`, for the comparison with "false": only ASCII letters become one of its letters.
lower_codes : String → List ℕ
lower_codes String.[] = []
lower_codes (String.◌∷◌ c s) =
    (if leb b'A' (code c) && leb (code c) b'Z' then code c + 32 else code c) ∷ lower_codes s

unfoldable pub is_false : String → Bool
unfolding lower_codes
is_false s = bytes_eq (lower_codes s) (b'f' ∷ b'a' ∷ b'l' ∷ b's' ∷ b'e' ∷ [])

abbrev config_bool : Option (Bool × String) → Option Bool
config_bool none = none
config_bool (some (success, out)) = if success then some (not (is_false (trim out))) else none

unfoldable pub get_bool : String → World → Option Bool
get_bool key w = config_bool (w.git ("config" ∷ "--bool" ∷ "--get" ∷ key ∷ []))

unfoldable pub allow_in_tree : World → Bool
allow_in_tree w = unwrap_or true (
    or_else_bool (get_bool "pipe-k1.allowInTreeSigners" w) (get_bool "pipek1.allowInTreeSigners" w))

abbrev pub both_names : String → List String
both_names dir = join dir "pipe-k1_signers" ∷ join dir "pipek1_signers" ∷ []

-- The path of a directory, and of those above it, as `PathBuf::pop` gives them one after the other.
-- The current directory is an absolute path without a slash at its end.
unfoldable pub parents_from : String → String → List String → List String
parents_from seen String.[] above = if str_eq seen "/" then above else seen ∷ above
parents_from seen (String.◌∷◌ c s) above =
    parents_from (seen <> String.◌∷◌ c String.[]) s
      (if not (code c == b'/') then above else if str_eq seen "" then "/" ∷ above else seen ∷ above)

abbrev pub parents : String → List String
parents path = parents_from "" path []

-- `if !path.is_absolute() { path = base.join(path) }`
unfoldable pub absolute_from : String → String → String
absolute_from base path = if starts_with path "/" then path else join base path

abbrev common_paths : String → Result IoError String → World → List String
common_paths gitdir (ok text) w =
    let common = absolute_from gitdir (trim text) in
    both_names (unwrap_or common (w.canonicalize common))
common_paths gitdir (err e) w = []
common_paths gitdir stuck w = []

abbrev gitdir_paths : String → Option String → World → List String
gitdir_paths curr none w = []
gitdir_paths curr (some rest) w =
    let gitdir = absolute_from curr (trim rest) in
    both_names gitdir ++ common_paths gitdir (fs_read_to_string (join gitdir "commondir") w).0 w

-- `for line in content.lines()`
unfoldable pub worktree_paths : String → List String → World → List String
worktree_paths curr [] w = []
worktree_paths curr (line ∷ rest) w =
    gitdir_paths curr (strip_prefix "gitdir:" line) w ++ worktree_paths curr rest w

abbrev dot_git_file : String → Result IoError String → World → List String
dot_git_file curr (ok content) w = worktree_paths curr (lines content) w
dot_git_file curr (err e) w = []
dot_git_file curr stuck w = []

-- The loop up to the directory with a `.git`.
unfoldable pub ascend : List String → World → List String
ascend [] w = []
ascend (curr ∷ above) w =
    let dot_git = join curr ".git" in
    let up = ascend above w in
    if w.is_dir dot_git
    then both_names dot_git
    else if is_file dot_git w
    then dot_git_file curr (fs_read_to_string dot_git w).0 w
    else up

abbrev git_dir_paths : Option String → List String
git_dir_paths none = []
git_dir_paths (some dir) = both_names dir

abbrev ascend_from : Option String → World → List String
ascend_from none w = []
ascend_from (some dir) w = ascend (parents dir) w

unfoldable pub in_tree_paths : World → List String
in_tree_paths w = git_dir_paths (env_lookup "GIT_DIR" w.environ) ++ ascend_from w.current_dir w

abbrev config_paths_of : Option String → List String
config_paths_of none = []
config_paths_of (some path) = path ∷ []

unfoldable pub config_paths : World → List String
config_paths w =
    config_paths_of (
      or_else (get_config "pipe-k1.allowedSignersFile" w)
        (get_config "pipek1.allowedSignersFile" w))

abbrev home_paths_of : Option String → List String
home_paths_of none = []
home_paths_of (some home) =
    join home ".config/pipe-k1/allowed_signers" ∷ join home ".config/pipek1/allowed_signers" ∷ []

unfoldable pub home_paths : World → List String
home_paths w = home_paths_of (env_lookup "HOME" w.environ)

unfoldable pub candidate_paths : World → List String
candidate_paths w =
    config_paths w ++ ((if allow_in_tree w then in_tree_paths w else []) ++ home_paths w)

-- Reading changes nothing of the world.
unfoldable pub resolve_allowed_signers : Crypto → World → Signers
resolve_allowed_signers C w = read_files C (candidate_paths w) w []
