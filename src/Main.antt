-- ===== src/Main.antt =====
-- `real_main` of rust/src/main.rs. `prctl`, which it calls first, has no part in the model.
pub mod RoundTrip
pub mod GitLines
pub mod Git
pub mod Malformed
pub mod GitSound
pub mod Pipeline
pub mod Refuse
use Prim.Native.Char.{code}
use Prim.Native.String
use pipek.Prelude.{
  ℕ, String, ◌<>◌, Bool, true, false, ◌||◌, Option, none, some, List, [], ◌∷◌, Result, ok, err,
  stuck, str_eq, starts_with, ◌==◌, if◌then◌else◌,
}
use pipek.Prelude.Text.{contains}
use pipek.Error.{Pipek1Error, display, exit_code}
use pipek.World.{World, Io, eprintln}
use pipek.Crypto.{Crypto}
use pipek.Shim.{run_git_shim}
use pipek.Cli.{print_usage, dispatch_command}

-- What stands behind the last slash.
unfoldable pub base_name_from : String → String → String
base_name_from seen String.[] = seen
base_name_from seen (String.◌∷◌ c s) =
    base_name_from (if code c == b'/' then "" else seen <> String.◌∷◌ c String.[]) s

abbrev pub base_name : String → String
base_name path = base_name_from "" path

unfoldable pub is_git_invocation : String → String → Bool
is_git_invocation exe_name first =
    contains "git-shim" exe_name
    || str_eq first "git-shim"
    || starts_with first "-b"
    || starts_with first "--status-fd"
    || starts_with first "--keyid-format"
    || str_eq first "--verify"
    || starts_with first "--extra-check-level"

-- The exit code, or none after a panic.
abbrev pub exit_of : Result Pipek1Error (Unit {0}) × World → Option ℕ × World
exit_of (ok u, w) = (some 0, w)
exit_of (err e, w) = (some (exit_code e), (eprintln {E = Pipek1Error} ("Error: " <> display e) w).1)
exit_of (stuck, w) = (none, w)

module _ (C : Crypto) (fuel : ℕ) where
  unfoldable pub run_args : String → String → List String → Io Pipek1Error (Unit {0})
  unfolding is_git_invocation base_name_from
  run_args exe first rest =
      if is_git_invocation (base_name exe) first
      then run_git_shim C (if str_eq first "git-shim" then rest else first ∷ rest)
      else dispatch_command C fuel first rest

  unfoldable pub real_main : List String → World → Option ℕ × World
  unfolding run_args print_usage
  real_main [] w = (some 2, (print_usage {E = Pipek1Error} w).1)
  real_main (exe ∷ []) w = (some 2, (print_usage {E = Pipek1Error} w).1)
  real_main (exe ∷ first ∷ rest) w = exit_of (run_args exe first rest w)
