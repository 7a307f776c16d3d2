-- ===== src/Main/GitLines.antt =====
-- The command lines by which git signs a commit and verifies it.
use pipek.Prelude.{ℕ, ◌≡◌, refl, true, false, none, some, String, [], ◌∷◌, List, arith}
use pipek.Prelude.Int.{pos}
use pipek.Prelude.Text.{contains, strip_prefix, parse_i32}
use pipek.World.{World}
use pipek.Crypto.{Crypto}
use pipek.Options.{scan}
use pipek.Shim.Args.{ShimArgs, shim_meaning, shim_args}
use pipek.Shim.{shim_sign, shim_verify, run_git_shim}
use pipek.Main.{base_name, is_git_invocation, exit_of, real_main}

abbrev pub git_sign_line : String → String → List String
git_sign_line exe kid = exe ∷ "--status-fd=2" ∷ "-bsau" ∷ kid ∷ []

abbrev pub git_verify_line : String → String → List String
git_verify_line exe path =
    exe ∷ "--keyid-format=long" ∷ "--status-fd=1" ∷ "--verify" ∷ path ∷ "-" ∷ []

abbrev pub signing : String → ShimArgs
signing kid = record {
  status_fd = some (pos 2);
  key_id = some kid;
  is_verify = false;
  verify_sig_path = none;
  verify_data_path = none;
}

abbrev pub verifying : String → ShimArgs
verifying path = record {
  status_fd = some (pos 1);
  key_id = none;
  is_verify = true;
  verify_sig_path = some path;
  verify_data_path = some "-";
}

parse_sign : (kid : String) → shim_args ("--status-fd=2" ∷ "-bsau" ∷ kid ∷ []) ≡ signing kid
unfolding shim_args scan shim_meaning contains strip_prefix parse_i32
parse_sign kid = refl

parse_verify :
    (path : String)
    → shim_args ("--keyid-format=long" ∷ "--status-fd=1" ∷ "--verify" ∷ path ∷ "-" ∷ [])
      ≡ verifying path
unfolding shim_args scan shim_meaning contains strip_prefix parse_i32
parse_verify path = refl

is_git-sign : (exe : String) → is_git_invocation exe "--status-fd=2" ≡ true
unfolding is_git_invocation
is_git-sign exe = ground arith

is_git-verify : (exe : String) → is_git_invocation exe "--keyid-format=long" ≡ true
unfolding is_git_invocation
is_git-verify exe = ground arith

module _ (C : Crypto) (fuel : ℕ) where
  pub git_sign_line-shim :
      (exe kid : String) (w : World)
      → real_main C fuel (git_sign_line exe kid) w ≡ exit_of (shim_sign C (signing kid) w)
  unfolding real_main run_git_shim
  git_sign_line-shim exe kid w = rw (is_git-sign (base_name exe), parse_sign kid)

  pub git_verify_line-shim :
      (exe path : String) (w : World)
      → real_main C fuel (git_verify_line exe path) w ≡ exit_of (shim_verify C (verifying path) w)
  unfolding real_main run_git_shim
  git_verify_line-shim exe path w = rw (is_git-verify (base_name exe), parse_verify path)
