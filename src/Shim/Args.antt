-- ===== src/Shim/Args.antt =====
-- The arguments of the git shim in rust/src/main.rs.
use Prim.Native.String
use pipek.Prelude.{
  String, Bool, true, false, ◌&&◌, ◌||◌, not, Option, none, some, List, str_eq, starts_with, ltb,
  if◌then◌else◌,
}
use pipek.Prelude.Int.{ℤ}
use pipek.Prelude.Text.{parse_i32, contains, strip_prefix}
use pipek.Keys.{unwrap_or}
use pipek.Options.{Meaning, skip, switch, takes, takes_two, scan}

pub record ShimArgs : Type 0 where
  pub status_fd : Option ℤ
  pub key_id : Option String
  pub is_verify : Bool
  pub verify_sig_path : Option String
  pub verify_data_path : Option String

abbrev pub no_shim_args : ShimArgs
no_shim_args = record {
  status_fd = none;
  key_id = none;
  is_verify = false;
  verify_sig_path = none;
  verify_data_path = none;
}

abbrev some_or : Option String → Option String → Option String
some_or none old = old
some_or (some s) old = some s

abbrev set_status : String → ShimArgs → ShimArgs
set_status num s = record s { status_fd = parse_i32 num }

abbrev set_key : String → ShimArgs → ShimArgs
set_key id s = record s { key_id = some id }

-- `--verify` takes the next two arguments, if they are there.
abbrev set_verify : Option String → Option String → ShimArgs → ShimArgs
set_verify sig file s = record s {
  is_verify = true;
  verify_sig_path = some_or sig s.verify_sig_path;
  verify_data_path = some_or file s.verify_data_path;
}

unfoldable pub shim_meaning : String → Meaning ShimArgs
shim_meaning arg =
    if starts_with arg "--status-fd="
    then switch (set_status (unwrap_or "" (strip_prefix "--status-fd=" arg)))
    else if str_eq arg "--status-fd"
    then takes set_status
    else if str_eq arg "--verify" || str_eq arg "-v"
    then takes_two set_verify
    else if str_eq arg "-u"
    then takes set_key
    else if starts_with arg "-u" && ltb 2 (String.len arg)
    then switch (set_key (unwrap_or "" (strip_prefix "-u" arg)))
    else if contains "u" arg && (starts_with arg "-" && not (starts_with arg "--"))
    then takes set_key
    else skip

unfoldable pub shim_args : List String → ShimArgs
shim_args args = scan shim_meaning args no_shim_args
