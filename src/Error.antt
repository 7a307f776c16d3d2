-- ===== src/Error.antt =====
-- rust/src/error.rs: the error type and its exit codes. `IoError` is `std::io::Error`: its kind and
-- the text that it displays.
use pipek.Prelude.{ℕ, String, ◌<>◌, Option, none, some}

-- The kinds that the program tests or makes; `other` is any other one.
pub data IoKind : Type 0 where
  interrupted unexpected_eof invalid_data other : IoKind

pub record IoError : Type 0 where
  pub kind : IoKind
  pub message : String

pub data Pipek1Error : Type 0 where
  wire_corruption : String → Pipek1Error
  auth_failure : String → Pipek1Error
  usage_error : String → Pipek1Error
  io : IoError → Pipek1Error

-- `fmt`
unfoldable pub display : Pipek1Error → String
display (wire_corruption msg) = "Wire corruption: " <> msg
display (auth_failure msg) = "Authentication failure: " <> msg
display (usage_error msg) = "Usage error: " <> msg
display (io e) = "I/O error: " <> e.message

-- `source`
unfoldable pub source : Pipek1Error → Option IoError
source (io e) = some e
source _ = none

unfoldable pub exit_code : Pipek1Error → ℕ
exit_code (usage_error msg) = 2
exit_code (wire_corruption msg) = 1
exit_code (auth_failure msg) = 1
exit_code (io e) = 1
