-- ===== src/Armor.antt =====
-- The ASCII armor of detached signatures in rust/src/main.rs: what the git shim and the commands
-- `sign` and `verify` print and take off.
pub mod Markers
pub mod RoundTrip
use Prim.Native.String
use pipek.Prelude.{
  String, ◌<>◌, Bool, true, false, ◌&&◌, ◌||◌, not, Option, none, some, List, [], ◌∷◌, Result, ok,
  err, stuck, map_err, str_eq, if◌then◌else◌, ◌>>◌, length, ◌==◌,
}
use pipek.Prelude.Bytes.{Bytes}
use pipek.Prelude.Text.{from_utf8, trim, contains, lines}
use pipek.Error.{Pipek1Error, wire_corruption}
use pipek.World.{Io, println}
use pipek.Crypto.{Crypto}

unfoldable pub is_begin : String → Bool
is_begin s =
    contains "BEGIN PGP SIGNATURE" s
    || contains "BEGIN PIPE-K1 SIGNATURE" s
    || contains "BEGIN PIPEK1 SIGNATURE" s

unfoldable pub is_end : String → Bool
is_end s =
    contains "END PGP SIGNATURE" s
    || contains "END PIPE-K1 SIGNATURE" s
    || contains "END PIPEK1 SIGNATURE" s

-- `capture && !tr.is_empty() && !tr.contains(':')`
unfoldable pub is_body : Bool → String → Bool
is_body capture tr = capture && not (str_eq tr "") && not (contains ":" tr)

-- The loop over the lines.
unfoldable pub collect : List String → Bool → String → String
collect [] capture b64 = b64
collect (line ∷ rest) capture b64 =
    let tr = trim line in
    let begun = collect rest true b64 in
    let more = collect rest capture (if is_body capture tr then b64 <> tr else b64) in
    if is_begin tr then begun else if is_end tr then b64 else more

unfoldable pub is_armored : String → Bool
is_armored s = contains "SIGNATURE" s && is_begin s

module _ (C : Crypto) where
  open C use {base64_decode, base64_encode}

  abbrev pub decode_base64 : String → Result Pipek1Error Bytes
  decode_base64 b64 =
      map_err (λ e. wire_corruption ("Base64 decode error: " <> e)) (base64_decode b64)

  abbrev pub detach_text : Bytes → Option String → Result Pipek1Error Bytes
  detach_text raw none = ok raw
  detach_text raw (some s) =
      if is_armored s then decode_base64 (collect (lines s) false "") else ok raw

  unfoldable pub detach_armor : Bytes → Result Pipek1Error Bytes
  detach_armor raw = detach_text raw (from_utf8 raw)

  -- The four `println!` of an armored signature, with the name in the marker lines.
  unfoldable pub print_armored : {E : Type 0} → String → Bytes → Io E (Unit {0})
  print_armored name payload = do
    println ("-----BEGIN " <> (name <> " SIGNATURE-----"))
    println ""
    println (base64_encode payload)
    println ("-----END " <> (name <> " SIGNATURE-----"))
