-- ===== src/Wire.antt =====
-- The wire format and the key schedule of rust/src/main.rs: constants, tagged hashes, nonces,
-- associated data, header authentication and the shared secret.
pub mod Layout
pub mod Header
use pipek.Prelude.{
  ℕ, ◌+◌, ◌%◌, ◌^◌, String, ◌<>◌, Bool, Option, none, some, List, [], ◌∷◌, ◌++◌, Result, ok, err,
  stuck, map_err, and_then, length, take, drop, replicate, slice, if◌then◌else◌,
}
use pipek.Prelude.Bytes.{Bytes, be32, be64, copy_range}
use pipek.Prelude.Text.{as_bytes}
use pipek.Crypto.{Crypto}

-- b"PK01"
abbrev pub magic_header : Bytes
magic_header = 80 ∷ 75 ∷ 48 ∷ 49 ∷ []

-- b"PKSG"
abbrev pub magic_signature : Bytes
magic_signature = 80 ∷ 75 ∷ 83 ∷ 71 ∷ []

abbrev pub wire_header_size : ℕ
wire_header_size = 97

abbrev pub chunk_header_size : ℕ
chunk_header_size = 5

abbrev pub signature_payload_size : ℕ
signature_payload_size = 105

abbrev pub chunk_size : ℕ
chunk_size = 65536

abbrev pub tag_size : ℕ
tag_size = 16

abbrev pub trailer_size : ℕ
trailer_size = 96

abbrev pub tag_sign : String
tag_sign = "pipe-k1/v1/sign"

abbrev pub tag_sign_legacy : String
tag_sign_legacy = "pipek1/v1/sign"

abbrev pub tag_auth : String
tag_auth = "pipe-k1/v1/auth"

abbrev pub tag_entropy : String
tag_entropy = "pipe-k1/v1/entropy"

abbrev pub info_header : String
info_header = "pipe-k1/v1/header"

abbrev pub info_stream : String
info_stream = "pipe-k1/v1/stream"

-- Big-endian counter, three zeros and the terminal tag.
unfoldable pub build_nonce : ℕ → ℕ → Bytes
build_nonce counter term_tag =
    let nonce = replicate 12 0 in
    let nonce = copy_range 0 8 (be64 counter) nonce in
    let nonce = copy_range 8 11 (0 ∷ 0 ∷ 0 ∷ []) nonce in copy_range 11 12 (term_tag ∷ []) nonce

unfoldable pub build_aad : Bytes → ℕ → ℕ → Bytes → ℕ → ℕ → ℕ → Bytes
build_aad magic version mode recip_pub chunk_len counter term_tag =
    let aad = replicate 51 0 in
    let aad = copy_range 0 4 magic aad in
    let aad = copy_range 4 5 (version ∷ []) aad in
    let aad = copy_range 5 6 (mode ∷ []) aad in
    let aad = copy_range 6 38 recip_pub aad in
    let aad = copy_range 38 42 (be32 chunk_len) aad in
    let aad = copy_range 42 50 (be64 counter) aad in copy_range 50 51 (term_tag ∷ []) aad

-- The first 81 bytes of the header that `run_encrypt` assembles in a buffer of 97.
unfoldable pub assemble_header : ℕ → Bytes → Bytes → Bytes → Bytes
assemble_header mode eph_pub_x recip_x salt =
    let header = replicate 97 0 in
    let header = copy_range 0 4 magic_header header in
    let header = copy_range 4 5 (1 ∷ []) header in
    let header = copy_range 5 6 (mode ∷ []) header in
    let header = copy_range 6 38 eph_pub_x header in
    let header = copy_range 38 70 recip_x header in copy_range 70 81 salt header

-- The chunk header of `run_encrypt`.
unfoldable pub chunk_header : ℕ → ℕ → Bytes
chunk_header chunk_len term_tag =
    let chunk_header = copy_range 0 4 (be32 chunk_len) (replicate 5 0) in
    copy_range 4 5 (term_tag ∷ []) chunk_header

-- The transcript that the trailer signs.
unfoldable pub auth_transcript : Bytes → Bytes → Bytes
auth_transcript hmac_16 pt_digest =
    copy_range 16 48 pt_digest (copy_range 0 16 hmac_16 (replicate 48 0))

module _ (C : Crypto) where
  open C use {
    sha256, hmac_sha256, hkdf_expand, point, scalar, mul, is_identity, x_coordinate, Point,
  }

  unfoldable pub tagged_hash : String → Bytes → Bytes
  tagged_hash tag msg =
      let tag_hash = sha256 (as_bytes tag) in sha256 (tag_hash ++ (tag_hash ++ msg))

  -- The header key and the payload key.
  unfoldable pub derive_keys : Bytes → Bytes → Result String (Bytes × Bytes)
  derive_keys ikm salt =
      and_then
        (map_err (λ e. "HKDF header expand failed: " <> e)
          (hkdf_expand salt ikm (as_bytes info_header) 32))
        λ header_key.
          and_then
            (map_err (λ e. "HKDF stream expand failed: " <> e)
              (hkdf_expand salt ikm (as_bytes info_stream) 32))
            λ payload_key. ok (header_key, payload_key)

  unfoldable pub compute_header_hmac : Bytes → Bytes → Bytes
  compute_header_hmac header_key header_81 = slice 0 16 (hmac_sha256 header_key header_81)

  unfoldable pub lift_x : Bytes → Result String Point
  lift_x x_bytes =
      let sec1 = copy_range 1 33 x_bytes (copy_range 0 1 (2 ∷ []) (replicate 33 0)) in
      map_err (λ e. "Invalid curve point: " <> e) (point sec1)

  -- `enc.x().ok_or("Missing x coordinate")`
  abbrev require_x : Option Bytes → Result String Bytes
  require_x none = err "Missing x coordinate"
  require_x (some x) = ok (sha256 x)

  unfoldable pub ecdh_shared_x : Bytes → Bytes → Result String Bytes
  unfolding lift_x
  ecdh_shared_x priv_scalar pub_x =
      and_then (map_err (λ e. "Invalid private scalar: " <> e) (scalar priv_scalar)) λ sk.
        and_then (lift_x pub_x) λ pt.
          let shared = mul pt sk in
          if is_identity shared then err "Point at infinity" else require_x (x_coordinate shared)
