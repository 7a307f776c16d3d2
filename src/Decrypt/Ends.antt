-- ===== src/Decrypt/Ends.antt =====
-- The decryption loop ends.
use pipek.Prelude.{
  ℕ, zero, suc, ◌-◌, Bool, true, false, [], ◌==◌, IsDone, arith, not, ◌&&◌, ltb, ◌<>◌, slice,
  get_or,
}
use pipek.Prelude.Bytes.{Bytes, from_be32}
use pipek.Error.{Pipek1Error, wire_corruption}
use pipek.Io.{capacity}
use pipek.World.{World}
use pipek.World.Ends.{
  Takes, IsCalm, Within, Within-at, Within-of, Within-bind, Within-calm, Within-if, Within-mono,
  Takes-first, Takes-mapped, Takes-bind, IsCalm-bind, IsCalm-lift, IsCalm-pure, IsCalm-test,
}
use pipek.World.Ends.Streams.{stdin_read_exact-Takes, stdout_write-IsCalm}
use pipek.Crypto.{Crypto, IsTotal}
use pipek.Wire.{chunk_size}
use pipek.Spool.{StreamSpooler}
use pipek.Spool.Ends.{map_err-IsDone, write_chunk-IsCalm}
use pipek.Decrypt.{
  Session, lower_hex, check_framing, read_chunk, deliver, decrypt_loop, decrypt_stream,
}

check_framing-IsCalm : (chunk_len term_tag : ℕ) → IsCalm (check_framing chunk_len term_tag)
unfolding check_framing
check_framing-IsCalm chunk_len term_tag =
    IsCalm-bind _ _
      (IsCalm-test (not (term_tag == 0) && not (term_tag == 1)) (
        wire_corruption (
          "Framing violation: invalid terminal tag 0x"
          <> (lower_hex term_tag <> " (expected 0x00 or 0x01)"))))
      λ _.
        IsCalm-bind _ _
          (IsCalm-test (term_tag == 0 && not (chunk_len == chunk_size))
            (wire_corruption "Framing violation: intermediate chunk must be exactly 64 KiB"))
          λ _.
            IsCalm-test (ltb chunk_size chunk_len)
              (wire_corruption "Chunk size exceeds 64 KiB buffer limit")

module _ (C : Crypto) (T : IsTotal C) where
  -- A chunk has its header at least.
  read_chunk-Takes : (session : Session) (n : ℕ) → Takes (λ _. 5) (read_chunk C session n)
  unfolding read_chunk
  read_chunk-Takes session n =
      Takes-first 5 _ _ (Takes-mapped _ _ _ (stdin_read_exact-Takes 5)) λ chunk_hdr.
        IsCalm-bind _ _
          (check_framing-IsCalm (from_be32 (slice 0 4 chunk_hdr)) (get_or chunk_hdr 4 0))
          λ _.
            Takes-bind _ (λ _. 0) (λ _. 0) _ _ (λ a b. omega arith)
              (Takes-mapped _ _ _ (stdin_read_exact-Takes _))
              λ ct.
                Takes-bind _ (λ _. 0) (λ _. 0) _ _ (λ a b. omega arith)
                  (Takes-mapped _ _ _ (stdin_read_exact-Takes 16))
                  λ tag_bytes.
                    IsCalm-bind _ _
                      (IsCalm-lift _
                        (map_err-IsDone _ _ (T.decrypts session.payload_key _ _ ct tag_bytes)))
                      λ plain. IsCalm-pure Pipek1Error _

  deliver-IsCalm :
      (unverified : Bool) (plain : Bytes) (s : StreamSpooler)
      → IsCalm (deliver C unverified plain s)
  unfolding deliver
  deliver-IsCalm true plain s =
      IsCalm-bind _ _ (Takes-mapped _ _ _ (stdout_write-IsCalm plain))
        λ _. IsCalm-pure Pipek1Error s
  deliver-IsCalm false plain s = Takes-mapped _ _ _ (write_chunk-IsCalm C T plain s)

  decrypt_loop-Within :
      (fuel : ℕ) (unverified : Bool) (session : Session) (n : ℕ) (hashed : Bytes)
      (s : StreamSpooler)
      → Within fuel (decrypt_loop C fuel unverified session n hashed s)
  unfolding decrypt_loop
  decrypt_loop-Within zero unverified session n hashed s =
      Within-at _ _ λ w few. absurd (omega (arith, few))
  decrypt_loop-Within (suc fuel) unverified session n hashed s =
      Within-bind (suc fuel) (λ _. 5) _ _ (read_chunk-Takes session n)
        λ chunk.
          Within-bind (suc fuel - 5) (λ _. 0) _ _ (deliver-IsCalm unverified chunk.1 s)
            λ t.
              Within-if (suc fuel - 5 - 0) (chunk.0 == 1) _ _
                (λ _. Within-calm _ _ (IsCalm-pure Pipek1Error _))
                λ _.
                  Within-mono fuel _ _ (omega arith)
                    (decrypt_loop-Within fuel unverified session _ _ t)

  -- Whatever the input gives, however the output and the disk fail, and whatever the spooler holds,
  -- the decryption loop ends with a result or an error, provided that the cipher does not panic.
  pub decrypt_stream-IsDone :
      (unverified : Bool) (session : Session) (s : StreamSpooler) (w : World)
      → IsDone (decrypt_stream C unverified session s w).0
  unfolding decrypt_stream
  decrypt_stream-IsDone unverified session s w =
      Within-of _ _ (decrypt_loop-Within (suc (capacity w.stdin)) unverified session 0 [] s) w
        (omega arith)
