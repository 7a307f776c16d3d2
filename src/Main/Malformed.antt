-- ===== src/Main/Malformed.antt =====
-- What git is told of a file that is no signature.
use pipek.Prelude.{
  ℕ, ◌≡◌, refl, sym, Bool-cases, false, Option, none, some, String, ◌<>◌, ◌++◌, Result, ok, err,
  stuck, IsDone, map_err, length, ◌==◌, ◌⊎◌, inl, inr, append-nil, subst,
}
use pipek.Prelude.Bytes.{Bytes}
use pipek.Prelude.Text.{as_bytes, from_utf8, lines}
use pipek.Error.{Pipek1Error, wire_corruption, exit_code}
use pipek.World.{World, eprintln}
use pipek.World.Files.{fs_read}
use pipek.World.Laws.{stdout_write-emit}
use pipek.Crypto.{Crypto}
use pipek.Armor.{detach_armor, detach_text, collect, is_armored}
use pipek.Shim.{write_status_fd, malformed_signature, shim_verify}
use pipek.Main.{real_main}
use pipek.Main.GitLines.{git_verify_line, git_verify_line-shim}

abbrev pub errsig : String
errsig = "[GNUPG:] NEWSIG\n[GNUPG:] ERRSIG 0000000000000000 1 8 00 0000000000 9\n"

-- What a file that is no signature makes the shim write: nothing at all if its armor is corrupt.
abbrev pub unusable_status : Result Pipek1Error Bytes → String
unusable_status (ok payload) = errsig
unusable_status _ = ""

-- What a file is without its armor: bytes, a corruption of the wire, or a panic of the decoder.
abbrev IsDetached : Result Pipek1Error Bytes → Type 0
IsDetached r =
    ((p : Bytes) × (r ≡ ok p)) ⊎ (((m : String) × (r ≡ err (wire_corruption m))) ⊎ (r ≡ stuck))

decoded :
    (r : Result String Bytes)
    → IsDetached (map_err (λ e. wire_corruption ("Base64 decode error: " <> e)) r)
decoded (ok p) = inl (p, refl)
decoded (err e) = inr (inl ("Base64 decode error: " <> e, refl))
decoded stuck = inr (inr refl)

module _ (C : Crypto) where
  detach_text-IsDetached : (raw : Bytes) (s : Option String) → IsDetached (detach_text C raw s)
  detach_text-IsDetached raw none = inl (raw, refl)
  detach_text-IsDetached raw (some s) = elim (Bool-cases (is_armored s)) [
    | inl e ↦ rw e (decoded (C.base64_decode (collect (lines s) false "")))
    | inr e ↦ rw e (inl (raw, refl))
  ]

  detach_armor-IsDetached : (raw : Bytes) → IsDetached (detach_armor C raw)
  unfolding detach_armor
  detach_armor-IsDetached raw = detach_text-IsDetached raw (from_utf8 raw)

  -- Git has a signature verified from a file that can be read and whose content, without its armor if
  -- it has one, is not of 105 bytes or cannot be decoded; the base64 decoder does not panic. Then the
  -- exit code is 1 and standard input is not read. Standard output gets exactly the status lines of
  -- an unusable signature, unless the body of the armor is corrupt: then it gets nothing.
  pub git_verify_line_unusable :
      (fuel : ℕ) (exe path : String) (raw : Bytes) (w : World)
      → fs_read path w ≡ (ok raw, w)
      → IsDone (detach_armor C raw)
      → ((payload : Bytes) → detach_armor C raw ≡ ok payload → (length payload == 105) ≡ false)
      → w.stdout.room ≡ none
      → let run = real_main C fuel (git_verify_line exe path) w in
        (run.0 ≡ some 1)
        × (run.1.stdout.bytes ≡ w.stdout.bytes ++ as_bytes (unusable_status (detach_armor C raw)))
        × (run.1.stdin ≡ w.stdin)
  unfolding shim_verify malformed_signature write_status_fd eprintln exit_code as_bytes
  git_verify_line_unusable fuel exe path raw w found done unusable room =
      elim (detach_armor-IsDetached raw) [
        | inl (payload, e) ↦
            rw
              (
                git_verify_line-shim C fuel exe path w,
                found,
                e,
                unusable payload e,
                stdout_write-emit (as_bytes errsig) w room,
              )
              (refl, refl, refl)
        | inr (inl (m, e)) ↦
            rw (git_verify_line-shim C fuel exe path w, found, e)
              (refl, sym (append-nil w.stdout.bytes), refl)
        | inr (inr e) ↦ absurd (subst IsDone e done)
      ]
