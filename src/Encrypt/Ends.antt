-- ===== src/Encrypt/Ends.antt =====
-- The encryption loop ends.
use pipek.Prelude.{
  ℕ, zero, suc, ◌+◌, ◌-◌, ◌<◌, [], ◌==◌, ltb, IsDone, Bool-cases, inl, inr, arith, length,
}
use pipek.Prelude.Bytes.{Bytes}
use pipek.Error.{Pipek1Error}
use pipek.Io.{capacity}
use pipek.World.{World}
use pipek.World.Ends.{
  IsCalm, Within, Within-at, Within-of, Within-mono, Within-bind, Within-calm, Within-if,
  Takes-mapped, IsCalm-bind, IsCalm-lift, IsCalm-pure,
}
use pipek.World.Ends.Streams.{stdin_fill-Takes, stdout_write-IsCalm}
use pipek.Crypto.{Crypto, IsTotal}
use pipek.Spool.Ends.{map_err-IsDone}
use pipek.Encrypt.{next_counter, write_sealed, encrypt_loop, encrypt_stream}

next_counter-IsDone : (n : ℕ) → IsDone (next_counter n)
unfolding next_counter
next_counter-IsDone n = elim (Bool-cases (ltb (n + 1) 18446744073709551616)) [
  | inl e ↦ rw e tt
  | inr e ↦ rw e tt
]

module _ (C : Crypto) (T : IsTotal C) where
  write_sealed-IsCalm :
      (key : Bytes) (mode : ℕ) (recip_x : Bytes) (n term : ℕ) (cur : Bytes)
      → IsCalm (write_sealed C key mode recip_x n term cur)
  unfolding write_sealed
  write_sealed-IsCalm key mode recip_x n term cur =
      IsCalm-bind _ _ (Takes-mapped _ _ _ (stdout_write-IsCalm _)) λ _.
        IsCalm-bind _ _ (IsCalm-lift _ (map_err-IsDone _ _ (T.encrypts key _ _ cur))) λ sealed.
          IsCalm-bind _ _ (Takes-mapped _ _ _ (stdout_write-IsCalm sealed.0))
            λ _. Takes-mapped _ _ _ (stdout_write-IsCalm sealed.1)

  encrypt_loop-Within :
      (fuel : ℕ) (key : Bytes) (mode : ℕ) (recip_x : Bytes) (n : ℕ) (cur hashed : Bytes)
      → Within fuel (encrypt_loop C fuel key mode recip_x n cur hashed)
  unfolding encrypt_loop
  encrypt_loop-Within zero key mode recip_x n cur hashed =
      Within-at _ _ λ w few. absurd (omega (arith, few))
  encrypt_loop-Within (suc fuel) key mode recip_x n cur hashed =
      Within-bind (suc fuel) (length {A = ℕ}) _ _ (Takes-mapped _ _ _ (stdin_fill-Takes 65536))
        λ next.
          let left : ℕ = suc fuel - length next in
          Within-bind left (λ _. 0) _ _ (write_sealed-IsCalm key mode recip_x n _ cur)
            λ _.
              Within-bind (left - 0) (λ _. 0) _ _ (IsCalm-lift _ (next_counter-IsDone n))
                λ n'.
                  Within-if (left - 0 - 0) (length next == 0) _ _
                    (λ _. Within-calm _ _ (IsCalm-pure Pipek1Error _))
                    λ some.
                      let taken : 0 < length next = ground arith in
                      Within-mono fuel _ _ (omega (arith, taken))
                        (encrypt_loop-Within fuel key mode recip_x n' next _)

  -- Whatever the input gives and however the output fails, the encryption loop ends with a result or
  -- an error, provided that the cipher does not panic.
  pub encrypt_stream-IsDone :
      (key : Bytes) (mode : ℕ) (recip_x : Bytes) (w : World)
      → IsDone (encrypt_stream C key mode recip_x w).0
  unfolding encrypt_stream
  encrypt_stream-IsDone key mode recip_x w =
      Within-of (suc (capacity w.stdin)) _
        (Within-bind (suc (capacity w.stdin)) (length {A = ℕ}) _ _
          (Takes-mapped _ _ _ (stdin_fill-Takes 65536))
          λ cur. Within-at _ _ λ u few.
            Within-of _ _ (encrypt_loop-Within (suc (capacity u.stdin)) key mode recip_x 0 cur []) u
              (omega arith))
        w (omega arith)
