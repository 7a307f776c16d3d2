-- ===== src/Commands/Ends.antt =====
-- The loop of `sign` and `verify` ends.
use pipek.Prelude.{
  ℕ, zero, suc, ◌-◌, ◌<◌, Option, none, some, ◌++◌, [], ◌==◌, IsDone, arith, length,
}
use pipek.Prelude.Bytes.{Bytes}
use pipek.Error.{Pipek1Error}
use pipek.Io.{capacity}
use pipek.World.{World}
use pipek.World.Ends.{
  IsCalm, Within, Within-at, Within-of, Within-mono, Within-bind, Within-calm, Within-if,
  Takes-mapped, IsCalm-bind, IsCalm-pure,
}
use pipek.World.Ends.Streams.{stdin_read-Takes}
use pipek.Crypto.{Crypto, IsTotal}
use pipek.Spool.{StreamSpooler}
use pipek.Spool.Ends.{write_chunk-IsCalm}
use pipek.Commands.{spool_chunk, absorb_loop, absorb}

module _ (C : Crypto) (T : IsTotal C) where
  spool_chunk-IsCalm : (bs : Bytes) (o : Option StreamSpooler) → IsCalm (spool_chunk C bs o)
  unfolding spool_chunk
  spool_chunk-IsCalm bs none = IsCalm-pure Pipek1Error _
  spool_chunk-IsCalm bs (some s) =
      IsCalm-bind _ _ (Takes-mapped _ _ _ (write_chunk-IsCalm C T bs s))
        λ t. IsCalm-pure Pipek1Error _

  absorb_loop-Within :
      (fuel : ℕ) (hashed : Bytes) (o : Option StreamSpooler)
      → Within fuel (absorb_loop C fuel hashed o)
  unfolding absorb_loop
  absorb_loop-Within zero hashed o = Within-at _ _ λ w few. absurd (omega (arith, few))
  absorb_loop-Within (suc fuel) hashed o =
      Within-bind (suc fuel) (length {A = ℕ}) _ _ (Takes-mapped _ _ _ (stdin_read-Takes 65536))
        λ bs.
          let left : ℕ = suc fuel - length bs in
          Within-if left (length bs == 0) _ _ (λ _. Within-calm _ _ (IsCalm-pure Pipek1Error _))
            λ some.
              let taken : 0 < length bs = ground arith in
              Within-bind left (λ _. 0) _ _ (spool_chunk-IsCalm bs o)
                λ t.
                  Within-mono fuel _ _ (omega (arith, taken))
                    (absorb_loop-Within fuel (hashed ++ bs) t)

  -- Whatever the input gives, however the disk fails, and whatever a spooler holds, the loop of
  -- `sign` and `verify` ends with a result or an error, provided that the cipher does not panic.
  pub absorb-IsDone : (o : Option StreamSpooler) (w : World) → IsDone (absorb C o w).0
  unfolding absorb
  absorb-IsDone o w =
      Within-of _ _ (absorb_loop-Within (suc (capacity w.stdin)) [] o) w (omega arith)
