-- ===== src/Encrypt/Entropy.antt =====
-- The ephemeral key from physical entropy: the loop that hashes again.
use pipek.Prelude.{
  ℕ, zero, suc, ◌<◌, ◌≤◌, ◌≡◌, refl, ◌∙◌, Bool, true, false, ◌||◌, Bool-cases, inl, inr, ok, arith,
  replicate, bytes_eq,
}
use pipek.Prelude.Bytes.{Bytes}
use pipek.Crypto.{Crypto}
use pipek.Wire.{tag_entropy, tagged_hash}
use pipek.Encrypt.{is_err, rehash}

module _ (C : Crypto) where
  -- The value after `n` rounds.
  abbrev pub mixed_after : ℕ → Bytes → Bytes
  mixed_after zero mixed = mixed
  mixed_after (suc n) mixed = mixed_after n (tagged_hash C tag_entropy mixed)

  abbrev pub is_bad : Bytes → Bool
  is_bad mixed = is_err C (C.signing_key mixed) || bytes_eq mixed (replicate 32 0)

  rehash-good :
      (fuel : ℕ) (mixed : Bytes) → is_bad mixed ≡ false → rehash C (suc fuel) mixed ≡ ok mixed
  unfolding rehash
  rehash-good fuel mixed good = rw good refl

  rehash-bad :
      (fuel : ℕ) (mixed : Bytes)
      → is_bad mixed ≡ true
      → rehash C (suc fuel) mixed ≡ rehash C fuel (tagged_hash C tag_entropy mixed)
  unfolding rehash
  rehash-bad fuel mixed bad = rw bad refl

  -- If some number of rounds comes to a key that is valid and not zero, then every larger fuel is
  -- enough: the loop ends with such a key, which is that of this round or of an earlier one.
  pub rehash_enough :
      (n fuel : ℕ) (mixed : Bytes)
      → is_bad (mixed_after n mixed) ≡ false
      → n < fuel
      → (j : ℕ) × (j ≤ n)
        × (rehash C fuel mixed ≡ ok (mixed_after j mixed))
        × (is_bad (mixed_after j mixed) ≡ false)
  rehash_enough n zero mixed good enough = absurd (omega arith)
  rehash_enough zero (suc fuel) mixed good enough =
      (0, omega arith, rehash-good fuel mixed good, good)
  rehash_enough (suc n) (suc fuel) mixed good enough = elim (Bool-cases (is_bad mixed)) [
    | inr early ↦ (0, omega arith, rehash-good fuel mixed early, early)
    | inl bad ↦
        let (j, few, ends, valid) =
          rehash_enough n fuel (tagged_hash C tag_entropy mixed) good (omega arith) in
        (suc j, omega arith, rehash-bad fuel mixed bad ∙ ends, valid)
  ]
