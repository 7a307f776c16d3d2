-- ===== src/Commands/Release.antt =====
-- When `verify --pass-through` releases its input, and what its success says.
use pipek.Prelude.{
  ℕ, zero, suc, ◌≡◌, ◌≢◌, refl, ap, not, ◌&&◌, Option, none, some, [], ◌++◌, String, ◌<>◌, Result,
  ok, err, stuck, continue, map_err, arith, ◌⊎◌, inl, inr, length, ◌==◌, is_some,
}
use pipek.Prelude.Bytes.{Bytes}
use pipek.Prelude.Text.{decimal}
use pipek.Error.{Pipek1Error, wire_corruption, auth_failure, usage_error, io}
use pipek.World.{World, Io}
use pipek.World.Keeps.{Keeps-at, Keeps-of, Keeps-if}
use pipek.World.Silence.{
  Mute, IsSilent, IsSilent-bind, IsSilent-lift, IsSilent-pure, IsSilent-test, IsSilent-read,
  IsSilent-fs_read, IsSilent-eprintln,
}
use pipek.Crypto.{Crypto}
use pipek.Signature.{verify_stream_payload}
use pipek.Io.{capacity}
use pipek.Spool.{StreamSpooler}
use pipek.Spool.Traces.{write_chunk-OnlyDisk}
use pipek.Decrypt.Silence.{new-IsSilent}
use pipek.Armor.{detach_armor}
use pipek.Shim.{or_usage}
use pipek.Commands.{
  VerifyArgs, spool_chunk, absorb_loop, absorb, read_signature, new_spooler, check_expected,
  verify_input, release, verify,
}

module _ (C : Crypto) where
  spool_chunk-IsSilent : (bs : Bytes) (o : Option StreamSpooler) → IsSilent (spool_chunk C bs o)
  unfolding spool_chunk
  spool_chunk-IsSilent bs none = IsSilent-pure _ _
  spool_chunk-IsSilent bs (some s) =
      IsSilent-bind _ _ (Keeps-at _ _ λ w. ap (λ u. u.stdout) (write_chunk-OnlyDisk C bs s w))
        λ t. IsSilent-pure _ _

  absorb_loop-IsSilent :
      (fuel : ℕ) (hashed : Bytes) (o : Option StreamSpooler)
      → IsSilent (absorb_loop C fuel hashed o)
  unfolding absorb_loop
  absorb_loop-IsSilent zero hashed o = Keeps-at _ _ λ w. refl
  absorb_loop-IsSilent (suc fuel) hashed o = IsSilent-bind _ _ (IsSilent-read io 65536) λ bs.
      Keeps-if Mute (length bs == 0) _ _ (IsSilent-pure _ _) (
        IsSilent-bind _ _ (spool_chunk-IsSilent bs o)
          λ t. absorb_loop-IsSilent fuel (hashed ++ bs) t)

  absorb-IsSilent : (o : Option StreamSpooler) → IsSilent (absorb C o)
  unfolding absorb
  absorb-IsSilent o =
      Keeps-at _ _ λ w. Keeps-of _ _ (absorb_loop-IsSilent (suc (capacity w.stdin)) [] o) w

  read_signature-IsSilent : (path : String) → IsSilent (read_signature C path)
  unfolding read_signature
  read_signature-IsSilent path = IsSilent-bind _ _ (IsSilent-fs_read _ path) λ raw.
      IsSilent-bind _ _ (IsSilent-lift (detach_armor C raw)) λ bs.
        IsSilent-bind _ _
          (IsSilent-test (not (length bs == 105)) (
            wire_corruption (
              "Signature payload must be exactly 105 bytes (got " <> (decimal (length bs) <> ")"))))
          λ _. IsSilent-pure _ bs

  new_spooler-IsSilent : (args : VerifyArgs) → IsSilent (new_spooler C args)
  unfolding new_spooler
  new_spooler-IsSilent args =
      Keeps-if Mute args.pass_through _ _
        (IsSilent-bind _ _ (new-IsSilent C args.max_size) λ s. IsSilent-pure _ _)
        (IsSilent-pure _ _)

  check_expected-IsSilent : (exp : Option String) (pk : Bytes) → IsSilent (check_expected C exp pk)
  unfolding check_expected
  check_expected-IsSilent (some exp) pk = Keeps-at _ _ λ w. ground arith
  check_expected-IsSilent none pk = IsSilent-eprintln _ _

  verify_input-IsSilent : (args : VerifyArgs) → IsSilent (verify_input C args)
  unfolding verify_input
  verify_input-IsSilent args =
      IsSilent-bind _ _
        (IsSilent-test (args.pass_through && not (is_some args.expected_pub))
          (usage_error "--pub <npub|hex> is mandatory when --pass-through is enabled"))
        λ _.
          IsSilent-bind _ _
            (IsSilent-lift (or_usage "Missing mandatory argument: --sig <file>" args.sig_path))
            λ path. IsSilent-bind _ _ (read_signature-IsSilent path) λ payload.
              IsSilent-bind _ _ (new_spooler-IsSilent args) λ o.
                IsSilent-bind _ _ (absorb-IsSilent o) λ fed.
                  IsSilent-bind _ _
                    (IsSilent-lift (
                      map_err (λ e. auth_failure ("Verification FAILED: " <> e))
                        (verify_stream_payload C payload (C.sha256 fed.0))))
                    λ pk.
                      IsSilent-bind _ _ (check_expected-IsSilent args.expected_pub pk)
                        λ _. IsSilent-pure _ _

  -- Either `verify` fails and standard output is as it was before, or every check has passed with
  -- standard output as it was before, and what is left of the run is the release.
  pub verify-withholds :
      (args : VerifyArgs) (w : World)
      → let run = verify C args w in
        ((run.0 ≢ ok tt) × (run.1.stdout ≡ w.stdout))
        ⊎ ((pk : Bytes) × (o : Option StreamSpooler) × (v : World) × (verify_input C args w
              ≡ (ok (pk, o), v))
            × (v.stdout ≡ w.stdout)
            × (run ≡ release C pk o v))
  unfolding verify
  verify-withholds args w =
      cases (verify_input C args w).0 (verify_input C args w).1 refl
        (Keeps-of _ _ (verify_input-IsSilent args) w)
    where
      after : Bytes × Option StreamSpooler → Io Pipek1Error (Unit {0})
      after p = release C p.0 p.1

      cases :
          (r : Result Pipek1Error (Bytes × Option StreamSpooler)) (v : World)
          → verify_input C args w ≡ (r, v)
          → v.stdout ≡ w.stdout
          → (((continue r after v).0 ≢ ok tt) × ((continue r after v).1.stdout ≡ w.stdout))
            ⊎ ((pk : Bytes) × (o : Option StreamSpooler) × (u : World) × (verify_input C args w
                  ≡ (ok (pk, o), u))
                × (u.stdout ≡ w.stdout)
                × (continue r after v ≡ release C pk o u))
      cases (ok (pk, o)) v e same = inr (pk, o, v, e, same, refl)
      cases (err x) v e same = inl ((λ h. cc h), same)
      cases stuck v e same = inl ((λ h. cc h), same)
