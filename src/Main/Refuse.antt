-- ===== src/Main/Refuse.antt =====
-- Command lines that are refused before anything is read.
use pipek.Prelude.{
  ℕ, ◌≡◌, refl, ◌∙◌, ap, sym, Bool, true, false, not, ◌&&◌, ◌||◌, Bool-cases, inl, inr, ◌⊎◌, String,
  List, ◌∷◌, none, some, str_eq, is_some, arith, Result, err,
}
use pipek.Error.{Pipek1Error, usage_error, exit_code}
use pipek.World.{World, eprintln}
use pipek.Crypto.{Crypto}
use pipek.Options.{scan}
use pipek.Commands.{VerifyArgs, verify_input, verify}
use pipek.Cli.{
  encrypt_meaning, no_encrypt_args, encrypt_command, verify_meaning, no_verify_args, print_usage,
  unknown_command, dispatch_command,
}
use pipek.Main.{base_name, is_git_invocation, real_main}

unfoldable pub is_command : String → Bool
is_command command =
    str_eq command "encrypt"
    || str_eq command "decrypt"
    || str_eq command "pubkey"
    || str_eq command "sign"
    || str_eq command "verify"
    || str_eq command "hash"
    || str_eq command "inspect-header"
    || str_eq command "inspect-chunk"

-- `verify` without a signature file, or with a pass-through and no expected key.
abbrev pub LacksVerify : VerifyArgs → Type 0
LacksVerify args =
    (args.sig_path ≡ none) ⊎ ((args.pass_through ≡ true) × (args.expected_pub ≡ none))

-- A mandatory argument is missing, or the command is unknown.
abbrev pub IsIncomplete : String → List String → Type 0
IsIncomplete command args =
    ((command ≡ "encrypt") × ((scan encrypt_meaning args no_encrypt_args).recipient ≡ none))
    ⊎ (((command ≡ "verify") × LacksVerify (scan verify_meaning args no_verify_args))
        ⊎ (is_command command ≡ false))

-- A usage error, with nothing changed but standard error.
abbrev Refused : World → Result Pipek1Error (Unit {0}) × World → Type 0
Refused w out =
    (message : String) × (lines : List String) × (out
      ≡ (err (usage_error message), record w { stderr = lines }))

no_path :
    (args : VerifyArgs)
    → LacksVerify args
    → (args.pass_through && not (is_some args.expected_pub)) ≡ false
    → args.sig_path ≡ none
no_path args (inl none_named) e = none_named
no_path args (inr (on, unknown)) e = absurd (
    cc (
      sym (ap (λ b. b && not (is_some args.expected_pub)) on ∙ ap (λ o. not (is_some o)) unknown)
      ∙ e))

module _ (C : Crypto) (fuel : ℕ) where
  encrypt-Refused :
      (args : List String) (w : World)
      → (scan encrypt_meaning args no_encrypt_args).recipient ≡ none
      → Refused w (encrypt_command C fuel args w)
  unfolding encrypt_command
  encrypt-Refused args w h = ("Missing mandatory argument: --recipient <npub|hex>", w.stderr, rw h)

  verify-Refused : (args : VerifyArgs) (w : World) → LacksVerify args → Refused w (verify C args w)
  unfolding verify verify_input
  verify-Refused args w h =
      elim (Bool-cases (args.pass_through && not (is_some args.expected_pub))) [
        | inl e ↦ ("--pub <npub|hex> is mandatory when --pass-through is enabled", w.stderr, rw e)
        | inr e ↦ ("Missing mandatory argument: --sig <file>", w.stderr, rw (e, no_path args h e))
      ]

  dispatch-unknown :
      (command : String) (args : List String)
      → is_command command ≡ false
      → dispatch_command C fuel command args ≡ unknown_command C fuel
  unfolding dispatch_command is_command
  dispatch-unknown command args h = ground arith

  unknown-Refused : (w : World) → Refused w (unknown_command C fuel w)
  unfolding unknown_command print_usage eprintln
  unknown-Refused w = ("Unknown command", (unknown_command C fuel w).1.stderr, refl)

  dispatch-encrypt :
      (args : List String) → dispatch_command C fuel "encrypt" args ≡ encrypt_command C fuel args
  unfolding dispatch_command
  dispatch-encrypt args = refl

  dispatch-verify :
      (args : List String)
      → dispatch_command C fuel "verify" args ≡ verify C (scan verify_meaning args no_verify_args)
  unfolding dispatch_command
  dispatch-verify args = refl

  dispatch-Refused :
      (command : String) (args : List String) (w : World)
      → IsIncomplete command args
      → Refused w (dispatch_command C fuel command args w)
  dispatch-Refused command args w (inl (e, h)) =
      rw (e, dispatch-encrypt args) (encrypt-Refused args w h)
  dispatch-Refused command args w (inr (inl (e, h))) =
      rw (e, dispatch-verify args) (verify-Refused (scan verify_meaning args no_verify_args) w h)
  dispatch-Refused command args w (inr (inr h)) =
      rw (dispatch-unknown command args h) (unknown-Refused w)

  -- A command line for `encrypt` without a recipient, one for `verify` without a signature file or
  -- with a pass-through and no expected key, and one with an unknown command end with the exit code
  -- 2, and nothing is read, written or drawn before: only standard error is changed. The program is
  -- not called as the git shim.
  pub real_main_refuses :
      (exe command : String) (args : List String) (w : World)
      → is_git_invocation (base_name exe) command ≡ false
      → IsIncomplete command args
      → let run = real_main C fuel (exe ∷ command ∷ args) w in
        (run.0 ≡ some 2) × (run.1 ≡ record w { stderr = run.1.stderr })
  unfolding real_main eprintln exit_code
  real_main_refuses exe command args w plain h =
      let (message, lines, refused) = dispatch-Refused command args w h in
      rw (plain, refused) (refl, refl)
