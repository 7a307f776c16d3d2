-- ===== src/Keys/Scrub.antt =====
-- What is left of the secret variables in the environment.

use text.Mathlib.TextLemmas.{cons-append}
use pipek.Prelude.{◌≡◌, refl, ap, String, ◌<>◌, none, List, [], ◌∷◌, arith}
use pipek.Prelude.Text.{strip_prefix, env_lookup}
use pipek.World.{World}
use pipek.World.Files.{remove_var, zero_entry}
use pipek.Crypto.{Crypto}
use pipek.Keys.{KeyIntakeArgs, scrub_env_var, scrub_all_sensitive_env, load_secret_key}
use pipek.Keys.Sources.{load_secret_key-scrubs}

blank : (key : String) → strip_prefix (key <> "=") "" ≡ none
unfolding strip_prefix
blank String.[] = refl
blank (String.◌∷◌ c s) = rw cons-append

lookup-remove_self : (key : String) (es : List String) → env_lookup key (remove_var key es) ≡ none
unfolding env_lookup remove_var
lookup-remove_self key [] = refl
lookup-remove_self key (e ∷ es) = ground (arith, lookup-remove_self key es)

lookup-remove :
    (key other : String) (es : List String)
    → env_lookup key es ≡ none
    → env_lookup key (remove_var other es) ≡ none
unfolding env_lookup remove_var
lookup-remove key other [] h = refl
lookup-remove key other (e ∷ es) h = ground (arith, lookup-remove key other es)

lookup-zero :
    (key other : String) (es : List String)
    → env_lookup key es ≡ none
    → env_lookup key (zero_entry other es) ≡ none
unfolding env_lookup zero_entry
lookup-zero key other [] h = refl
lookup-zero key other (e ∷ es) h = ground (arith, lookup-zero key other es, blank key)

-- A variable that cannot be read stays so.
lookup-scrub :
    (key other : String) (w : World)
    → env_lookup key w.environ ≡ none
    → env_lookup key (scrub_env_var other w).environ ≡ none
unfolding scrub_env_var
lookup-scrub key other w h =
    lookup-remove key other (zero_entry other w.environ) (lookup-zero key other w.environ h)

lookup-scrub_self : (key : String) (w : World) → env_lookup key (scrub_env_var key w).environ ≡ none
unfolding scrub_env_var
lookup-scrub_self key w = lookup-remove_self key (zero_entry key w.environ)

-- None of the six secret variables can be read.
abbrev pub Hidden : List String → Type 0
Hidden es =
    (env_lookup "PIPE_K1_SEC_KEY" es ≡ none)
    × (env_lookup "PIPEK1_SEC_KEY" es ≡ none)
    × (env_lookup "PIPE_K1_MNEMONIC" es ≡ none)
    × (env_lookup "PIPEK1_MNEMONIC" es ≡ none)
    × (env_lookup "PIPE_K1_PASSPHRASE" es ≡ none)
    × (env_lookup "PIPEK1_PASSPHRASE" es ≡ none)

scrub_all-Hidden : (w : World) → Hidden (scrub_all_sensitive_env w).environ
unfolding scrub_all_sensitive_env
scrub_all-Hidden w =
    let a = scrub_env_var "PIPE_K1_SEC_KEY" w in
    let b = scrub_env_var "PIPEK1_SEC_KEY" a in
    let c = scrub_env_var "PIPE_K1_MNEMONIC" b in
    let d = scrub_env_var "PIPEK1_MNEMONIC" c in
    let e = scrub_env_var "PIPE_K1_PASSPHRASE" d in
    let after_e =
      λ (k : String) (h : env_lookup k e.environ ≡ none). lookup-scrub k "PIPEK1_PASSPHRASE" e h in
    let after_d = λ (k : String) (h : env_lookup k d.environ ≡ none).
      after_e k (lookup-scrub k "PIPE_K1_PASSPHRASE" d h) in
    let after_c = λ (k : String) (h : env_lookup k c.environ ≡ none).
      after_d k (lookup-scrub k "PIPEK1_MNEMONIC" c h) in
    let after_b = λ (k : String) (h : env_lookup k b.environ ≡ none).
      after_c k (lookup-scrub k "PIPE_K1_MNEMONIC" b h) in
    (
      after_b "PIPE_K1_SEC_KEY" (
          lookup-scrub "PIPE_K1_SEC_KEY" "PIPEK1_SEC_KEY" a
            (lookup-scrub_self "PIPE_K1_SEC_KEY" w)),
      after_b "PIPEK1_SEC_KEY" (lookup-scrub_self "PIPEK1_SEC_KEY" a),
      after_c "PIPE_K1_MNEMONIC" (lookup-scrub_self "PIPE_K1_MNEMONIC" b),
      after_d "PIPEK1_MNEMONIC" (lookup-scrub_self "PIPEK1_MNEMONIC" c),
      after_e "PIPE_K1_PASSPHRASE" (lookup-scrub_self "PIPE_K1_PASSPHRASE" d),
      lookup-scrub_self "PIPEK1_PASSPHRASE" e,
    )

-- After `load_secret_key`, whichever source it used and whether or not it succeeded, none of the
-- six secret variables can be read from the environment.
pub load_secret_key-Hidden :
    (C : Crypto) (args : KeyIntakeArgs) (w : World) → Hidden (load_secret_key C args w).1.environ
load_secret_key-Hidden C args w =
    let (same, _) = load_secret_key-scrubs C args w in
    rw (ap (λ t. t.environ) same) (scrub_all-Hidden w)
