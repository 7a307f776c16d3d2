-- ===== src/Options/Pairs.antt =====
-- Command lines that are a sequence of flags, each with a value.
use pipek.Prelude.{◌≡◌, refl, ◌∙◌, String, List, [], ◌∷◌, Option, none, some, str_eq, if◌then◌else◌}
use pipek.Options.{Meaning, skip, switch, takes, takes_two, scan}

abbrev pub Pairs : Type 0
Pairs = List (String × String)

abbrev pub flatten : Pairs → List String
flatten [] = []
flatten ((flag, value) ∷ pairs) = flag ∷ value ∷ flatten pairs

-- The value of the last pair with the flag.
unfoldable pub last_value : String → Pairs → Option String
last_value flag [] = none
last_value flag ((f, value) ∷ pairs) =
    let here = if str_eq f flag then some value else none in
    elim (last_value flag pairs) [ none ↦ here | some later ↦ some later ]

module _ {S : Type 0} (meaning : String → Meaning S) where
  abbrev pub act : Meaning S → String → S → S
  act skip value s = s
  act (switch f) value s = f s
  act (takes f) value s = f value s
  act (takes_two f) value s = s

  unfoldable pub act_all : Pairs → S → S
  act_all [] s = s
  act_all ((flag, value) ∷ pairs) s = act_all pairs (act (meaning flag) value s)

  -- No argument that takes two values.
  abbrev pub IsSingle : Meaning S → Type 0
  IsSingle (takes_two f) = ⊥
  IsSingle _ = Unit

  -- No value is an argument with a meaning of its own.
  abbrev pub IsPlain : Pairs → Type 0
  IsPlain [] = Unit
  IsPlain ((flag, value) ∷ pairs) = IsSingle (meaning flag) × (meaning value ≡ skip) × IsPlain pairs

  scan-skip :
      (arg : String) (rest : List String) (s : S)
      → meaning arg ≡ skip
      → scan meaning (arg ∷ rest) s ≡ scan meaning rest s
  unfolding scan
  scan-skip arg [] s e = rw e
  scan-skip arg (a ∷ []) s e = rw (e, scan)
  scan-skip arg (a ∷ b ∷ rest) s e = rw (e, scan)

  scan-switch :
      (arg value : String) (rest : List String) (s : S) (f : S → S)
      → meaning arg ≡ switch f
      → scan meaning (arg ∷ value ∷ rest) s ≡ scan meaning (value ∷ rest) (f s)
  unfolding scan
  scan-switch arg value [] s f e = rw (e, scan)
  scan-switch arg value (a ∷ rest) s f e = rw (e, scan)

  scan-takes :
      (arg value : String) (rest : List String) (s : S) (f : String → S → S)
      → meaning arg ≡ takes f
      → scan meaning (arg ∷ value ∷ rest) s ≡ scan meaning rest (f value s)
  unfolding scan
  scan-takes arg value [] s f e = rw (e, scan)
  scan-takes arg value (a ∷ rest) s f e = rw (e, scan)

  scan-pair :
      (flag value : String) (rest : List String) (s : S) (m : Meaning S)
      → meaning flag ≡ m
      → IsSingle m
      → meaning value ≡ skip
      → scan meaning (flag ∷ value ∷ rest) s ≡ scan meaning rest (act m value s)
  scan-pair flag value rest s skip e single plain =
      scan-skip flag (value ∷ rest) s e ∙ scan-skip value rest s plain
  scan-pair flag value rest s (switch f) e single plain =
      scan-switch flag value rest s f e ∙ scan-skip value rest (f s) plain
  scan-pair flag value rest s (takes f) e single plain = scan-takes flag value rest s f e
  scan-pair flag value rest s (takes_two f) e single plain = absurd single

  -- Such a command line acts pair by pair.
  pub scan-flatten :
      (pairs : Pairs) (s : S) → IsPlain pairs → scan meaning (flatten pairs) s ≡ act_all pairs s
  unfolding act_all
  scan-flatten [] s p = unfold scan in refl
  scan-flatten ((flag, value) ∷ pairs) s (single, plain, p) =
      scan-pair flag value (flatten pairs) s (meaning flag) refl single plain
      ∙ scan-flatten pairs (act (meaning flag) value s) p
