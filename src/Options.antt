-- ===== src/Options.antt =====
-- The loops of rust/src/main.rs over command-line arguments. Each goes through its arguments with an
-- index, and an option that takes a value moves the index over it.
pub mod Pairs
use pipek.Prelude.{String, List, [], ◌∷◌, Option, none, some}

-- What an argument does to the options `S` that have been read so far. An argument that takes a value
-- and stands last is passed over.
pub data Meaning (S : Type 0) : Type 0 where
  skip : Meaning S
  switch : (S → S) → Meaning S
  takes : (String → S → S) → Meaning S
  takes_two : (Option String → Option String → S → S) → Meaning S

module _ {S : Type 0} (meaning : String → Meaning S) where
  abbrev pub at_end : Meaning S → S → S
  at_end skip s = s
  at_end (switch f) s = f s
  at_end (takes f) s = s
  at_end (takes_two f) s = f none none s

  unfoldable pub scan : List String → S → S
  scan [] s = s
  scan (arg ∷ []) s = at_end (meaning arg) s
  scan (arg ∷ value ∷ []) s = elim (meaning arg) [
    | skip ↦ scan (value ∷ []) s
    | switch f ↦ scan (value ∷ []) (f s)
    | takes f ↦ f value s
    | takes_two f ↦ f (some value) none s
  ]
  scan (arg ∷ value ∷ next ∷ rest) s = elim (meaning arg) [
    | skip ↦ scan (value ∷ next ∷ rest) s
    | switch f ↦ scan (value ∷ next ∷ rest) (f s)
    | takes f ↦ scan (next ∷ rest) (f value s)
    | takes_two f ↦ scan rest (f (some value) (some next) s)
  ]
