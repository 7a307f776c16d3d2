-- ===== src/Prelude/Outcome.antt =====
-- Rust's `Result<A, E>`, and computations over a state that may fail.
use mathlib.Core.Path.{◌≡◌, refl, ap}
use mathlib.Core.Bool.{Bool, true, false, not}
use pipek.Prelude.Tests.{if◌then◌else◌}
use native.Mathlib.Omega.{arith}

-- `stuck` is no value: the program panicked, or a loop of the model ran out of fuel.
pub data Result {ℓ} (E A : Type ℓ) : Type ℓ where
  ok : A → Result E A
  err : E → Result E A
  stuck : Result E A

abbrev pub map_err {ℓ} : {E F A : Type ℓ} → (E → F) → Result E A → Result F A
map_err f (ok a) = ok a
map_err f (err e) = err (f e)
map_err f stuck = stuck

-- The `?` operator on pure results.
abbrev pub and_then {ℓ} : {E A B : Type ℓ} → Result E A → (A → Result E B) → Result E B
and_then (ok a) f = f a
and_then (err e) f = err e
and_then stuck f = stuck

-- What was changed before an error stays changed, so the state comes back beside the error too.
abbrev pub Exec {ℓ} : Type ℓ → Type ℓ → Type ℓ → Type ℓ
Exec S E A = S → Result E A × S

module _ {ℓ} {S E A : Type ℓ} where
  abbrev pub pure : A → Exec S E A
  pure a s = (ok a, s)

  abbrev pub fail : E → Exec S E A
  fail e s = (err e, s)

  abbrev pub lift : Result E A → Exec S E A
  lift r s = (r, s)

-- `if test { return Err(e) }`
abbrev pub ensure_not {ℓ} : {S E : Type ℓ} → Bool → E → Exec S E (Unit {ℓ})
ensure_not true e s = (err e, s)
ensure_not false e s = (ok tt, s)

module _ {ℓ} {S E A B : Type ℓ} where
  abbrev pub continue : Result E A → (A → Exec S E B) → Exec S E B
  continue (ok a) f s = f a s
  continue (err e) f s = (err e, s)
  continue stuck f s = (stuck, s)

  infixl 10 ◌>>=◌ ◌>>◌
  abbrev pub ◌>>=◌ : Exec S E A → (A → Exec S E B) → Exec S E B
  ◌>>=◌ m f s = let (r, s') = m s in continue r f s'

  abbrev pub ◌>>◌ : Exec S E A → Exec S E B → Exec S E B
  m >> n = m >>= λ _. n

-- `.map_err(f)` on a computation
abbrev pub map_err_of {ℓ} : {S E F A : Type ℓ} → (E → F) → Exec S E A → Exec S F A
map_err_of f m s = let (r, s') = m s in (map_err f r, s')

-- There is a result, a value or an error.
abbrev pub IsDone {ℓ} : {E A : Type ℓ} → Result E A → Type 0
IsDone (ok a) = Unit
IsDone (err e) = Unit
IsDone stuck = ⊥

-- What a success says of the steps that led to it.
pub and_then-eq-ok {ℓ} :
    {E A B : Type ℓ} (m : Result E A) (f : A → Result E B) {b : B}
    → and_then m f ≡ ok b
    → (a : A) × (m ≡ ok a) × (f a ≡ ok b)
and_then-eq-ok (ok a) f h = (a, refl, h)
and_then-eq-ok (err e) f h = cc
and_then-eq-ok stuck f h = cc

pub map_err-eq-ok {ℓ} :
    {E F A : Type ℓ} (f : E → F) (m : Result E A) {a : A} → map_err f m ≡ ok a → m ≡ ok a
map_err-eq-ok f (ok a) h = ground arith
map_err-eq-ok f (err e) h = cc
map_err-eq-ok f stuck h = cc

module _ {ℓ} {S E A B : Type ℓ} where
  continue-eq-ok :
      (r : Result E A) (f : A → Exec S E B) (u : S) {b : B} {t : S}
      → continue r f u ≡ (ok b, t)
      → (a : A) × (r ≡ ok a) × (f a u ≡ (ok b, t))
  continue-eq-ok (ok a) f u h = (a, refl, h)
  continue-eq-ok (err e) f u h = cc
  continue-eq-ok stuck f u h = cc

  pub >>=-eq-ok :
      (m : Exec S E A) (f : A → Exec S E B) (s : S) {b : B} {t : S}
      → (m >>= f) s ≡ (ok b, t)
      → (a : A) × (u : S) × (m s ≡ (ok a, u)) × (f a u ≡ (ok b, t))
  >>=-eq-ok m f s h =
      let (a, e, g) = continue-eq-ok (m s).0 f (m s).1 h in
      (a, (m s).1, ap (λ r. (r, (m s).1)) e, g)

-- A success passed the test before it.
pub guard-eq-ok {ℓ} :
    {E A : Type ℓ} (b : Bool) (e : E) (rest : Result E A) {a : A}
    → (if not b then err e else rest) ≡ ok a
    → (b ≡ true) × (rest ≡ ok a)
guard-eq-ok true e rest h = (refl, h)
guard-eq-ok false e rest h = cc

pub ok-injective {ℓ} :
    {E A S : Type ℓ} {a b : A} {s t : S} → ◌≡◌ {A = Result E A × S} (ok a, s) (ok b, t) → a ≡ b
ok-injective h = ground arith

pub map_err_of-eq-ok {ℓ} :
    {S E F A : Type ℓ} (f : E → F) (m : Exec S E A) (s : S) {a : A} {t : S}
    → map_err_of f m s ≡ (ok a, t)
    → m s ≡ (ok a, t)
map_err_of-eq-ok f m s h = ground arith
