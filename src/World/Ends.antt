-- ===== src/World/Ends.antt =====
-- Computations that return, and how much of the input they take.
pub mod Streams
use pipek.Prelude.{
  ℕ, zero, suc, ◌+◌, ◌-◌, ◌≤◌, ◌<◌, ◌≡◌, refl, Bool, true, false, Result, ok, err, stuck, IsDone,
  arith, lift, pure, ensure_not, continue, ◌>>=◌, map_err_of, map_err, if◌then◌else◌,
}
use pipek.Io.{capacity}
use pipek.World.{World, Io}

-- At least `k a` bytes fewer are left after a success.
abbrev pub Left : {E A : Type 0} → (A → ℕ) → World → Result E A → World → Type 0
Left k w (ok a) u = k a + capacity u.stdin ≤ capacity w.stdin
Left k w (err e) u = Unit
Left k w stuck u = Unit

-- The computation returns from every world, and takes so much of the input if it succeeds.
unfoldable pub Takes : {E A : Type 0} → (A → ℕ) → Io E A → Type 0
Takes k m = (w : World) → IsDone (m w).0 × Left k w (m w).0 (m w).1

-- The computation returns where fewer than `n` bytes are left.
unfoldable pub Within : {E A : Type 0} → ℕ → Io E A → Type 0
Within n m = (w : World) → capacity w.stdin < n → IsDone (m w).0

abbrev pub IsCalm : {E A : Type 0} → Io E A → Type 0
IsCalm m = Takes (λ _. 0) m

module _ {E A : Type 0} where
  pub Takes-at :
      (k : A → ℕ) (m : Io E A)
      → ((w : World) → IsDone (m w).0 × Left k w (m w).0 (m w).1)
      → Takes k m
  unfolding Takes
  Takes-at k m h = h

  pub Takes-of :
      (k : A → ℕ) (m : Io E A) → Takes k m → (w : World) → IsDone (m w).0 × Left k w (m w).0 (m w).1
  unfolding Takes
  Takes-of k m h = h

  pub Within-at :
      (n : ℕ) (m : Io E A) → ((w : World) → capacity w.stdin < n → IsDone (m w).0) → Within n m
  unfolding Within
  Within-at n m h = h

  pub Within-of :
      (n : ℕ) (m : Io E A) → Within n m → (w : World) → capacity w.stdin < n → IsDone (m w).0
  unfolding Within
  Within-of n m h = h

  pub Within-mono : (n m : ℕ) (p : Io E A) → m ≤ n → Within n p → Within m p
  unfolding Within
  Within-mono n m p less h w few = h w (omega arith)

  pub Within-calm : (n : ℕ) (m : Io E A) → IsCalm m → Within n m
  unfolding Within Takes
  Within-calm n m h w few = (h w).0

  pub Within-if :
      (n : ℕ) (b : Bool) (m m' : Io E A)
      → (b ≡ true → Within n m)
      → (b ≡ false → Within n m')
      → Within n (if b then m else m')
  Within-if n true m m' g h = g refl
  Within-if n false m m' g h = h refl

  pub Takes-mapped :
      {F : Type 0} (f : E → F) (k : A → ℕ) (m : Io E A) → Takes k m → Takes k (map_err_of f m)
  unfolding Takes
  Takes-mapped {F = F} f k m h w = mapped (m w).0 (m w).1 (h w)
    where
      mapped :
          (r : Result E A) (u : World)
          → IsDone r × Left k w r u
          → IsDone (map_err f r) × Left k w (map_err f r) u
      mapped (ok a) u g = g
      mapped (err e) u g = g
      mapped stuck u g = g

  pub IsCalm-lift : (r : Result E A) → IsDone r → IsCalm (lift r)
  unfolding Takes
  IsCalm-lift (ok a) h w = (h, omega arith)
  IsCalm-lift (err e) h w = (h, tt)
  IsCalm-lift stuck h w = (h, tt)

  pub IsCalm-if : (b : Bool) (m n : Io E A) → IsCalm m → IsCalm n → IsCalm (if b then m else n)
  IsCalm-if true m n g h = g
  IsCalm-if false m n g h = h

pub IsCalm-pure : (E : Type 0) {A : Type 0} (a : A) → IsCalm {E = E} (pure a)
unfolding Takes
IsCalm-pure E a w = (tt, omega arith)

pub IsCalm-test : {E : Type 0} (b : Bool) (e : E) → IsCalm (ensure_not b e)
unfolding Takes
IsCalm-test true e w = (tt, tt)
IsCalm-test false e w = (tt, omega arith)

module _ {E A B : Type 0} where
  -- What is left for the rest of a computation, after a step that takes `k a` bytes.
  pub Within-bind :
      (n : ℕ) (k : A → ℕ) (m : Io E A) (f : A → Io E B)
      → Takes k m
      → ((a : A) → Within (n - k a) (f a))
      → Within n (m >>= f)
  unfolding Takes Within
  Within-bind n k m f g h w few = from (m w).0 (m w).1 (g w)
    where
      from : (r : Result E A) (u : World) → IsDone r × Left k w r u → IsDone (continue r f u).0
      from (ok a) u (done, left) = h a u (omega (arith, left, few))
      from (err e) u g = g.0
      from stuck u g = g.0

  pub Takes-bind :
      (k : A → ℕ) (j l : B → ℕ) (m : Io E A) (f : A → Io E B)
      → ((a : A) (b : B) → l b ≤ k a + j b)
      → Takes k m
      → ((a : A) → Takes j (f a))
      → Takes l (m >>= f)
  unfolding Takes
  Takes-bind k j l m f sum g h w = from (m w).0 (m w).1 (g w)
    where
      further :
          (a : A) (u : World) (r : Result E B) (v : World)
          → k a + capacity u.stdin ≤ capacity w.stdin
          → IsDone r × Left j u r v
          → IsDone r × Left l w r v
      further a u (ok b) v left (done, rest) = (done, omega (arith, left, rest, sum a b))
      further a u (err e) v left (done, rest) = (done, tt)
      further a u stuck v left (done, rest) = (done, tt)

      from :
          (r : Result E A) (u : World)
          → IsDone r × Left k w r u
          → IsDone (continue r f u).0 × Left l w (continue r f u).0 (continue r f u).1
      from (ok a) u (done, left) = further a u (f a u).0 (f a u).1 left (h a u)
      from (err e) u g = g
      from stuck u g = g

  pub IsCalm-bind :
      (m : Io E A) (f : A → Io E B) → IsCalm m → ((a : A) → IsCalm (f a)) → IsCalm (m >>= f)
  IsCalm-bind m f g h = Takes-bind (λ _. 0) (λ _. 0) (λ _. 0) m f (λ a b. omega arith) g h

  -- The first step takes `n` bytes, and the rest may take none.
  pub Takes-first :
      (n : ℕ) (m : Io E A) (f : A → Io E B)
      → Takes (λ _. n) m
      → ((a : A) → IsCalm (f a))
      → Takes (λ _. n) (m >>= f)
  Takes-first n m f g h = Takes-bind (λ _. n) (λ _. 0) (λ _. n) m f (λ a b. omega arith) g h

  -- A step that takes nothing, and the rest.
  pub Takes-after :
      (l : B → ℕ) (m : Io E A) (f : A → Io E B)
      → IsCalm m
      → ((a : A) → Takes l (f a))
      → Takes l (m >>= f)
  Takes-after l m f g h = Takes-bind (λ _. 0) l l m f (λ a b. omega arith) g h
