-- ===== src/World/Keeps.antt =====
-- What a computation keeps of the world: a reflexive and transitive relation between the worlds
-- before and after it, whether it succeeds or not.
use pipek.Prelude.{
  Bool, true, false, Result, ok, err, stuck, lift, pure, ensure_not, continue, ◌>>=◌, map_err_of,
  if◌then◌else◌,
}
use pipek.World.{World, Io}

pub record IsOrder (R : World → World → Type 0) : Type 0 where
  pub same : (w : World) → R w w
  pub trans : (w u v : World) → R w u → R u v → R w v

module _ (R : World → World → Type 0) where
  unfoldable pub Keeps : {E A : Type 0} → Io E A → Type 0
  Keeps m = (w : World) → R w (m w).1

  pub Keeps-at : {E A : Type 0} (m : Io E A) → ((w : World) → R w (m w).1) → Keeps m
  unfolding Keeps
  Keeps-at m h = h

  pub Keeps-of : {E A : Type 0} (m : Io E A) → Keeps m → (w : World) → R w (m w).1
  unfolding Keeps
  Keeps-of m h = h

  pub Keeps-mapped : {E F A : Type 0} (f : E → F) (m : Io E A) → Keeps m → Keeps (map_err_of f m)
  unfolding Keeps
  Keeps-mapped f m g = g

  pub Keeps-if :
      {E A : Type 0} (b : Bool) (m n : Io E A) → Keeps m → Keeps n → Keeps (if b then m else n)
  Keeps-if true m n g h = g
  Keeps-if false m n g h = h

  module _ (O : IsOrder R) where
    pub Keeps-bind :
        {E A B : Type 0} (m : Io E A) (f : A → Io E B)
        → Keeps m
        → ((a : A) → Keeps (f a))
        → Keeps (m >>= f)
    unfolding Keeps
    Keeps-bind {E = E} {A = A} {B = B} m f g k w = from (m w).0 (m w).1 (g w)
      where
        from : (r : Result E A) (u : World) → R w u → R w (continue r f u).1
        from (ok a) u e = O.trans w u _ e (k a u)
        from (err x) u e = e
        from stuck u e = e

    pub Keeps-lift : {E A : Type 0} (r : Result E A) → Keeps (lift r)
    unfolding Keeps
    Keeps-lift r w = O.same w

    pub Keeps-pure : (E : Type 0) {A : Type 0} (a : A) → Keeps {E = E} (pure a)
    unfolding Keeps
    Keeps-pure E a w = O.same w

    pub Keeps-test : {E : Type 0} (b : Bool) (e : E) → Keeps (ensure_not b e)
    unfolding Keeps
    Keeps-test true e = λ w. O.same w
    Keeps-test false e = λ w. O.same w
