-- ===== src/World/Silence.antt =====
-- Computations that write nothing to standard output.
use pipek.Prelude.{
  ℕ, ◌≡◌, refl, ◌∙◌, Bool, Result, lift, pure, ensure_not, ◌>>=◌, map_err_of, String,
}
use pipek.Error.{IoError}
use pipek.World.{World, Io, stdin_read, stdin_read_exact, eprintln}
use pipek.World.Files.{fs_read}
use pipek.World.Keeps.{IsOrder, Keeps, Keeps-at, Keeps-bind, Keeps-lift, Keeps-pure, Keeps-test}

-- Standard output is as it was.
abbrev pub Mute : World → World → Type 0
Mute w u = u.stdout ≡ w.stdout

pub Mute-IsOrder : IsOrder Mute
Mute-IsOrder = record { same = λ w. refl; trans = λ w u v h k. k ∙ h }

-- The computation leaves standard output as it was, whether it succeeds or not.
abbrev pub IsSilent : {E A : Type 0} → Io E A → Type 0
IsSilent m = Keeps Mute m

pub IsSilent-bind :
    {E A B : Type 0} (m : Io E A) (f : A → Io E B)
    → IsSilent m
    → ((a : A) → IsSilent (f a))
    → IsSilent (m >>= f)
IsSilent-bind m f g k = Keeps-bind Mute Mute-IsOrder m f g k

pub IsSilent-lift : {E A : Type 0} (r : Result E A) → IsSilent (lift r)
IsSilent-lift r = Keeps-lift Mute Mute-IsOrder r

pub IsSilent-pure : (E : Type 0) {A : Type 0} (a : A) → IsSilent {E = E} (pure a)
IsSilent-pure E a = Keeps-pure Mute Mute-IsOrder E a

pub IsSilent-test : {E : Type 0} (b : Bool) (e : E) → IsSilent (ensure_not b e)
IsSilent-test b e = Keeps-test Mute Mute-IsOrder b e

-- Reads, as the decryptor makes them: the failure is mapped to an error of the program.
pub IsSilent-read_exact :
    {F : Type 0} (f : IoError → F) (n : ℕ) → IsSilent (map_err_of f (stdin_read_exact n))
unfolding stdin_read_exact
IsSilent-read_exact f n = Keeps-at _ _ λ w. refl

pub IsSilent-read : {F : Type 0} (f : IoError → F) (n : ℕ) → IsSilent (map_err_of f (stdin_read n))
unfolding stdin_read
IsSilent-read f n = Keeps-at _ _ λ w. refl

pub IsSilent-fs_read :
    {F : Type 0} (f : IoError → F) (path : String) → IsSilent (map_err_of f (fs_read path))
unfolding fs_read
IsSilent-fs_read f path = Keeps-at _ _ λ w. refl

pub IsSilent-eprintln : (E : Type 0) (line : String) → IsSilent (eprintln {E = E} line)
unfolding eprintln
IsSilent-eprintln E line = Keeps-at _ _ λ w. refl
