-- ===== src/World.antt =====
-- Code that calls the outside world: it takes the world and returns it with its result.
use iolink.Base.{
  ◌≡◌, refl, ◌⊎◌, inl, inr, Bool, true, false, Option, none, some, GoError, Result, ok, err,
}

abbrev pub M : Type 0 → Type 0 → Type 0
M W A = W → W × Result A

abbrev pub continue : {W A B : Type 0} → (A → M W B) → W × Result A → W × Result B
continue f (w, ok a) = f a w
continue f (w, err e) = (w, err e)

infixl 5 ◌>>=◌ ◌>>◌
abbrev pub ◌>>=◌ : {W A B : Type 0} → M W A → (A → M W B) → M W B
◌>>=◌ m f w = continue f (m w)

abbrev pub ◌>>◌ : {W B : Type 0} → M W (Unit {0}) → M W B → M W B
m >> k = m >>= λ _. k

abbrev pub lift : {W A : Type 0} → Result A → M W A
lift r w = (w, r)

abbrev pub return : {W A : Type 0} → A → M W A
return a w = (w, ok a)

-- `if !b { return e }`.
abbrev pub require : {W : Type 0} → Bool → GoError → M W (Unit {0})
require true e w = (w, ok tt)
require false e w = (w, err e)

-- `if x == nil { return e }`.
abbrev pub need : {W A : Type 0} → Option A → GoError → M W A
need (some a) e w = (w, ok a)
need none e w = (w, err e)

abbrev translate : {W A : Type 0} → (GoError → GoError) → W × Result A → W × Result A
translate f (w, ok a) = (w, ok a)
translate f (w, err e) = (w, err (f e))

-- `if err != nil { return f(err) }` after a call.
abbrev pub on_err : {W A : Type 0} → (GoError → GoError) → M W A → M W A
on_err f m w = translate f (m w)

-- The two ways in which a call ends.
pub Run-cases :
    {W A : Type 0} (r : W × Result A)
    → ((w : W) × (a : A) × (r ≡ (w, ok a))) ⊎ ((w : W) × (e : GoError) × (r ≡ (w, err e)))
Run-cases (w, ok a) = inl (w, a, refl)
Run-cases (w, err e) = inr (w, e, refl)
