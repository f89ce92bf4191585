-- ===== src/Action.antt =====
-- Calls that write: the result of each, an error too, comes with the state that it left behind.
use clayers.Prelude.{◌≡◌, refl}
use clayers.Error.{Error, Result, ok, err, out_of_fuel}

abbrev pub Action : Type 0 → Type 0 → Type 0
Action S A = S → Result A × S

abbrev pub pure : {S A : Type 0} → A → Action S A
pure a s = (ok a, s)

abbrev pub raise : {S A : Type 0} → Error → Action S A
raise e s = (err e, s)

-- A call that only reads.
abbrev pub reading : {S A : Type 0} → (S → Result A) → Action S A
reading f s = (f s, s)

abbrev pub lift : {S A : Type 0} → Result A → Action S A
lift r s = (r, s)

abbrev pub continue : {S A B : Type 0} → Result A → (A → Action S B) → Action S B
continue (ok a) f s = f a s
continue (err e) f s = (err e, s)
continue out_of_fuel f s = (out_of_fuel, s)

infixl 10 ◌>>=◌ ◌>>◌
abbrev pub ◌>>=◌ : {S A B : Type 0} → Action S A → (A → Action S B) → Action S B
◌>>=◌ m f s = continue (m s).0 f (m s).1

abbrev pub ◌>>◌ : {S A B : Type 0} → Action S A → Action S B → Action S B
m >> n = m >>= λ _. n

-- Inversion of a successful bind.
pub >>=-eq-ok :
    {S A B : Type 0} (m : Action S A) (f : A → Action S B) (s : S) {b : B}
    → ((m >>= f) s).0 ≡ ok b
    → (a : A) × ((m s).0 ≡ ok a) × ((f a (m s).1).0 ≡ ok b) × (((m >>= f) s).1 ≡ (f a (m s).1).1)
>>=-eq-ok {S} {A} {B} m f s {b} = go (m s).0 (m s).1
  where
    go :
        (r : Result A) (t : S)
        → (continue r f t).0 ≡ ok b
        → (a : A) × (r ≡ ok a) × ((f a t).0 ≡ ok b) × ((continue r f t).1 ≡ (f a t).1)
    go (ok a) t h = (a, refl, h, refl)
    go (err e) t h = cc
    go out_of_fuel t h = cc
