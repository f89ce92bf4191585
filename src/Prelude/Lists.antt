-- ===== src/Prelude/Lists.antt =====
-- Lists measured by native numbers, and membership as a test (Rust's `contains`).
use Prim.Native.Nat.{ℕ, zero, suc, ◌+◌}
use mathlib.Core.Path.{◌≡◌, refl}
use mathlib.Core.Bool.{Bool, true, false, ◌||◌, ◌&&◌, not}
use mathlib.Core.List.{List, [], ◌∷◌, ◌++◌}
use native.Mathlib.Omega.{arith}
use clayers.Prelude.Tests.{Eq, ◌==◌, if◌then◌else◌}

module _ {ℓ} {A : Type ℓ} where
  abbrev pub length : List A → ℕ
  length [] = 0
  length (x ∷ xs) = suc (length xs)

  abbrev pub take : ℕ → List A → List A
  take zero xs = []
  take (suc n) [] = []
  take (suc n) (x ∷ xs) = x ∷ take n xs

  pub length-append : (xs ys : List A) → length (xs ++ ys) ≡ length xs + length ys
  length-append [] ys = omega arith
  length-append (x ∷ xs) ys = omega (arith, length-append xs ys)

  -- `Vec::push` and `Vec::extend` on a stack whose top is the head of the list.
  abbrev pub push_all : List A → List A → List A
  push_all stack [] = stack
  push_all stack (x ∷ xs) = push_all (x ∷ stack) xs

  pub length-push_all : (stack xs : List A) → length (push_all stack xs) ≡ length stack + length xs
  length-push_all stack [] = omega arith
  length-push_all stack (x ∷ xs) = omega (arith, length-push_all (x ∷ stack) xs)

  abbrev pub filter_by : (A → Bool) → List A → List A
  filter_by p [] = []
  filter_by p (x ∷ xs) = let rest = filter_by p xs in elim (p x) [ true ↦ x ∷ rest | false ↦ rest ]

  abbrev pub any : (A → Bool) → List A → Bool
  any p [] = false
  any p (x ∷ xs) = p x || any p xs

module _ {ℓ} {A : Type ℓ} ⦃e : Eq A⦄ where
  abbrev pub contains : List A → A → Bool
  contains [] a = false
  contains (x ∷ xs) a = x == a || contains xs a

  -- No element stands twice.
  abbrev pub distinct : List A → Bool
  distinct [] = true
  distinct (x ∷ xs) = not (contains xs x) && distinct xs

  pub contains-append :
      (xs ys : List A) (a : A) → contains (xs ++ ys) a ≡ (contains xs a || contains ys a)
  contains-append [] ys a = refl
  contains-append (x ∷ xs) ys a = ground (arith, contains-append xs ys a)

  pub contains-push_all :
      (stack xs : List A) (a : A)
      → contains (push_all stack xs) a ≡ (contains stack a || contains xs a)
  contains-push_all stack [] a = ground arith
  contains-push_all stack (x ∷ xs) a = ground (arith, contains-push_all (x ∷ stack) xs a)

module _ {ℓ} {A : Type ℓ} ⦃e : Eq A⦄ where
  pub distinct-push :
      (xs : List A) (a : A)
      → contains xs a ≡ false
      → distinct xs ≡ true
      → distinct (xs ++ a ∷ []) ≡ true
  distinct-push [] a n d = refl
  distinct-push (x ∷ xs) a n d =
      ground
        (arith, distinct-push xs a, contains-append xs (a ∷ []) x, e.beq_iff a x, e.beq_iff x a)

  -- The new elements of a list behind the old ones, each once: a list filled through `HashSet::insert`.
  abbrev pub add_all : List A → List A → List A
  add_all seen [] = seen
  add_all seen (x ∷ xs) = add_all (if contains seen x then seen else seen ++ x ∷ []) xs

  pub contains-add_all :
      (seen xs : List A) (a : A) → contains (add_all seen xs) a ≡ (contains seen a || contains xs a)
  contains-add_all seen [] a = ground arith
  contains-add_all seen (x ∷ xs) a = ground (
    arith,
    contains-add_all (if contains seen x then seen else seen ++ x ∷ []) xs a,
    contains-append seen (x ∷ []) a,
    e.beq_iff x a,
  )

  pub distinct-add_all :
      (seen xs : List A) → distinct seen ≡ true → distinct (add_all seen xs) ≡ true
  distinct-add_all seen [] d = d
  distinct-add_all seen (x ∷ xs) d =
      distinct-add_all (if contains seen x then seen else seen ++ x ∷ []) xs
        (ground (arith, distinct-push seen x))

  -- `HashSet::insert` and `HashSet::remove` on a list.
  abbrev pub with_member : A → List A → List A
  with_member a xs = if contains xs a then xs else a ∷ xs

  abbrev pub without : A → List A → List A
  without a [] = []
  without a (x ∷ xs) = let rest = without a xs in if x == a then rest else x ∷ rest

  pub contains-with_member :
      (a b : A) (xs : List A) → contains (with_member a xs) b ≡ (a == b || contains xs b)
  contains-with_member a b xs = ground (arith, e.beq_iff a b)

  pub contains-without :
      (a b : A) (xs : List A) → contains (without a xs) b ≡ (not (a == b) && contains xs b)
  contains-without a b [] = ground arith
  contains-without a b (x ∷ xs) =
      ground (arith, contains-without a b xs, e.beq_iff a b, e.beq_iff x a, e.beq_iff x b)

  pub distinct-with_member :
      (a : A) (xs : List A) → distinct xs ≡ true → distinct (with_member a xs) ≡ true
  distinct-with_member a xs d = ground arith

  pub distinct-without : (a : A) (xs : List A) → distinct xs ≡ true → distinct (without a xs) ≡ true
  distinct-without a [] d = refl
  distinct-without a (x ∷ xs) d = ground (arith, distinct-without a xs, contains-without a x xs)
