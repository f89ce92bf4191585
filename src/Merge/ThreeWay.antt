-- ===== src/Merge/ThreeWay.antt =====
-- The specification of a three-way merge of one value: a side that did not change gives way to the
-- other, and two sides that changed differently are a conflict.
use clayers.Prelude.{◌≡◌, Option, none, some, Eq, ◌==◌, if◌then◌else◌, arith}

module _ {ℓ} {A : Type ℓ} ⦃e : Eq A⦄ where
  abbrev pub three_way : A → A → A → Option A
  three_way ancestor ours theirs =
      if ours == theirs
      then some ours
      else if theirs == ancestor
      then some ours
      else if ours == ancestor
      then some theirs
      else none

  -- It does not matter which side is called ours.
  pub three_way_symm : (a o t : A) → three_way a o t ≡ three_way a t o
  three_way_symm a o t = ground (arith, e.beq_iff o t, e.beq_iff t o, e.beq_iff t a, e.beq_iff o a)
