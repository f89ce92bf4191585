-- ===== src/Prelude/PathOrder.antt =====
-- The order of `str::cmp`, byte by byte, by which trees are sorted.
use Prim.Native.String.{String, compare}
use Prim.Native.String.compare
use mathlib.Core.Path.{◌≡◌, refl}
use mathlib.Core.Bool.{Bool, true, false}
use mathlib.Core.Logic.{inl, inr}
use native.Mathlib.Omega.{arith}
use clayers.Prelude.Tests.{Bool-cases}
use text.Mathlib.Text.{is_le}
use text.Mathlib.TextEquality.{codes_equal}

pub path_le : String → String → Bool
path_le s t = is_le (compare s t)

pub path_le_total : (s t : String) → path_le s t ≡ false → path_le t s ≡ true
unfolding path_le
path_le_total String.[] String.[] h = refl
path_le_total String.[] (String.◌∷◌ d t) h = ground (arith, compare.nil-cons d t)
path_le_total (String.◌∷◌ c s) String.[] h = ground (arith, compare.nil-cons c s)
path_le_total (String.◌∷◌ c s) (String.◌∷◌ d t) h =
    ground (arith, compare.cons-cons c d s t, compare.cons-cons d c t s, path_le_total s t)

pub path_le_antisym : (s t : String) → path_le s t ≡ true → path_le t s ≡ true → s ≡ t
unfolding path_le
path_le_antisym String.[] String.[] h k = refl
path_le_antisym String.[] (String.◌∷◌ d t) h k = ground (arith, compare.cons-nil d t)
path_le_antisym (String.◌∷◌ c s) String.[] h k = ground (arith, compare.cons-nil c s)
path_le_antisym (String.◌∷◌ c s) (String.◌∷◌ d t) h k = ground (
  arith,
  compare.cons-cons c d s t,
  compare.cons-cons d c t s,
  path_le_antisym s t,
  codes_equal c d,
)

pub path_le_trans : (s t u : String) → path_le s t ≡ true → path_le t u ≡ true → path_le s u ≡ true
unfolding path_le
path_le_trans String.[] t String.[] h k = refl
path_le_trans String.[] t (String.◌∷◌ e u) h k = ground (arith, compare.nil-cons e u)
path_le_trans (String.◌∷◌ c s) String.[] u h k = ground (arith, compare.cons-nil c s)
path_le_trans (String.◌∷◌ c s) (String.◌∷◌ d t) String.[] h k = ground (arith, compare.cons-nil d t)
path_le_trans (String.◌∷◌ c s) (String.◌∷◌ d t) (String.◌∷◌ e u) h k = ground (
  arith,
  compare.cons-cons c d s t,
  compare.cons-cons d e t u,
  compare.cons-cons c e s u,
  path_le_trans s t u,
)

pub path_le_refl : (s : String) → path_le s s ≡ true
path_le_refl s = elim (Bool-cases (path_le s s)) [ inl e ↦ e | inr e ↦ path_le_total s s e ]
