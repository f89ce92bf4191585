-- ===== src/Merge/Attributes.antt =====
-- `merge_attributes` (crates/clayers-repo/src/merge.rs).
pub mod Values
pub mod Refines
use clayers.Prelude.{
  String, Bool, true, false, ◌||◌, Option, none, some, List, [], ◌∷◌, ◌++◌, contains, add_all, Eq,
  ◌==◌, string_eq, option_eq, pair_eq, if◌then◌else◌,
}
use clayers.Prelude.Dict.{Dict, lookup, collect}
use clayers.Object.{Attribute}

-- An attribute's local name and namespace.
abbrev pub Key : Type 0
Key = String × Option String

-- Shut, so that proofs do not compute through the two names.
instance unfoldable pub key_eq : Eq Key
key_eq = pair_eq

abbrev pub key_of : Attribute → Key
key_of a = (a.local_name, a.namespace_uri)

abbrev pub keyed : List Attribute → List (Key × Attribute)
keyed [] = []
keyed (a ∷ attrs) = (key_of a, a) ∷ keyed attrs

-- `iter().map(...).collect()` into a map from the keys.
unfoldable pub attribute_map : List Attribute → Dict Key Attribute
attribute_map attrs = collect [] (keyed attrs)

abbrev pub keys_of : List Attribute → List Key
keys_of [] = []
keys_of (a ∷ attrs) = key_of a ∷ keys_of attrs

-- Ours first, then theirs, then the ancestor's, each key once.
unfoldable pub ordered_keys : List Attribute → List Attribute → List Attribute → List Key
ordered_keys ancestor ours theirs =
    add_all (add_all (add_all [] (keys_of ours)) (keys_of theirs)) (keys_of ancestor)

-- What becomes of one key.
pub data Verdict : Type 0 where
  keep : Attribute → Verdict
  gone clash : Verdict

-- The `match (a, o, t)` of the loop.
unfoldable pub judge : Option Attribute → Option Attribute → Option Attribute → Verdict
judge (some av) (some ov) (some tv) =
    if ov.value == tv.value || tv.value == av.value
    then keep ov
    else if ov.value == av.value
    then keep tv
    else clash
judge none (some ov) none = keep ov
judge none none (some tv) = keep tv
judge none (some ov) (some tv) = if ov.value == tv.value then keep ov else clash
judge (some av) none (some tv) = if tv.value == av.value then gone else clash
judge (some av) (some ov) none = if ov.value == av.value then gone else clash
judge (some av) none none = gone
judge none none none = gone

abbrev pub pushed : Verdict → Option (List Attribute) → Option (List Attribute)
pushed (keep a) none = none
pushed (keep a) (some rest) = some (a ∷ rest)
pushed gone rest = rest
pushed clash rest = none

-- The loop over the keys.
unfoldable pub merge_keys :
    Dict Key Attribute
    → Dict Key Attribute
    → Dict Key Attribute
    → List Key
    → Option (List Attribute)
merge_keys anc our their [] = some []
merge_keys anc our their (k ∷ keys) =
    pushed (judge (lookup k anc) (lookup k our) (lookup k their)) (merge_keys anc our their keys)

unfoldable pub merge_attributes :
    List Attribute → List Attribute → List Attribute → Option (List Attribute)
merge_attributes ancestor ours theirs =
    merge_keys (attribute_map ancestor) (attribute_map ours) (attribute_map theirs)
      (ordered_keys ancestor ours theirs)
