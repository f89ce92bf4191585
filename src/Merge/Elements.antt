-- ===== src/Merge/Elements.antt =====
-- The merge of the children of three elements, a part of `merge_elements_cached`
-- (crates/clayers-repo/src/merge.rs).
pub mod Recursion
pub mod Children
pub mod Merged
pub mod Stored
pub mod Documents
use clayers.Prelude.{
  ℕ, zero, suc, String, Bool, true, false, ◌&&◌, Option, none, some, List, [], ◌∷◌, ◌++◌, contains,
  ◌==◌, nat_eq, string_eq, option_eq, Eq, if◌then◌else◌,
}
use clayers.Prelude.Dict.{Dict, lookup, insert, remove, collect, keys}
use clayers.Error.{ContentHash, Result, ok, err, out_of_fuel, ◌>>=◌ as and_then}
use clayers.Object.{Object, element, document, Attribute, ElementObject, DocumentObject}
use clayers.Store.{fetch}
use clayers.Store.Lawful.{Backend, is_some}
use clayers.Action.{Action, pure, lift, reading, ◌>>=◌}
use clayers.Merge.Attributes.{merge_attributes}
use clayers.Merge.Children.{ChildKey, child_key_eq, key_children}

-- What becomes of one child, and what the loops make of all.
pub data Placed : Type 0 where
  kept : ContentHash → Placed
  dropped conflicting : Placed
  both_changed : ContentHash → ContentHash → ContentHash → Placed

-- The `match (a, o, t)` over ours' children; the last case does not come up there.
unfoldable pub place : Option ContentHash → Option ContentHash → Option ContentHash → Placed
place (some ah) (some oh) (some th) =
    if oh == th
    then kept oh
    else if th == ah
    then kept oh
    else if oh == ah
    then kept th
    else both_changed ah oh th
place (some ah) (some oh) none = if oh == ah then dropped else conflicting
place none (some oh) (some th) = if oh == th then kept oh else conflicting
place none (some oh) none = kept oh
place a none t = dropped

-- The `match (a, t)` over theirs' children that ours does not have.
unfoldable pub place_theirs : Option ContentHash → Option ContentHash → Placed
place_theirs (some ah) (some th) = if th == ah then dropped else conflicting
place_theirs none (some th) = kept th
place_theirs a none = dropped

abbrev pub Keyed : Type 0
Keyed = List (ChildKey × ContentHash)

-- A child or more in front of the others, unless there is a conflict.
abbrev pub before : List ContentHash → Option (List ContentHash) → Option (List ContentHash)
before hs none = none
before hs (some rest) = some (hs ++ rest)

abbrev pub one_merged : Option ContentHash → Option (List ContentHash)
one_merged none = none
one_merged (some h) = some (h ∷ [])

abbrev pub Recursive : Type 0 → Type 0
Recursive St = ContentHash → ContentHash → ContentHash → Action St (Option ContentHash)

module _ {St : Type 0} where
  unfoldable pub push_placed : Recursive St → Placed → Action St (Option (List ContentHash))
  push_placed again (kept h) = pure (some (h ∷ []))
  push_placed again dropped = pure (some [])
  push_placed again conflicting = pure none
  push_placed again (both_changed ah oh th) = again ah oh th >>= λ merged. pure (one_merged merged)

  abbrev pub then_rest :
      Action St (Option (List ContentHash))
      → Option (List ContentHash)
      → Action St (Option (List ContentHash))
  then_rest rest none = pure none
  then_rest rest (some hs) = rest >>= λ others. pure (before hs others)

  -- The loop over theirs' children.
  unfoldable pub theirs_children :
      Recursive St
      → Dict ChildKey ContentHash
      → Dict ChildKey ContentHash
      → List ChildKey
      → Keyed
      → Action St (Option (List ContentHash))
  theirs_children again anc their processed [] = pure (some [])
  theirs_children again anc their processed ((key, h) ∷ keyed) =
      let rest = theirs_children again anc their processed keyed in
      if contains processed key
      then rest
      else push_placed again (place_theirs (lookup key anc) (lookup key their)) >>= then_rest rest

  -- The loop over ours' children, and then the other.
  unfoldable pub merged_children :
      Recursive St
      → Dict ChildKey ContentHash
      → Dict ChildKey ContentHash
      → Dict ChildKey ContentHash
      → List ChildKey
      → Keyed
      → Keyed
      → Action St (Option (List ContentHash))
  merged_children again anc our their processed [] theirs_keyed =
      theirs_children again anc their processed theirs_keyed
  merged_children again anc our their processed ((key, h) ∷ keyed) theirs_keyed =
      push_placed again (place (lookup key anc) (lookup key our) (lookup key their))
      >>= then_rest (merged_children again anc our their (key ∷ processed) keyed theirs_keyed)
