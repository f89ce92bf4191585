-- ===== src/Examples/Children.antt =====
-- The children of an element of `origin`, keyed.
use clayers.Prelude.{◌≡◌, refl, List, [], ◌∷◌}
use clayers.Prelude.Dict.{lookup, insert}
use clayers.Error.{ContentHash, ok}
use clayers.Store.{fetch}
use clayers.Store.Memory
use clayers.Merge.Children.{
  ChildKey, element_by_pos, text_at, id_value, key_of_child, key_each, key_children,
}
use clayers.Merge.Children.Keys.{hashes, Once, key_children_lem}
use clayers.Examples.Data.{origin}

abbrev keyed : List (ChildKey × ContentHash)
keyed =
    (text_at 0, 1)
    ∷ (element_by_pos "body" 0, 2)
    ∷ (text_at 1, 1)
    ∷ (element_by_pos "body" 1, 2)
    ∷ []

done : key_children (Memory.get origin) (1 ∷ 2 ∷ 1 ∷ 2 ∷ []) ≡ ok keyed
unfolding key_children key_each key_of_child id_value fetch Memory.get lookup insert
done = refl

key_children_lem_example : (hashes keyed ≡ 1 ∷ 2 ∷ 1 ∷ 2 ∷ []) × Once keyed
key_children_lem_example = key_children_lem (Memory.get origin) (1 ∷ 2 ∷ 1 ∷ 2 ∷ []) keyed done
