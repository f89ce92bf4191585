-- ===== src/Examples/Histories.antt =====
-- Histories of `origin`.
use clayers.Prelude.{
  ◌≡◌, refl, ◌↔◌, ◌≢◌, none, some, List, [], ◌∷◌, length, distinct, ◌≤◌, nat_eq, true,
}
use clayers.Prelude.Dict.{keys, lookup}
use clayers.Error.{ContentHash, ok, out_of_fuel}
use clayers.Object.{commit, CommitObject}
use clayers.Store.{fetch}
use clayers.Store.Memory
use clayers.Store.Subtree.Reach.{Reach}
use clayers.Graph.{
  common_ancestor, rounds, expand, scan, get_commit_parents, parents_of, walk_history, history,
  enqueue,
}
use clayers.Graph.Rounds.{Ancestor}
use clayers.Graph.Common.{common_ancestor_sound}
use clayers.Graph.Disjoint.{common_ancestor_complete}
use clayers.Graph.CommonEnds.{search_fuel, common_ancestor_ends}
use clayers.Graph.History.{walk_history_exact}
use clayers.Graph.HistoryEnds.{history_fuel, length-walk_history, walk_history_ends}
use clayers.Examples.Data.{origin, newer, commit_with}

met : common_ancestor (Memory.get origin) 10 7 6 ≡ ok (some 6)
unfolding common_ancestor rounds expand scan get_commit_parents fetch Memory.get lookup
met = refl

common_ancestor_sound_example : Ancestor (Memory.get origin) 7 6 × Ancestor (Memory.get origin) 6 6
common_ancestor_sound_example = common_ancestor_sound (Memory.get origin) 10 7 6 6 met

-- An element's document has no commit above it, so nothing is common.
disjoint : common_ancestor (Memory.get origin) 10 5 3 ≡ ok none
unfolding common_ancestor rounds expand scan get_commit_parents fetch Memory.get lookup
disjoint = refl

common_ancestor_complete_example : ¬ Ancestor (Memory.get origin) 3 5
common_ancestor_complete_example =
    common_ancestor_complete (Memory.get origin) 10 5 3 disjoint 5 Reach.here

common_ancestor_ends_example :
    common_ancestor (Memory.get origin) (search_fuel newer) 8 6 ≢ out_of_fuel
unfolding Memory.get
common_ancestor_ends_example = common_ancestor_ends (Memory.get origin) newer (λ h. refl) 8 6

abbrev log : List (ContentHash × CommitObject)
log = (7, commit_with (6 ∷ [])) ∷ (6, commit_with (5 ∷ [])) ∷ (5, commit_with []) ∷ []

logged : walk_history (Memory.get origin) 10 7 none ≡ ok log
unfolding walk_history history enqueue fetch Memory.get lookup
logged = refl

walk_history_exact_example :
    (distinct (keys log) ≡ true)
    × ((h : ContentHash) (c : CommitObject)
        → (lookup h log ≡ some c) ↔ (
            Reach parents_of (Memory.get origin) 7 h
            × (fetch (Memory.get origin) h ≡ ok (commit c))))
walk_history_exact_example = walk_history_exact (Memory.get origin) 10 7 log logged

abbrev short_log : List (ContentHash × CommitObject)
short_log = (7, commit_with (6 ∷ [])) ∷ (6, commit_with (5 ∷ [])) ∷ []

cut_short : walk_history (Memory.get origin) 10 7 (some 2) ≡ ok short_log
unfolding walk_history history enqueue fetch Memory.get lookup
cut_short = refl

length-walk_history_example : length short_log ≤ 2
length-walk_history_example = length-walk_history (Memory.get origin) 10 2 7 short_log cut_short

walk_history_ends_example :
    walk_history (Memory.get origin) (history_fuel newer) 8 none ≢ out_of_fuel
unfolding Memory.get
walk_history_ends_example = walk_history_ends (Memory.get origin) newer (λ h. refl) 8 none
