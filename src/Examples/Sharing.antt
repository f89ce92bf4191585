-- ===== src/Examples/Sharing.antt =====
-- Synchronisation from `origin` to `clone`.
use clayers.Prelude.{
  ◌≡◌, ◌≢◌, refl, ◌⊎◌, ◌↔◌, String, Option, none, some, [], ◌∷◌, if◌then◌else◌, ◌==◌, string_eq,
  true, false,
}
use clayers.Error.{ref, ok, err, out_of_fuel}
use clayers.Object.{Object, commit, links}
use clayers.Store.{fetch}
use clayers.Store.Memory
use clayers.Store.Memory.{MemoryStore}
use clayers.Store.Memory.Backend.{memory, subtree, memory-IsLawful}
use clayers.Store.Subtree.{subtree_walk, walk, try_collect_stream}
use clayers.Store.Subtree.Reach.{Reach}
use clayers.Graph.{common_ancestor, rounds, expand, scan, get_commit_parents}
use clayers.Graph.Rounds.{Ancestor}
use clayers.Sync.{
  RefConflict, fast_forward_only, transfer_objects, missing_from, write_missing, decide, finish,
  update_ref, sync_ref,
}
use clayers.Sync.SyncRef.{get_ref-sync_ref, get-sync_ref, get_ref-sync_ref-false}
use clayers.Graph.CommonEnds.{search_fuel}
use clayers.Sync.Ends.{sync_ref_ends}
use clayers.Sync.FastForward.{sync_ref_fast_forward, Crossing, fast_forward_refused}
use clayers.Prelude.Dict.{lookup, insert}
use clayers.Examples.Data.{origin, clone, commit_with}

abbrev main : String
main = "refs/heads/main"

abbrev policy : RefConflict MemoryStore
policy = fast_forward_only memory (λ _. 10)

synced : (sync_ref memory origin memory main policy clone).0 ≡ ok true
unfolding sync_ref update_ref decide finish transfer_objects missing_from write_missing
    fast_forward_only common_ancestor rounds expand scan get_commit_parents fetch subtree
    subtree_walk walk try_collect_stream Memory.get Memory.contains Memory.get_ref Memory.set_ref
    Memory.write_batch Memory.commit Memory.flush Memory.put_each Memory.put lookup insert
synced = refl

abbrev before : Option Object
before = none

get-sync_ref_example :
    (Memory.get (sync_ref memory origin memory main policy clone).1 7
      ≡ ok (some (commit (commit_with (6 ∷ [])))))
    ↔ ((before ≡ some (commit (commit_with (6 ∷ []))))
        ⊎ (before ≡ none)
          × Reach links (Memory.get origin) 7 7
          × (fetch (Memory.get origin) 7 ≡ ok (commit (commit_with (6 ∷ [])))))
unfolding Memory.get Memory.get_ref lookup
get-sync_ref_example =
    get-sync_ref memory origin memory memory-IsLawful memory-IsLawful main policy clone 7 7
      (commit (commit_with (6 ∷ []))) synced refl before refl

get_ref-sync_ref_example :
    Memory.get_ref (sync_ref memory origin memory main policy clone).1 main
    ≡ (if main == main then Memory.get_ref origin main else Memory.get_ref clone main)
get_ref-sync_ref_example =
    get_ref-sync_ref memory origin memory memory-IsLawful memory-IsLawful main policy clone main
      synced

-- The other way round there is nothing to do once the two have the same value.
unchanged : (sync_ref memory origin memory main policy origin).0 ≡ ok false
unfolding sync_ref update_ref decide finish Memory.get_ref lookup
unchanged = refl

get_ref-sync_ref-false_example :
    Memory.get_ref (sync_ref memory origin memory main policy origin).1 main
    ≡ Memory.get_ref origin main
get_ref-sync_ref-false_example =
    get_ref-sync_ref-false memory origin memory memory-IsLawful memory-IsLawful main policy origin
      main unchanged

sync_ref_fast_forward_example :
    Ancestor (Memory.get (transfer_objects memory origin memory 7 clone).1) 7 6
unfolding Memory.get_ref lookup
sync_ref_fast_forward_example =
    sync_ref_fast_forward memory origin memory (λ _. 10) main clone 7 6 synced refl refl

-- 8 was made from 5 and from 7, 7 from 6, and 6 from 5.
crossing : Crossing (Memory.get origin) 8 7 6 5
unfolding fetch Memory.get lookup
crossing = record {
  new_commit = commit_with (5 ∷ 7 ∷ []);
  new_there = refl;
  new_parents = refl;
  side_commit = commit_with (6 ∷ []);
  side_there = refl;
  side_parents = refl;
  old_commit = commit_with (5 ∷ []);
  old_there = refl;
  old_parents = refl;
  apart = refl;
}

fast_forward_refused_example :
    Ancestor (Memory.get origin) 8 6
    × (common_ancestor (Memory.get origin) 10 8 6 ≡ ok (some 5))
    × (fast_forward_only memory (λ _. 10) origin main 8 6
        ≡ err (ref "cannot fast-forward: destination is not an ancestor of source"))
fast_forward_refused_example = fast_forward_refused memory origin main 8 7 6 5 9 crossing

sync_ref_ends_example :
    (sync_ref memory origin memory main
      (fast_forward_only memory (λ t. search_fuel t.objects))
      clone).0
    ≢ out_of_fuel
sync_ref_ends_example = sync_ref_ends origin main clone
