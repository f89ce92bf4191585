-- ===== src/Sync/Ends.antt =====
-- Synchronising two in-memory stores comes to an end.
use clayers.Prelude.{
  refl, ◌≢◌, inl, inr, String, ◌<>◌, Bool, true, false, Option, none, some, List, [], ◌∷◌, ◌==◌,
  nat_eq, arith, Bool-cases,
}
use clayers.Error.{ContentHash, ref, Result, ok, err, out_of_fuel, ok_or}
use clayers.Object.{Object}
use clayers.Action.{Action, pure, reading, lift, continue, ◌>>=◌}
use clayers.Store.Memory
use clayers.Store.Memory.{MemoryStore}
use clayers.Store.Memory.Backend.{memory, subtree, subtree_ends}
use clayers.Store.Memory.Transactions.{write_batch_lem}
use clayers.Store.Subtree.{try_collect_stream}
use clayers.Graph.CommonEnds.{search_fuel, common_ancestor_ends}
use clayers.Sync.{
  RefConflict, fast_forward_only, missing_from, write_missing, transfer_objects, decide, finish,
  update_ref, sync_ref,
}

-- A chain of two calls that write ends if both do.
chain_ends :
    {S A B : Type 0} (m : Action S A) (f : A → Action S B) (s : S)
    → (m s).0 ≢ out_of_fuel
    → ((a : A) (t : S) → (f a t).0 ≢ out_of_fuel)
    → ((m >>= f) s).0 ≢ out_of_fuel
chain_ends {S} {A} {B} m f s one two = go (m s).0 (m s).1 one
  where
    go : (r : Result A) (t : S) → r ≢ out_of_fuel → (continue r f t).0 ≢ out_of_fuel
    go (ok a) t n = two a t
    go (err e) t n = λ p. cc
    go out_of_fuel t n = λ p. n refl

missing_from_ends :
    (s : MemoryStore) (objects : List (ContentHash × Object))
    → missing_from memory s objects ≢ out_of_fuel
unfolding missing_from Memory.contains
missing_from_ends s [] = λ p. cc
missing_from_ends s ((h, o) ∷ objects) = ground (arith, missing_from_ends s objects)

write_missing_ends :
    (objects : List (ContentHash × Object)) (s : MemoryStore)
    → (write_missing memory objects s).0 ≢ out_of_fuel
unfolding write_missing
write_missing_ends [] s = λ p. cc
write_missing_ends (p ∷ objects) s = rw (write_batch_lem (p ∷ objects) s) (λ q. cc)

module _ (from : MemoryStore) where
  transfer_ends :
      (root : ContentHash) (s : MemoryStore)
      → (transfer_objects memory from memory root s).0 ≢ out_of_fuel
  unfolding transfer_objects
  transfer_ends root s =
      chain_ends (lift (try_collect_stream (subtree from root))) _ s (subtree_ends from root)
        (λ objects t.
          chain_ends (reading (λ u. missing_from memory u objects)) (write_missing memory) t
            (missing_from_ends t objects) write_missing_ends)

  module _ (policy : RefConflict MemoryStore)
      (policy_ends : (s : MemoryStore) (name : String) (v old : ContentHash)
        → policy s name v old ≢ out_of_fuel) where
    decide_ends :
        (name : String) (v : ContentHash) (dst : Option ContentHash) (s : MemoryStore)
        → (decide memory from memory name policy v dst s).0 ≢ out_of_fuel
    unfolding decide
    decide_ends name v none s =
        chain_ends (transfer_objects memory from memory v) (λ _. pure true) s (transfer_ends v s)
          (λ n t p. cc)
    decide_ends name v (some old) s = elim (Bool-cases (old == v)) [
      | inl same ↦ rw same (λ p. cc)
      | inr differ ↦ rw differ (
          chain_ends (transfer_objects memory from memory v)
            (λ _. reading (λ t. policy t name v old)) s (transfer_ends v s)
            (λ n t. policy_ends t name v old))
    ]

    finish_ends :
        (name : String) (v : ContentHash) (proceed : Bool) (s : MemoryStore)
        → (finish memory from memory name v proceed s).0 ≢ out_of_fuel
    unfolding finish Memory.set_ref
    finish_ends name v true s = λ p. cc
    finish_ends name v false s = λ p. cc

    update_ref_ends :
        (name : String) (v : ContentHash) (s : MemoryStore)
        → (update_ref memory from memory name policy v s).0 ≢ out_of_fuel
    unfolding update_ref Memory.get_ref
    update_ref_ends name v s =
        chain_ends (reading (λ t. Memory.get_ref t name))
          (λ dst. decide memory from memory name policy v dst >>= finish memory from memory name v)
          s (λ p. cc)
          (λ dst t.
            chain_ends (decide memory from memory name policy v dst)
              (finish memory from memory name v) t (decide_ends name v dst t)
              (λ proceed u. finish_ends name v proceed u))

    sync_with_ends :
        (name : String) (s : MemoryStore)
        → (sync_ref memory from memory name policy s).0 ≢ out_of_fuel
    unfolding sync_ref Memory.get_ref
    sync_with_ends name s =
        chain_ends (lift (Memory.get_ref from name))
          (λ found.
            lift (ok_or (ref ("source ref not found: " <> name)) found)
            >>= update_ref memory from memory name policy)
          s (λ p. cc)
          (λ found t.
            chain_ends (lift (ok_or (ref ("source ref not found: " <> name)) found))
              (update_ref memory from memory name policy) t (some_ends found)
              (λ v u. update_ref_ends name v u))
      where
        some_ends :
            (found : Option ContentHash)
            → ok_or (ref ("source ref not found: " <> name)) found ≢ out_of_fuel
        some_ends none = λ p. cc
        some_ends (some v) = λ p. cc

  fast_forward_ends :
      (s : MemoryStore) (name : String) (v old : ContentHash)
      → fast_forward_only memory (λ t. search_fuel t.objects) s name v old ≢ out_of_fuel
  unfolding fast_forward_only Memory.get
  fast_forward_ends s name v old =
      ground (arith, common_ancestor_ends (Memory.get s) s.objects (λ h. refl) v old)

  -- Between two in-memory stores, `sync_ref` under `FastForwardOnly` always ends, with the search
  -- for the common ancestor given `search_fuel` of the destination's objects.
  pub sync_ref_ends :
      (name : String) (s : MemoryStore)
      → (sync_ref memory from memory name
          (fast_forward_only memory (λ t. search_fuel t.objects))
          s).0
        ≢ out_of_fuel
  sync_ref_ends =
      sync_with_ends (fast_forward_only memory (λ t. search_fuel t.objects)) fast_forward_ends
