-- ===== src/Sync.antt =====
-- Pull/push synchronisation (crates/clayers-repo/src/sync.rs). The source is only read; the
-- destination is the state of the actions.
pub mod Transfer
pub mod SyncRef
pub mod FastForward
pub mod Ends
use clayers.Prelude.{
  ℕ, zero, ◌+◌, String, ◌<>◌, Bool, true, false, Option, none, some, List, [], ◌∷◌, length, ◌==◌,
  nat_eq, option_eq, if◌then◌else◌,
}
use clayers.Prelude.Dict.{Dict}
use clayers.Error.{ContentHash, Error, ref, Result, ok, err, out_of_fuel, ok_or}
use clayers.Object.{Object}
use clayers.Action.{Action, pure, raise, reading, lift, ◌>>=◌, ◌>>◌}
use clayers.Store.Lawful.{Backend}
use clayers.Store.Subtree.{try_collect_stream}
use clayers.Graph.{common_ancestor}

-- `RefConflict`: the decision about a ref, over the destination store.
abbrev pub RefConflict : Type 0 → Type 0
RefConflict S = S → String → ContentHash → ContentHash → Result Bool

module _ {S : Type 0} (b : Backend S) where
  abbrev fast_forward_test : ContentHash → Option ContentHash → Result Bool
  fast_forward_test dst_hash lca =
      if lca == some dst_hash
      then ok true
      else err (ref "cannot fast-forward: destination is not an ancestor of source")

  -- `FastForwardOnly`; `fuel` is what the search for the common ancestor may take.
  unfoldable pub fast_forward_only : (S → ℕ) → RefConflict S
  fast_forward_only fuel s name src_hash dst_hash =
      elim (common_ancestor (b.get s) (fuel s) src_hash dst_hash) [
        | ok lca ↦ fast_forward_test dst_hash lca
        | err e ↦ err e
        | out_of_fuel ↦ out_of_fuel
      ]

  -- `Overwrite` and `Reject`
  unfoldable pub overwrite : RefConflict S
  overwrite s name src_hash dst_hash = ok true

  unfoldable pub reject : RefConflict S
  reject s name src_hash dst_hash =
      err (ref "destination ref already exists with a different value")

  -- The objects that the destination lacks.
  unfoldable pub missing_from :
      S → List (ContentHash × Object) → Result (List (ContentHash × Object))
  missing_from s [] = ok []
  missing_from s ((h, o) ∷ objects) = elim (b.contains s h) [
    | ok present ↦ elim (missing_from s objects) [
      | ok rest ↦ ok (if present then rest else (h, o) ∷ rest)
      | err e ↦ err e
      | out_of_fuel ↦ out_of_fuel
    ]
    | err e ↦ err e
    | out_of_fuel ↦ out_of_fuel
  ]

  -- One transaction for all of them, and none if there is nothing to copy.
  unfoldable pub write_missing : List (ContentHash × Object) → Action S ℕ
  write_missing [] = pure 0
  write_missing (p ∷ missing) = do b.write_batch (p ∷ missing); pure (length (p ∷ missing))

module _ {R S : Type 0} (src : Backend R) (from : R) (b : Backend S) where
  unfoldable pub transfer_objects : ContentHash → Action S ℕ
  transfer_objects root = do
    src_objects ← lift (try_collect_stream (src.subtree from root))
    missing ← reading (λ s. missing_from b s src_objects)
    write_missing b missing

  -- Whether to proceed, with the objects copied first so that the policy can walk them.
  unfoldable pub decide : String → RefConflict S → ContentHash → Option ContentHash → Action S Bool
  decide name on_conflict src_hash none = do transfer_objects src_hash; pure true
  decide name on_conflict src_hash (some dst_hash) =
      if dst_hash == src_hash
      then pure false
      else do transfer_objects src_hash; reading (λ s. on_conflict s name src_hash dst_hash)

  unfoldable pub finish : String → ContentHash → Bool → Action S Bool
  finish name src_hash false = pure false
  finish name src_hash true = do b.set_ref name src_hash; pure true

  -- `sync_ref` from the source's hash on.
  unfoldable pub update_ref : String → RefConflict S → ContentHash → Action S Bool
  update_ref name on_conflict src_hash = do
    dst ← reading (λ s. b.get_ref s name)
    proceed ← decide name on_conflict src_hash dst
    finish name src_hash proceed

  unfoldable pub sync_ref : String → RefConflict S → Action S Bool
  sync_ref name on_conflict = do
    found ← lift (src.get_ref from name)
    src_hash ← lift (ok_or (ref ("source ref not found: " <> name)) found)
    update_ref name on_conflict src_hash

  -- The loop over the source's refs, with the number of refs updated so far.
  unfoldable pub sync_each : List (String × ContentHash) → ℕ → RefConflict S → Action S ℕ
  sync_each [] count on_conflict = pure count
  sync_each ((name, h) ∷ refs) count on_conflict = do
    updated ← sync_ref name on_conflict
    sync_each refs (if updated then count + 1 else count) on_conflict

  unfoldable pub sync_refs : String → RefConflict S → Action S ℕ
  sync_refs prefix on_conflict = do
    refs ← lift (src.list_refs from prefix)
    sync_each refs 0 on_conflict
