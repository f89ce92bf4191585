-- ===== src/Sync/FastForward.antt =====
-- `FastForwardOnly`: an update never loses history, and some updates that would not are refused.
use clayers.Prelude.{
  ℕ, suc, ◌≡◌, refl, inl, inr, String, true, Option, none, some, [], ◌∷◌, arith, distinct, nat_eq,
  option_eq, ==_iff,
}
use clayers.Error.{ContentHash, ref, Result, ok, err, out_of_fuel}
use clayers.Object.{Object, commit, CommitObject}
use clayers.Store.{fetch}
use clayers.Store.Lawful.{Backend}
use clayers.Store.Subtree.Reach.{here, step}
use clayers.Graph.{found, more, scan, get_commit_parents, expand, rounds, common_ancestor}
use clayers.Graph.Rounds.{Ancestor}
use clayers.Graph.Common.{common_ancestor_sound}
use clayers.Sync.{fast_forward_only, transfer_objects, sync_ref}
use clayers.Sync.SyncRef.{sync_ref-Updated}

module _ {S : Type 0} (b : Backend S) (fuel : S → ℕ) where
  fast_forward_found :
      (s : S) (name : String) (v old : ContentHash)
      → fast_forward_only b fuel s name v old ≡ ok true
      → common_ancestor (b.get s) (fuel s) v old ≡ ok (some old)
  unfolding fast_forward_only
  fast_forward_found s name v old e = go (common_ancestor (b.get s) (fuel s) v old) refl
    where
      go :
          (r : Result (Option ContentHash))
          → common_ancestor (b.get s) (fuel s) v old ≡ r
          → r ≡ ok (some old)
      go (ok none) p = ground (arith, p, e)
      go (ok (some c)) p = ground (arith, p, e, ==_iff c old)
      go (err x) p = ground (arith, p, e)
      go out_of_fuel p = ground (arith, p, e)

  pub fast_forward_only_sound :
      (s : S) (name : String) (v old : ContentHash)
      → fast_forward_only b fuel s name v old ≡ ok true
      → Ancestor (b.get s) v old
  fast_forward_only_sound s name v old e =
      (common_ancestor_sound (b.get s) (fuel s) v old old (fast_forward_found s name v old e)).0

module _ {R S : Type 0} (src : Backend R) (from : R) (b : Backend S) (fuel : S → ℕ) where
  -- If `sync_ref` under `FastForwardOnly` updated a ref from `old` to `v`, then `old` is an ancestor
  -- of `v` in the destination as it is once the objects are copied: no history is lost.
  pub sync_ref_fast_forward :
      (name : String) (s : S) (v old : ContentHash)
      → (sync_ref src from b name (fast_forward_only b fuel) s).0 ≡ ok true
      → src.get_ref from name ≡ ok (some v)
      → b.get_ref s name ≡ ok (some old)
      → Ancestor (b.get (transfer_objects src from b v s).1) v old
  sync_ref_fast_forward name s v old e source before =
      let u = sync_ref-Updated src from b name (fast_forward_only b fuel) s e in
      let same : u.value ≡ v = let s' = u.source in ground (arith, source, s') in
      elim u.agreed [
        | inl gone ↦ cc
        | inr (old', there, differ, agreed) ↦
            let same_old : old' ≡ old = ground (arith, before, there) in
            rw (← same, ← same_old)
              (fast_forward_only_sound b fuel (transfer_objects src from b u.value s).1 name u.value
                old' agreed)
      ]

-- A history in which the search is led past the lowest common ancestor: `new` was made from `low` and
-- from `side`, `side` from `old`, and `old` from `low`.
pub record Crossing (get : ContentHash → Result (Option Object)) (new side old low : ContentHash)
    : Type 0 where
  pub new_commit : CommitObject
  pub new_there : fetch get new ≡ ok (commit new_commit)
  pub new_parents : new_commit.parents ≡ low ∷ side ∷ []
  pub side_commit : CommitObject
  pub side_there : fetch get side ≡ ok (commit side_commit)
  pub side_parents : side_commit.parents ≡ old ∷ []
  pub old_commit : CommitObject
  pub old_there : fetch get old ≡ ok (commit old_commit)
  pub old_parents : old_commit.parents ≡ low ∷ []
  pub apart : distinct (new ∷ side ∷ old ∷ low ∷ []) ≡ true

module _ (get : ContentHash → Result (Option Object)) (new side old low : ContentHash)
    (c : Crossing get new side old low) where
  crossing-Ancestor : Ancestor get new old
  crossing-Ancestor =
      step (commit c.side_commit)
        (step (commit c.new_commit) here c.new_there
          (ground (arith, c.new_parents, ==_iff low side, ==_iff side side)))
        c.side_there (ground (arith, c.side_parents, ==_iff old old))

  first_turn :
      expand get (new ∷ []) (new ∷ []) (old ∷ [])
      ≡ ok (more (side ∷ low ∷ new ∷ []) (low ∷ side ∷ []))
  unfolding expand get_commit_parents scan
  first_turn = ground (arith, c.new_there, c.new_parents, c.apart)

  second_turn : expand get (old ∷ []) (old ∷ []) (side ∷ low ∷ new ∷ []) ≡ ok (found low)
  unfolding expand get_commit_parents scan
  second_turn = ground (arith, c.old_there, c.old_parents, c.apart, ==_iff low low)

  crossing_found : (fuel : ℕ) → common_ancestor get (suc fuel) new old ≡ ok (some low)
  unfolding common_ancestor rounds
  crossing_found fuel = ground (arith, first_turn, second_turn, c.apart)

module _ {S : Type 0} (b : Backend S) where
  -- In a history where `new` was made from `low` and from `side`, `side` from `old`, and `old` from
  -- `low`: `old` is an ancestor of `new`, the search for their common ancestor answers `low`, and
  -- `FastForwardOnly` refuses the update from `old` to `new`.
  pub fast_forward_refused :
      (s : S) (name : String) (new side old low : ContentHash) (fuel : ℕ)
      → Crossing (b.get s) new side old low
      → Ancestor (b.get s) new old
        × (common_ancestor (b.get s) (suc fuel) new old ≡ ok (some low))
        × (fast_forward_only b (λ _. suc fuel) s name new old
            ≡ err (ref "cannot fast-forward: destination is not an ancestor of source"))
  unfolding fast_forward_only
  fast_forward_refused s name new side old low fuel c =
      let found = crossing_found (b.get s) new side old low c fuel in
      (
        crossing-Ancestor (b.get s) new side old low c,
        found,
        ground (arith, found, c.apart, ==_iff low old),
      )
