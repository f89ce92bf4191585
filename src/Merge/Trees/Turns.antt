-- ===== src/Merge/Trees/Turns.antt =====
-- Each arm of the loop of `merge_trees` is a step.
use clayers.Prelude.{
  String, ◌≡◌, refl, none, [], ◌∷◌, contains-append, string_eq, nat_eq, option_eq, arith,
}
use clayers.Error.{ok}
use clayers.Action.{>>=-eq-ok}
use clayers.Store.Lawful.{Backend}
use clayers.Merge.Policy.{
  Resolution, resolved, divergence, MergeConflict, MergePolicy, strategy_for,
}
use clayers.Merge.Trees.{
  Documents, Sides, Progress, FileVerdict, same, ours_changed, theirs_changed, both_added,
  ours_dropped, theirs_dropped, absent, conflicting, with_resolved, with_divergence,
  divergence_entry_path, generate_divergence_doc, settle, resolve_file_conflict, record_verdict,
}
use clayers.Merge.Trees.Steps.{
  verdict_document, Step, added-Step, dropped-Step, resolved_Step, diverged_Step,
}

module _ {S : Type 0} (b : Backend S) (docs : Documents S) where
  settle-Step :
      (mc : MergeConflict) (sides : Sides) (description : String) (v : FileVerdict)
      (old new : Progress) (resolution : Resolution) (s : S)
      → verdict_document v ≡ none
      → (settle b docs mc sides description old resolution s).0 ≡ ok new
      → Step mc.path v old new
  unfolding settle
  settle-Step mc sides description v old new (resolved h) s is_none e =
      let same_new : with_resolved mc.path h old ≡ new = ground (arith, e) in
      rw (← same_new) (resolved_Step mc.path h v old is_none)
  settle-Step mc sides description v old new divergence s is_none e =
      let (div_hash, made, e', st) =
        >>=-eq-ok (generate_divergence_doc b docs mc.path mc.ancestor mc.ours mc.theirs sides) _ s
          e in
      let div_path = divergence_entry_path b docs mc.path mc.ancestor mc.ours mc.theirs in
      let same_new : with_divergence mc.path mc.ours div_path div_hash description old ≡ new =
        ground (arith, e') in
      rw (← same_new) (diverged_Step mc.path mc.ours div_path div_hash description v old is_none)

  pub record_verdict-Step :
      (policy : MergePolicy S) (sides : Sides) (path : String) (v : FileVerdict)
      (old new : Progress) (s : S)
      → (record_verdict b docs policy sides path v old s).0 ≡ ok new
      → Step path v old new
  unfolding record_verdict resolve_file_conflict
  record_verdict-Step policy sides path (same h) old new s e =
      added-Step path h (same h) old new refl (ground (arith, e)) (ground (arith, e))
        (λ p m. ground (arith, e, m))
  record_verdict-Step policy sides path (ours_changed h) old new s e =
      added-Step path h (ours_changed h) old new refl (ground (arith, e)) (ground (arith, e))
        (λ p m. ground (arith, e, m))
  record_verdict-Step policy sides path (theirs_changed h) old new s e =
      added-Step path h (theirs_changed h) old new refl (ground (arith, e)) (ground (arith, e))
        (λ p m. ground (arith, e, m))
  record_verdict-Step policy sides path (both_added h) old new s e =
      added-Step path h (both_added h) old new refl (ground (arith, e)) (ground (arith, e))
        (λ p m. ground (arith, e, contains-append old.auto_merged (path ∷ []) p, m))
  record_verdict-Step policy sides path ours_dropped old new s e =
      dropped-Step path ours_dropped old new refl (ground (arith, e)) (ground (arith, e))
        (ground (arith, e))
  record_verdict-Step policy sides path theirs_dropped old new s e =
      dropped-Step path theirs_dropped old new refl (ground (arith, e)) (ground (arith, e))
        (ground (arith, e))
  record_verdict-Step policy sides path absent old new s e =
      dropped-Step path absent old new refl (ground (arith, e)) (ground (arith, e))
        (ground (arith, e))
  record_verdict-Step policy sides path (conflicting a o t x y description) old new s e =
      let mc : MergeConflict = record {
        path = path;
        ancestor = a;
        ours = o;
        theirs = t;
        ours_ref = sides.ours_ref;
        theirs_ref = sides.theirs_ref;
        ours_deleted = x;
        theirs_deleted = y;
      } in
      let (resolution, r, e', st) =
        >>=-eq-ok (strategy_for policy path mc) (settle b docs mc sides description old) s e in
      settle-Step mc sides description (conflicting a o t x y description) old new resolution _ refl
        e'
