-- ===== src/Conflict/Listed.antt =====
-- Detecting conflicts against listing them.
use clayers.Prelude.{
  ℕ, zero, suc, ◌≡◌, refl, sym, ap, ◌∙◌, inl, inr, Bool, true, false, ◌||◌, Option, some, List, [],
  ◌∷◌, ◌++◌, nat_eq, string_eq, option_eq, if◌then◌else◌, arith, Bool-cases,
}
use clayers.Prelude.Dict.{Dict, lookup}
use clayers.Error.{ContentHash, Result, ok, err, out_of_fuel, ok_or, not_found, ◌>>=◌, >>=-eq-ok}
use clayers.Object.{Object, element}
use clayers.Store.{ObjectStore}
use clayers.Store.Subtree.{try_collect_stream}
use clayers.Conflict.{
  ConflictInfo, is_divergence_element, conflict_at, or_else, any_child, each_child, check_object,
  check_conflicts, collect_object, collect_conflicts, root_of, has_conflicts, list_conflicts,
}

abbrev pub any_listed : List ConflictInfo → Bool
any_listed [] = false
any_listed (c ∷ cs) = true

any_listed-append :
    (xs ys : List ConflictInfo) → any_listed (xs ++ ys) ≡ (any_listed xs || any_listed ys)
any_listed-append [] ys = refl
any_listed-append (x ∷ xs) ys = refl

or_else-ok : (p q : Bool) (r : Result Bool) → r ≡ ok q → or_else (ok p) r ≡ ok (p || q)
or_else-ok true q r e = refl
or_else-ok false q r e = e

module _ (check : ContentHash → Result Bool)
    (collect : ContentHash → Result (List ConflictInfo)) where
  any_child-each_child :
      (hs : List ContentHash) (found : List ConflictInfo)
      → ((h : ContentHash) (cs : List ConflictInfo)
          → collect h ≡ ok cs
          → check h ≡ ok (any_listed cs))
      → each_child collect hs ≡ ok found
      → any_child check hs ≡ ok (any_listed found)
  any_child-each_child [] found agree e = cc
  any_child-each_child (h ∷ hs) found agree e =
      let (here, p, q) =
        >>=-eq-ok (collect h) (λ found. each_child collect hs >>= λ more. ok (found ++ more)) e in
      let (more, r, last) = >>=-eq-ok (each_child collect hs) (λ more. ok (here ++ more)) q in
      let rest = any_child-each_child hs more agree r in
      rw (agree h here p) (
        or_else-ok (any_listed here) (any_listed more) (any_child check hs) rest
        ∙ ap ok (sym (any_listed-append here more))
        ∙ ap (λ r. both r) last)
    where
      both : Result (List ConflictInfo) → Result Bool
      both (ok cs) = ok (any_listed cs)
      both (err x) = err x
      both out_of_fuel = out_of_fuel

  check_object-collect_object :
      (h : ContentHash) (o : Option Object) (cs : List ConflictInfo)
      → ((h : ContentHash) (cs : List ConflictInfo)
          → collect h ≡ ok cs
          → check h ≡ ok (any_listed cs))
      → collect_object collect h o ≡ ok cs
      → check_object check o ≡ ok (any_listed cs)
  check_object-collect_object h (some (element e)) cs agree listed =
      let (below, p, q) =
        >>=-eq-ok (each_child collect e.children)
          (λ below. ok (if is_divergence_element e then conflict_at h e ∷ below else below))
          listed in
      let rest = any_child-each_child e.children below agree p in
      elim (Bool-cases (is_divergence_element e)) [
        | inl divergent ↦ rw divergent (ground (arith, q, divergent))
        | inr plain ↦ rw plain (rest ∙ ground (arith, q, plain))
      ]
  check_object-collect_object h _ cs agree listed = ground (arith, listed)

check_conflicts-collect_conflicts :
    (n : ℕ) (objects : Dict ContentHash Object) (h : ContentHash) (cs : List ConflictInfo)
    → collect_conflicts n objects h ≡ ok cs
    → check_conflicts n objects h ≡ ok (any_listed cs)
unfolding check_conflicts collect_conflicts
check_conflicts-collect_conflicts zero objects h cs e = cc
check_conflicts-collect_conflicts (suc n) objects h cs e =
    check_object-collect_object (check_conflicts n objects) (collect_conflicts n objects) h
      (lookup h objects) cs (check_conflicts-collect_conflicts n objects) e

-- Over any store and with the same fuel: if listing a document's conflicts succeeds, detecting
-- succeeds too, and says that there are conflicts exactly when the list is not empty.
pub has_conflicts-list_conflicts :
    {S : Type 0} (b : ObjectStore S) (fuel : ℕ) (s : S) (doc : ContentHash) (cs : List ConflictInfo)
    → list_conflicts b fuel s doc ≡ ok cs
    → has_conflicts b fuel s doc ≡ ok (any_listed cs)
unfolding has_conflicts list_conflicts
has_conflicts-list_conflicts b fuel s doc cs listed =
    let (objects, p, q) = >>=-eq-ok (try_collect_stream (b.subtree s doc)) _ listed in
    let (o, r, t) = >>=-eq-ok (ok_or (not_found doc) (lookup doc objects)) _ q in
    let (root, u, v) = >>=-eq-ok (root_of o) _ t in
    rw (p, r, u) (check_conflicts-collect_conflicts fuel objects root cs v)
