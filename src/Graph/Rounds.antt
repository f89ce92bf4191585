-- ===== src/Graph/Rounds.antt =====
-- What one round of the search in `common_ancestor` does, as a case for each way through the code.
use clayers.Prelude.{
  ℕ, suc, ◌≡◌, refl, inl, inr, true, false, Option, none, some, List, [], ◌∷◌, arith, contains,
  nat_eq, Bool-cases,
}
use clayers.Error.{ContentHash, Result, ok, ◌>>=◌, >>=-eq-ok}
use clayers.Object.{Object}
use clayers.Store.{fetch}
use clayers.Store.Subtree.Reach.{Reach}
use clayers.Graph.{Side, found, more, scan, parents_of, get_commit_parents, expand, rounds}
use clayers.Graph.Queue.{scan-found}

module _ (get : ContentHash → Result (Option Object)) where
  -- A commit's ancestors, itself among them.
  abbrev pub Ancestor : ContentHash → ContentHash → Type 0
  Ancestor = Reach parents_of get

  -- What one side's step did: it met the other side at the front of its queue, at a parent of it, it
  -- had nothing to do, or it went on with the parents.
  pub data Expanded (mine queue others : List ContentHash) (s : Side) : Type 0 where
    met :
        (c : ContentHash) (rest : List ContentHash)
        → queue ≡ c ∷ rest
        → contains others c ≡ true
        → s ≡ found c
        → Expanded mine queue others s
    met_parent :
        (u c : ContentHash) (rest : List ContentHash) (o : Object)
        → queue ≡ u ∷ rest
        → fetch get u ≡ ok o
        → contains (parents_of o) c ≡ true
        → contains others c ≡ true
        → s ≡ found c
        → Expanded mine queue others s
    idle : queue ≡ [] → s ≡ more mine [] → Expanded mine queue others s
    pushed :
        (u : ContentHash) (rest : List ContentHash) (o : Object) (after queue' : List ContentHash)
        → queue ≡ u ∷ rest
        → contains others u ≡ false
        → fetch get u ≡ ok o
        → scan (parents_of o) mine rest others ≡ more after queue'
        → s ≡ more after queue'
        → Expanded mine queue others s

  get_commit_parents-eq-ok :
      (h : ContentHash) (ps : List ContentHash)
      → get_commit_parents get h ≡ ok ps
      → (o : Object) × (fetch get h ≡ ok o) × (parents_of o ≡ ps)
  unfolding get_commit_parents
  get_commit_parents-eq-ok h ps e =
      let (o, f, g) = >>=-eq-ok (fetch get h) (λ o. ok (parents_of o)) e in (o, f, ground arith)

  scanned :
      (mine rest others : List ContentHash) (u : ContentHash) (o : Object) (s : Side)
      → contains others u ≡ false
      → fetch get u ≡ ok o
      → scan (parents_of o) mine rest others ≡ s
      → Expanded mine (u ∷ rest) others s
  scanned mine rest others u o (found c) n f e =
      let (p, q) = scan-found (parents_of o) mine rest others c e in
      met_parent u c rest o refl f p q refl
  scanned mine rest others u o (more after queue') n f e =
      pushed u rest o after queue' refl n f e refl

  pub expand-Expanded :
      (mine queue others : List ContentHash) (s : Side)
      → expand get mine queue others ≡ ok s
      → Expanded mine queue others s
  unfolding expand
  expand-Expanded mine [] others s e = idle refl (ground arith)
  expand-Expanded mine (u ∷ rest) others s e = elim (Bool-cases (contains others u)) [
    | inl m ↦ met u rest refl m (ground arith)
    | inr n ↦
        let (ps, g, k) =
          >>=-eq-ok (get_commit_parents get u) (λ ps. ok (scan ps mine rest others)) (rw n at e) in
        let (o, f, p) = get_commit_parents-eq-ok u ps g in
        scanned mine rest others u o s n f (ground (arith, p))
  ]

  -- A round that returned.
  pub data Round (fuel : ℕ) (va qa vb qb : List ContentHash) (r : Option ContentHash) : Type 0 where
    exhausted : qa ≡ [] → qb ≡ [] → r ≡ none → Round fuel va qa vb qb r
    found_a :
        (c : ContentHash) → Expanded va qa vb (found c) → r ≡ some c → Round fuel va qa vb qb r
    found_b :
        (va' qa' : List ContentHash) (c : ContentHash)
        → Expanded va qa vb (more va' qa')
        → Expanded vb qb va' (found c)
        → r ≡ some c
        → Round fuel va qa vb qb r
    on :
        (va' qa' vb' qb' : List ContentHash)
        → Expanded va qa vb (more va' qa')
        → Expanded vb qb va' (more vb' qb')
        → rounds get fuel va' qa' vb' qb' ≡ ok r
        → Round fuel va qa vb qb r

  after_b :
      (fuel : ℕ) (va qa vb qb va' qa' : List ContentHash) (r : Option ContentHash) (s : Side)
      → Expanded va qa vb (more va' qa')
      → Expanded vb qb va' s
      → (elim s as (λ _. Result (Option ContentHash)) [
        | found c ↦ ok (some c)
        | more vb' qb' ↦ rounds get fuel va' qa' vb' qb'
      ])
        ≡ ok r
      → Round fuel va qa vb qb r
  after_b fuel va qa vb qb va' qa' r (found c) a b e = found_b va' qa' c a b (ground arith)
  after_b fuel va qa vb qb va' qa' r (more vb' qb') a b e = on va' qa' vb' qb' a b e

  after_a :
      (fuel : ℕ) (va qa vb qb : List ContentHash) (r : Option ContentHash) (s : Side)
      → Expanded va qa vb s
      → (elim s as (λ _. Result (Option ContentHash)) [
        | found c ↦ ok (some c)
        | more va' qa' ↦
            expand get vb qb va'
            >>= elim [ found c ↦ ok (some c) | more vb' qb' ↦ rounds get fuel va' qa' vb' qb' ]
      ])
        ≡ ok r
      → Round fuel va qa vb qb r
  after_a fuel va qa vb qb r (found c) a e = found_a c a (ground arith)
  after_a fuel va qa vb qb r (more va' qa') a e =
      let (s, x, k) = >>=-eq-ok (expand get vb qb va') _ e in
      after_b fuel va qa vb qb va' qa' r s a (expand-Expanded vb qb va' s x) k

  pub rounds-Round :
      (fuel : ℕ) (va qa vb qb : List ContentHash) (r : Option ContentHash)
      → rounds get (suc fuel) va qa vb qb ≡ ok r
      → Round fuel va qa vb qb r
  unfolding rounds
  rounds-Round fuel va [] vb [] r e = exhausted refl refl (ground arith)
  rounds-Round fuel va [] vb (b ∷ qb) r e =
      let (s, x, k) = >>=-eq-ok (expand get va [] vb) _ e in
      after_a fuel va [] vb (b ∷ qb) r s (expand-Expanded va [] vb s x) k
  rounds-Round fuel va (a ∷ qa) vb qb r e =
      let (s, x, k) = >>=-eq-ok (expand get va (a ∷ qa) vb) _ e in
      after_a fuel va (a ∷ qa) vb qb r s (expand-Expanded va (a ∷ qa) vb s x) k
