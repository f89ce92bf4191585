-- ===== src/Graph/CommonEnds.antt =====
-- `common_ancestor` ends over a finite set of objects: each round pops a hash, and each push is paid
-- for by a parent that this side had not visited.
use clayers.Prelude.{
  ℕ, zero, suc, ◌+◌, ◌≤◌, ◌<◌, ◌≡◌, refl, ◌≢◌, inl, inr, Option, some, List, [], ◌∷◌, ◌++◌, arith,
  length, contains-append, nat_eq, ◌==◌, Bool-cases,
}
use clayers.Prelude.Dict.{Dict, lookup}
use clayers.Error.{ContentHash, Result, ok, out_of_fuel, ◌>>=◌, >>=-ne-out_of_fuel}
use clayers.Object.{Object}
use clayers.Store.{fetch}
use clayers.Graph.{
  Side, found, more, parents_of, get_commit_parents, expand, rounds, common_ancestor,
}
use clayers.Graph.Queue.{Within, scan-Grows, unseen, unseen-le-length}
use clayers.Graph.Rounds.{Expanded, met, met_parent, idle, pushed, expand-Expanded}

-- The parents that the objects name.
abbrev pub all_parents : Dict ContentHash Object → List ContentHash
all_parents [] = []
all_parents ((h, o) ∷ d) = parents_of o ++ all_parents d

parents-Within :
    (d : Dict ContentHash Object) (h : ContentHash) (o : Object)
    → lookup h d ≡ some o
    → Within (parents_of o) (all_parents d)
unfolding lookup
parents-Within [] h o e p m = cc
parents-Within ((k, o') ∷ d) h o e p m = ground (
  arith,
  contains-append (parents_of o') (all_parents d) p,
  λ (q : lookup h d ≡ some o). parents-Within d h o q p,
)

-- More rounds than the two sides can take together.
abbrev pub search_fuel : Dict ContentHash Object → ℕ
search_fuel d = 3 + (length (all_parents d) + length (all_parents d))

module _ (get : ContentHash → Result (Option Object)) (d : Dict ContentHash Object)
    (stored : (h : ContentHash) → get h ≡ ok (lookup h d)) where
  pub lookup_of_fetch : (h : ContentHash) (o : Object) → fetch get h ≡ ok o → lookup h d ≡ some o
  unfolding fetch
  lookup_of_fetch h o e = ground (arith, stored h)

  pub fetch-ne-out_of_fuel : (h : ContentHash) → fetch get h ≢ out_of_fuel
  unfolding fetch
  fetch-ne-out_of_fuel h = ground (arith, stored h)

  pub fetched-Within :
      (h : ContentHash) (o : Object) → fetch get h ≡ ok o → Within (parents_of o) (all_parents d)
  fetched-Within h o e = parents-Within d h o (lookup_of_fetch h o e)

  expand-ne-out_of_fuel :
      (mine queue others : List ContentHash) → expand get mine queue others ≢ out_of_fuel
  unfolding expand get_commit_parents
  expand-ne-out_of_fuel mine [] others = λ e. cc
  expand-ne-out_of_fuel mine (u ∷ rest) others = ground (arith, fetch-ne-out_of_fuel u)

  -- What is left to do on a side.
  abbrev work : List ContentHash → List ContentHash → ℕ
  work visited queue = length queue + unseen visited (all_parents d)

  abbrev waiting : List ContentHash → ℕ
  waiting [] = 0
  waiting (h ∷ queue) = 1

  work-expand :
      (mine queue others after queue' : List ContentHash)
      → Expanded get mine queue others (more after queue')
      → work after queue' + waiting queue ≤ work mine queue
  work-expand mine queue others after queue' (met c rest e m s) = cc
  work-expand mine queue others after queue' (met_parent u c rest o e f p m s) = cc
  work-expand mine queue others after queue' (idle e s) = ground (arith, e, s)
  work-expand mine queue others after queue' (pushed u rest o after' queue'' e n f p s) = ground (
    arith,
    e,
    s,
    (scan-Grows (parents_of o) mine rest others after' queue'' p).paid (all_parents d)
        (fetched-Within u o f),
  )

  after_b-ne :
      (fuel : ℕ) (va' qa' : List ContentHash) (s : Side)
      → ((vb' qb' : List ContentHash)
          → s ≡ more vb' qb'
          → rounds get fuel va' qa' vb' qb' ≢ out_of_fuel)
      → (elim s as (λ _. Result (Option ContentHash)) [
        | found c ↦ ok (some c)
        | more vb' qb' ↦ rounds get fuel va' qa' vb' qb'
      ])
        ≢ out_of_fuel
  after_b-ne fuel va' qa' (found c) h = λ e. cc
  after_b-ne fuel va' qa' (more vb' qb') h = h vb' qb' refl

  after_a-ne :
      (fuel : ℕ) (vb qb : List ContentHash) (s : Side)
      → ((va' qa' vb' qb' : List ContentHash)
          → s ≡ more va' qa'
          → Expanded get vb qb va' (more vb' qb')
          → rounds get fuel va' qa' vb' qb' ≢ out_of_fuel)
      → (elim s as (λ _. Result (Option ContentHash)) [
        | found c ↦ ok (some c)
        | more va' qa' ↦
            expand get vb qb va'
            >>= elim [ found c ↦ ok (some c) | more vb' qb' ↦ rounds get fuel va' qa' vb' qb' ]
      ])
        ≢ out_of_fuel
  after_a-ne fuel vb qb (found c) h = λ e. cc
  after_a-ne fuel vb qb (more va' qa') h =
      >>=-ne-out_of_fuel (expand get vb qb va') _ (expand-ne-out_of_fuel vb qb va') (λ s e.
        after_b-ne fuel va' qa' s (λ vb' qb' m.
          h va' qa' vb' qb' refl
            (expand-Expanded get vb qb va' (more vb' qb') (ground (arith, e, m)))))

  rounds_end :
      (fuel : ℕ) (va qa vb qb : List ContentHash)
      → work va qa + work vb qb < fuel
      → rounds get fuel va qa vb qb ≢ out_of_fuel
  unfolding rounds
  rounds_end zero va qa vb qb enough = absurd (omega arith)
  rounds_end (suc fuel) va [] vb [] enough = λ e. cc
  rounds_end (suc fuel) va [] vb (b ∷ qb) enough =
      >>=-ne-out_of_fuel (expand get va [] vb) _ (expand-ne-out_of_fuel va [] vb) (λ s e.
        after_a-ne fuel vb (b ∷ qb) s (λ va' qa' vb' qb' m y. rounds_end fuel va' qa' vb' qb' (
          omega (
            arith,
            work-expand va [] vb va' qa'
                (expand-Expanded get va [] vb (more va' qa') (ground (arith, e, m))),
            work-expand vb (b ∷ qb) va' vb' qb' y,
          ))))
  rounds_end (suc fuel) va (a ∷ qa) vb qb enough =
      >>=-ne-out_of_fuel (expand get va (a ∷ qa) vb) _ (expand-ne-out_of_fuel va (a ∷ qa) vb)
        (λ s e. after_a-ne fuel vb qb s (λ va' qa' vb' qb' m y. rounds_end fuel va' qa' vb' qb' (
          omega (
            arith,
            work-expand va (a ∷ qa) vb va' qa'
                (expand-Expanded get va (a ∷ qa) vb (more va' qa') (ground (arith, e, m))),
            work-expand vb qb va' vb' qb' y,
          ))))

  -- Over a store that holds the objects of a finite map, `common_ancestor` ends from any two hashes
  -- within `search_fuel` rounds.
  pub common_ancestor_ends :
      (a b : ContentHash) → common_ancestor get (search_fuel d) a b ≢ out_of_fuel
  unfolding common_ancestor
  common_ancestor_ends a b = elim (Bool-cases (a == b)) [
    | inl same ↦ rw same (λ e. cc)
    | inr differ ↦ rw differ (
        rounds_end (search_fuel d) (a ∷ []) (a ∷ []) (b ∷ []) (b ∷ []) (
          omega (
            arith,
            unseen-le-length (a ∷ []) (all_parents d),
            unseen-le-length (b ∷ []) (all_parents d),
          )))
  ]
